-- ===== src/Sessions/Tests.antt =====
-- The session operations on the sample tables, behind the pool that runs each block at once.
use carqna_agent.Common.{◌≡◌, refl, some, [], ◌∷◌}
use mathlib.Core.List.{flat_map}
use carqna_agent.PyText.{codes, text_eq}
use carqna_agent.Errors.{returned, raised, unique_violation}
use carqna_agent.Database.{joined, sort_desc, insert_session, insert_sessions}
use carqna_agent.Database.Pool.{direct, direct-IsTransactional, direct-IsUp}
use carqna_agent.Database.Sample.{alice, bob, trip, two_users, two_users-IsConsistent}
use carqna_agent.Sessions.{session_row, list_sessions, create_session}
use carqna_agent.Sessions.Creation.{Meets, create_session_lem}

list_alice : list_sessions direct alice two_users ≡ (returned (session_row trip ∷ []), two_users)
unfolding list_sessions joined sort_desc text_eq flat_map
list_alice = refl

create_again : (create_session direct 9 alice (codes "trip") two_users).0 ≡ raised unique_violation
unfolding create_session insert_sessions insert_session text_eq
create_again = refl

create_for_bob :
    (create_session direct 9 bob (codes "trip") two_users).0
    ≡ returned (some (record { id = 2; session_name = codes "trip"; access_ts = 9 }))
unfolding create_session insert_sessions insert_session text_eq
create_for_bob = refl

create_session_lem_example :
    Meets 9 alice
      (codes "trip")
      two_users
      (create_session direct 9 alice (codes "trip") two_users).0
      (create_session direct 9 alice (codes "trip") two_users).1
create_session_lem_example =
    create_session_lem direct 9 alice (codes "trip") two_users direct-IsTransactional direct-IsUp
      two_users-IsConsistent
