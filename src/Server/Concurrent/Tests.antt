-- ===== src/Server/Concurrent/Tests.antt =====
-- Two first requests of one user at once, and what the theorems say of them.
use carqna_agent.Common.{
  ℕ, ◌≡◌, ◌≢◌, refl, Option, some, List, [], ◌∷◌, arith, ◌==◌, All, if◌then◌else◌,
}
use carqna_agent.PyText.{Text, codes, text_eq}
use carqna_agent.Errors.{returned, raised, http_exception}
use carqna_agent.Database.{update_last_seen, upsert_user, insert_session, insert_sessions}
use carqna_agent.Database.Pool.{IsTransactional, direct, direct-IsTransactional}
use carqna_agent.Database.Sample.{carol, two_users, two_users-IsConsistent}
use carqna_agent.Sessions.{SessionRow, create_session}
use carqna_agent.Tracking.{fetch_userinfo}
use carqna_agent.Auth.Sample.{tenant, context_of, profile_get}
use carqna_agent.Server.Routes.{new_session, session}
use carqna_agent.Server.Concurrent.{
  arrived, answered, Service, Turn, look_up, finish, proceed, take_turn, run,
}
use carqna_agent.Server.Concurrent.Names.{AllNamed, run-AllNamed}
use carqna_agent.Server.Concurrent.Once.{created_once}

-- Carol, whom nobody has seen, asks for two sessions at once.
abbrev service : Text → Service
service second = record {
  requests = λ k. record {
    context = context_of carol;
    route = new_session (if k == 0 then codes "work" else second);
    phase = arrived;
  };
  database = two_users;
}

abbrev turn : ℕ → Turn
turn n = record { request = n; pool = direct; now = 9 }

-- Both find no registry row, both fetch the profile, and one INSERT meets the other's row.
abbrev schedule : List Turn
schedule = turn 0 ∷ turn 1 ∷ turn 1 ∷ turn 0 ∷ turn 0 ∷ turn 1 ∷ turn 1 ∷ turn 0 ∷ []

abbrev row : ℕ → Text → SessionRow
row id name = record { id = id; session_name = name; access_ts = 9 }

work_got :
    ((run profile_get tenant schedule (service (codes "trip"))).requests 0).phase
    ≡ answered (returned (session (row 3 (codes "work"))))
unfolding run take_turn proceed look_up finish update_last_seen upsert_user fetch_userinfo
    create_session insert_sessions insert_session text_eq
work_got = refl

trip_got :
    ((run profile_get tenant schedule (service (codes "trip"))).requests 1).phase
    ≡ answered (returned (session (row 2 (codes "trip"))))
unfolding run take_turn proceed look_up finish update_last_seen upsert_user fetch_userinfo
    create_session insert_sessions insert_session text_eq
trip_got = refl

-- With one name, the second INSERT violates the unique index.
work_twice :
    ((run profile_get tenant schedule (service (codes "work"))).requests 0).phase
    ≡ answered (raised (http_exception 409 (codes "A session with that name already exists")))
unfolding run take_turn proceed look_up finish update_last_seen upsert_user fetch_userinfo
    create_session insert_sessions insert_session text_eq
work_twice = refl

All-IsTransactional : All (λ t. IsTransactional t.pool) schedule
All-IsTransactional = (t, (t, (t, (t, (t, (t, (t, (t, tt))))))))
  where
    t : IsTransactional direct
    t = direct-IsTransactional

created_once_example : codes "work" ≢ codes "trip"
created_once_example =
    created_once profile_get tenant schedule (service (codes "trip")) All-IsTransactional
      two_users-IsConsistent (λ k. refl) 0 1 (row 3 (codes "work")) (row 2 (codes "trip"))
      (λ e. omega arith) refl work_got trip_got

abbrev carols_profile : Option Text × Option Text
carols_profile = (some (codes "email"), some (codes "name"))

run-AllNamed_example : AllNamed (run profile_get tenant schedule (service (codes "work"))).database
run-AllNamed_example =
    run-AllNamed profile_get tenant schedule (service (codes "work")) All-IsTransactional
      (omega arith)
