-- ===== src/Server/Tests.antt =====
-- Whole requests on the sample tables.
use mathlib.Core.List.{Perm}
use carqna_agent.Common.{pos, ◌≡◌, ◌≢◌, refl, sym, ◌∙◌, [], ◌∷◌, ◌++◌, none, some, List}
use carqna_agent.PyText.{codes, strip}
use carqna_agent.PyText.Int.{parse_int, digits_from, decimal}
use carqna_agent.Errors.{returned}
use carqna_agent.Database.{Db}
use carqna_agent.Database.Pool.{direct, direct-IsTransactional, direct-IsUp}
use carqna_agent.Database.Sample.{alice, bob, two_users, two_users-IsConsistent, bob-ne-alice}
use carqna_agent.Sessions.{SessionRow}
use carqna_agent.Sessions.Visible.{visible}
use carqna_agent.Sessions.Creation.{mine}
use carqna_agent.Sessions.Listing.{IsDescending}
use carqna_agent.Auth.Middleware.{World}
use carqna_agent.Auth.Sample.{
  plain, tenant, api, header_of_bob, context_of, profile_get, subject_of_bob,
}
use carqna_agent.Server.Routes.{
  new_session, stream, session_list, thread_key, langgraph_agent_endpoint, list_sessions_endpoint,
  scope_of, serve,
}
use carqna_agent.Server.Threads.{thread_key_injective}
use carqna_agent.Server.Padding.{padded_thread_id}
use carqna_agent.Server.Isolation.{tracked, serve-visible_ne}
use carqna_agent.Server.Answers.{
  chat_answer, langgraph_agent_endpoint_lem, list_sessions_endpoint_lem, chat_threads_separate,
}

abbrev ready : World Db
ready = record { context = none; jwks = none; state = two_users }

int_seven : parse_int (codes " +0_07 ") ≡ some (pos 7)
unfolding parse_int strip digits_from decimal
int_seven = refl

int_word : parse_int (codes "7a") ≡ none
unfolding parse_int strip digits_from decimal
int_word = refl

int_one : parse_int (codes "1") ≡ some (pos 1)
unfolding parse_int strip digits_from decimal
int_one = refl

serve-visible_ne_example :
    visible alice
      (serve profile_get plain tenant api direct 9
        (new_session (codes "work"))
        header_of_bob
        ready).1.state
    ≡ visible alice two_users
serve-visible_ne_example =
    serve-visible_ne profile_get plain tenant api direct 9 (new_session (codes "work"))
      header_of_bob ready alice direct-IsTransactional two_users-IsConsistent tt
      (λ ctx genuine same. bob-ne-alice (
        sym (subject_of_bob (scope_of (new_session (codes "work")) header_of_bob) refl ctx genuine)
        ∙ same))

langgraph_agent_endpoint_lem_example :
    (langgraph_agent_endpoint profile_get tenant direct 9
      (some (context_of bob))
      (codes "1")
      two_users).0
    ≡ chat_answer bob (codes "1") (parse_int (codes "1"))
langgraph_agent_endpoint_lem_example =
    langgraph_agent_endpoint_lem profile_get tenant direct 9 (context_of bob) (codes "1") two_users

streamed_bob :
    (langgraph_agent_endpoint profile_get tenant direct 9
      (some (context_of bob))
      (codes "1")
      two_users).0
    ≡ returned (stream (thread_key bob (codes "1")))
unfolding thread_key
streamed_bob =
    langgraph_agent_endpoint_lem profile_get tenant direct 9 (context_of bob) (codes "1") two_users
    ∙ (rw int_one)

chat_threads_separate_example : (bob ≡ bob) × (codes "1" ≡ codes "1")
chat_threads_separate_example =
    chat_threads_separate profile_get profile_get tenant tenant direct direct 9 9 (context_of bob)
      (context_of bob) (codes "1") (codes "1") (thread_key bob (codes "1")) two_users two_users
      streamed_bob streamed_bob

one_user_for_one_key : (bob ≡ bob) × (codes "1" ≡ codes "1")
one_user_for_one_key =
    thread_key_injective bob bob (codes "1") (codes "1") (pos 1) (pos 1) int_one int_one refl

padded_thread_id_example :
    ((langgraph_agent_endpoint profile_get tenant direct 9
        (some (context_of bob))
        (codes "1")
        two_users).0
      ≡ returned (stream (bob ++ (codes ":" ++ codes "1"))))
    × ((langgraph_agent_endpoint profile_get tenant direct 9
          (some (context_of bob))
          (codes " 1")
          two_users).0
        ≡ returned (stream (bob ++ (codes ":" ++ codes " 1"))))
    × ((langgraph_agent_endpoint profile_get tenant direct 9
          (some (context_of bob))
          (codes " 1")
          two_users).1
        ≡ (langgraph_agent_endpoint profile_get tenant direct 9
            (some (context_of bob))
            (codes "1")
            two_users).1)
    × (bob ++ (codes ":" ++ codes " 1") ≢ bob ++ (codes ":" ++ codes "1"))
padded_thread_id_example =
    padded_thread_id profile_get tenant direct 9 (context_of bob) (codes "1") (pos 1) two_users
      int_one

-- `int` takes no separator for white space.
int_separator : parse_int (28 ∷ 55 ∷ []) ≡ none
unfolding parse_int strip digits_from decimal
int_separator = refl

abbrev bob_after : Db
bob_after = tracked profile_get tenant direct 9 (context_of bob) two_users

list_sessions_endpoint_lem_example :
    (rows : List SessionRow) × ((list_sessions_endpoint profile_get tenant direct 9
        (some (context_of bob))
        two_users).0
      ≡ returned (session_list rows))
    × Perm rows (mine bob two_users)
    × IsDescending rows
list_sessions_endpoint_lem_example =
    list_sessions_endpoint_lem profile_get tenant direct 9 (context_of bob) two_users
      direct-IsTransactional direct-IsUp two_users-IsConsistent
