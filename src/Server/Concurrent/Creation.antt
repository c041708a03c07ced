-- ===== src/Server/Concurrent/Creation.antt =====
-- POST /sessions among other requests.
mod Registry
use carqna_agent.Common.{ℕ, ◌≡◌, true, false, Option, arith, ◌==◌, ◌⊎◌}
use carqna_agent.PyText.{Text, codes}
use carqna_agent.Errors.{Result, returned, raised, http_exception}
use carqna_agent.Database.{Db, has_user, upsert_user, update_access_ts}
use carqna_agent.Database.Invariant.{IsConsistent, registry-insert_session}
use carqna_agent.Database.Pool.{Pool, IsTransactional, IsUp}
use carqna_agent.Sessions.{SessionRow, nul_error}
use carqna_agent.Sessions.Creation.{is_bad_name, is_unstorable, is_registered}
use carqna_agent.Tracking.{Profile, fetch_userinfo}
use carqna_agent.Server.Routes.{new_session, Response, session}
use carqna_agent.Server.Concurrent.{
  Phase, arrived, unseen, profiled, tracked, answered, Service, Turn,
}
use carqna_agent.Server.Concurrent.Turns.{KeepsStatements}

-- The answers of POST /sessions to a registered user: for a name of a wrong length, for a text that
-- PostgreSQL cannot store, whose error is not caught, and for any other.
abbrev pub IsCreationAnswer : Text → Text → Result Response → Type 0
IsCreationAnswer u name r =
    ((is_bad_name name ≡ true)
      × (r
          ≡ raised (
              http_exception 400
                (codes "session_name must be non-empty and at most 256 characters"))))
    ⊎ ((is_bad_name name ≡ false) × ((is_unstorable u name ≡ true) × (r ≡ raised nul_error)))
    ⊎ ((is_bad_name name ≡ false)
        × (is_unstorable u name ≡ false)
        × (r ≡ raised (http_exception 409 (codes "A session with that name already exists"))))
    ⊎ ((is_bad_name name ≡ false)
        × (is_unstorable u name ≡ false)
        × ((row : SessionRow) × (r ≡ returned (session row)) × (row.session_name ≡ name)))

-- What is known of a request to make a session, by its phase.
abbrev Fits : Text → Text → Phase → Db → Type 0
Fits u name arrived db = Unit
Fits u name unseen db = Unit
Fits u name (profiled email full_name) db = Unit
Fits u name tracked db = is_registered u db ≡ true
Fits u name (answered r) db = IsCreationAnswer u name r

-- The pool of a turn is transactional, and up in the turns of the request `n`.
abbrev pub IsServed : ℕ → Turn → Type 1
IsServed n t = IsTransactional t.pool × ((n == t.request) ≡ true → IsUp t.pool)

module _ (http_get : Text → Text → Result Profile) (domain : Option Text) (n : ℕ) (name : Text)
    (profile : Option Text × Option Text) where
  abbrev Stands : Service → Type 0
  Stands s =
      ((s.requests n).route ≡ new_session name)
      × (fetch_userinfo http_get domain (s.requests n).context.access_token ≡ returned profile)
      × IsConsistent s.database
      × Fits (s.requests n).context.user_id name (s.requests n).phase s.database
