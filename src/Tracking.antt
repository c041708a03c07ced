-- ===== src/Tracking.antt =====
-- src/agent/user_tracking.py: the registry of the users that have been seen.
pub mod Laws
mod Tests
pub mod Effects
use carqna_agent.Common.{ℕ, Option, none, some, ◌++◌, ◌==◌, if◌then◌else◌, nonempty}
use carqna_agent.PyText.{Text, codes}
use carqna_agent.Errors.{Result, returned, raised, runtime_error, ◌>>=◌}
use carqna_agent.Database.{Db, update_last_seen, upsert_user}
use carqna_agent.Database.Pool.{Pool}
use carqna_agent.Sessions.{log_only}

-- The parsed JSON object of a `/userinfo` reply, read by `profile.get`.
abbrev pub Profile : Type 0
Profile = Text → Option Text

-- `domain` is the environment's AUTH0_DOMAIN. `http_get` is httpx: the URL and the Authorization
-- header to the parsed body, or what `get`, `raise_for_status` or `json` raises.
module _ (http_get : Text → Text → Result Profile) (domain : Option Text) where
  unfoldable pub fetch_userinfo : Text → Result (Option Text × Option Text)
  fetch_userinfo access_token = elim domain [
    | none ↦ raised (runtime_error (codes "AUTH0_DOMAIN is not set"))
    | some d ↦
        if nonempty d
        then (do
          profile ←
              http_get (codes "https://" ++ d ++ codes "/userinfo")
                (codes "Bearer " ++ access_token)
          returned (profile (codes "email"), profile (codes "name")))
        else raised (runtime_error (codes "AUTH0_DOMAIN is not set"))
  ]

  -- The block under the connection's `async with`.
  abbrev track_new : ℕ → Text → Result (Option Text × Option Text) → Db → Result (Unit {0}) × Db
  track_new now user_id (returned (email, name)) db =
      (returned tt, upsert_user now user_id email name db)
  track_new now user_id (raised e) db = (raised e, db)

  abbrev pub track_block : ℕ → Text → Text → Db → Result (Unit {0}) × Db
  track_block now user_id access_token db =
      let (rowcount, db') = update_last_seen now user_id db in
      if rowcount == 0
      then track_new now user_id (fetch_userinfo access_token) db'
      else (returned tt, db')

  unfoldable pub track_user : Pool → ℕ → Text → Text → Db → Result (Unit {0}) × Db
  track_user pool now user_id access_token db =
      let (done, db') = pool.connection (Unit {0}) (track_block now user_id access_token) db in
      (log_only done, db')
