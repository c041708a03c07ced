-- ===== src/Server/Concurrent/Names.antt =====
-- The bounds of session names under concurrent requests. user_sessions.session_name is a VARCHAR(256):
-- the model's INSERT has no error for a longer value, since none is ever stored.
use carqna_agent.Common.{
  ℕ, ℤ, ap, ◌≤◌, ◌<◌, Option, List, ◌∷◌, [], arith, ◌≡◌, false, All, All-map, every_one, length,
  Bool-cases, inl, inr, any,
}
use carqna_agent.PyText.{Text}
use carqna_agent.Errors.{Result}
use carqna_agent.Database.{
  StoredSession, Db, has_user, taken, update_last_seen, upsert_user, insert_session,
  update_access_ts,
}
use carqna_agent.Database.Invariant.{touched, touched_keeps}
use carqna_agent.Database.Pool.{IsTransactional}
use carqna_agent.Sessions.Creation.{is_bad_name}
use carqna_agent.Tracking.{Profile}
use carqna_agent.Server.Concurrent.{Service, Turn, run}
use carqna_agent.Server.Concurrent.Turns.{KeepsStatements, Keeps_of_statements}
use carqna_agent.Server.Concurrent.Safety.{user_of, run_keeps}

-- A name of 1 to 256 characters.
abbrev pub IsNamed : StoredSession → Type 0
IsNamed s = (0 < length s.session_name) × (length s.session_name ≤ 256)

abbrev pub AllNamed : Db → Type 0
AllNamed db = All IsNamed db.user_sessions

good_name : (name : Text) → is_bad_name name ≡ false → (0 < length name) × (length name ≤ 256)
good_name [] h = cc
good_name (c ∷ name) h = ground arith

AllNamed-upsert_user :
    (now : ℕ) (u : Text) (email name : Option Text) (db : Db)
    → AllNamed db
    → AllNamed (upsert_user now u email name db)
unfolding upsert_user
AllNamed-upsert_user now u email name db h = elim (Bool-cases (any (has_user u) db.user_registry)) [
  | inl e ↦ rw e h
  | inr e ↦ rw e h
]

AllNamed-insert_session :
    (now : ℕ) (name : Text) (rid : ℕ) (db : Db)
    → is_bad_name name ≡ false
    → AllNamed db
    → AllNamed (insert_session now name rid db).1
unfolding insert_session
AllNamed-insert_session now name rid db good h =
    elim (Bool-cases (any (taken rid name) db.user_sessions)) [
      | inl e ↦ rw e h
      | inr e ↦ rw e (good_name name good, h)
    ]

IsNamed-touched :
    (now : ℕ) (u : Text) (z : ℤ) (db : Db) (s : StoredSession)
    → IsNamed s
    → IsNamed (touched now u z db.user_registry s)
IsNamed-touched now u z db s h =
    let same = (touched_keeps now u z db.user_registry s).1 in
    rw (ap (λ (p : ℕ × Text). p.1) same) h

AllNamed-KeepsStatements : (now : ℕ) (u : Text) → KeepsStatements now u AllNamed
unfolding update_last_seen update_access_ts
AllNamed-KeepsStatements now u = record {
  same = λ db db' s h. rw s.sessions h;
  seeing = λ db h. h;
  storing = AllNamed-upsert_user now u;
  inserting = AllNamed-insert_session now;
  stamping = λ z db h.
      All-map IsNamed (touched now u z db.user_registry) db.user_sessions
        (IsNamed-touched now u z db) h;
}

-- However the turns of any requests are interleaved, and whichever blocks fail in a transactional
-- pool, every stored name has 1 to 256 characters if every name had so before.
pub run-AllNamed :
    (http_get : Text → Text → Result Profile) (domain : Option Text) (ts : List Turn) (s : Service)
    → All (λ t. IsTransactional t.pool) ts
    → AllNamed s.database
    → AllNamed (run http_get domain ts s).database
run-AllNamed http_get domain ts s t = run_keeps http_get domain AllNamed ts s (
    every_one _ _ ts t (λ turn h.
      Keeps_of_statements AllNamed (AllNamed-KeepsStatements turn.now (user_of s turn)) turn.pool
        h))
