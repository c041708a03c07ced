-- ===== src/Server/Concurrent/Creation/Registry.antt =====
-- No request takes a user off the registry.
use carqna_agent.Common.{ℕ, ◌≡◌, ◌∙◌, true, Option, arith, Bool-cases, inl, inr, any}
use carqna_agent.PyText.{Text}
use carqna_agent.Database.{Db, has_user, update_last_seen, upsert_user, update_access_ts}
use carqna_agent.Database.Invariant.{registry-insert_session}
use carqna_agent.Sessions.Creation.{is_registered}
use carqna_agent.Tracking.Laws.{registered-update_last_seen}
use carqna_agent.Server.Concurrent.Turns.{KeepsStatements}

registered-upsert_any :
    (now : ℕ) (u v : Text) (email name : Option Text) (db : Db)
    → is_registered v db ≡ true
    → is_registered v (upsert_user now u email name db) ≡ true
unfolding upsert_user
registered-upsert_any now u v email name db h =
    elim (Bool-cases (any (has_user u) db.user_registry)) [
      | inl e ↦ rw e (unfold update_last_seen in registered-update_last_seen now u v db ∙ h)
      | inr e ↦ rw e (ground arith)
    ]

-- Nobody is ever taken off the registry.
pub registered-KeepsStatements :
    (now : ℕ) (u v : Text) → KeepsStatements now u (λ db. is_registered v db ≡ true)
unfolding update_access_ts
registered-KeepsStatements now u v = record {
  same = λ db db' s h. rw (s.registry) h;
  seeing = λ db h. registered-update_last_seen now u v db ∙ h;
  storing = λ email name db h. registered-upsert_any now u v email name db h;
  inserting = λ name rid db good h. rw (registry-insert_session now name rid db) h;
  stamping = λ z db h. h;
}
