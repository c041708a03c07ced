-- ===== src/Sessions/Consistency.antt =====
-- The session operations keep the constraints of the tables.
use carqna_agent.Common.{
  ℕ, ℤ, ap, Option, ◌==◌, ==_refl, filter, any-true_self, All-filter, Bool-cases, inl, inr, not,
  ◌||◌, ltb, length, nonempty,
}
use mathlib.Core.Path.{subst}
use carqna_agent.PyText.{Text}
use carqna_agent.Database.{StoredSession, Db, has_user}
use carqna_agent.Database.Invariant.{
  IsConsistent, insert_sessions-IsConsistent, update_access_ts-IsConsistent,
}
use carqna_agent.Database.Pool.{Pool, IsTransactional, connection-IsConsistent}
use carqna_agent.Sessions.Block.{create_block_keeps}
use carqna_agent.Sessions.{create_block, touch_block, create_session, touch_session}

-- Behind a transactional pool, creating a session keeps the constraints of the tables, whatever it
-- answers.
pub create_session-IsConsistent :
    (pool : Pool) (now : ℕ) (u name : Text) (db : Db)
    → IsTransactional pool
    → IsConsistent db
    → IsConsistent (create_session pool now u name db).1
unfolding create_session
create_session-IsConsistent pool now u name db t c =
    elim (Bool-cases (not (nonempty name) || ltb 256 (length name))) [
      | inl bad ↦ rw bad c
      | inr good ↦ rw good (
          connection-IsConsistent t (Option StoredSession) (create_block now u name) db c λ a d q.
            subst IsConsistent (ap (λ x. x.1) q) (
              create_block_keeps IsConsistent now u name db c (
                insert_sessions-IsConsistent now name (filter (has_user u) db.user_registry) db
                  (All-filter _ (has_user u) db.user_registry
                    (any-true_self (λ r q. q.id == r.id) (λ r. ==_refl r.id) db.user_registry))
                  c)))
    ]

-- Touching a session keeps the constraints.
pub touch_session-IsConsistent :
    (pool : Pool) (now : ℕ) (u : Text) (sid : ℤ) (db : Db)
    → IsTransactional pool
    → IsConsistent db
    → IsConsistent (touch_session pool now u sid db).1
unfolding touch_session
touch_session-IsConsistent pool now u sid db t c =
    connection-IsConsistent t (Unit {0}) (touch_block now u sid) db c
      λ a d q. subst IsConsistent (ap (λ x. x.1) q) (update_access_ts-IsConsistent now u sid c)
