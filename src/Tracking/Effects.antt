-- ===== src/Tracking/Effects.antt =====
-- What `track_user` leaves alone: the sessions that anybody sees, and the other users' rows.
use carqna_agent.Common.{
  ℕ, ◌<◌, ◌≡◌, refl, ap, ◌∙◌, true, Option, List, [], ◌∷◌, map, arith, ◌==◌, ==_iff, not, filter,
  any, any-map, filter_same, All, every_one, Bool-cases, inl, inr,
}
use mathlib.Core.Path.{subst}
use carqna_agent.PyText.{Text}
use carqna_agent.PyText.Laws.{text_eq_refl}
use carqna_agent.Errors.{Result, returned, raised}
use carqna_agent.Database.{
  UserRow, StoredSession, Db, has_user, seen, update_last_seen, upsert_user, joins, new_user,
}
use carqna_agent.Database.Invariant.{IsConsistent, Refers, update_last_seen-IsConsistent}
use carqna_agent.Database.Pool.{Pool, IsTransactional, connection_elim}
use carqna_agent.Sessions.Visible.{owns, visible}
use carqna_agent.Tracking.{Profile, fetch_userinfo, track_new, track_block, track_user}

-- The registry without the user's own row.
abbrev pub others : Text → Db → List UserRow
others u db = filter (λ r. not (has_user u r)) db.user_registry

-- The sessions of everybody, and the rows of everybody else, are the same.
pub record SameForOthers (u : Text) (db db' : Db) : Type 0 where
  pub sessions : (v : Text) → visible v db' ≡ visible v db
  pub rows : others u db' ≡ others u db

SameForOthers-trans :
    {u : Text} {a b c : Db} → SameForOthers u a b → SameForOthers u b c → SameForOthers u a c
SameForOthers-trans h k = record {
  sessions = λ v. k.sessions v ∙ h.sessions v;
  rows = k.rows ∙ h.rows;
}

module _ (now : ℕ) (u : Text) where
  joins-seen : (v : Text) (s : StoredSession) (r : UserRow) → joins v s (seen now u r) ≡ joins v s r
  joins-seen v s r = ground arith

  visible-seen :
      (v : Text) (rs : List UserRow) (ss : List StoredSession)
      → filter (owns v (map (seen now u) rs)) ss ≡ filter (owns v rs) ss
  visible-seen v rs [] = refl
  visible-seen v rs (s ∷ ss) =
      rw (any-map (joins v s) (seen now u) rs (joins-seen v s), visible-seen v rs ss) refl

  others-seen :
      (rs : List UserRow)
      → filter (λ r. not (has_user u r)) (map (seen now u) rs) ≡ filter (λ r. not (has_user u r)) rs
  others-seen [] = refl
  others-seen (r ∷ rs) = ground (arith, others-seen rs)

  pub update_last_seen-SameForOthers : (db : Db) → SameForOthers u db (update_last_seen now u db).1
  unfolding update_last_seen
  update_last_seen-SameForOthers db = record {
    sessions = λ v. visible-seen v db.user_registry db.user_sessions;
    rows = others-seen db.user_registry;
  }

  refers_below :
      (n k : ℕ) (rs : List UserRow)
      → any (λ r. r.id == k) rs ≡ true
      → All (λ r. r.id < n) rs
      → k < n
  refers_below n k [] h b = cc
  refers_below n k (r ∷ rs) h (b, bs) = elim (Bool-cases (r.id == k)) [
    | inl e ↦ ground (arith, (==_iff r.id k).0 e)
    | inr e ↦ refers_below n k rs (rw e at h) bs
  ]

  visible-new_row :
      (v : Text) (r : UserRow) (rs : List UserRow) (ss : List StoredSession)
      → All (λ q. q.id < r.id) rs
      → All (Refers rs) ss
      → filter (owns v (r ∷ rs)) ss ≡ filter (owns v rs) ss
  visible-new_row v r rs ss b h = filter_same (owns v (r ∷ rs)) (owns v rs) ss (
      every_one _ _ ss h λ s known.
        let low : s.user_registry_id < r.id = refers_below r.id s.user_registry_id rs known b in
        ground arith)

  pub upsert_user-SameForOthers :
      (email name : Option Text) {db : Db}
      → IsConsistent db
      → SameForOthers u db (upsert_user now u email name db)
  unfolding upsert_user
  upsert_user-SameForOthers email name {db} c =
      elim (Bool-cases (any (has_user u) db.user_registry)) [
        | inl e ↦ rw e (record {
          sessions = λ v. visible-seen v db.user_registry db.user_sessions;
          rows = others-seen db.user_registry;
        })
        | inr e ↦ rw e (record {
          sessions = λ v.
              visible-new_row v (new_user now u email name db.next_user) db.user_registry
                db.user_sessions c.users_below c.references;
          rows = rw (text_eq_refl u) refl;
        })
      ]

  module _ (http_get : Text → Text → Result Profile) (domain : Option Text) (token : Text) where
    track_new-SameForOthers :
        (r : Result (Option Text × Option Text)) {db : Db}
        → IsConsistent db
        → SameForOthers u db (track_new http_get domain now u r db).1
    track_new-SameForOthers (returned (email, name)) c = upsert_user-SameForOthers email name c
    track_new-SameForOthers (raised e) c = record { sessions = λ v. refl; rows = refl }

    track_block-SameForOthers :
        {db : Db}
        → IsConsistent db
        → SameForOthers u db (track_block http_get domain now u token db).1
    track_block-SameForOthers {db} c =
        let seen_first = update_last_seen-SameForOthers db in
        elim (Bool-cases ((update_last_seen now u db).0 == 0)) [
          | inl e ↦ rw e (
              SameForOthers-trans seen_first (
                track_new-SameForOthers (fetch_userinfo http_get domain token)
                  (update_last_seen-IsConsistent now u c)))
          | inr e ↦ rw e seen_first
        ]

    -- Behind a transactional pool, on tables that satisfy their constraints, whatever the
    -- `/userinfo` endpoint answers: tracking a user changes no session that anybody sees and no
    -- other user's row.
    pub track_user-SameForOthers :
        (pool : Pool) (db : Db)
        → IsTransactional pool
        → IsConsistent db
        → SameForOthers u db (track_user http_get domain pool now u token db).1
    unfolding track_user
    track_user-SameForOthers pool db t c =
        connection_elim t (Unit {0}) (track_block http_get domain now u token) db
          (λ r d. SameForOthers u db d)
          (λ x d s. record {
            sessions = λ v. rw (s.registry, s.sessions) refl;
            rows = rw (s.registry) refl;
          })
          (λ a d q. subst (SameForOthers u db) (ap (λ x. x.1) q) (track_block-SameForOthers c))
