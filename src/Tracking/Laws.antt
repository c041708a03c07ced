-- ===== src/Tracking/Laws.antt =====
-- `track_user`: it never fails a request, registers the user, and touches nothing else.
use mathlib.Core.Path.{subst}
use carqna_agent.Common.{
  ℕ, ◌≡◌, refl, ap, sym, ◌∙◌, Bool, true, false, Option, List, [], ◌∷◌, arith, ◌==◌, not, filter,
  any, any-map, Bool-cases, inl, inr, length, nonempty,
}
use carqna_agent.PyText.{Text}
use carqna_agent.PyText.Laws.{text_eq_refl}
use carqna_agent.Errors.{Result, returned, raised}
use carqna_agent.Database.{UserRow, Db, has_user, seen, update_last_seen, upsert_user}
use carqna_agent.Database.Invariant.{
  IsConsistent, update_last_seen-IsConsistent, upsert_user-IsConsistent,
}
use carqna_agent.Database.Pool.{
  Pool, IsTransactional, IsUp, connection-IsConsistent, connection_of_IsUp,
}
use carqna_agent.Sessions.{log_only}
use carqna_agent.Sessions.Creation.{is_registered}
use carqna_agent.Tracking.{Profile, fetch_userinfo, track_new, track_block, track_user}

pub is_ok {ℓ} : {A : Type ℓ} → Result A → Bool
is_ok (returned a) = true
is_ok (raised e) = false

pub has_user-seen : (now : ℕ) (u v : Text) (r : UserRow) → has_user v (seen now u r) ≡ has_user v r
has_user-seen now u v r = ground arith

pub nonempty-filter-any {ℓ} :
    {A : Type ℓ} (p : A → Bool) (xs : List A) → nonempty (filter p xs) ≡ any p xs
nonempty-filter-any p [] = refl
nonempty-filter-any p (x ∷ xs) = ground (arith, nonempty-filter-any p xs)

no_rows_iff {ℓ} : {A : Type ℓ} (xs : List A) → (length xs == 0) ≡ not (nonempty xs)
no_rows_iff [] = refl
no_rows_iff (x ∷ xs) = ground arith

pub registered-update_last_seen :
    (now : ℕ) (u v : Text) (db : Db)
    → is_registered v (update_last_seen now u db).1 ≡ is_registered v db
unfolding update_last_seen
registered-update_last_seen now u v db =
    rw
      (
        nonempty-filter-any (has_user v),
        any-map (has_user v) (seen now u) db.user_registry (has_user-seen now u v),
      )
      (sym (nonempty-filter-any (has_user v) db.user_registry))

pub registered-upsert_user :
    (now : ℕ) (u : Text) (email name : Option Text) (db : Db)
    → is_registered u (upsert_user now u email name db) ≡ true
unfolding upsert_user
registered-upsert_user now u email name db = elim (Bool-cases (any (has_user u) db.user_registry)) [
  | inl e ↦
      rw
        (
          e,
          nonempty-filter-any (has_user u),
          any-map (has_user u) (seen now u) db.user_registry (has_user-seen now u u),
        )
        e
  | inr e ↦ rw (e, text_eq_refl u) refl
]

module _ (http_get : Text → Text → Result Profile) (domain : Option Text) (now : ℕ)
    (u token : Text) where
  pub rowcount-registered :
      (db : Db) → ((update_last_seen now u db).0 == 0) ≡ not (is_registered u db)
  unfolding update_last_seen
  rowcount-registered db = no_rows_iff (filter (has_user u) db.user_registry)

  track_new-IsConsistent :
      (r : Result (Option Text × Option Text)) {db : Db}
      → IsConsistent db
      → IsConsistent (track_new http_get domain now u r db).1
  track_new-IsConsistent (returned (email, name)) c = upsert_user-IsConsistent now u email name c
  track_new-IsConsistent (raised e) c = c

  track_block-IsConsistent :
      {db : Db} → IsConsistent db → IsConsistent (track_block http_get domain now u token db).1
  track_block-IsConsistent {db} c =
      let c' = update_last_seen-IsConsistent now u c in
      elim (Bool-cases ((update_last_seen now u db).0 == 0)) [
        | inl e ↦ rw e (track_new-IsConsistent (fetch_userinfo http_get domain token) c')
        | inr e ↦ rw e c'
      ]

  -- Behind a transactional pool, tracking a user keeps the constraints of the tables, whatever the
  -- identity provider answers.
  pub track_user-IsConsistent :
      (pool : Pool) (db : Db)
      → IsTransactional pool
      → IsConsistent db
      → IsConsistent (track_user http_get domain pool now u token db).1
  unfolding track_user
  track_user-IsConsistent pool db t c =
      connection-IsConsistent t (Unit {0}) (track_block http_get domain now u token) db c
        λ a d q. subst IsConsistent (ap (λ x. x.1) q) (track_block-IsConsistent c)

  log_only_ok : (r : Result (Unit {0})) → log_only r ≡ returned tt
  log_only_ok (returned a) = refl
  log_only_ok (raised e) = refl

  pub track_user_ok :
      (pool : Pool) (db : Db) → (track_user http_get domain pool now u token db).0 ≡ returned tt
  unfolding track_user
  track_user_ok pool db = log_only_ok _

  track_new-registered :
      (r : Result (Option Text × Option Text)) (db : Db)
      → is_registered u db ≡ false
      → is_registered u (track_new http_get domain now u r db).1 ≡ is_ok r
  unfolding is_ok
  track_new-registered (returned (email, name)) db h = registered-upsert_user now u email name db
  track_new-registered (raised e) db h = h

  block_known :
      (db : Db)
      → is_registered u db ≡ true
      → track_block http_get domain now u token db ≡ (returned tt, (update_last_seen now u db).1)
  block_known db h = rw (rowcount-registered db, h) refl

  pub block_new :
      (db : Db)
      → is_registered u db ≡ false
      → track_block http_get domain now u token db
        ≡ track_new http_get domain now u
            (fetch_userinfo http_get domain token)
            (update_last_seen now u db).1
  block_new db h = rw (rowcount-registered db, h) refl

  module _ (pool : Pool) (db : Db) (t : IsTransactional pool) (up : IsUp pool) where
    pub track_known :
        is_registered u db ≡ true
        → track_user http_get domain pool now u token db
          ≡ (returned tt, (update_last_seen now u db).1)
    unfolding track_user
    track_known h =
        rw
          (connection_of_IsUp t (Unit {0}) (track_block http_get domain now u token) db up tt _
            (block_known db h))
          refl

    pub track_fetched :
        (email name : Option Text)
        → is_registered u db ≡ false
        → fetch_userinfo http_get domain token ≡ returned (email, name)
        → track_user http_get domain pool now u token db
          ≡ (returned tt, upsert_user now u email name (update_last_seen now u db).1)
    unfolding track_user
    track_fetched email name h e =
        rw
          (connection_of_IsUp t (Unit {0}) (track_block http_get domain now u token) db up tt
            (upsert_user now u email name (update_last_seen now u db).1)
            (block_new db h ∙ rw e refl))
          refl
