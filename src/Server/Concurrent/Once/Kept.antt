-- ===== src/Server/Concurrent/Once/Kept.antt =====
-- A session that a user has been given stays among theirs.
use carqna_agent.Common.{
  ℕ, ℤ, ◌≡◌, refl, ap, ◌∙◌, Bool, true, Option, List, [], ◌∷◌, map, arith, ◌==◌, ◌&&◌, Bool-cases,
  inl, inr, any, filter,
}
use carqna_agent.PyText.{Text}
use carqna_agent.Errors.{Result}
use carqna_agent.Database.{
  UserRow, StoredSession, Db, has_user, insert_session, update_access_ts, touches,
}
use carqna_agent.Database.Invariant.{IsConsistent, touched, touched_keeps}
use carqna_agent.Database.Pool.{Pool, IsTransactional, SameRows}
use carqna_agent.Sessions.Block.{create_block_keeps}
use carqna_agent.Sessions.{
  SessionRow, session_row, create_block, list_block, touch_block, list_sessions, create_session,
  touch_session,
}
use carqna_agent.Sessions.Visible.{owns}
use carqna_agent.Sessions.Creation.{is_bad_name, has_name, mine}
use carqna_agent.Tracking.Effects.{update_last_seen-SameForOthers, upsert_user-SameForOthers}
use carqna_agent.Server.Concurrent.{count_block, upsert_block}
use carqna_agent.Server.Concurrent.Turns.{Keeps, insert_sessions_keeps, connection_keeps}
use carqna_agent.Server.Concurrent.Safety.{IsConsistent-Keeps}

-- The row's session is among those of the user, under its name.
abbrev pub is_row : SessionRow → SessionRow → Bool
is_row row q = q.id == row.id && has_name row.session_name q

abbrev pub Recorded : Text → SessionRow → Db → Type 0
Recorded v row db = any (is_row row) (mine v db) ≡ true

module _ (v : Text) (row : SessionRow) where
  Recorded-same : (db db' : Db) → SameRows db db' → Recorded v row db → Recorded v row db'
  Recorded-same db db' s h = rw (s.registry, s.sessions) h

  Recorded-insert_session :
      (now : ℕ) (name : Text) (rid : ℕ) (db : Db)
      → Recorded v row db
      → Recorded v row (insert_session now name rid db).1
  unfolding insert_session
  Recorded-insert_session now name rid db h = ground arith

  is_row-touched :
      (now : ℕ) (u : Text) (z : ℤ) (rs : List UserRow) (s : StoredSession)
      → is_row row (session_row (touched now u z rs s)) ≡ is_row row (session_row s)
  is_row-touched now u z rs s =
      let (id, name, _) = touched_keeps now u z rs s in
      rw (id, ap (λ (p : ℕ × Text). p.1) name) refl

  owns-touched_any :
      (now : ℕ) (u : Text) (z : ℤ) (rs : List UserRow) (s : StoredSession)
      → owns v rs (touched now u z rs s) ≡ owns v rs s
  owns-touched_any now u z rs s = elim (Bool-cases (touches u z rs s)) [
    | inl e ↦ rw e refl
    | inr e ↦ rw e refl
  ]

  recorded_map :
      (g : StoredSession → StoredSession) (p : StoredSession → Bool) (ss : List StoredSession)
      → ((s : StoredSession) → p (g s) ≡ p s)
      → ((s : StoredSession) → is_row row (session_row (g s)) ≡ is_row row (session_row s))
      → any (is_row row) (map session_row (filter p (map g ss)))
        ≡ any (is_row row) (map session_row (filter p ss))
  recorded_map g p [] k l = refl
  recorded_map g p (s ∷ ss) k l = ground (arith, k s, l s, recorded_map g p ss k l)

  Recorded-update_access_ts :
      (now : ℕ) (u : Text) (z : ℤ) (db : Db)
      → Recorded v row db
      → Recorded v row (update_access_ts now u z db)
  unfolding update_access_ts
  Recorded-update_access_ts now u z db h =
      recorded_map (touched now u z db.user_registry) (owns v db.user_registry) db.user_sessions
        (owns-touched_any now u z db.user_registry) (is_row-touched now u z db.user_registry)
      ∙ h

  -- A session that is there stays, whatever anybody's requests do.
  pub Recorded-Keeps :
      {pool : Pool} (now : ℕ) (u : Text)
      → IsTransactional pool
      → Keeps pool now u (λ db. IsConsistent db × Recorded v row db)
  unfolding list_sessions create_session touch_session
  Recorded-Keeps {pool} now u t =
      let c = IsConsistent-Keeps t now u in
      record {
        counting = λ db h. (
          c.counting db h.0,
          behind ℕ (count_block now u) db h.1
              (rw ((update_last_seen-SameForOthers now u db).sessions v) (h.1)),
        );
        storing = λ email name db h. (
          c.storing email name db h.0,
          behind (Unit {0}) (upsert_block now u email name) db h.1
              (rw ((upsert_user-SameForOthers now u email name h.0).sessions v) (h.1)),
        );
        listing = λ db h. (c.listing db h.0, behind (List StoredSession) (list_block u) db h.1 h.1);
        creating = λ name db h. (c.creating name db h.0, creating name db h.1);
        touching = λ z db h. (
          c.touching z db h.0,
          behind (Unit {0}) (touch_block now u z) db h.1 (Recorded-update_access_ts now u z db h.1),
        );
      }
    where
      behind :
          (A : Type 0) (body : Db → Result A × Db) (db : Db)
          → Recorded v row db
          → Recorded v row (body db).1
          → Recorded v row (pool.connection A body db).1
      behind = connection_keeps (Recorded v row) t Recorded-same

      creating :
          (name : Text) (db : Db)
          → Recorded v row db
          → Recorded v row (create_session pool now u name db).1
      creating name db h = elim (Bool-cases (is_bad_name name)) [
        | inl bad ↦ rw bad h
        | inr good ↦ rw good (
            behind (Option StoredSession) (create_block now u name) db h (
              create_block_keeps (Recorded v row) now u name db h (
                insert_sessions_keeps (Recorded v row) now name
                  (λ rid d. Recorded-insert_session now name rid d)
                  (filter (has_user u) db.user_registry) db h)))
      ]
