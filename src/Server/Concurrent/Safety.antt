-- ===== src/Server/Concurrent/Safety.antt =====
-- What holds however the turns of concurrent requests are interleaved.
use carqna_agent.Common.{
  ℕ, ◌≡◌, ◌≢◌, refl, ap, sym, ◌∙◌, Option, List, [], ◌∷◌, true, ◌==◌, ==_iff, Bool-cases, inl, inr,
  All, every_one,
}
use mathlib.Core.Path.{subst}
use carqna_agent.PyText.{Text}
use carqna_agent.Errors.{Result}
use carqna_agent.Database.{StoredSession, Db}
use carqna_agent.Database.Invariant.{
  IsConsistent, update_last_seen-IsConsistent, upsert_user-IsConsistent,
}
use carqna_agent.Database.Pool.{Pool, IsTransactional, connection-IsConsistent, connection_elim}
use carqna_agent.Sessions.{list_sessions, list_block}
use carqna_agent.Sessions.Visible.{visible}
use carqna_agent.Sessions.Isolation.{create_session-visible_ne, touch_session-visible_ne}
use carqna_agent.Sessions.Consistency.{create_session-IsConsistent, touch_session-IsConsistent}
use carqna_agent.Tracking.{Profile}
use carqna_agent.Tracking.Effects.{update_last_seen-SameForOthers, upsert_user-SameForOthers}
use carqna_agent.Server.Concurrent.{
  Service, Turn, count_block, upsert_block, proceed, take_turn, run,
}
use carqna_agent.Server.Concurrent.Turns.{Keeps, proceed_keeps}

-- The user of the request whose turn it is.
abbrev pub user_of : Service → Turn → Text
user_of s t = (s.requests t.request).context.user_id

module _ (http_get : Text → Text → Result Profile) (domain : Option Text) where
  -- A turn changes the phase of a request and nothing else of it.
  pub fixed_parts :
      (t : Turn) (s : Service) (k : ℕ)
      → (((take_turn http_get domain t s).requests k).context ≡ (s.requests k).context)
        × (((take_turn http_get domain t s).requests k).route ≡ (s.requests k).route)
  unfolding take_turn
  fixed_parts t s k = elim (Bool-cases (k == t.request)) [
    | inl e ↦ rw e (refl, refl)
    | inr e ↦ rw e (refl, refl)
  ]

  -- The tables after a turn.
  pub database-take_turn :
      (t : Turn) (s : Service) (n : ℕ)
      → (n == t.request) ≡ true
      → (take_turn http_get domain t s).database
        ≡ (proceed t.pool t.now http_get domain
            (s.requests n).phase
            (s.requests n).context
            (s.requests n).route
            s.database).1
  unfolding take_turn
  database-take_turn t s n e = rw ((==_iff n t.request).0 e) refl

  -- What the blocks of the request keep is kept by its turn.
  pub take_turn_keeps :
      (P : Db → Type 0) (t : Turn) (s : Service)
      → Keeps t.pool t.now (user_of s t) P
      → P s.database
      → P (take_turn http_get domain t s).database
  unfolding take_turn
  take_turn_keeps P t s k h =
      let r = s.requests t.request in
      proceed_keeps P http_get domain r.phase r.context r.route s.database k h

  -- What the blocks of all the requests keep is kept by every schedule.
  pub run_keeps :
      (P : Db → Type 0) (ts : List Turn) (s : Service)
      → All (λ t. Keeps t.pool t.now (user_of s t) P) ts
      → P s.database
      → P (run http_get domain ts s).database
  unfolding run
  run_keeps P [] s k h = h
  run_keeps P (t ∷ ts) s (k, ks) h =
      run_keeps P ts (take_turn http_get domain t s)
        (every_one _ _ ts ks λ t' k'.
          subst (λ c. Keeps t'.pool t'.now c.user_id P) (sym (fixed_parts t s t'.request).0) k')
        (take_turn_keeps P t s k h)

  pub run_context :
      (ts : List Turn) (s : Service) (k : ℕ)
      → ((run http_get domain ts s).requests k).context ≡ (s.requests k).context
  unfolding run
  run_context [] s k = refl
  run_context (t ∷ ts) s k =
      run_context ts (take_turn http_get domain t s) k ∙ (fixed_parts t s k).0

module _ {pool : Pool} (t : IsTransactional pool) (now : ℕ) (u : Text) where
  pub IsConsistent-Keeps : Keeps pool now u IsConsistent
  unfolding list_sessions
  IsConsistent-Keeps = record {
    counting = λ db c.
        connection-IsConsistent t ℕ (count_block now u) db c
          (λ a d q. subst IsConsistent (ap (λ x. x.1) q) (update_last_seen-IsConsistent now u c));
    storing = λ email name db c.
        connection-IsConsistent t (Unit {0}) (upsert_block now u email name) db c (λ a d q.
          subst IsConsistent (ap (λ x. x.1) q) (upsert_user-IsConsistent now u email name c));
    listing = λ db c.
        connection-IsConsistent t (List StoredSession) (list_block u) db c
          (λ a d q. subst IsConsistent (ap (λ x. x.1) q) c);
    creating = λ name db c. create_session-IsConsistent pool now u name db t c;
    touching = λ z db c. touch_session-IsConsistent pool now u z db t c;
  }

  module _ (v : Text) (differ : u ≢ v) (mine : List StoredSession) where
    abbrev pub Sees : Db → Type 0
    Sees db = IsConsistent db × (visible v db ≡ mine)

    Sees-behind :
        (A : Type 0) (body : Db → Result A × Db) (db : Db)
        → IsConsistent (pool.connection A body db).1
        → Sees db
        → visible v (body db).1 ≡ visible v db
        → Sees (pool.connection A body db).1
    Sees-behind A body db c h same = (
      c,
      connection_elim t A body db (λ r d. visible v d ≡ mine)
          (λ x d s. rw (s.registry, s.sessions) (h.1))
          (λ a d q. subst (λ d. visible v d ≡ mine) (ap (λ x. x.1) q) (same ∙ h.1)),
    )

    pub Sees-Keeps : Keeps pool now u Sees
    unfolding list_sessions
    Sees-Keeps =
        let k = IsConsistent-Keeps in
        record {
          counting = λ db h.
              Sees-behind ℕ (count_block now u) db (k.counting db h.0) h
                ((update_last_seen-SameForOthers now u db).sessions v);
          storing = λ email name db h.
              Sees-behind (Unit {0}) (upsert_block now u email name) db
                (k.storing email name db h.0) h
                ((upsert_user-SameForOthers now u email name h.0).sessions v);
          listing =
              λ db h. Sees-behind (List StoredSession) (list_block u) db (k.listing db h.0) h refl;
          creating = λ name db h. (
            k.creating name db h.0,
            create_session-visible_ne u v differ pool now name db t h.0 ∙ h.1,
          );
          touching = λ z db h.
              (k.touching z db h.0, touch_session-visible_ne u v differ pool now z db t h.0 ∙ h.1);
        }

module _ (http_get : Text → Text → Result Profile) (domain : Option Text) (ts : List Turn)
    (s : Service) (t : All (λ turn. IsTransactional turn.pool) ts)
    (c : IsConsistent s.database) where
  -- However the turns of any requests are interleaved, and whichever blocks fail in a transactional
  -- pool, on tables that satisfy their constraints: the sessions that a user sees stay as they are
  -- as long as every turn is that of another user's request.
  run-visible_ne :
      (v : Text)
      → All (λ turn. user_of s turn ≢ v) ts
      → visible v (run http_get domain ts s).database ≡ visible v s.database
  run-visible_ne v others =
      (run_keeps http_get domain (λ db. IsConsistent db × (visible v db ≡ visible v s.database)) ts
        s (both ts t others) (c, refl)).1
    where
      both :
          (ts : List Turn)
          → All (λ turn. IsTransactional turn.pool) ts
          → All (λ turn. user_of s turn ≢ v) ts
          → All
              (λ turn.
                Keeps turn.pool turn.now
                  (user_of s turn)
                  (λ db. IsConsistent db × (visible v db ≡ visible v s.database)))
              ts
      both [] h k = tt
      both (turn ∷ rest) (h, hs) (k, ks) =
          (Sees-Keeps h turn.now (user_of s turn) v k (visible v s.database), both rest hs ks)
