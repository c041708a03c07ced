-- ===== src/Server/Concurrent/Once.antt =====
-- Two requests that create a session of one name: one of them gets it.
mod Kept
mod New
mod Answered
use carqna_agent.Common.{
  ℕ, ℤ, ◌≡◌, ◌≢◌, refl, ap, sym, ◌∙◌, Bool, true, false, Option, some, none, List, [], ◌∷◌, map,
  arith, ◌==◌, ◌&&◌, Bool-cases, inl, inr, ◌⊎◌, All, any, any-map, filter, if◌then◌else◌,
  filter-map_same, ==_refl, ==_iff,
}
use mathlib.Core.Path.{subst}
use mathlib.Core.Option
use carqna_agent.PyText.{Text, text_eq}
use carqna_agent.PyText.Laws.{text_eq_refl}
use carqna_agent.Errors.{Result, returned, raised, value_error, unique_violation, ◌>>=◌}
use carqna_agent.Database.{
  UserRow, StoredSession, Db, has_user, taken, update_last_seen, upsert_user, insert_session,
  update_access_ts, touches,
}
use carqna_agent.Database.Invariant.{IsConsistent, touched, touched_keeps}
use carqna_agent.Database.Pool.{
  Pool, IsTransactional, SameRows, direct, direct-IsTransactional, direct-IsUp, connection_of_IsUp,
}
use carqna_agent.Sessions.{
  SessionRow, session_row, create_block, list_block, touch_block, list_sessions, create_session,
  touch_session,
}
use carqna_agent.Sessions.Visible.{owns, visible}
use carqna_agent.Sessions.Creation.{
  is_bad_name, has_name, answer, mine, is_registered, create_session_lem,
}
use carqna_agent.Tracking.{Profile, fetch_userinfo}
use carqna_agent.Tracking.Effects.{update_last_seen-SameForOthers, upsert_user-SameForOthers}
use carqna_agent.Auth.Context.{AuthContext}
use carqna_agent.Server.Routes.{
  Route, chat, sessions, new_session, health, Response, session, created_response,
}
use carqna_agent.Server.Concurrent.{
  Phase, arrived, unseen, profiled, tracked, answered, Request, Service, Turn, counted,
  profile_phase, count_block, upsert_block, look_up, finish, proceed, take_turn, run,
}
use carqna_agent.Server.Concurrent.Turns.{Keeps, insert_sessions_keeps, connection_keeps}
use carqna_agent.Server.Concurrent.Safety.{
  user_of, run_context, fixed_parts, database-take_turn, take_turn_keeps, IsConsistent-Keeps,
}
use carqna_agent.Server.Concurrent.Progress.{phase-take_turn}
use Kept.{Recorded, Recorded-Keeps}
use New.{IsNew, new_name_ne}
use Answered.{answered_session}

module _ (http_get : Text → Text → Result Profile) (domain : Option Text) where
  -- Request `n` of the service is answered with this session.
  abbrev pub Got : ℕ → SessionRow → Service → Type 0
  Got n row s = (s.requests n).phase ≡ answered (returned (session row))

  abbrev user : Service → ℕ → Text
  user s n = (s.requests n).context.user_id

  -- The sessions that were answered are there, and those of one user differ in their names.
  record IsOnce (s : Service) : Type 0 where
    consistent : IsConsistent s.database
    recorded : (n : ℕ) (row : SessionRow) → Got n row s → Recorded (user s n) row s.database
    apart :
        (m n : ℕ) (row old : SessionRow)
        → m ≢ n
        → user s m ≡ user s n
        → Got m row s
        → Got n old s
        → row.session_name ≢ old.session_name

  module _ (t : Turn) (s : Service) (tr : IsTransactional t.pool) (h : IsOnce s) where
    abbrev after : Service
    after = take_turn http_get domain t s

    same_user : (n : ℕ) → user after n ≡ user s n
    same_user n = ap (λ c. c.user_id) (fixed_parts http_get domain t s n).0

    Recorded-take_turn :
        (v : Text) (row : SessionRow) → Recorded v row s.database → Recorded v row after.database
    Recorded-take_turn v row there =
        (take_turn_keeps http_get domain (λ db. IsConsistent db × Recorded v row db) t s
          (Recorded-Keeps v row t.now (user_of s t) tr) (h.consistent, there)).1

    -- A session that a request has after the turn is the one it had, or new.
    Got-cases :
        (n : ℕ) (row : SessionRow)
        → Got n row after
        → Got n row s
          ⊎ ((name : Text) × ((n == t.request) ≡ true)
              × IsNew (user s n) name row s.database after.database)
    Got-cases n row got = elim (Bool-cases (n == t.request)) [
      | inr e ↦ inl (sym ((phase-take_turn http_get domain t s n).1 e) ∙ got)
      | inl e ↦
          let r = s.requests n in
          let shown = sym ((phase-take_turn http_get domain t s n).0 e) ∙ got in
          elim (answered_session http_get domain t.now r.phase r.context r.route s.database row tr
            h.consistent shown) [
              | inl old ↦ inl old
              | inr (name, new) ↦ inr (name, e, rw (database-take_turn http_get domain t s n e) new)
            ]
    ]

    Recorded-after :
        (n : ℕ) (row : SessionRow) → Got n row after → Recorded (user s n) row after.database
    Recorded-after n row got = elim (Got-cases n row got) [
      | inl old ↦ Recorded-take_turn (user s n) row (h.recorded n row old)
      | inr (name, _, new) ↦ new.there
    ]

    apart_after :
        (m n : ℕ) (row old : SessionRow)
        → m ≢ n
        → user s m ≡ user s n
        → Got m row after
        → Got n old after
        → row.session_name ≢ old.session_name
    apart_after m n row old differ same got got' = elim (Got-cases m row got) [
      | inl had ↦ elim (Got-cases n old got') [
        | inl had' ↦ h.apart m n row old differ same had had'
        | inr (name, _, new) ↦ λ e.
            new_name_ne (user s n) name old row s.database after.database new
              (subst (λ u. Recorded u row s.database) same (h.recorded m row had)) (sym e)
      ]
      | inr (name, here, new) ↦ elim (Got-cases n old got') [
        | inl had' ↦
            new_name_ne (user s m) name row old s.database after.database new
              (subst (λ u. Recorded u old s.database) (sym same) (h.recorded n old had'))
        | inr (_, there, _) ↦
            absurd (differ ((==_iff m t.request).0 here ∙ sym ((==_iff n t.request).0 there)))
      ]
    ]

    IsOnce-take_turn : IsOnce after
    IsOnce-take_turn = record {
      consistent =
          take_turn_keeps http_get domain IsConsistent t s
            (IsConsistent-Keeps tr t.now (user_of s t)) h.consistent;
      recorded = λ n row got. rw (same_user n) (Recorded-after n row got);
      apart = λ m n row old differ same.
          apart_after m n row old differ (sym (same_user m) ∙ same ∙ same_user n);
    }

  IsOnce-run :
      (ts : List Turn) (s : Service)
      → All (λ t. IsTransactional t.pool) ts
      → IsOnce s
      → IsOnce (run http_get domain ts s)
  unfolding run
  IsOnce-run [] s k h = h
  IsOnce-run (t ∷ ts) s (k, ks) h =
      IsOnce-run ts (take_turn http_get domain t s) ks (IsOnce-take_turn t s k h)

  -- However the turns of requests that have just arrived are interleaved, and whichever blocks fail
  -- in a transactional pool, on tables that satisfy their constraints: sessions that were answered to
  -- two requests of one user have different names.
  pub created_once :
      (ts : List Turn) (s : Service)
      → All (λ t. IsTransactional t.pool) ts
      → IsConsistent s.database
      → ((k : ℕ) → (s.requests k).phase ≡ arrived)
      → (m n : ℕ) (row old : SessionRow) → m ≢ n
      → (s.requests m).context.user_id ≡ (s.requests n).context.user_id
      → ((run http_get domain ts s).requests m).phase ≡ answered (returned (session row))
      → ((run http_get domain ts s).requests n).phase ≡ answered (returned (session old))
      → row.session_name ≢ old.session_name
  created_once ts s k c fresh m n row old differ same =
      let once = IsOnce-run ts s k (record {
        consistent = c;
        recorded = λ j r got. cc (fresh j, got);
        apart = λ i j r q d e got got'. cc (fresh i, got);
      }) in
      once.apart m n row old differ (
        ap (λ r. r.user_id) (run_context http_get domain ts s m)
        ∙ same
        ∙ ap (λ r. r.user_id) (sym (run_context http_get domain ts s n)))
