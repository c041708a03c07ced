-- ===== src/Server/Concurrent/Progress.antt =====
-- Requests come to an end, whatever other requests do in between.
use carqna_agent.Common.{
  ℕ, ◌+◌, ◌-◌, ◌≤◌, ◌≡◌, refl, sym, ◌∙◌, true, false, Option, List, [], ◌∷◌, arith, ◌==◌, ==_iff,
  Bool-cases, inl, inr, if◌then◌else◌,
}
use carqna_agent.PyText.{Text}
use carqna_agent.Errors.{Result, returned, raised}
use carqna_agent.Database.{Db}
use carqna_agent.Database.Pool.{Pool}
use carqna_agent.Tracking.{Profile, fetch_userinfo}
use carqna_agent.Auth.Context.{AuthContext}
use carqna_agent.Server.Routes.{Route, health, Response}
use carqna_agent.Server.Concurrent.{
  Phase, arrived, unseen, profiled, tracked, answered, Service, Turn, counted, profile_phase,
  count_block, look_up, proceed, take_turn, run,
}

-- The turns that a request may still need.
abbrev pub rank : Phase → ℕ
rank arrived = 4
rank unseen = 3
rank (profiled email name) = 2
rank tracked = 1
rank (answered r) = 0

-- The turns of one request in a schedule.
unfoldable pub turns_of : ℕ → List Turn → ℕ
turns_of n [] = 0
turns_of n (t ∷ ts) = (if n == t.request then 1 else 0) + turns_of n ts

rank-counted : (r : Result ℕ) → rank (counted r) ≤ 3
rank-counted (returned n) = ground arith
rank-counted (raised e) = omega arith

rank-profile_phase : (r : Result (Option Text × Option Text)) → rank (profile_phase r) ≤ 2
rank-profile_phase (returned (email, name)) = omega arith
rank-profile_phase (raised e) = omega arith

rank_zero : (phase : Phase) → rank phase ≤ 0 → (r : Result Response) × (phase ≡ answered r)
rank_zero (answered r) h = (r, refl)
rank_zero arrived h = absurd (omega arith)
rank_zero unseen h = absurd (omega arith)
rank_zero (profiled email name) h = absurd (omega arith)
rank_zero tracked h = absurd (omega arith)

module _ (http_get : Text → Text → Result Profile) (domain : Option Text) where
  module _ (pool : Pool) (now : ℕ) where
    rank-look_up : (route : Route) (u : Text) (db : Db) → rank (look_up pool now route u db).0 ≤ 3
    unfolding look_up
    rank-look_up health u db = omega arith
    rank-look_up _ u db = rank-counted (pool.connection ℕ (count_block now u) db).0

    rank-proceed :
        (phase : Phase) (ctx : AuthContext) (route : Route) (db : Db)
        → rank (proceed pool now http_get domain phase ctx route db).0 ≤ rank phase - 1
    unfolding proceed
    rank-proceed arrived ctx route db = omega (arith, rank-look_up route ctx.user_id db)
    rank-proceed unseen ctx route db =
        omega (arith, rank-profile_phase (fetch_userinfo http_get domain ctx.access_token))
    rank-proceed (profiled email name) ctx route db = omega arith
    rank-proceed tracked ctx route db = omega arith
    rank-proceed (answered r) ctx route db = omega arith

  -- The phase of a request after a turn.
  pub phase-take_turn :
      (t : Turn) (s : Service) (n : ℕ)
      → ((n == t.request) ≡ true
          → ((take_turn http_get domain t s).requests n).phase
            ≡ (proceed t.pool t.now http_get domain
                (s.requests n).phase
                (s.requests n).context
                (s.requests n).route
                s.database).0)
        × ((n == t.request) ≡ false
            → ((take_turn http_get domain t s).requests n).phase ≡ (s.requests n).phase)
  unfolding take_turn
  phase-take_turn t s n = (λ e. rw e (rw ((==_iff n t.request).0 e) refl), λ e. rw e refl)

  rank-run :
      (n : ℕ) (ts : List Turn) (s : Service)
      → rank ((run http_get domain ts s).requests n).phase
        ≤ rank (s.requests n).phase - turns_of n ts
  unfolding run turns_of
  rank-run n [] s = omega arith
  rank-run n (t ∷ ts) s =
      let rest = rank-run n ts (take_turn http_get domain t s) in
      let r = s.requests n in
      elim (Bool-cases (n == t.request)) [
        | inl e ↦
            let less = rank-proceed t.pool t.now r.phase r.context r.route s.database in
            let shown = (phase-take_turn t s n).0 e in
            rw e (omega (arith, rest, rw (sym shown) at less))
        | inr e ↦ let shown = (phase-take_turn t s n).1 e in rw e (omega (arith, rw shown at rest))
      ]

  -- An answer stands, whatever turns follow.
  pub run-answered :
      (n : ℕ) (r : Result Response) (ts : List Turn) (s : Service)
      → (s.requests n).phase ≡ answered r
      → ((run http_get domain ts s).requests n).phase ≡ answered r
  unfolding run
  run-answered n r [] s h = h
  run-answered n r (t ∷ ts) s h =
      run-answered n r ts (take_turn http_get domain t s) (elim (Bool-cases (n == t.request)) [
        | inl e ↦ (phase-take_turn t s n).0 e ∙ unfold proceed in rw h refl
        | inr e ↦ (phase-take_turn t s n).1 e ∙ h
      ])

  -- Whatever other requests do in between, and whichever blocks and fetches fail: a request that has
  -- had four turns is answered.
  pub run_answers :
      (n : ℕ) (ts : List Turn) (s : Service)
      → 4 ≤ turns_of n ts
      → (r : Result Response) × (((run http_get domain ts s).requests n).phase ≡ answered r)
  run_answers n ts s h = rank_zero _ (omega (arith, rank-run n ts s, highest (s.requests n).phase))
    where
      highest : (phase : Phase) → rank phase ≤ 4
      highest arrived = omega arith
      highest unseen = omega arith
      highest (profiled email name) = omega arith
      highest tracked = omega arith
      highest (answered r) = omega arith
