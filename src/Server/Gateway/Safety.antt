-- ===== src/Server/Gateway/Safety.antt =====
-- Isolation of users from the header to the tables, with requests in any interleaving.
use carqna_agent.Common.{
  ℕ, ◌≡◌, ◌≢◌, refl, true, Option, none, some, List, [], ◌∷◌, ◌==◌, All, Bool-cases, inl, inr,
}
use mathlib.Core.Path.{subst, sym}
use carqna_agent.PyText.{Text, text_eq, text_mem}
use carqna_agent.Database.{StoredSession}
use carqna_agent.Database.Invariant.{IsConsistent}
use carqna_agent.Database.Pool.{Pool, IsTransactional}
use carqna_agent.Sessions.Visible.{visible}
use carqna_agent.Auth.Context.{AuthContext, Ctx}
use carqna_agent.Auth.Verify.Laws.{IsForDomain}
use carqna_agent.Auth.Middleware.{World, is_open, call}
use carqna_agent.Auth.Middleware.Gate.{IsGenuine}
use carqna_agent.Auth.Middleware.Outcomes.{call_elim}
use carqna_agent.Server.Routes.{Route, chat, sessions, new_session, health, scope_of, handle}
use carqna_agent.Server.Concurrent.{Service, arrived}
use carqna_agent.Server.Concurrent.Safety.{fixed_parts, take_turn_keeps, Sees-Keeps}
use carqna_agent.Server.Gateway.{
  Outside, Event, arrive, go_on, enter, refusal, begin, beginning, happen, happen_all,
}
use carqna_agent.Server.Gateway.Cache.{IsForDomain-call}

abbrev pub pool_of : Event → Pool
pool_of (arrive n route authorization o) = o.pool
pool_of (go_on http_get t) = t.pool

-- The requests under way are those of other users than `v`.
abbrev pub AreOthers : Text → Service → Type 0
AreOthers v s = (k : ℕ) → (s.requests k).context.user_id ≢ v

module _ (domain audience : Option Text) (v : Text) where
  -- A request that arrives has no token that is verified for the user `v`.
  abbrev pub IsHarmless : Event → Type 0
  IsHarmless (arrive n route authorization o) =
      (ctx : AuthContext)
      → IsGenuine o.jwt domain audience (scope_of route authorization) ctx
      → ctx.user_id ≢ v
  IsHarmless (go_on http_get t) = Unit

  module _ (mine : List StoredSession) where
    -- What `v` sees, and that no request is one of `v`.
    abbrev Sees : Service → Type 0
    Sees s = (IsConsistent s.database × (visible v s.database ≡ mine)) × AreOthers v s

    AreOthers-enter :
        (n : ℕ) (route : Route) (ctx : AuthContext) (s : Service)
        → ctx.user_id ≢ v
        → AreOthers v s
        → AreOthers v (enter n (record { context = ctx; route = route; phase = arrived }) s)
    AreOthers-enter n route ctx s h others k = elim (Bool-cases (k == n)) [
      | inl e ↦ rw e h
      | inr e ↦ rw e (others k)
    ]

    -- The one route that is open works on nothing.
    open_arrival :
        (n : ℕ) (route : Route) (authorization : Option Text) (o : Outside) (w : World Service)
        → is_open (scope_of route authorization) ≡ true
        → (happen domain audience (arrive n route authorization o) w).state ≡ w.state
    unfolding happen call is_open text_eq text_mem handle
    open_arrival n (chat thread_id) authorization o w e = cc
    open_arrival n sessions authorization o w e = cc
    open_arrival n (new_session name) authorization o w e = cc
    open_arrival n health authorization o w e = refl

    Sees-happen :
        (event : Event) (w : World Service)
        → IsTransactional (pool_of event)
        → IsHarmless event
        → IsForDomain domain w.jwks
        → Sees w.state
        → Sees (happen domain audience event w).state
    unfolding happen
    Sees-happen (arrive n route authorization o) w t harmless k h =
        elim (Bool-cases (is_open (scope_of route authorization))) [
          | inl e ↦ rw (open_arrival n route authorization o w e) h
          | inr closed ↦
              call_elim refusal o.jwt domain audience (beginning domain n route o)
                (scope_of route authorization) (λ r s. Sees s) w.state (λ e. h) (λ status text. h)
                (λ ctx w' has same genuine.
                  rw (has, same)
                    (h.0, AreOthers-enter n route ctx w.state (harmless ctx genuine) h.1))
                (record w { context = none }) refl k closed
        ]
    Sees-happen (go_on http_get t) w transactional harmless k h = (
      take_turn_keeps http_get domain (λ db. IsConsistent db × (visible v db ≡ mine)) t w.state
          (Sees-Keeps transactional t.now _ v (h.1 t.request) mine) h.0,
      λ n.
          subst (λ (ctx : AuthContext). ctx.user_id ≢ v)
            (sym (fixed_parts http_get domain t w.state n).0) (h.1 n),
    )

    IsForDomain-happen :
        (event : Event) (w : World Service)
        → IsForDomain domain w.jwks
        → IsForDomain domain (happen domain audience event w).jwks
    unfolding happen
    IsForDomain-happen (go_on http_get t) w k = k
    IsForDomain-happen (arrive n route authorization o) w k =
        IsForDomain-call refusal o.jwt domain audience (beginning domain n route o)
          (scope_of route authorization) (λ w. begin_jwks w.context w) (record w { context = none })
          k
      where
        begin_jwks :
            (ctx : Ctx) (w : World Service) → (begin domain n route o ctx w).1.jwks ≡ w.jwks
        begin_jwks none w = refl
        begin_jwks (some ctx) w = refl

    Sees-happen_all :
        (events : List Event) (w : World Service)
        → All (λ e. IsTransactional (pool_of e)) events
        → All IsHarmless events
        → IsForDomain domain w.jwks
        → Sees w.state
        → Sees (happen_all domain audience events w).state
    unfolding happen_all
    Sees-happen_all [] w t harmless k h = h
    Sees-happen_all (e ∷ events) w (t, ts) (harmless, rest) k h =
        Sees-happen_all events _ ts rest (IsForDomain-happen e w k) (Sees-happen e w t harmless k h)

-- With a cached JWKS client, if any, of the configured domain, and tables that satisfy their
-- constraints: however the arrivals and the turns of requests are interleaved, whichever blocks fail
-- in a transactional pool, and whatever the identity provider and the token libraries answer each
-- time, the sessions that a user sees stay as they are, unless a request of that user was under way
-- from the start or one arrives whose header carries a token that is verified for that user.
pub happen_all-visible_ne :
    (domain audience : Option Text) (v : Text) (events : List Event) (w : World Service)
    → All (λ e. IsTransactional (pool_of e)) events
    → IsConsistent w.state.database
    → IsForDomain domain w.jwks
    → AreOthers v w.state
    → All (IsHarmless domain audience v) events
    → visible v (happen_all domain audience events w).state.database ≡ visible v w.state.database
happen_all-visible_ne domain audience v events w t c k others harmless =
    (Sees-happen_all domain audience v (visible v w.state.database) events w t harmless k
      ((c, refl), others)).0.1
