-- ===== src/Server/Isolation.antt =====
-- What a request can do to the sessions of a user it is not authenticated for.
use carqna_agent.Common.{
  ℕ, ℤ, ◌≡◌, ◌≢◌, refl, ap, ◌∙◌, true, Option, some, List, Bool-cases, inl, inr,
}
use mathlib.Core.Path.{subst}
use carqna_agent.PyText.{Text, text_eq, text_mem}
use carqna_agent.PyText.Int.{parse_int}
use carqna_agent.Errors.{Result, returned}
use carqna_agent.Database.{StoredSession, Db}
use carqna_agent.Database.Invariant.{IsConsistent}
use carqna_agent.Database.Pool.{Pool, IsTransactional, SameRows-IsConsistent, connection_elim}
use carqna_agent.Sessions.{list_sessions, create_session, touch_session, list_block}
use carqna_agent.Sessions.Visible.{visible}
use carqna_agent.Sessions.Isolation.{create_session-visible_ne, touch_session-visible_ne}
use carqna_agent.Sessions.Consistency.{create_session-IsConsistent, touch_session-IsConsistent}
use carqna_agent.Tracking.{Profile, track_user}
use carqna_agent.Tracking.Laws.{track_user_ok, track_user-IsConsistent}
use carqna_agent.Tracking.Effects.{track_user-SameForOthers}
use carqna_agent.Auth.Context.{
  AuthContext, get_current_user_id, get_current_access_token, require_context,
}
use carqna_agent.Auth.Verify.{Jwt}
use carqna_agent.Auth.Verify.Laws.{IsForDomain}
use carqna_agent.Auth.Middleware.{World, is_open, call}
use carqna_agent.Auth.Middleware.Gate.{IsGenuine}
use carqna_agent.Auth.Middleware.Outcomes.{call_elim}
use carqna_agent.Errors.Action.{resume, resume_keeps, ◌>>=◌, ◌>>◌, lift}
use carqna_agent.Server.Routes.{
  Route, chat, sessions, new_session, health, detail, identified, langgraph_agent_endpoint,
  list_sessions_endpoint, create_session_endpoint, handle, session_id_of, app, scope_of, serve,
  stream, session_list, thread_key, created_response,
}

module _ (http_get : Text → Text → Result Profile) (domain : Option Text) (pool : Pool)
    (now : ℕ) where
  pub identified_lem :
      (ctx : AuthContext) (db : Db)
      → identified http_get domain pool now (some ctx) db ≡ (
        returned ctx.user_id,
        (track_user http_get domain pool now ctx.user_id ctx.access_token db).1,
      )
  unfolding identified get_current_user_id get_current_access_token require_context
  identified_lem ctx db =
      rw (track_user_ok http_get domain now ctx.user_id ctx.access_token pool db) refl

  -- The database after the user has been tracked.
  abbrev pub tracked : AuthContext → Db → Db
  tracked ctx db = (track_user http_get domain pool now ctx.user_id ctx.access_token db).1

  pub chat_lem :
      (ctx : AuthContext) (thread_id : Text) (db : Db)
      → langgraph_agent_endpoint http_get domain pool now (some ctx) thread_id db
        ≡ resume
            (λ z.
              touch_session pool now ctx.user_id z
              >> lift (returned (stream (thread_key ctx.user_id thread_id))))
            (session_id_of (parse_int thread_id))
            (tracked ctx db)
  unfolding langgraph_agent_endpoint
  chat_lem ctx thread_id db = rw (identified_lem ctx db) refl

  pub list_lem :
      (ctx : AuthContext) (db : Db)
      → list_sessions_endpoint http_get domain pool now (some ctx) db
        ≡ (list_sessions pool ctx.user_id >>= λ rows. lift (returned (session_list rows)))
            (tracked ctx db)
  unfolding list_sessions_endpoint
  list_lem ctx db = rw (identified_lem ctx db) refl

  pub create_lem :
      (ctx : AuthContext) (name : Text) (db : Db)
      → create_session_endpoint http_get domain pool now (some ctx) name db ≡ (
        created_response (create_session pool now ctx.user_id name (tracked ctx db)).0,
        (create_session pool now ctx.user_id name (tracked ctx db)).1,
      )
  unfolding create_session_endpoint
  create_lem ctx name db = rw (identified_lem ctx db) refl

  module _ (v : Text) (t : IsTransactional pool) (mine : List StoredSession) where
    -- The constraints hold, and user `v` sees these sessions.
    abbrev Sees : Db → Type 0
    Sees db = IsConsistent db × (visible v db ≡ mine)

    module _ (ctx : AuthContext) (differ : ctx.user_id ≢ v) where
      Sees-tracked : (db : Db) → Sees db → Sees (tracked ctx db)
      Sees-tracked db (c, e) = (
        track_user-IsConsistent http_get domain now ctx.user_id ctx.access_token pool db t c,
        (track_user-SameForOthers now ctx.user_id http_get domain ctx.access_token pool db t
                c).sessions
              v
            ∙ e,
      )

      Sees-touch_session :
          (z : ℤ) (db : Db) → Sees db → Sees (touch_session pool now ctx.user_id z db).1
      Sees-touch_session z db (c, e) = (
        touch_session-IsConsistent pool now ctx.user_id z db t c,
        touch_session-visible_ne ctx.user_id v differ pool now z db t c ∙ e,
      )

      Sees-create_session :
          (name : Text) (db : Db) → Sees db → Sees (create_session pool now ctx.user_id name db).1
      Sees-create_session name db (c, e) = (
        create_session-IsConsistent pool now ctx.user_id name db t c,
        create_session-visible_ne ctx.user_id v differ pool now name db t c ∙ e,
      )

      Sees-list_sessions : (u : Text) (db : Db) → Sees db → Sees (list_sessions pool u db).1
      unfolding list_sessions
      Sees-list_sessions u db (c, e) =
          connection_elim t (List StoredSession) (list_block u) db (λ r d. Sees d)
            (λ x d s. (SameRows-IsConsistent s c, rw (s.registry, s.sessions) e))
            (λ a d q. subst Sees (ap (λ x. x.1) q) (c, e))

      Sees-handle :
          (route : Route) (db : Db)
          → Sees db
          → Sees (handle http_get domain pool now route (some ctx) db).1
      unfolding handle
      Sees-handle (chat thread_id) db h = rw (chat_lem ctx thread_id db) (
          resume_keeps Sees _ (session_id_of (parse_int thread_id)) (tracked ctx db)
            (Sees-tracked db h)
            λ z d k.
              resume_keeps Sees _ (touch_session pool now ctx.user_id z d).0 _
                (Sees-touch_session z d k) (λ a d' k'. k'))
      Sees-handle sessions db h = rw (list_lem ctx db) (
          resume_keeps Sees _ (list_sessions pool ctx.user_id (tracked ctx db)).0 _
            (Sees-list_sessions ctx.user_id (tracked ctx db) (Sees-tracked db h)) (λ a d k. k))
      Sees-handle (new_session name) db h =
          rw (create_lem ctx name db)
            (Sees-create_session name (tracked ctx db) (Sees-tracked db h))
      Sees-handle health db h = h

-- The one route that is open works on nothing.
open_route :
    (http_get : Text → Text → Result Profile) (jwt : Jwt) (domain audience : Option Text)
    (pool : Pool) (now : ℕ) (authorization : Option Text) (w : World Db) (route : Route)
    → is_open (scope_of route authorization) ≡ true
    → (serve http_get jwt domain audience pool now route authorization w).1.state ≡ w.state
unfolding serve call is_open text_eq text_mem handle
open_route http_get jwt domain audience pool now authorization w (chat thread_id) e = cc
open_route http_get jwt domain audience pool now authorization w sessions e = cc
open_route http_get jwt domain audience pool now authorization w (new_session name) e = cc
open_route http_get jwt domain audience pool now authorization w health e = refl

-- With a transactional pool, tables that satisfy their constraints and a cached JWKS client, if
-- any, of the configured domain: whatever a request asks for, and whatever the identity provider
-- and the token libraries answer, it leaves the sessions that a user sees as they are, unless its
-- header carries a token that is verified for that very user.
pub serve-visible_ne :
    (http_get : Text → Text → Result Profile) (jwt : Jwt) (domain audience : Option Text)
    (pool : Pool) (now : ℕ) (route : Route) (authorization : Option Text) (w : World Db) (v : Text)
    → IsTransactional pool
    → IsConsistent w.state
    → IsForDomain domain w.jwks
    → ((ctx : AuthContext)
        → IsGenuine jwt domain audience (scope_of route authorization) ctx
        → ctx.user_id ≢ v)
    → visible v (serve http_get jwt domain audience pool now route authorization w).1.state
      ≡ visible v w.state
unfolding serve
serve-visible_ne http_get jwt domain audience pool now route authorization w v t c k never =
    elim (Bool-cases (is_open (scope_of route authorization))) [
      | inl e ↦
          ap (visible v) (open_route http_get jwt domain audience pool now authorization w route e)
      | inr closed ↦
          call_elim detail jwt domain audience (app http_get domain pool now route)
            (scope_of route authorization) (λ r d. visible v d ≡ visible v w.state) w.state
            (λ e. refl) (λ status text. refl)
            (λ ctx w' has same genuine. (run_lem ctx w' has same genuine).1) w refl k closed
    ]
  where
    run_lem :
        (ctx : AuthContext) (w' : World Db)
        → w'.context ≡ some ctx
        → w'.state ≡ w.state
        → IsGenuine jwt domain audience (scope_of route authorization) ctx
        → Sees http_get domain pool now v t
            (visible v w.state)
            (handle http_get domain pool now route w'.context w'.state).1
    run_lem ctx w' has same genuine =
        rw (has, same)
          (Sees-handle http_get domain pool now v t (visible v w.state) ctx (never ctx genuine)
            route w.state (c, refl))
