-- ===== src/Server/Answers.antt =====
-- What the routes answer to an authenticated caller.
use mathlib.Core.List.{Perm}
use carqna_agent.Common.{
  ℕ, ℤ, ◌≡◌, refl, ap, sym, ◌∙◌, Option, none, some, List, ◌∷◌, ◌++◌, map, Bool, not, any,
  if◌then◌else◌,
}
use mathlib.Core.Path.{subst}
use carqna_agent.PyText.{Text, codes}
use carqna_agent.PyText.Int.{parse_int}
use carqna_agent.Errors.{Result, returned, raised, http_exception}
use carqna_agent.Database.{Db, sort_desc}
use carqna_agent.Database.Invariant.{IsConsistent}
use carqna_agent.Database.Pool.{Pool, IsTransactional, IsUp}
use carqna_agent.Sessions.{SessionRow, nul_error, session_row, touch_session, touch_block, log_only}
use carqna_agent.Sessions.Visible.{visible}
use carqna_agent.Sessions.Creation.{is_bad_name, has_name, mine}
use carqna_agent.Sessions.Listing.{IsDescending, list_sessions_up, list_sessions-IsListing}
use carqna_agent.Tracking.{Profile}
use carqna_agent.Tracking.Laws.{track_user-IsConsistent}
use carqna_agent.Tracking.Effects.{track_user-SameForOthers}
use carqna_agent.Auth.Context.{AuthContext}
use carqna_agent.Errors.Action.{resume, lift, ◌>>◌}
use carqna_agent.Server.Routes.{
  Response, langgraph_agent_endpoint, list_sessions_endpoint, session_id_of, session, stream,
  session_list, thread_key,
}
use carqna_agent.Server.Isolation.{tracked, chat_lem, list_lem}
use carqna_agent.Server.Threads.{thread_key_injective}

-- The answer to a chat, by its thread id.
abbrev pub chat_answer : Text → Text → Option ℤ → Result Response
chat_answer user_id thread_id none =
    raised (http_exception 400 (codes "thread_id must be a valid session id"))
chat_answer user_id thread_id (some z) = returned (stream (user_id ++ (codes ":" ++ thread_id)))

-- The answer of POST /sessions, by the caller's rows and whether they are registered.
abbrev pub creation_answer : ℕ → Text → Bool → ℕ → Bool → List SessionRow → Result Response
creation_answer now name unstorable id registered mine =
    if is_bad_name name
    then raised
        (http_exception 400 (codes "session_name must be non-empty and at most 256 characters"))
    else if unstorable
    then raised nul_error
    else if not registered
    then raised (http_exception 500 (codes "Failed to create session"))
    else if any (has_name name) mine
    then raised (http_exception 409 (codes "A session with that name already exists"))
    else returned (session (record { id = id; session_name = name; access_ts = now }))

-- The caller's rows after an answer.
abbrev pub shown_after : Result Response → List SessionRow → List SessionRow
shown_after (returned (session row)) mine = row ∷ mine
shown_after _ mine = mine

streamed :
    (u thread_id key : Text) (o : Option ℤ)
    → parse_int thread_id ≡ o
    → chat_answer u thread_id o ≡ returned (stream key)
    → (z : ℤ) × (parse_int thread_id ≡ some z) × (thread_key u thread_id ≡ key)
unfolding thread_key
streamed u thread_id key none e h = cc
streamed u thread_id key (some z) e h = (z, e, cc (h))

module _ (http_get : Text → Text → Result Profile) (domain : Option Text) (pool : Pool) (now : ℕ)
    (ctx : AuthContext) where
  pub touch_ok : (z : ℤ) (db : Db) → (touch_session pool now ctx.user_id z db).0 ≡ returned tt
  unfolding touch_session
  touch_ok z db = logged (pool.connection (Unit {0}) (touch_block now ctx.user_id z) db).0
    where
      logged : (r : Result (Unit {0})) → log_only r ≡ returned tt
      logged (returned a) = refl
      logged (raised e) = refl

  chat_rest :
      (thread_id : Text) (o : Option ℤ) (db : Db)
      → (resume
          (λ z.
            touch_session pool now ctx.user_id z
            >> lift (returned (stream (thread_key ctx.user_id thread_id))))
          (session_id_of o)
          db).0
        ≡ chat_answer ctx.user_id thread_id o
  unfolding thread_key
  chat_rest thread_id none db = refl
  chat_rest thread_id (some z) db = rw (touch_ok z db) refl

  -- A chat of an identified user, for every pool, every state of the tables and every answer of the
  -- identity provider: if `int` reads the thread id, it is answered with a stream on the checkpoint
  -- thread that is named by the user, a colon and the thread id, and else with 400.
  pub langgraph_agent_endpoint_lem :
      (thread_id : Text) (db : Db)
      → (langgraph_agent_endpoint http_get domain pool now (some ctx) thread_id db).0
        ≡ chat_answer ctx.user_id thread_id (parse_int thread_id)
  langgraph_agent_endpoint_lem thread_id db =
      rw (chat_lem http_get domain pool now ctx thread_id db)
        (chat_rest thread_id (parse_int thread_id) (tracked http_get domain pool now ctx db))

  module _ (db : Db) (t : IsTransactional pool) (up : IsUp pool) (c : IsConsistent db) where
    abbrev after : Db
    after = tracked http_get domain pool now ctx db

    IsConsistent-after : IsConsistent after
    IsConsistent-after =
        track_user-IsConsistent http_get domain now ctx.user_id ctx.access_token pool db t c

    mine-after : mine ctx.user_id after ≡ mine ctx.user_id db
    mine-after = ap (map session_row) (
        (track_user-SameForOthers now ctx.user_id http_get domain ctx.access_token pool db t
            c).sessions
          ctx.user_id)

    -- GET /sessions, behind a transactional pool that is up, on tables that satisfy their
    -- constraints: the answer is a list of all the rows that the caller saw before the request,
    -- each once, latest access first.
    pub list_sessions_endpoint_lem :
        (rows : List SessionRow) × ((list_sessions_endpoint http_get domain pool now
            (some ctx)
            db).0
          ≡ returned (session_list rows))
        × Perm rows (mine ctx.user_id db)
        × IsDescending rows
    list_sessions_endpoint_lem =
        let listed = list_sessions_up pool ctx.user_id after t up IsConsistent-after in
        let rows = map session_row (sort_desc (visible ctx.user_id after)) in
        let listing =
          list_sessions-IsListing pool ctx.user_id after after rows t IsConsistent-after listed in
        (
          rows,
          rw (list_lem http_get domain pool now ctx db) (rw listed refl),
          subst (Perm rows) mine-after listing.complete,
          listing.latest_first,
        )

-- Two chats that are both answered with a stream run on one thread only if they are the same user's,
-- with the same thread id.
pub chat_threads_separate :
    (http_get http_get' : Text → Text → Result Profile) (domain domain' : Option Text)
    (pool pool' : Pool) (now now' : ℕ) (ctx ctx' : AuthContext) (thread_id thread_id' key : Text)
    (db db' : Db)
    → (langgraph_agent_endpoint http_get domain pool now (some ctx) thread_id db).0
      ≡ returned (stream key)
    → (langgraph_agent_endpoint http_get' domain' pool' now' (some ctx') thread_id' db').0
      ≡ returned (stream key)
    → (ctx.user_id ≡ ctx'.user_id) × (thread_id ≡ thread_id')
chat_threads_separate http_get http_get' domain domain' pool pool' now now' ctx ctx' thread_id
      thread_id' key db db' h h' =
    let (z, e, same) =
      streamed ctx.user_id thread_id key (parse_int thread_id) refl
        (sym (langgraph_agent_endpoint_lem http_get domain pool now ctx thread_id db) ∙ h) in
    let (z', e', same') =
      streamed ctx'.user_id thread_id' key (parse_int thread_id') refl (
        sym (langgraph_agent_endpoint_lem http_get' domain' pool' now' ctx' thread_id' db') ∙ h') in
    thread_key_injective ctx.user_id ctx'.user_id thread_id thread_id' z z' e e' (same ∙ sym same')
