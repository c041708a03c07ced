-- ===== src/Server/Padding.antt =====
-- Thread ids that `int` reads alike are one session and different conversations.
use carqna_agent.Common.{
  ℕ, ℤ, ◌≡◌, ◌≢◌, refl, ap, sym, ◌∙◌, Option, some, ◌∷◌, ◌++◌, arith, length, length-append,
}
use carqna_agent.PyText.{Text, codes, strip, lstrip}
use carqna_agent.PyText.Int.{parse_int}
use carqna_agent.Errors.{Result, returned}
use carqna_agent.Database.{Db}
use carqna_agent.Database.Pool.{Pool}
use carqna_agent.Sessions.{touch_session}
use carqna_agent.Tracking.{Profile}
use carqna_agent.Auth.Context.{AuthContext}
use carqna_agent.Server.Routes.{langgraph_agent_endpoint, stream}
use carqna_agent.Server.Isolation.{tracked, chat_lem}
use carqna_agent.Server.Answers.{touch_ok, chat_answer, langgraph_agent_endpoint_lem}

padded_int : (t : Text) → parse_int (32 ∷ t) ≡ parse_int t
unfolding parse_int strip lstrip
padded_int t = refl

padded_key : (u t : Text) → u ++ (codes ":" ++ 32 ∷ t) ≢ u ++ (codes ":" ++ t)
padded_key u t e =
    omega (arith, ap length e, length-append u (58 ∷ 32 ∷ t), length-append u (58 ∷ t))

module _ (http_get : Text → Text → Result Profile) (domain : Option Text) (pool : Pool) (now : ℕ)
    (ctx : AuthContext) where
  -- The tables that a chat leaves, by the number that `int` reads.
  chat_tables :
      (t : Text) (z : ℤ) (db : Db)
      → parse_int t ≡ some z
      → (langgraph_agent_endpoint http_get domain pool now (some ctx) t db).1
        ≡ (touch_session pool now ctx.user_id z (tracked http_get domain pool now ctx db)).1
  chat_tables t z db e =
      rw (chat_lem http_get domain pool now ctx t db, e)
        (rw (touch_ok http_get domain pool now ctx z (tracked http_get domain pool now ctx db))
          refl)

  -- A chat whose thread id `int` reads, and the same chat with a space in front of its thread id:
  -- both are answered with a stream, and both leave the same tables, so the same session is touched;
  -- but the streams run on different checkpoint threads, each with the thread id as it was sent.
  pub padded_thread_id :
      (t : Text) (z : ℤ) (db : Db)
      → parse_int t ≡ some z
      → ((langgraph_agent_endpoint http_get domain pool now (some ctx) t db).0
          ≡ returned (stream (ctx.user_id ++ (codes ":" ++ t))))
        × ((langgraph_agent_endpoint http_get domain pool now (some ctx) (32 ∷ t) db).0
            ≡ returned (stream (ctx.user_id ++ (codes ":" ++ 32 ∷ t))))
        × ((langgraph_agent_endpoint http_get domain pool now (some ctx) (32 ∷ t) db).1
            ≡ (langgraph_agent_endpoint http_get domain pool now (some ctx) t db).1)
        × (ctx.user_id ++ (codes ":" ++ 32 ∷ t) ≢ ctx.user_id ++ (codes ":" ++ t))
  padded_thread_id t z db e = (
    langgraph_agent_endpoint_lem http_get domain pool now ctx t db
        ∙ ap (chat_answer ctx.user_id t) e,
    langgraph_agent_endpoint_lem http_get domain pool now ctx (32 ∷ t) db
        ∙ ap (chat_answer ctx.user_id (32 ∷ t)) (padded_int t ∙ e),
    chat_tables (32 ∷ t) z db (padded_int t ∙ e) ∙ sym (chat_tables t z db e),
    padded_key ctx.user_id t,
  )
