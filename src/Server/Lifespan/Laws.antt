-- ===== src/Server/Lifespan/Laws.antt =====
-- The life of the server: what it took it gives back, and it serves only with everything in place.
use mathlib.Core.Path.{subst}
use carqna_agent.Common.{◌≡◌, refl, ap, sym, ◌∙◌, Bool, true, false, some, List, [], ◌∷◌, ◌++◌}
use carqna_agent.Errors.{Exception, Result, returned, raised}
use carqna_agent.Errors.Action.{over}
use carqna_agent.Os.{Os}
use carqna_agent.Graph.Settings.{get_conn_string}
use carqna_agent.Graph.Create.{Services, create_graph}
use carqna_agent.Server.Lifespan.{
  Event, Startup, Externals, is_returned, call_event, graph_created, routes_mounted, served,
  saver_left, pool_closed, agent_made, saver_set_up, saver_entered, pool_opened, client_made,
  graph_with, serve_agent, serve_graph, serve_saver, saver_block, leaving, within_saver, try_block,
  with_pool, open_and_serve, lifespan, module_of,
}
use carqna_agent.Server.Lifespan.Stages.{
  Stage, down, pooled, entered, with_tables, with_graph, with_agent, mounted, done, saver_of,
  has_served, client, open_ok, open_failed, enter_ok, enter_failed, set_up_ok, set_up_failed,
  create_ok, create_failed, make_ok, make_failed, mount, yield_ends, leave, close, Trace, stop, go,
}
use carqna_agent.Server.Lifespan.Runs.{
  Reached, Reached-then, Runs, Runs-call, AtEnd, Runs-AtEnd, Runs-chain,
}

module _ {C T K P G A : Type 0} (sv : Services C T K P G) (os : Os) (x : Externals P G A) where
  graph_with-AtEnd :
      (checkpointer : P)
      → Runs sv os x
          (graph_with sv os x checkpointer)
          (with_tables checkpointer)
          (AtEnd sv os x (with_graph checkpointer) (with_tables checkpointer))
  graph_with-AtEnd checkpointer st =
      Runs-AtEnd sv os x graph_created
        (create_graph sv os (some checkpointer) (module_of sv os x st.graph_module).mcp).0
        (with_tables checkpointer) (with_graph checkpointer) (with_tables checkpointer)
        (λ g e. create_ok (module_of sv os x st.graph_module).mcp e) (λ e. create_failed)
        (record st { graph_module = (graph_with sv os x checkpointer st).1.graph_module })

  -- The block ends while the saver is held, and where it returns it has served.
  abbrev Block : P → Result (Unit {0}) → Stage P G A → Type 0
  Block p r b = (saver_of b ≡ some p) × (is_returned r ≡ true → has_served b ≡ true)

  Block-raised :
      (p : P) (e : Exception) (b : Stage P G A) → saver_of b ≡ some p → Block p (raised e) b
  Block-raised p e b h = (h, λ q. cc)

  module _ (p : P) where
    serve_agent-Runs :
        (agent : A) → Runs sv os x (serve_agent sv os x agent) (with_agent p agent) (Block p)
    serve_agent-Runs agent =
        Runs-chain sv os x (with_agent p agent) (λ _. mounted p agent) (with_agent p agent)
          (Block p) (call_event {B = Unit {0}} (λ b. routes_mounted) (returned tt))
          (λ _. call_event (λ r. served (is_returned r)) (x.serving agent))
          (λ st. (mounted p agent, routes_mounted ∷ [], refl, go mount stop, refl))
          (λ _.
            Runs-call sv os x (λ r. served (is_returned r)) (x.serving agent) (mounted p agent)
              (done p) (Block p) yield_ends (refl, λ q. refl))
          (λ e. Block-raised p e (with_agent p agent) refl)

    serve_graph-Runs :
        (graph : G) → Runs sv os x (serve_graph sv os x graph) (with_graph p graph) (Block p)
    serve_graph-Runs graph =
        Runs-chain sv os x (with_graph p graph) (with_agent p) (with_graph p graph) (Block p)
          (call_event agent_made (x.make_agent graph)) (serve_agent sv os x)
          (Runs-AtEnd sv os x agent_made (x.make_agent graph) (with_graph p graph) (with_agent p)
            (with_graph p graph) (λ a e. make_ok e) (λ e. make_failed))
          serve_agent-Runs (λ e. Block-raised p e (with_graph p graph) refl)

    serve_saver-Runs : Runs sv os x (serve_saver sv os x p) (with_tables p) (Block p)
    serve_saver-Runs =
        Runs-chain sv os x (with_tables p) (with_graph p) (with_tables p) (Block p)
          (graph_with sv os x p) (serve_graph sv os x) (graph_with-AtEnd p) serve_graph-Runs
          (λ e. Block-raised p e (with_tables p) refl)

    saver_block-Runs : Runs sv os x (saver_block sv os x p) (entered p) (Block p)
    saver_block-Runs =
        Runs-chain sv os x (entered p) (λ _. with_tables p) (entered p) (Block p)
          (call_event (λ r. saver_set_up (is_returned r)) (x.setup p)) (λ _. serve_saver sv os x p)
          (Runs-AtEnd sv os x (λ r. saver_set_up (is_returned r)) (x.setup p) (entered p)
            (λ _. with_tables p) (entered p) (λ _ e. set_up_ok e) (λ e. set_up_failed))
          (λ _. serve_saver-Runs) (λ e. Block-raised p e (entered p) refl)

  -- The exit of the saver lets no exception of its block pass for a normal end.
  abbrev pub IsTransparent : Type 0
  IsTransparent =
      (checkpointer : P) (r : Result (Unit {0}))
      → is_returned (x.leave_saver checkpointer r) ≡ true
      → is_returned r ≡ true

  -- The pool alone is held, or nothing, and a normal end means that the server has served.
  abbrev Pooled : Result (Unit {0}) → Stage P G A → Type 0
  Pooled r b = (h : Bool) × (b ≡ pooled h) × (IsTransparent → is_returned r ≡ true → h ≡ true)

  abbrev Down : Result (Unit {0}) → Stage P G A → Type 0
  Down r b = (h : Bool) × (b ≡ down h) × (IsTransparent → is_returned r ≡ true → h ≡ true)

  leaving-Reached :
      (checkpointer : P) (before : List (Event P G A)) (r : Result (Unit {0}))
      (st : Startup C T P G A)
      → Reached sv os x before (entered checkpointer) (Block checkpointer) r st
      → Reached sv os x before
          (entered checkpointer)
          Pooled
          (leaving sv os x checkpointer (r, st)).0
          (leaving sv os x checkpointer (r, st)).1
  leaving-Reached checkpointer before r st h =
      Reached-then sv os x before (entered checkpointer) (Block checkpointer) Pooled r st
        (leaving sv os x checkpointer (r, st)).0 (leaving sv os x checkpointer (r, st)).1 h
        (λ b (held, q).
          Runs-call sv os x (λ c. saver_left (is_returned c)) (x.leave_saver checkpointer r) b
            (pooled (has_served b)) Pooled (leave checkpointer r held)
            (has_served b, refl, λ t e. q (t checkpointer r e)) st)

  within_saver-Runs :
      (checkpointer : P)
      → Runs sv os x (within_saver sv os x checkpointer) (entered checkpointer) Pooled
  within_saver-Runs checkpointer st =
      leaving-Reached checkpointer st.events (saver_block sv os x checkpointer st).0
        (saver_block sv os x checkpointer st).1 (saver_block-Runs checkpointer st)

  try_block-Runs : Runs sv os x (try_block sv os x (get_conn_string os)) (pooled false) Pooled
  try_block-Runs =
      Runs-chain sv os x (pooled false) entered (pooled false) Pooled
        (call_event saver_entered (x.enter_saver (get_conn_string os))) (within_saver sv os x)
        (Runs-AtEnd sv os x saver_entered (x.enter_saver (get_conn_string os)) (pooled false)
          entered (pooled false) (λ p e. enter_ok e) (λ e. enter_failed))
        within_saver-Runs (λ e. (false, refl, λ t q. cc))

  closed_with :
      Result (Unit {0})
      → Result (Unit {0})
      → Startup C T P G A
      → Result (Unit {0}) × Startup C T P G A
  closed_with c r st = over r (call_event (λ r. pool_closed (is_returned r)) c st)

  closes :
      (c r : Result (Unit {0})) (st : Startup C T P G A) (h : Bool)
      → (IsTransparent → is_returned r ≡ true → h ≡ true)
      → Reached sv os x st.events (pooled h) Down (closed_with c r st).0 (closed_with c r st).1
  unfolding closed_with
  closes (returned o) r st h q = (down h, pool_closed true ∷ [], refl, go close stop, (h, refl, q))
  closes (raised y) r st h q =
      (down h, pool_closed false ∷ [], refl, go close stop, (h, refl, λ t z. cc))

  over-Reached :
      (before : List (Event P G A)) (c r : Result (Unit {0})) (st : Startup C T P G A)
      → Reached sv os x before (pooled false) Pooled r st
      → Reached sv os x before (pooled false) Down (closed_with c r st).0 (closed_with c r st).1
  over-Reached before c r st h =
      Reached-then sv os x before (pooled false) Pooled Down r st (closed_with c r st).0
        (closed_with c r st).1 h
        (λ b (k, e, q).
          subst
            (λ s. Reached sv os x st.events s Down (closed_with c r st).0 (closed_with c r st).1)
            (sym e) (closes c r st k q))

  with_pool-Runs : Runs sv os x (with_pool sv os x (get_conn_string os)) (pooled false) Down
  with_pool-Runs st =
      unfold closed_with in
      over-Reached st.events (x.close_pool (get_conn_string os))
        (try_block sv os x (get_conn_string os) st).0 (try_block sv os x (get_conn_string os) st).1
        (try_block-Runs st)

  Down-raised : (e : Exception) → Down (raised e) (down false)
  Down-raised e = (false, refl, λ t q. cc)

  open_and_serve-Runs : Runs sv os x (open_and_serve sv os x (get_conn_string os)) (down false) Down
  open_and_serve-Runs =
      Runs-chain sv os x (down false) (λ _. pooled false) (down false) Down
        (call_event (λ r. pool_opened (is_returned r)) (x.open_pool (get_conn_string os)))
        (λ _. with_pool sv os x (get_conn_string os))
        (Runs-AtEnd sv os x (λ r. pool_opened (is_returned r)) (x.open_pool (get_conn_string os))
          (down false) (λ _. pooled false) (down false) (λ _ e. open_ok e) (λ e. open_failed))
        (λ _. with_pool-Runs) Down-raised

  lifespan-Runs : Runs sv os x (lifespan sv os x) (down false) Down
  unfolding lifespan
  lifespan-Runs st =
      Runs-chain sv os x (down false) (λ _. down false) (down false) Down
        (call_event (λ r. client_made (is_returned r)) x.langsmith_client)
        (λ _. open_and_serve sv os x (get_conn_string os))
        (Runs-AtEnd sv os x (λ r. client_made (is_returned r)) x.langsmith_client (down false)
          (λ _. down false) (down false) (λ _ e. client) (λ e. client))
        (λ _. open_and_serve-Runs) Down-raised
        (record st { graph_module = some (module_of sv os x st.graph_module) })

  -- Whatever fails, the calls of the lifespan are a life of the server that starts and ends with
  -- nothing held: the pool is opened first and closed last, the saver is left before the pool is
  -- closed, and the server serves only between them, with the tables set up by that saver, a graph
  -- that create_graph has returned for that saver, an agent that was made of that graph, and the
  -- routes mounted; what is served is that agent, and what is left is that saver.
  pub lifespan-Trace :
      (st : Startup C T P G A)
      → (new : List (Event P G A)) × (h : Bool) × ((lifespan sv os x st).1.events
          ≡ st.events ++ new)
        × Trace sv os x (down false) new (down h)
  lifespan-Trace st =
      let (b, new, e, t, (h, d, q)) = lifespan-Runs st in
      (new, h, e, subst (λ s. Trace sv os x (down false) new s) d t)

  -- If the exit of the saver lets no exception of its block pass for a normal end, a lifespan that
  -- returns has served.
  pub lifespan_serves :
      (st : Startup C T P G A)
      → IsTransparent
      → (lifespan sv os x st).0 ≡ returned tt
      → (new : List (Event P G A)) × ((lifespan sv os x st).1.events ≡ st.events ++ new)
        × Trace sv os x (down false) new (down true)
  lifespan_serves st transparent r =
      let (b, new, e, t, (h, d, q)) = lifespan-Runs st in
      (
        new,
        e,
        subst (λ s. Trace sv os x (down false) new s)
            (d ∙ ap down (q transparent (ap is_returned r))) t,
      )
