-- ===== src/Server/Lifespan/Stages.antt =====
-- What a server may do at each stage of its life, as a step relation on the calls.
use carqna_agent.Common.{◌≡◌, Bool, true, false, Option, none, some, List, [], ◌∷◌, ◌++◌}
use carqna_agent.Errors.{Exception, Result, returned, raised}
use carqna_agent.Os.{Os}
use carqna_agent.Graph.Settings.{get_conn_string}
use carqna_agent.Graph.Tools.{McpState}
use carqna_agent.Graph.Create.{Services, create_graph}
use carqna_agent.Server.Lifespan.{
  Event, Externals, is_returned, client_made, pool_opened, pool_closed, saver_entered, saver_left,
  saver_set_up, graph_created, agent_made, routes_mounted, served,
}

-- `down` and `pooled` tell whether the server has served.
pub data Stage (P G A : Type 0) : Type 0 where
  -- nothing is held
  down : Bool → Stage P G A
  -- the pool alone
  pooled : Bool → Stage P G A
  -- the pool and the saver, from here on; then the tables are set up, and there is a graph, an agent
  -- of it, and its routes
  entered : P → Stage P G A
  with_tables : P → Stage P G A
  with_graph : P → G → Stage P G A
  with_agent : P → A → Stage P G A
  mounted : P → A → Stage P G A
  done : P → Stage P G A

abbrev pub saver_of : {P G A : Type 0} → Stage P G A → Option P
saver_of (down b) = none
saver_of (pooled b) = none
saver_of (entered p) = some p
saver_of (with_tables p) = some p
saver_of (with_graph p g) = some p
saver_of (with_agent p a) = some p
saver_of (mounted p a) = some p
saver_of (done p) = some p

abbrev pub has_served : {P G A : Type 0} → Stage P G A → Bool
has_served (down b) = b
has_served (pooled b) = b
has_served (done p) = true
has_served _ = false

module _ {C T K P G A : Type 0} (sv : Services C T K P G) (os : Os) (x : Externals P G A) where
  -- A failed call leaves the stage, but for the end of serving, and for the two that give something
  -- back: what they give back is gone. Each call works on what the stage has: the graph is created
  -- from the saver that is held, the agent made of that graph, and that agent is served.
  pub data Step : Stage P G A → Event P G A → Stage P G A → Type 0 where
    client : {b : Bool} → Step (down false) (client_made b) (down false)
    open_ok :
        x.open_pool (get_conn_string os) ≡ returned tt
        → Step (down false) (pool_opened true) (pooled false)
    open_failed : Step (down false) (pool_opened false) (down false)
    enter_ok :
        {p : P}
        → x.enter_saver (get_conn_string os) ≡ returned p
        → Step (pooled false) (saver_entered (returned p)) (entered p)
    enter_failed : {e : Exception} → Step (pooled false) (saver_entered (raised e)) (pooled false)
    set_up_ok :
        {p : P} → x.setup p ≡ returned tt → Step (entered p) (saver_set_up true) (with_tables p)
    set_up_failed : {p : P} → Step (entered p) (saver_set_up false) (entered p)
    create_ok :
        {p : P} {g : G} (mcp : McpState C T)
        → (create_graph sv os (some p) mcp).0 ≡ returned g
        → Step (with_tables p) (graph_created (returned g)) (with_graph p g)
    create_failed :
        {p : P} {e : Exception} → Step (with_tables p) (graph_created (raised e)) (with_tables p)
    make_ok :
        {p : P} {g : G} {a : A}
        → x.make_agent g ≡ returned a
        → Step (with_graph p g) (agent_made (returned a)) (with_agent p a)
    make_failed :
        {p : P} {g : G} {e : Exception}
        → Step (with_graph p g) (agent_made (raised e)) (with_graph p g)
    mount : {p : P} {a : A} → Step (with_agent p a) routes_mounted (mounted p a)
    yield_ends : {p : P} {a : A} → Step (mounted p a) (served (is_returned (x.serving a))) (done p)
    leave :
        {s : Stage P G A} (p : P) (r : Result (Unit {0}))
        → saver_of s ≡ some p
        → Step s (saver_left (is_returned (x.leave_saver p r))) (pooled (has_served s))
    close : {h b : Bool} → Step (pooled h) (pool_closed b) (down h)

  pub data Trace : Stage P G A → List (Event P G A) → Stage P G A → Type 0 where
    stop : {s : Stage P G A} → Trace s [] s
    go :
        {s t u : Stage P G A} {e : Event P G A} {es : List (Event P G A)}
        → Step s e t
        → Trace t es u
        → Trace s (e ∷ es) u

  pub Trace-append :
      (es fs : List (Event P G A)) {s t u : Stage P G A}
      → Trace s es t
      → Trace t fs u
      → Trace s (es ++ fs) u
  Trace-append [] fs stop b = b
  Trace-append (e ∷ es) fs (go a rest) b = go a (Trace-append es fs rest b)
