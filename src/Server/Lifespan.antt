-- ===== src/Server/Lifespan.antt =====
-- `lifespan` of src/agent/copilotkit_server.py: what the server holds while it serves.
pub mod Stages
pub mod Runs
pub mod Laws
mod Tests
use carqna_agent.Common.{Bool, true, false, Option, none, some, List, [], ◌∷◌, ◌++◌}
use carqna_agent.PyText.{Text}
use carqna_agent.Errors.{Result, returned, raised}
use carqna_agent.Errors.Action.{Action, lift, finally_do, ◌>>=◌, ◌>>◌}
use carqna_agent.Os.{Os}
use carqna_agent.Graph.Settings.{get_conn_string}
use carqna_agent.Graph.Tools.{McpState}
use carqna_agent.Graph.Create.{Services, create_graph}
use carqna_agent.Graph.Instance.{GraphState, import_graph}

-- A call that is over: whether it returned, or, where it makes something, its result. `P` are the
-- savers, `G` the graphs and `A` the agents.
pub data Event (P G A : Type 0) : Type 0 where
  -- langsmith.Client()
  client_made : Bool → Event P G A
  -- await user_pool.open() and user_pool.close()
  pool_opened : Bool → Event P G A
  pool_closed : Bool → Event P G A
  -- the `async with` of the saver, in and out
  saver_entered : Result P → Event P G A
  saver_left : Bool → Event P G A
  -- await checkpointer.setup()
  saver_set_up : Bool → Event P G A
  graph_created : Result G → Event P G A
  agent_made : Result A → Event P G A
  -- app.post("/"), app.get("/sessions"), app.post("/sessions") and app.get("/health")
  routes_mounted : Event P G A
  -- the `yield`
  served : Bool → Event P G A

-- The calls so far, and the module graph.py once it is imported.
pub record Startup (C T P G A : Type 0) : Type 0 where
  pub events : List (Event P G A)
  pub graph_module : Option (GraphState C T G)

-- What the lifespan calls beyond the repository: the pool with its connection string, the saver of that
-- string, and the agent `A` that LangGraphAGUIAgent makes of a graph. `serving` is how the `yield`
-- ends, and `leave_saver` what the saver's exit makes of the end of its block.
pub record Externals (P G A : Type 0) : Type 0 where
  pub langsmith_client : Result (Unit {0})
  pub open_pool : Text → Result (Unit {0})
  pub close_pool : Text → Result (Unit {0})
  pub enter_saver : Text → Result P
  pub leave_saver : P → Result (Unit {0}) → Result (Unit {0})
  pub setup : P → Result (Unit {0})
  pub make_agent : G → Result A
  pub serving : A → Result (Unit {0})

abbrev pub is_returned : {A : Type 0} → Result A → Bool
is_returned (returned a) = true
is_returned (raised e) = false

-- A call by its end.
abbrev pub call_event :
    {C T P G A B : Type 0} → (Result B → Event P G A) → Result B → Action (Startup C T P G A) B
call_event event r st = (r, record st { events = st.events ++ event r ∷ [] })

module _ {C T K P G A : Type 0} (sv : Services C T K P G) (os : Os) (x : Externals P G A) where
  abbrev pub State : Type 0
  State = Startup C T P G A

  -- from agent.graph import create_graph, in the event loop; a second import runs nothing.
  abbrev pub module_of : Option (GraphState C T G) → GraphState C T G
  module_of none = (import_graph sv os true).1
  module_of (some m) = m

  abbrev pub import_once : Action State (Unit {0})
  import_once st = (returned tt, record st { graph_module = some (module_of st.graph_module) })

  abbrev pub with_tools : GraphState C T G → Result G × McpState C T → Action State G
  with_tools m (r, mcp) st =
      call_event graph_created r (record st { graph_module = some (record m { mcp = mcp }) })

  -- await create_graph(checkpointer=checkpointer)
  abbrev pub graph_with : P → Action State G
  graph_with checkpointer st =
      let m = module_of st.graph_module in
      with_tools m (create_graph sv os (some checkpointer) m.mcp) st

  -- The block of the `async with`, and what is left of it behind its first three calls.
  abbrev pub serve_agent : A → Action State (Unit {0})
  serve_agent agent =
      call_event (λ _. routes_mounted) (returned tt)
      >> call_event (λ r. served (is_returned r)) (x.serving agent)

  abbrev pub serve_graph : G → Action State (Unit {0})
  serve_graph graph = call_event agent_made (x.make_agent graph) >>= serve_agent

  abbrev pub serve_saver : P → Action State (Unit {0})
  serve_saver checkpointer = graph_with checkpointer >>= serve_graph

  abbrev pub saver_block : P → Action State (Unit {0})
  saver_block checkpointer =
      call_event (λ r. saver_set_up (is_returned r)) (x.setup checkpointer)
      >> serve_saver checkpointer

  -- The exit of the `async with`, which is called however its block has ended.
  abbrev pub leaving : P → Result (Unit {0}) × State → Result (Unit {0}) × State
  leaving checkpointer (r, st) =
      call_event (λ r. saver_left (is_returned r)) (x.leave_saver checkpointer r) st

  abbrev pub within_saver : P → Action State (Unit {0})
  within_saver checkpointer st = leaving checkpointer (saver_block checkpointer st)

  abbrev pub try_block : Text → Action State (Unit {0})
  try_block conn_string = call_event saver_entered (x.enter_saver conn_string) >>= within_saver

  abbrev pub with_pool : Text → Action State (Unit {0})
  with_pool conn_string =
      finally_do (try_block conn_string)
        (call_event (λ r. pool_closed (is_returned r)) (x.close_pool conn_string))

  abbrev pub open_and_serve : Text → Action State (Unit {0})
  open_and_serve conn_string =
      call_event (λ r. pool_opened (is_returned r)) (x.open_pool conn_string)
      >> with_pool conn_string

  unfoldable pub lifespan : Action State (Unit {0})
  lifespan =
      import_once
      >> (call_event (λ r. client_made (is_returned r)) x.langsmith_client
          >> open_and_serve (get_conn_string os))
