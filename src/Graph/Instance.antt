-- ===== src/Graph/Instance.antt =====
-- `get_graph`, the module's `_graph_instance`, and `graph`, which is made when the module is imported.
pub mod Laws
use carqna_agent.Common.{Bool, true, false, ◌||◌, Option, none, some, [], ◌∷◌, if◌then◌else◌}
use carqna_agent.PyText.{Text, codes, starts_with}
use carqna_agent.Errors.{Result, returned, raised, runtime_error}
use carqna_agent.Os.{Os}
use carqna_agent.Graph.Tools.{McpState}
use carqna_agent.Graph.Create.{Services, create_graph}

pub record GraphState (C T G : Type 0) : Type 0 where
  pub mcp : McpState C T
  pub graph_instance : Option G

-- t in s
unfoldable pub contains : Text → Text → Bool
unfolding starts_with
contains t [] = starts_with [] t
contains t (c ∷ s) = starts_with (c ∷ s) t || contains t s

abbrev pub guidance : Text
guidance = codes "Graph not yet initialized. Call create_graph() in async context instead."

-- asyncio.get_running_loop() and asyncio.run(…) where they raise
abbrev pub no_loop : Text
no_loop = codes "no running event loop"

abbrev pub cannot_run : Text
cannot_run = codes "asyncio.run() cannot be called from a running event loop"

module _ {C T K P G : Type 0} (sv : Services C T K P G) (os : Os) where
  abbrev pub store : Result G × McpState C T → Result G × GraphState C T G
  store (returned g, m) = (returned g, record { mcp = m; graph_instance = some g })
  store (raised e, m) = (raised e, record { mcp = m; graph_instance = none })

  -- asyncio.run(create_graph()), where an event loop runs already or not
  abbrev pub run_create : Bool → McpState C T → Result G × McpState C T
  run_create true m = (raised (runtime_error cannot_run), m)
  run_create false m = create_graph sv os none m

  -- except RuntimeError as e
  abbrev pub recover : Bool → Text → McpState C T → Result G × GraphState C T G
  recover in_loop e m =
      if contains (codes "asyncio.run()") e
      then (raised (runtime_error e), record { mcp = m; graph_instance = none })
      else store (run_create in_loop m)

  abbrev pub get_or_make : Bool → Option G → McpState C T → Result G × GraphState C T G
  get_or_make in_loop (some g) m = (returned g, record { mcp = m; graph_instance = some g })
  get_or_make in_loop none m = recover in_loop (if in_loop then guidance else no_loop) m

  unfoldable pub get_graph : Bool → GraphState C T G → Result G × GraphState C T G
  get_graph in_loop st = get_or_make in_loop st.graph_instance st.mcp

  -- graph = None, and then get_graph() where an exception is logged only
  abbrev pub or_none : Result G → Option G
  or_none (returned g) = some g
  or_none (raised e) = none

  unfoldable pub import_graph : Bool → Option G × GraphState C T G
  import_graph in_loop =
      let (r, st) =
        get_graph in_loop
          (record { mcp = record { mcp_client = none; mcp_tools = [] }; graph_instance = none }) in
      (or_none r, st)
