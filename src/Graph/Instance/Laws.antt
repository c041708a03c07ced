-- ===== src/Graph/Instance/Laws.antt =====
-- The instance is made once, and never inside an event loop.
use carqna_agent.Common.{
  arith, length, ◌≡◌, ◌≢◌, refl, sym, ap, Bool, true, false, Option, some, none,
}
use carqna_agent.PyText.{Text}
use carqna_agent.Errors.{Result, returned, raised, runtime_error}
use carqna_agent.Os.{Os}
use carqna_agent.Graph.Tools.{McpState}
use carqna_agent.Graph.Create.{Services, create_graph}
use carqna_agent.Graph.Instance.{
  GraphState, contains, guidance, cannot_run, store, get_or_make, get_graph,
}

-- The state is its tools and its instance.
same_state :
    {C T G : Type 0} (st : GraphState C T G) (o : Option G)
    → st.graph_instance ≡ o
    → record { mcp = st.mcp; graph_instance = o } ≡ st
same_state st o e = ap (λ x. record st { graph_instance = x }) (sym e)

cannot_run-ne-guidance : cannot_run ≢ guidance
cannot_run-ne-guidance e = absurd (omega (arith, ap length e))

runtime_text :
    {A : Type 0} {s t : Text}
    → ◌≡◌ {A = Result A} (raised (runtime_error s)) (raised (runtime_error t))
    → s ≡ t
runtime_text e = cc

module _ {C T K P G : Type 0} (sv : Services C T K P G) (os : Os) where
  -- In a running event loop, and with no instance yet, `get_graph` raises the error of asyncio.run
  -- and changes nothing; the guidance that it composes is never what is raised.
  pub get_graph_in_loop :
      (st : GraphState C T G)
      → st.graph_instance ≡ none
      → (get_graph sv os true st ≡ (raised (runtime_error cannot_run), st))
        × ((get_graph sv os true st).0 ≢ raised (runtime_error guidance))
  unfolding get_graph contains
  get_graph_in_loop st e = (rw e refl, λ h. cannot_run-ne-guidance (runtime_text (rw e at h)))

  get_graph_made :
      (in_loop : Bool) (st : GraphState C T G) (g : G)
      → st.graph_instance ≡ some g
      → get_graph sv os in_loop st ≡ (returned g, st)
  unfolding get_graph
  get_graph_made in_loop st g e = rw e refl

  store_made :
      (r : Result G × McpState C T) (g : G) (st' : GraphState C T G)
      → store sv os r ≡ (returned g, st')
      → st'.graph_instance ≡ some g
  store_made (returned h, m) g st' e = cc
  store_made (raised x, m) g st' e = cc

  get_or_make_made :
      (in_loop : Bool) (o : Option G) (m : McpState C T) (g : G) (st' : GraphState C T G)
      → get_or_make sv os in_loop o m ≡ (returned g, st')
      → st'.graph_instance ≡ some g
  unfolding contains
  get_or_make_made in_loop (some h) m g st' e = cc
  get_or_make_made true none m g st' e = cc
  get_or_make_made false none m g st' e = store_made (create_graph sv os none m) g st' e

  -- A graph that `get_graph` has returned is what every later call returns, in an event loop or not,
  -- and no later call changes anything.
  pub get_graph_once :
      (in_loop later : Bool) (st st' : GraphState C T G) (g : G)
      → get_graph sv os in_loop st ≡ (returned g, st')
      → get_graph sv os later st' ≡ (returned g, st')
  unfolding get_graph
  get_graph_once in_loop later st st' g e =
      unfold get_graph in
      get_graph_made later st' g (get_or_make_made in_loop st.graph_instance st.mcp g st' e)
