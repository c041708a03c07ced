-- ===== src/Graph/Create/Laws.antt =====
-- What a graph that was created is made of.
use mathlib.Core.Path.{subst}
use carqna_agent.Common.{
  ◌≡◌, true, Option, none, some, List, [], ◌∷◌, Bool-cases, inl, inr, nonempty,
}
use carqna_agent.PyText.{Text, codes, strip, is_space}
use carqna_agent.Errors.{returned, >>=-returned}
use carqna_agent.Os.{Os, getenv, join}
use carqna_agent.Graph.Settings.{load_prompt_from_file}
use carqna_agent.Graph.Backend.{InsuranceBackend}
use carqna_agent.Graph.Tools.{McpState, initialize_mcp_tools}
use carqna_agent.Graph.Tools.Laws.{IsOutcome, initialize_mcp_tools-IsOutcome}
use carqna_agent.Graph.Create.{DeepAgent, Services, backend_here, create_graph}

-- A prompt that was loaded is a file that exists.
abbrev pub prompt_path : Os → Text → Text
prompt_path os filename = join (getenv os (codes "PROMPTS_DIR") (codes ".")) filename

load_prompt_from_file-exists :
    (os : Os) (filename prompt : Text)
    → load_prompt_from_file os filename ≡ returned prompt
    → os.exists (prompt_path os filename) ≡ true
unfolding load_prompt_from_file
load_prompt_from_file-exists os filename prompt h =
    elim (Bool-cases (os.exists (prompt_path os filename))) [ inl e ↦ e | inr e ↦ cc (rw e at h) ]

-- The prompt is the text of that file, without the white space around it.
abbrev pub IsPromptOf : Os → Text → Text → Type 0
IsPromptOf os filename prompt =
    (content : Text) × (os.read_text (prompt_path os filename) ≡ returned content)
    × (strip is_space content ≡ prompt)

load_prompt_from_file-IsPromptOf :
    (os : Os) (filename prompt : Text)
    → load_prompt_from_file os filename ≡ returned prompt
    → IsPromptOf os filename prompt
unfolding load_prompt_from_file
load_prompt_from_file-IsPromptOf os filename prompt h =
    elim (Bool-cases (os.exists (prompt_path os filename))) [
      | inl e ↦
          let (content, r, k) =
            >>=-returned (os.read_text (prompt_path os filename)) _ (rw e at h) in
          (content, r, cc (k))
      | inr e ↦ cc (rw e at h)
    ]

module _ {C T K P G : Type 0} (sv : Services C T K P G) (os : Os) where
  tools_of :
      (st : McpState C T) (tools : List T)
      → (initialize_mcp_tools sv.mcp sv.json_load os st).0 ≡ returned tools
      → (nonempty tools ≡ true)
        × ((initialize_mcp_tools sv.mcp sv.json_load os st).1.mcp_tools ≡ tools)
  tools_of st tools e =
      subst (λ r. IsOutcome r (initialize_mcp_tools sv.mcp sv.json_load os st).1) e
        (initialize_mcp_tools-IsOutcome sv.mcp sv.json_load os st)

  -- The agent as it is to be, for these tools, this store and these prompts.
  abbrev pub wanted_agent :
      Option P → List T → InsuranceBackend K → Text → Text → Text → DeepAgent K T P
  wanted_agent checkpointer tools backend car insurance main = record {
    model = getenv os (codes "LLM_MODEL") (codes "claude-sonnet-4-5-20250929");
    tools = tools;
    backend = backend;
    system_prompt = main;
    subagents =
        record {
          name = codes "car_price_expert";
          description =
              codes "Expert at finding and comparing car prices using Autogeek OpenSearch service.";
          system_prompt = car;
          tools = some tools;
          permissions = [];
        }
        ∷ record {
          name = codes "insurance_expert";
          description =
              codes
                "Expert at answering auto insurance questions using state driver's license handbooks from the filesystem.";
          system_prompt = insurance;
          tools = none;
          permissions =
              record {
                operations = codes "read" ∷ [];
                paths = codes "/" ∷ [];
                mode = codes "allow";
              }
              ∷ record {
                operations = codes "write" ∷ codes "delete" ∷ [];
                paths = codes "/" ∷ [];
                mode = codes "deny";
              }
              ∷ [];
        }
        ∷ [];
    name = codes "Automobile Help Assistant";
    checkpointer = checkpointer;
  }

  -- A graph that `create_graph` returns is made of at least one tool, which is cached, of the store
  -- that the environment selects, and of three prompts, each the stripped text of its own file below
  -- PROMPTS_DIR, a file that exists; the model is the one that is set, the checkpointer is the one
  -- given, the car price expert has the tools and its own prompt, and the insurance expert has its
  -- own prompt, may read everything and is denied to write and to delete.
  pub create_graph_lem :
      (checkpointer : Option P) (st : McpState C T) (g : G)
      → (create_graph sv os checkpointer st).0 ≡ returned g
      → (tools : List T) × (backend : InsuranceBackend K) × (car insurance main : Text)
        × (sv.create_deep_agent (wanted_agent checkpointer tools backend car insurance main)
            ≡ returned g)
        × (nonempty tools ≡ true)
        × ((create_graph sv os checkpointer st).1.mcp_tools ≡ tools)
        × (backend_here sv os ≡ returned backend)
        × (os.exists (prompt_path os (codes "car_price_agent.md")) ≡ true)
        × (os.exists (prompt_path os (codes "insurance_agent.md")) ≡ true)
        × (os.exists (prompt_path os (codes "main_agent.md")) ≡ true)
        × IsPromptOf os (codes "car_price_agent.md") car
        × IsPromptOf os (codes "insurance_agent.md") insurance
        × IsPromptOf os (codes "main_agent.md") main
  unfolding create_graph
  create_graph_lem checkpointer st g h =
      let (tools, t, h1) = >>=-returned (initialize_mcp_tools sv.mcp sv.json_load os st).0 _ h in
      let (backend, b, h2) = >>=-returned (backend_here sv os) _ h1 in
      let (car, c, h3) =
        >>=-returned (load_prompt_from_file os (codes "car_price_agent.md")) _ h2 in
      let (insurance, i, h4) =
        >>=-returned (load_prompt_from_file os (codes "insurance_agent.md")) _ h3 in
      let (main, m, h5) = >>=-returned (load_prompt_from_file os (codes "main_agent.md")) _ h4 in
      let (some_tools, cached) = tools_of st tools t in
      (
        tools,
        backend,
        car,
        insurance,
        main,
        h5,
        some_tools,
        cached,
        b,
        load_prompt_from_file-exists os _ car c,
        load_prompt_from_file-exists os _ insurance i,
        load_prompt_from_file-exists os _ main m,
        load_prompt_from_file-IsPromptOf os _ car c,
        load_prompt_from_file-IsPromptOf os _ insurance i,
        load_prompt_from_file-IsPromptOf os _ main m,
      )
