-- ===== src/Graph/Create.antt =====
-- `create_graph`: the agent, its subagents and what they may do.
pub mod Laws
use carqna_agent.Common.{Bool, Option, none, some, List, [], ◌∷◌}
use carqna_agent.PyText.{Text, codes}
use carqna_agent.Errors.{Result, returned, raised, ◌>>=◌}
use carqna_agent.Os.{Os, getenv}
use carqna_agent.Graph.Settings.{McpConfig, load_prompt_from_file}
use carqna_agent.Graph.Backend.{InsuranceBackend, create_insurance_backend}
use carqna_agent.Graph.Tools.{Mcp, McpState, initialize_mcp_tools}

-- deepagents.FilesystemPermission
pub record Permission : Type 0 where
  pub operations : List Text
  pub paths : List Text
  pub mode : Text

-- deepagents.SubAgent; `tools` is none where the argument is left out.
pub record SubAgent (T : Type 0) : Type 0 where
  pub name : Text
  pub description : Text
  pub system_prompt : Text
  pub tools : Option (List T)
  pub permissions : List Permission

-- The arguments of create_deep_agent. `K` are S3 clients, `T` tools and `P` checkpointers.
pub record DeepAgent (K T P : Type 0) : Type 0 where
  pub model : Text
  pub tools : List T
  pub backend : InsuranceBackend K
  pub system_prompt : Text
  pub subagents : List (SubAgent T)
  pub name : Text
  pub checkpointer : Option P

abbrev pub car_price_agent : {T : Type 0} → List T → Text → SubAgent T
car_price_agent tools prompt = record {
  name = codes "car_price_expert";
  description =
      codes "Expert at finding and comparing car prices using Autogeek OpenSearch service.";
  system_prompt = prompt;
  tools = some tools;
  permissions = [];
}

abbrev pub root_only : List Text
root_only = codes "/" ∷ []

abbrev pub read_only : List Permission
read_only =
    record { operations = codes "read" ∷ []; paths = root_only; mode = codes "allow" }
    ∷ record {
      operations = codes "write" ∷ codes "delete" ∷ [];
      paths = root_only;
      mode = codes "deny";
    }
    ∷ []

abbrev pub insurance_agent : {T : Type 0} → Text → SubAgent T
insurance_agent prompt = record {
  name = codes "insurance_expert";
  description =
      codes
        "Expert at answering auto insurance questions using state driver's license handbooks from the filesystem.";
  system_prompt = prompt;
  tools = none;
  permissions = read_only;
}

-- Everything that `create_graph` calls beyond the module.
pub record Services (C T K P G : Type 0) : Type 0 where
  pub mcp : Mcp C T
  pub json_load : Text → Result McpConfig
  pub boto3_client : Text → Text → Text → Text → Result K
  pub refused : Text → Bool
  pub create_deep_agent : DeepAgent K T P → Result G

module _ {C T K P G : Type 0} (sv : Services C T K P G) (os : Os) where
  abbrev pub backend_here : Result (InsuranceBackend K)
  backend_here = create_insurance_backend sv.boto3_client sv.refused os

  abbrev pub agent_of :
      Option P → List T → InsuranceBackend K → Text → Text → Text → DeepAgent K T P
  agent_of checkpointer tools backend car insurance main = record {
    model = getenv os (codes "LLM_MODEL") (codes "claude-sonnet-4-5-20250929");
    tools = tools;
    backend = backend;
    system_prompt = main;
    subagents = car_price_agent tools car ∷ insurance_agent insurance ∷ [];
    name = codes "Automobile Help Assistant";
    checkpointer = checkpointer;
  }

  abbrev pub build : Option P → List T → Result G
  build checkpointer tools = backend_here >>= λ backend.
      load_prompt_from_file os (codes "car_price_agent.md") >>= λ car.
      load_prompt_from_file os (codes "insurance_agent.md") >>= λ insurance.
      load_prompt_from_file os (codes "main_agent.md") >>= λ main.
      sv.create_deep_agent (agent_of checkpointer tools backend car insurance main)

  unfoldable pub create_graph : Option P → McpState C T → Result G × McpState C T
  create_graph checkpointer st =
      let (tools, st') = initialize_mcp_tools sv.mcp sv.json_load os st in
      (tools >>= build checkpointer, st')
