-- ===== src/Graph/Sample.antt =====
-- An environment, a file system and services for the tests.
use carqna_agent.Common.{ℕ, Bool, false, true, Option, none, some, [], ◌∷◌}
use carqna_agent.PyText.{Text, codes}
use carqna_agent.PyDict.{Dict, dict_get}
use carqna_agent.Errors.{Result, returned, raised, library_error}
use carqna_agent.Os.{Os}
use carqna_agent.Graph.Settings.{Setting, text, ServerConfig, settings, McpConfig, servers}
use carqna_agent.Graph.Tools.{Mcp, McpState}
use carqna_agent.Graph.Create.{Services}

abbrev pub variables : Dict Text
variables =
    (codes "INSURANCE_DOCS_ROOT", codes "s3://docs/insurance/")
    ∷ (codes "S3_ENDPOINT_URL", codes "http://rustfs:9000")
    ∷ (codes "S3_ACCESS_KEY_ID", codes "key")
    ∷ (codes "S3_SECRET_ACCESS_KEY", codes "secret")
    ∷ (codes "MCP_CONFIG_PATH", codes "~/mcp.json")
    ∷ (codes "PROMPTS_DIR", codes "/prompts/")
    ∷ (codes "HOME", codes "/root/")
    ∷ []

abbrev pub files : Dict Text
files =
    (codes "/root/mcp.json", codes "{}")
    ∷ (codes "/prompts/car_price_agent.md", codes " cars ")
    ∷ (codes "/prompts/insurance_agent.md", codes "insurance")
    ∷ (codes "/prompts/main_agent.md", codes "main")
    ∷ []

abbrev pub is_some : {A : Type 0} → Option A → Bool
is_some none = false
is_some (some a) = true

abbrev pub content_of : Option Text → Result Text
content_of none = raised (library_error (codes "FileNotFoundError"))
content_of (some t) = returned t

abbrev pub sample_os : Os
sample_os = record {
  environ = λ name. dict_get name variables;
  user_home = λ name. none;
  exists = λ path. is_some (dict_get path files);
  read_text = λ path. content_of (dict_get path files);
}

abbrev pub opensearch : Dict Setting
opensearch = (codes "transport", text (codes "sse")) ∷ []

-- Tools are numbers, clients their configuration.
abbrev pub sample_mcp : Mcp (Dict ServerConfig) ℕ
sample_mcp = record { connect = λ d. returned d; get_tools = λ c. returned (7 ∷ 8 ∷ []) }

abbrev pub no_tools : Mcp (Dict ServerConfig) ℕ
no_tools = record { connect = λ d. returned d; get_tools = λ c. returned [] }

abbrev pub parse_sample : Text → Result McpConfig
parse_sample content = returned (servers ((codes "opensearch", settings opensearch) ∷ []))

-- Graphs are prompts.
abbrev pub sample_services : Services (Dict ServerConfig) ℕ Text ℕ Text
sample_services = record {
  mcp = sample_mcp;
  json_load = parse_sample;
  boto3_client = λ endpoint access secret region. returned endpoint;
  refused = λ netloc. false;
  create_deep_agent = λ agent. returned agent.system_prompt;
}

abbrev pub unloaded : McpState (Dict ServerConfig) ℕ
unloaded = record { mcp_client = none; mcp_tools = [] }
