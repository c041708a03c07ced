-- ===== src/Graph/Tests.antt =====
-- Runs of the agent graph's set-up with the sample services.
use carqna_agent.Common.{ℕ, ◌≡◌, ◌≢◌, ◌⊎◌, refl, true, false, none, List, [], ◌∷◌, nonempty, arith}
use carqna_agent.PyText.{
  Text, codes, text_eq, text_mem, strip, lstrip, rstrip, ends_with, starts_with, lower,
}
use carqna_agent.PyText.Url.{before, rest_from, urlsplit}
use carqna_agent.PyText.Url.Laws.{IsHost, IsPath}
use carqna_agent.PyDict.{Dict, dict_get, dict_set}
use carqna_agent.Errors.{Exception, Result, returned, raised, runtime_error}
use carqna_agent.Os.{Os, expanduser, join}
use carqna_agent.S3.Keys.{is_slash}
use carqna_agent.Graph.Settings.{
  ServerConfig, McpConfig, settings, text, httpx_factory, load_prompt_from_file, load_mcp_config,
}
use carqna_agent.Graph.Backend.{InsuranceBackend, s3, create_insurance_backend}
use carqna_agent.Graph.Backend.Laws.{create_insurance_backend-s3}
use carqna_agent.Graph.Tools.{Mcp, configure, configure_server, initialize_mcp_tools}
use carqna_agent.Graph.Tools.Laws.{initialize_mcp_tools_lem}
use carqna_agent.Graph.Create.{backend_here, create_graph}
use carqna_agent.Graph.Create.Laws.{prompt_path, IsPromptOf, wanted_agent, create_graph_lem}
use carqna_agent.Graph.Instance.{
  GraphState, get_graph, import_graph, contains, guidance, cannot_run,
}
use carqna_agent.Graph.Instance.Laws.{get_graph_in_loop, get_graph_once}
use carqna_agent.Graph.Sample.{
  sample_os, sample_mcp, no_tools, parse_sample, sample_services, unloaded, opensearch,
}

file_uri :
    urlsplit (λ n. false) (codes " file:///srv/docs?x#y")
    ≡ returned (record { scheme = codes "file"; netloc = []; path = codes "/srv/docs" })
unfolding urlsplit lstrip before rest_from starts_with lower
file_uri = refl

bare_path :
    urlsplit (λ n. false) (codes "~/docs:a")
    ≡ returned (record { scheme = []; netloc = []; path = codes "~/docs:a" })
unfolding urlsplit lstrip before rest_from starts_with lower
bare_path = refl

home : expanduser sample_os (codes "~/mcp.json") ≡ codes "/root/mcp.json"
unfolding expanduser before rest_from rstrip dict_get text_eq
home = refl

car_prompt : load_prompt_from_file sample_os (codes "car_price_agent.md") ≡ returned (codes "cars")
unfolding load_prompt_from_file join ends_with dict_get text_eq strip
car_prompt = refl

with_factory :
    configure_server (settings opensearch)
    ≡ settings (
        (codes "transport", text (codes "sse"))
        ∷ (codes "httpx_client_factory", httpx_factory)
        ∷ [])
unfolding configure_server dict_get dict_set text_eq text_mem
with_factory = refl

docs-IsHost : IsHost (codes "docs")
docs-IsHost = ground arith

insurance-IsPath : IsPath (codes "insurance/")
insurance-IsPath = ground arith

create_insurance_backend-s3_example :
    create_insurance_backend sample_services.boto3_client sample_services.refused sample_os
    ≡ returned (
        s3
          (record { bucket = codes "docs"; prefix = strip is_slash (codes "insurance/") })
          (codes "http://rustfs:9000"))
unfolding dict_get text_eq
create_insurance_backend-s3_example =
    create_insurance_backend-s3 sample_services.boto3_client sample_services.refused sample_os
      (codes "docs") (codes "insurance/") (codes "http://rustfs:9000") (codes "key")
      (codes "secret") (codes "http://rustfs:9000") refl docs-IsHost insurance-IsPath refl refl refl
      refl

initialize_mcp_tools_lem_example :
    ((tools : List ℕ) × ((initialize_mcp_tools sample_mcp parse_sample sample_os unloaded).0
        ≡ returned tools)
      × (nonempty tools ≡ true)
      × ((mcp' : Mcp (Dict ServerConfig) ℕ) (json_load' : Text → Result McpConfig) (os' : Os)
          → initialize_mcp_tools mcp' json_load' os'
              (initialize_mcp_tools sample_mcp parse_sample sample_os unloaded).1
            ≡ (
              returned tools,
              (initialize_mcp_tools sample_mcp parse_sample sample_os unloaded).1,
            )))
    ⊎ ((e : Exception) × ((initialize_mcp_tools sample_mcp parse_sample sample_os unloaded).0
          ≡ raised e)
        × ((initialize_mcp_tools sample_mcp parse_sample sample_os unloaded).1.mcp_tools ≡ []))
initialize_mcp_tools_lem_example =
    initialize_mcp_tools_lem sample_mcp parse_sample sample_os unloaded

loaded : (initialize_mcp_tools sample_mcp parse_sample sample_os unloaded).0 ≡ returned (7 ∷ 8 ∷ [])
unfolding initialize_mcp_tools load_mcp_config expanduser before rest_from rstrip dict_get text_eq
    configure
loaded = refl

none_available :
    (initialize_mcp_tools no_tools parse_sample sample_os unloaded).0
    ≡ raised (runtime_error (codes "No MCP tools available"))
unfolding initialize_mcp_tools load_mcp_config expanduser before rest_from rstrip dict_get text_eq
    configure
none_available = refl

main_graph : (create_graph sample_services sample_os none unloaded).0 ≡ returned (codes "main")
unfolding create_graph initialize_mcp_tools load_mcp_config expanduser before rest_from rstrip
    dict_get text_eq configure load_prompt_from_file join ends_with strip create_insurance_backend
    urlsplit lstrip starts_with lower
main_graph = refl

create_graph_lem_example :
    (tools : List ℕ) × (backend : InsuranceBackend Text) × (car insurance main : Text)
    × (sample_services.create_deep_agent
          (wanted_agent sample_services sample_os none tools backend car insurance main)
        ≡ returned (codes "main"))
    × (nonempty tools ≡ true)
    × ((create_graph sample_services sample_os none unloaded).1.mcp_tools ≡ tools)
    × (backend_here sample_services sample_os ≡ returned backend)
    × (sample_os.exists (prompt_path sample_os (codes "car_price_agent.md")) ≡ true)
    × (sample_os.exists (prompt_path sample_os (codes "insurance_agent.md")) ≡ true)
    × (sample_os.exists (prompt_path sample_os (codes "main_agent.md")) ≡ true)
    × IsPromptOf sample_os (codes "car_price_agent.md") car
    × IsPromptOf sample_os (codes "insurance_agent.md") insurance
    × IsPromptOf sample_os (codes "main_agent.md") main
create_graph_lem_example =
    create_graph_lem sample_services sample_os none unloaded (codes "main") main_graph

abbrev fresh : GraphState (Dict ServerConfig) ℕ Text
fresh = record { mcp = unloaded; graph_instance = none }

get_graph_in_loop_example :
    (get_graph sample_services sample_os true fresh ≡ (raised (runtime_error cannot_run), fresh))
    × ((get_graph sample_services sample_os true fresh).0 ≢ raised (runtime_error guidance))
get_graph_in_loop_example = get_graph_in_loop sample_services sample_os fresh refl

abbrev made : GraphState (Dict ServerConfig) ℕ Text
made = (get_graph sample_services sample_os false fresh).1

made_graph : get_graph sample_services sample_os false fresh ≡ (returned (codes "main"), made)
unfolding get_graph contains create_graph initialize_mcp_tools load_mcp_config expanduser before
    rest_from rstrip dict_get text_eq configure load_prompt_from_file join ends_with strip
    create_insurance_backend urlsplit lstrip starts_with lower
made_graph = refl

get_graph_once_example :
    get_graph sample_services sample_os true made ≡ (returned (codes "main"), made)
get_graph_once_example =
    get_graph_once sample_services sample_os false true fresh made (codes "main") made_graph

imported_in_loop : (import_graph sample_services sample_os true).0 ≡ none
unfolding import_graph get_graph contains starts_with
imported_in_loop = refl
