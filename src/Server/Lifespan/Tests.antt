-- ===== src/Server/Lifespan/Tests.antt =====
-- A server that starts and stops with the sample services.
use carqna_agent.Common.{ℕ, ◌≡◌, refl, Bool, true, false, none, some, List, [], ◌∷◌, ◌++◌}
use carqna_agent.PyText.{Text, codes, text_eq, strip, lstrip, rstrip, ends_with, starts_with, lower}
use carqna_agent.PyText.Url.{before, rest_from, urlsplit}
use carqna_agent.PyDict.{Dict, dict_get}
use carqna_agent.Errors.{returned, raised, library_error}
use carqna_agent.Os.{expanduser, join}
use carqna_agent.Graph.Settings.{
  ServerConfig, get_conn_string, load_prompt_from_file, load_mcp_config,
}
use carqna_agent.Graph.Backend.{create_insurance_backend}
use carqna_agent.Graph.Tools.{configure, initialize_mcp_tools}
use carqna_agent.Graph.Create.{create_graph}
use carqna_agent.Graph.Instance.{get_graph, import_graph, contains}
use carqna_agent.Graph.Sample.{sample_os, sample_services}
use carqna_agent.Server.Lifespan.{
  Event, client_made, pool_opened, pool_closed, saver_entered, saver_left, saver_set_up,
  graph_created, agent_made, routes_mounted, served, Startup, Externals, lifespan,
}
use carqna_agent.Server.Lifespan.Stages.{Trace, down}
use carqna_agent.Server.Lifespan.Laws.{lifespan-Trace}

-- Savers are numbers, and agents their graphs.
abbrev externals : Externals ℕ Text Text
externals = record {
  langsmith_client = returned tt;
  open_pool = λ conn_string. returned tt;
  close_pool = λ conn_string. returned tt;
  enter_saver = λ conn_string. returned 3;
  leave_saver = λ checkpointer r. r;
  setup = λ checkpointer. returned tt;
  make_agent = λ graph. returned graph;
  serving = λ agent. returned tt;
}

abbrev fresh : Startup (Dict ServerConfig) ℕ ℕ Text Text
fresh = record { events = []; graph_module = none }

served_once :
    (lifespan sample_services sample_os externals fresh).1.events
    ≡ client_made true
      ∷ pool_opened true
      ∷ saver_entered (returned 3)
      ∷ saver_set_up true
      ∷ graph_created (returned (codes "main"))
      ∷ agent_made (returned (codes "main"))
      ∷ routes_mounted
      ∷ served true
      ∷ saver_left true
      ∷ pool_closed true
      ∷ []
unfolding lifespan get_conn_string import_graph get_graph contains create_graph initialize_mcp_tools
    load_mcp_config expanduser before rest_from rstrip dict_get text_eq configure
    load_prompt_from_file join ends_with strip create_insurance_backend urlsplit lstrip starts_with
    lower
served_once = refl

no_tables : Externals ℕ Text Text
no_tables = record externals { setup = λ checkpointer. raised (library_error (codes "down")) }

not_served : lifespan sample_services sample_os no_tables fresh ≡ (
  raised (library_error (codes "down")),
  record {
    events =
        client_made true
        ∷ pool_opened true
        ∷ saver_entered (returned 3)
        ∷ saver_set_up false
        ∷ saver_left false
        ∷ pool_closed true
        ∷ [];
    graph_module = some (import_graph sample_services sample_os true).1;
  },
)
unfolding no_tables lifespan get_conn_string dict_get text_eq
not_served = refl

ends_well : (lifespan sample_services sample_os externals fresh).0 ≡ returned tt
unfolding lifespan get_conn_string import_graph get_graph contains create_graph initialize_mcp_tools
    load_mcp_config expanduser before rest_from rstrip dict_get text_eq configure
    load_prompt_from_file join ends_with strip create_insurance_backend urlsplit lstrip starts_with
    lower
ends_well = refl

lifespan-Trace_example :
    (new : List (Event ℕ Text Text)) × (h : Bool) × ((lifespan sample_services sample_os externals
        fresh).1.events
      ≡ fresh.events ++ new)
    × Trace sample_services sample_os externals (down false) new (down h)
lifespan-Trace_example = lifespan-Trace sample_services sample_os externals fresh
