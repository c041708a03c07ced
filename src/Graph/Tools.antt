-- ===== src/Graph/Tools.antt =====
-- `_initialize_mcp_tools` and the module's `_mcp_client` and `_mcp_tools`.
pub mod Laws
use carqna_agent.Common.{
  Bool, true, false, Option, none, some, List, [], ◌∷◌, if◌then◌else◌, nonempty,
}
use carqna_agent.PyText.{Text, codes, text_mem}
use carqna_agent.PyDict.{Dict, dict_get, dict_set}
use carqna_agent.Errors.{Result, returned, raised, runtime_error, library_error, ◌>>=◌}
use carqna_agent.Os.{Os}
use carqna_agent.Graph.Settings.{
  Setting, text, httpx_factory, other, ServerConfig, settings, opaque, McpConfig, servers,
  not_an_object, load_mcp_config,
}

-- v.get("transport") in ("streamable_http", "sse")
abbrev pub is_http : Option Setting → Bool
is_http none = false
is_http (some (text t)) = text_mem t (codes "streamable_http" ∷ codes "sse" ∷ [])
is_http (some httpx_factory) = false
is_http (some (other v)) = false

unfoldable pub configure_server : ServerConfig → ServerConfig
configure_server (settings v) = settings (
    if is_http (dict_get (codes "transport") v)
    then dict_set (codes "httpx_client_factory") httpx_factory v
    else v)
configure_server (opaque v) = opaque v

abbrev pub configure_all : Dict ServerConfig → Dict ServerConfig
configure_all [] = []
configure_all ((name, v) ∷ d) = (name, configure_server v) ∷ configure_all d

-- config.values() of anything but an object is an AttributeError.
unfoldable pub configure : McpConfig → Result (Dict ServerConfig)
configure (servers d) = returned (configure_all d)
configure (not_an_object b) = raised (library_error (codes "AttributeError"))

-- `C` are the clients and `T` the tools of langchain_mcp_adapters.
pub record McpState (C T : Type 0) : Type 0 where
  pub mcp_client : Option C
  pub mcp_tools : List T

-- MultiServerMCPClient(config) and client.get_tools()
pub record Mcp (C T : Type 0) : Type 0 where
  pub connect : Dict ServerConfig → Result C
  pub get_tools : C → Result (List T)

module _ {C T : Type 0} (mcp : Mcp C T) (json_load : Text → Result McpConfig) (os : Os) where
  abbrev pub State : Type 0
  State = McpState C T

  -- The end of the `try` block, with the list that get_tools() gave.
  abbrev pub keep_tools : List T → State → Result (List T) × State
  keep_tools tools st =
      let st' = record st { mcp_tools = tools } in
      if nonempty tools
      then (returned tools, st')
      else (raised (runtime_error (codes "No MCP tools available")), st')

  abbrev pub fetched : Result (List T) → State → Result (List T) × State
  fetched (raised e) st = (raised e, st)
  fetched (returned tools) st = keep_tools tools st

  abbrev pub connected : Result C → State → Result (List T) × State
  connected (raised e) st = (raised e, st)
  connected (returned c) st = fetched (mcp.get_tools c) (record st { mcp_client = some c })

  -- The `except` clause logs and raises again.
  unfoldable pub initialize_mcp_tools : State → Result (List T) × State
  initialize_mcp_tools st =
      if nonempty st.mcp_tools
      then (returned st.mcp_tools, st)
      else connected
          (load_mcp_config json_load os >>= λ config. configure config >>= λ d. mcp.connect d) st
