-- ===== src/Graph/Tools/Laws.antt =====
-- The tools are loaded once, and a load that fails leaves nothing behind that is taken for tools.
use carqna_agent.Common.{
  ◌≡◌, ◌⊎◌, refl, ap, ◌∙◌, true, false, List, [], ◌∷◌, Bool-cases, inl, inr, nonempty,
}
use carqna_agent.PyText.{Text}
use carqna_agent.Errors.{Exception, Result, returned, raised}
use carqna_agent.Os.{Os}
use carqna_agent.Graph.Settings.{McpConfig}
use carqna_agent.Graph.Tools.{McpState, Mcp, keep_tools, fetched, connected, initialize_mcp_tools}

not_nonempty : {A : Type 0} (xs : List A) → nonempty xs ≡ false → xs ≡ []
not_nonempty [] e = refl
not_nonempty (x ∷ xs) e = cc

module _ {C T : Type 0} where
  -- The call returned tools that are now cached, or it raised and nothing is cached.
  abbrev pub IsOutcome : Result (List T) → McpState C T → Type 0
  IsOutcome (returned tools) st = (nonempty tools ≡ true) × (st.mcp_tools ≡ tools)
  IsOutcome (raised e) st = st.mcp_tools ≡ []

  module _ (mcp : Mcp C T) (json_load : Text → Result McpConfig) (os : Os) where
    keep_tools-IsOutcome :
        (tools : List T) (st : McpState C T)
        → IsOutcome
            (keep_tools mcp json_load os tools st).0
            (keep_tools mcp json_load os tools st).1
    keep_tools-IsOutcome [] st = refl
    keep_tools-IsOutcome (t ∷ ts) st = (refl, refl)

    fetched-IsOutcome :
        (r : Result (List T)) (st : McpState C T)
        → st.mcp_tools ≡ []
        → IsOutcome (fetched mcp json_load os r st).0 (fetched mcp json_load os r st).1
    fetched-IsOutcome (raised e) st h = h
    fetched-IsOutcome (returned tools) st h = keep_tools-IsOutcome tools st

    connected-IsOutcome :
        (r : Result C) (st : McpState C T)
        → st.mcp_tools ≡ []
        → IsOutcome (connected mcp json_load os r st).0 (connected mcp json_load os r st).1
    connected-IsOutcome (raised e) st h = h
    connected-IsOutcome (returned c) st h = fetched-IsOutcome (mcp.get_tools c) _ h

    pub initialize_mcp_tools-IsOutcome :
        (st : McpState C T)
        → IsOutcome
            (initialize_mcp_tools mcp json_load os st).0
            (initialize_mcp_tools mcp json_load os st).1
    unfolding initialize_mcp_tools
    initialize_mcp_tools-IsOutcome st = elim (Bool-cases (nonempty st.mcp_tools)) [
      | inl e ↦ rw e (e, refl)
      | inr e ↦ rw e (connected-IsOutcome _ st (not_nonempty st.mcp_tools e))
    ]

  initialize_cached :
      (mcp : Mcp C T) (json_load : Text → Result McpConfig) (os : Os) (st : McpState C T)
      → nonempty st.mcp_tools ≡ true
      → initialize_mcp_tools mcp json_load os st ≡ (returned st.mcp_tools, st)
  unfolding initialize_mcp_tools
  initialize_cached mcp json_load os st e = rw e refl

  -- A call returns tools, at least one, and then every later call returns the same tools and changes
  -- nothing, whatever the files and the servers have become; or it raises, and then no tools are
  -- cached.
  pub initialize_mcp_tools_lem :
      (mcp : Mcp C T) (json_load : Text → Result McpConfig) (os : Os) (st : McpState C T)
      → ((tools : List T) × ((initialize_mcp_tools mcp json_load os st).0 ≡ returned tools)
          × (nonempty tools ≡ true)
          × ((mcp' : Mcp C T) (json_load' : Text → Result McpConfig) (os' : Os)
              → initialize_mcp_tools mcp' json_load' os'
                  (initialize_mcp_tools mcp json_load os st).1
                ≡ (returned tools, (initialize_mcp_tools mcp json_load os st).1)))
        ⊎ ((e : Exception) × ((initialize_mcp_tools mcp json_load os st).0 ≡ raised e)
            × ((initialize_mcp_tools mcp json_load os st).1.mcp_tools ≡ []))
  initialize_mcp_tools_lem mcp json_load os st =
      go (initialize_mcp_tools mcp json_load os st).0 (initialize_mcp_tools mcp json_load os st).1
        (initialize_mcp_tools-IsOutcome mcp json_load os st)
    where
      go :
          (r : Result (List T)) (st' : McpState C T)
          → IsOutcome r st'
          → ((tools : List T) × (r ≡ returned tools)
              × (nonempty tools ≡ true)
              × ((mcp' : Mcp C T) (json_load' : Text → Result McpConfig) (os' : Os)
                  → initialize_mcp_tools mcp' json_load' os' st' ≡ (returned tools, st')))
            ⊎ ((e : Exception) × (r ≡ raised e) × (st'.mcp_tools ≡ []))
      go (returned tools) st' (n, e) = inl (
        tools,
        refl,
        n,
        λ mcp' json_load' os'.
            initialize_cached mcp' json_load' os' st' (ap nonempty e ∙ n)
            ∙ ap (λ ts. (returned ts, st')) e,
      )
      go (raised x) st' e = inr (x, refl, e)
