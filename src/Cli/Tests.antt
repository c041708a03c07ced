-- ===== src/Cli/Tests.antt =====
-- Runs of the command line's session table.
use carqna_agent.Common.{ℕ, ◌≡◌, refl, none, [], ◌∷◌}
use carqna_agent.PyText.{Text, codes, text_eq}
use carqna_agent.Cli.{
  CliSession, create_session_table, find_session, get_or_create_session, list_cli_sessions,
}
use carqna_agent.Cli.Laws.{run}

abbrev tyres : Text
tyres = codes "tyres"

abbrev oil : Text
oil = codes "oil"

abbrev session : ℕ → Text → ℕ → CliSession
session id name now = record { session_id = id; session_name = name; access_ts = now }

two_opened :
    (list_cli_sessions (run ((5, tyres) ∷ (6, oil) ∷ (9, tyres) ∷ []) none)).0
    ≡ session 1 tyres 9 ∷ session 2 oil 6 ∷ []
unfolding list_cli_sessions get_or_create_session create_session_table find_session text_eq
two_opened = refl
