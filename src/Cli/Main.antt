-- ===== src/Cli/Main.antt =====
-- `main` and `_get_cli_sqlite_path` of src/agent/carqna_cli.py.
pub mod Laws
mod Tests
use carqna_agent.Common.{
  ℕ, ◌-◌, Bool, true, false, not, ◌&&◌, Option, none, some, List, [], ◌∷◌, ◌++◌, map, if◌then◌else◌,
  nonempty,
}
use carqna_agent.PyText.{Text, codes, starts_with}
use carqna_agent.PyText.Decimal.{show_nat}
use carqna_agent.Errors.{Exception, Result, returned, raised, runtime_error, ◌>>=◌}
use carqna_agent.Os.{Os, getenv, join, expanduser}
use carqna_agent.Graph.Create.{Services, create_graph}
use carqna_agent.Graph.Instance.{import_graph}
use carqna_agent.Cli.{CliSession, Table, list_cli_sessions, get_or_create_session}
use carqna_agent.Cli.Loop.{Input, Outcome, repl}

-- The parsed arguments; `list` is --list.
pub record Args : Type 0 where
  pub session : Option Text
  pub list : Bool

-- How the process ends, what it has printed, the session table as the connection leaves it, if one was
-- opened, and the agent's state.
pub record Ended (S : Type 0) : Type 0 where
  -- the exit status, or an exception that is not caught
  pub status : Result ℕ
  pub prints : List Text
  pub table : Option Table
  pub state : S

-- `make_parent` is Path(path).parent.mkdir(…), `connect` opens the file at that path with its session
-- table, `checkpointer` is the saver on that connection, and `agent` a graph's ainvoke by thread id.
-- `elapsed` is the text of an age in seconds, `repr` and `str_of` are Python's for texts and
-- exceptions.
pub record Program (C T K P G S : Type 0) : Type 0 where
  pub os : Os
  pub services : Services C T K P G
  pub checkpointer : P
  pub make_parent : Text → Result (Unit {0})
  pub connect : Text → Result (Option Table)
  pub agent : G → Text → Text → S → Outcome × S
  pub now : ℕ
  pub elapsed : ℕ → ℕ → Text
  pub repr : Text → Text
  pub str_of : Exception → Text

-- str(Path.home() / ".carqna" / "carqna_cli.sqlite"), where the home has no doubled slashes
abbrev pub under : Text → Result Text
under home =
    if starts_with home (codes "~")
    then raised (runtime_error (codes "Could not determine home directory."))
    else returned (join home (codes ".carqna/carqna_cli.sqlite"))

abbrev pub has_text : Option Text → Bool
has_text none = false
has_text (some s) = nonempty s

abbrev pub text_or_empty : Option Text → Text
text_or_empty none = []
text_or_empty (some s) = s

abbrev pub banner : List Text
banner =
    codes "🚗 CarQnA - Automobile Help Assistant"
    ∷ codes "=================================================="
    ∷ []

module _ {C T K P G S : Type 0} (p : Program C T K P G S) where
  -- create_graph(checkpointer), in the state that the import of graph.py leaves
  abbrev pub created : Result G
  created =
      let st = (import_graph p.services p.os false).1 in
      (create_graph p.services p.os (some p.checkpointer) st.mcp).0

  unfoldable pub get_cli_sqlite_path : Result Text
  get_cli_sqlite_path = under (expanduser p.os (codes "~")) >>= λ default_path.
      let path = getenv p.os (codes "CARQNA_CLI_SQLITE_PATH") default_path in
      p.make_parent path >>= λ _. returned path

  abbrev pub ends : Result ℕ → List Text → Option Table → S → Ended S
  ends status prints table s = record { status = status; prints = prints; table = table; state = s }

  abbrev pub session_line : CliSession → Text
  session_line r =
      codes "  "
      ++ r.session_name
      ++ codes "  (last accessed="
      ++ p.elapsed p.now r.access_ts
      ++ codes " seconds ago)"

  abbrev pub listing : List CliSession → List Text
  listing [] = codes "No sessions yet." ∷ []
  listing (r ∷ rs) = codes "Sessions:" ∷ map session_line (r ∷ rs)

  -- if args.list: … sys.exit(0)
  abbrev pub run_list : Result (Option Table) → S → Ended S
  run_list (raised e) s = ends (raised e) banner none s
  run_list (returned conn) s =
      let (rows, conn') = list_cli_sessions conn in
      ends (returned 0) (banner ++ listing rows) conn' s

  abbrev pub start_failed : Exception → List Text → Option Table → S → Ended S
  start_failed e prints conn s =
      ends (returned 1) (prints ++ (codes "❌ Failed to initialize agent: " ++ p.str_of e) ∷ []) conn
        s

  abbrev pub starting : List Text
  starting = banner ++ codes "Initializing agent..." ∷ []

  abbrev pub ready : Text → Text → Text → List Text
  ready session thread_id path =
      (codes "✓ Agent ready (session: "
        ++ p.repr session
        ++ codes ", thread_id: "
        ++ thread_id
        ++ codes ")")
      ∷ (codes "  Local store: " ++ path)
      ∷ codes "=================================================="
      ∷ codes "Ask your automobile questions. Type '/quit' to exit.\n"
      ∷ []

  abbrev pub chat_done : Option Table → Option (List Text × S) → Option (Ended S)
  chat_done conn none = none
  chat_done conn (some (prints, s)) = some (ends (returned 0) prints conn s)

  -- Behind the session: create_graph, and then the loop on the session's thread.
  abbrev pub chat :
      ℕ → List Input → Text → Text → ℕ → Option Table → Result G → S → Option (Ended S)
  chat fuel inputs path session id conn (raised e) s = some (start_failed e starting conn s)
  chat fuel inputs path session id conn (returned g) s =
      let thread_id = show_nat id in
      chat_done conn
        (repl (p.agent g thread_id) fuel inputs s (starting ++ ready session thread_id path))

  abbrev pub run_session :
      ℕ → List Input → Text → Text → Result (Option Table) → S → Option (Ended S)
  run_session fuel inputs path session (raised e) s = some (start_failed e starting none s)
  run_session fuel inputs path session (returned conn) s =
      let (id, conn') = get_or_create_session p.now session conn in
      chat fuel inputs path session id conn' created s

  abbrev pub run_at : ℕ → List Input → Args → Result Text → S → Option (Ended S)
  run_at fuel inputs args (raised e) s = some (ends (raised e) banner none s)
  run_at fuel inputs args (returned path) s =
      if args.list
      then some (run_list (p.connect path) s)
      else run_session fuel inputs path (text_or_empty args.session) (p.connect path) s

  -- parser.error exits with status 2. none: the prompt loop has used up the fuel.
  unfoldable pub main : ℕ → List Input → Args → S → Option (Ended S)
  main fuel inputs args s =
      if not args.list && not (has_text args.session)
      then some
          (ends (returned 2) (codes "--session is required unless --list is given" ∷ []) none s)
      else run_at fuel inputs args get_cli_sqlite_path s
