-- ===== src/Cli/Main/Laws.antt =====
-- The process ends when the input says so, and each session's conversation has a thread of its own.
use carqna_agent.Common.{
  ℕ, ◌<◌, ◌≡◌, refl, ap, true, not, ◌&&◌, Option, none, some, List, ◌∷◌, ◌++◌, length, Bool-cases,
  inl, inr,
}
use carqna_agent.PyText.{Text}
use carqna_agent.PyText.Decimal.{show_nat, show_nat-injective}
use carqna_agent.Errors.{Result, returned, raised}
use carqna_agent.Cli.{Table, get_or_create_session}
use carqna_agent.Cli.Laws.{Call, run}
use carqna_agent.Cli.Ids.{get_or_create_session-injective}
use carqna_agent.Cli.Loop.{Input}
use carqna_agent.Cli.Loop.Laws.{is_quit, repl_ends}
use carqna_agent.Cli.Main.{
  Args, Ended, Program, has_text, text_or_empty, get_cli_sqlite_path, starting, ready, chat_done,
  chat, created, run_session, run_at, main,
}

module _ {C T K P G S : Type 0} (p : Program C T K P G S) (earlier : List Input) (q : Input)
    (quits : is_quit q ≡ true) where
  -- There is one end, for which as many rounds as there are inputs up to `q` are enough.
  abbrev pub Ends : (ℕ → List Input → Option (Ended S)) → Type 0
  Ends f =
      (r : Ended S) × ((later : List Input) (fuel : ℕ)
        → length earlier < fuel
        → f fuel (earlier ++ q ∷ later) ≡ some r)

  at_once : (r : Ended S) → Ends (λ fuel inputs. some r)
  at_once r = (r, λ later fuel h. refl)

  chat-Ends :
      (path session : Text) (id : ℕ) (conn : Option Table) (c : Result G) (s : S)
      → Ends (λ fuel inputs. chat p fuel inputs path session id conn c s)
  chat-Ends path session id conn (raised e) s = at_once _
  chat-Ends path session id conn (returned g) s =
      let ((prints, s'), k) =
        repl_ends (p.agent g (show_nat id)) earlier q s
          (starting p ++ ready p session (show_nat id) path) quits in
      (_, λ later fuel h. ap (chat_done p conn) (k later fuel h))

  run_session-Ends :
      (path session : Text) (c : Result (Option Table)) (s : S)
      → Ends (λ fuel inputs. run_session p fuel inputs path session c s)
  run_session-Ends path session (raised e) s = at_once _
  run_session-Ends path session (returned conn) s = chat-Ends path session _ _ (created p) s

  run_at-Ends :
      (args : Args) (path : Result Text) (s : S)
      → Ends (λ fuel inputs. run_at p fuel inputs args path s)
  run_at-Ends args (raised e) s = at_once _
  run_at-Ends args (returned path) s = elim (Bool-cases args.list) [
    | inl l ↦ rw l (at_once _)
    | inr l ↦ rw l (run_session-Ends path (text_or_empty args.session) (p.connect path) s)
  ]

  -- With an input that quits, the process ends, whatever the arguments, the file, the agent and the
  -- other inputs are: there is one end, for which as many rounds of the prompt loop as there are
  -- inputs up to that one are enough, and the inputs behind it make no difference.
  pub main_ends :
      (args : Args) (s : S)
      → (r : Ended S) × ((later : List Input) (fuel : ℕ)
          → length earlier < fuel
          → main p fuel (earlier ++ q ∷ later) args s ≡ some r)
  unfolding main
  main_ends args s = elim (Bool-cases (not args.list && not (has_text args.session))) [
    | inl e ↦ rw e (at_once _)
    | inr e ↦ rw e (run_at-Ends args (get_cli_sqlite_path p) s)
  ]

-- In a file that began without the table, two sessions that are opened with one thread are of one
-- name.
pub threads_separate :
    (now later : ℕ) (name other : Text) (before between : List Call)
    → show_nat (get_or_create_session now name (run before none)).0
      ≡ show_nat
          (get_or_create_session later other
            (run between (get_or_create_session now name (run before none)).1)).0
    → name ≡ other
threads_separate now later name other before between e =
    get_or_create_session-injective now later name other before between (show_nat-injective _ _ e)
