-- ===== src/Cli/Main/Tests.antt =====
-- Runs of the whole command line with an agent that counts and repeats.
use carqna_agent.Common.{
  ℕ, ◌+◌, ◌<◌, ◌≡◌, refl, false, true, Option, none, some, List, [], ◌∷◌, ◌++◌, length,
}
use carqna_agent.PyText.{
  Text, codes, strip, text_eq, text_mem, is_space, rstrip, starts_with, ends_with,
}
use carqna_agent.PyText.Decimal.{show_nat}
use carqna_agent.PyText.Url.{before, rest_from}
use carqna_agent.PyDict.{Dict, dict_get}
use carqna_agent.Errors.{returned}
use carqna_agent.Graph.Settings.{ServerConfig}
use carqna_agent.Graph.Sample.{sample_os, sample_services}
use carqna_agent.Os.{expanduser, join}
use carqna_agent.Cli.Loop.{Input, line, input_error, dict, replied, quit_words}
use carqna_agent.Cli.Main.{Args, Ended, Program, get_cli_sqlite_path, main}
use carqna_agent.Cli.Main.Laws.{main_ends}

abbrev program : Program (Dict ServerConfig) ℕ Text ℕ Text ℕ
program = record {
  os = sample_os;
  services = sample_services;
  checkpointer = 1;
  make_parent = λ path. returned tt;
  connect = λ path. returned none;
  agent = λ prompt thread_id text n. (replied (dict (some (thread_id ∷ [])) [] []), n + 1);
  now = 30;
  elapsed = λ now then_. codes "0.0";
  repr = λ s. s;
  str_of = λ e. codes "failure";
}

abbrev tyres : Args
tyres = record { session = some (codes "tyres"); list = false }

store_path : get_cli_sqlite_path program ≡ returned (codes "/root/.carqna/carqna_cli.sqlite")
unfolding get_cli_sqlite_path expanduser before rest_from rstrip dict_get text_eq starts_with join
    ends_with
store_path = refl

no_session : Option (Ended ℕ)
no_session = main program 0 [] (record { session = some []; list = false }) 0

no_session_status :
    no_session
    ≡ some (record {
      status = returned 2;
      prints = codes "--session is required unless --list is given" ∷ [];
      table = none;
      state = 0;
    })
unfolding no_session main
no_session_status = refl

twelve : show_nat 120 ≡ codes "120"
unfolding show_nat
twelve = refl

quits : text_mem (strip is_space (codes " /exit")) quit_words ≡ true
unfolding strip text_eq text_mem
quits = refl

main_ends_example :
    (r : Ended ℕ) × ((later : List Input) (fuel : ℕ)
      → length (input_error (codes "codec") ∷ []) < fuel
      → main program fuel
          ((input_error (codes "codec") ∷ []) ++ line (codes " /exit") ∷ later)
          tyres
          0
        ≡ some r)
main_ends_example =
    main_ends program (input_error (codes "codec") ∷ []) (line (codes " /exit")) quits tyres 0
