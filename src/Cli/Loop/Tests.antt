-- ===== src/Cli/Loop/Tests.antt =====
-- Runs of the prompt loop with an agent that counts and repeats.
use carqna_agent.Common.{ℕ, ◌+◌, ◌≡◌, ◌≢◌, refl, false, none, some, [], ◌∷◌}
use carqna_agent.PyText.{Text, codes, strip, text_eq, text_mem, is_space}
use carqna_agent.PyDict.{dict_get}
use carqna_agent.Cli.Loop.{
  Input, line, dict, Outcome, replied, interrupted, show_reply, round, repl, agent_says,
}
use carqna_agent.Cli.Loop.Laws.{repl_never_ends}

abbrev echo : Text → ℕ → Outcome × ℕ
echo t n = (replied (dict (some (t ∷ [])) [] []), n + 1)

echo_calm : (t : Text) (n : ℕ) → (echo t n).0 ≢ interrupted
echo_calm t n e = cc

abbrev question : Input
question = line (codes " price? ")

abbrev quit : Input
quit = line (codes "/q\n")

keyed :
    show_reply (dict none ((codes "result", codes "42") ∷ []) (codes "{}"))
    ≡ agent_says (codes "42") ∷ []
unfolding show_reply dict_get text_eq
keyed = refl

one_question :
    repl echo 5 (question ∷ quit ∷ question ∷ []) 0 []
    ≡ some (codes "\nAgent: Thinking...\n" ∷ codes "Agent: price?\n" ∷ codes "Goodbye!" ∷ [], 1)
unfolding repl round strip text_eq text_mem show_reply
one_question = refl

no_quit :
    text_mem (strip is_space (codes " price? ")) (codes "/quit" ∷ codes "/exit" ∷ codes "/q" ∷ [])
    ≡ false
unfolding strip text_eq text_mem
no_quit = refl

repl_never_ends_example : repl echo 1000 (question ∷ []) 0 [] ≡ none
repl_never_ends_example = repl_never_ends echo echo_calm 1000 (question ∷ []) 0 [] (no_quit, tt)
