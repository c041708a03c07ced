-- ===== src/Cli/Loop.antt =====
-- The prompt loop of `main` in src/agent/carqna_cli.py. `input()` takes the next of the inputs; behind
-- the last it raises EOFError, every time. A call of the agent that is cancelled is not modelled.
pub mod Laws
mod Tests
use carqna_agent.Common.{
  ℕ, zero, suc, Bool, true, false, not, Option, none, some, List, [], ◌∷◌, ◌++◌, if◌then◌else◌,
  nonempty,
}
use carqna_agent.PyText.{Text, codes, strip, is_space, text_mem}
use carqna_agent.PyDict.{Dict, dict_get}

pub data Input : Type 0 where
  line : Text → Input
  -- KeyboardInterrupt
  interrupt : Input
  -- any other exception, with its str()
  input_error : Text → Input

-- What `ainvoke` returns, with the texts that an f-string makes of its parts: a dict by the contents
-- of its messages, if it has that key, its other fields and its whole, or any other value.
pub data Reply : Type 0 where
  dict : Option (List Text) → Dict Text → Text → Reply
  plain : Text → Reply

pub data Outcome : Type 0 where
  replied : Reply → Outcome
  failed : Text → Outcome
  interrupted : Outcome

abbrev pub quit_words : List Text
quit_words = codes "/quit" ∷ codes "/exit" ∷ codes "/q" ∷ []

abbrev pub agent_says : Text → Text
agent_says content = codes "Agent: " ++ content ++ codes "\n"

abbrev pub error_line : Text → Text
error_line e = codes "Error: " ++ e ++ codes "\n"

-- messages[-1]
abbrev pub show_last : List Text → List Text
show_last [] = []
show_last (m ∷ []) = agent_says m ∷ []
show_last (m ∷ n ∷ ms) = show_last (n ∷ ms)

-- The first of the common keys that is there, or else the whole.
abbrev pub first_of : List Text → Dict Text → Text → Text
first_of [] fields whole = whole
first_of (k ∷ ks) fields whole =
    let rest = first_of ks fields whole in elim (dict_get k fields) [ none ↦ rest | some v ↦ v ]

abbrev pub output_keys : List Text
output_keys = codes "output" ∷ codes "result" ∷ codes "response" ∷ []

unfoldable pub show_reply : Reply → List Text
show_reply (dict (some messages) fields whole) = show_last messages
show_reply (dict none fields whole) = agent_says (first_of output_keys fields whole) ∷ []
show_reply (plain text) = agent_says text ∷ []

-- How a round of the loop ends, what it prints and the state of the agent behind it. The traceback
-- that follows an error line is left out.
pub record Round (S : Type 0) : Type 0 where
  pub stops : Bool
  pub prints : List Text
  pub state : S

module _ {S : Type 0} (agent : Text → S → Outcome × S) where
  abbrev pub goes_on : List Text → S → Round S
  goes_on prints s = record { stops = false; prints = prints; state = s }

  abbrev pub stops_with : Text → S → Round S
  stops_with text s = record { stops = true; prints = text ∷ []; state = s }

  abbrev pub goodbye : Text
  goodbye = codes "Goodbye!"

  abbrev pub thinking : Text
  thinking = codes "\nAgent: Thinking...\n"

  abbrev pub answered : Outcome → S → Round S
  answered (replied r) s = goes_on (thinking ∷ show_reply r) s
  answered (failed e) s = goes_on (thinking ∷ error_line e ∷ []) s
  answered interrupted s = record {
    stops = true;
    prints = thinking ∷ codes "\nGoodbye!" ∷ [];
    state = s;
  }

  abbrev pub on_text : Text → S → Round S
  on_text user_input s =
      if text_mem user_input quit_words
      then stops_with goodbye s
      else if not (nonempty user_input)
      then goes_on [] s
      else answered (agent user_input s).0 (agent user_input s).1

  unfoldable pub round : Input → S → Round S
  round (line text) s = on_text (strip is_space text) s
  round interrupt s = stops_with (codes "\nGoodbye!") s
  round (input_error e) s = goes_on (error_line e ∷ []) s

  abbrev pub end_of_file : Input
  end_of_file = input_error (codes "EOF when reading a line")

  abbrev pub next_input : List Input → Input
  next_input [] = end_of_file
  next_input (i ∷ is) = i

  abbrev pub later_inputs : List Input → List Input
  later_inputs [] = []
  later_inputs (i ∷ is) = is

  -- while True, with the lines printed so far; none: the fuel is used up
  unfoldable pub repl : ℕ → List Input → S → List Text → Option (List Text × S)
  repl zero inputs s out = none
  repl (suc fuel) inputs s out =
      let r = round (next_input inputs) s in
      let rest = repl fuel (later_inputs inputs) r.state (out ++ r.prints) in
      if r.stops then some (out ++ r.prints, r.state) else rest
