-- ===== src/Cli/Concurrent/Tests.antt =====
-- Two processes on one file.
use carqna_agent.Common.{ℕ, ◌≡◌, ◌↔◌, refl, ◌≤◌, none, List, [], ◌∷◌, ◌==◌, if◌then◌else◌, arith}
use carqna_agent.PyText.{Text, codes, text_eq}
use carqna_agent.Cli.{create_session_table, find_session}
use carqna_agent.Cli.Concurrent.{
  waiting, opened, failed, not_unique, selected, insert_row, statement, execute, execute_all,
}
use carqna_agent.Cli.Concurrent.Opened.{launched, opened_iff}
use carqna_agent.Cli.Concurrent.Retry.{count_turns, retry_opens}
use carqna_agent.Cli.Concurrent.Race.{insert_fails_iff}

abbrev tyres : Text
tyres = codes "tyres"

abbrev oil : Text
oil = codes "oil"

-- Process 3 is to open "oil", the others "tyres".
abbrev names : ℕ → Text
names n = if n == 3 then oil else tyres

-- Processes 0 and 1 both SELECT before the INSERT of process 0; process 3 is alone with its name.
abbrev raced : List (ℕ × ℕ)
raced = (0, 1) ∷ (0, 1) ∷ (1, 2) ∷ (1, 2) ∷ (3, 3) ∷ (3, 3) ∷ (0, 4) ∷ (3, 5) ∷ []

abbrev lost : List (ℕ × ℕ)
lost = (0, 1) ∷ (0, 1) ∷ (1, 2) ∷ (1, 2) ∷ (0, 4) ∷ (1, 5) ∷ []

abbrev retried : List (ℕ × ℕ)
retried = (2, 6) ∷ (2, 6) ∷ (3, 6) ∷ (2, 7) ∷ []

selected_none : ((execute_all raced (launched names)).processes 1).stage ≡ selected none
unfolding execute_all execute statement insert_row create_session_table find_session text_eq
selected_none = refl

first_opened : ((execute_all raced (launched names)).processes 0).stage ≡ opened 1
unfolding execute_all execute statement insert_row create_session_table find_session text_eq
first_opened = refl

oil_opened : ((execute_all raced (launched names)).processes 3).stage ≡ opened 2
unfolding execute_all execute statement insert_row create_session_table find_session text_eq
oil_opened = refl

abbrev tyres_id : ℕ
tyres_id = 1

abbrev oil_id : ℕ
oil_id = 2

opened_iff_example : (tyres_id ≡ oil_id) ↔ (names 0 ≡ names 3)
opened_iff_example = opened_iff names raced 0 3 1 2 first_opened oil_opened

insert_fails_iff_example :
    (((execute 1 5 (execute_all raced (launched names))).processes 1).stage ≡ failed not_unique) ↔ (
      (r : ℕ) × ((id : ℕ) × ((names r ≡ names 1)
          × (((execute_all raced (launched names)).processes r).stage ≡ opened id))))
insert_fails_iff_example = insert_fails_iff names raced 1 5 selected_none

-- The later INSERT is refused.
second_failed :
    ((execute 1 5 (execute_all raced (launched names))).processes 1).stage ≡ failed not_unique
second_failed = (insert_fails_iff names raced 1 5 selected_none).1 (0, (1, (refl, first_opened)))

lost_failed : ((execute_all lost (launched names)).processes 1).stage ≡ failed not_unique
unfolding execute_all execute statement insert_row create_session_table find_session text_eq
lost_failed = refl

not_started : ((execute_all lost (launched names)).processes 2).stage ≡ waiting
unfolding execute_all execute statement insert_row create_session_table find_session text_eq
not_started = refl

three_turns : 3 ≤ count_turns 2 retried
unfolding count_turns
three_turns = omega arith

retry_opens_example :
    (id : ℕ) × (((execute_all retried (execute_all lost (launched names))).processes 2).stage
      ≡ opened id)
retry_opens_example =
    retry_opens names lost retried 1 2 not_unique lost_failed not_started refl three_turns
