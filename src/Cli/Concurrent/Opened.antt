-- ===== src/Cli/Concurrent/Opened.antt =====
-- Processes that share the file and the ids they open, in every interleaving.
use carqna_agent.Common.{
  ℕ, ◌≡◌, refl, sym, ap, ◌∙◌, ◌↔◌, inl, inr, Option, none, some, List, [], ◌∷◌, ◌==◌, ==_iff,
  Bool-cases,
}
use carqna_agent.PyText.{Text}
use carqna_agent.Cli.{Table}
use carqna_agent.Cli.Laws.{id_of}
use carqna_agent.Cli.Ids.{AreKept, AreKept-none}
use carqna_agent.Cli.Concurrent.{Stage, waiting, opened, Machine, execute, execute_all}
use carqna_agent.Cli.Concurrent.Stages.{
  Fits, Leaves, Leaves-statement, Fits-statement, Fits-Leaves, AreKept-Leaves,
}

-- Process `n` is to open the session `names n`, and the file has no table yet.
abbrev pub launched : (ℕ → Text) → Machine
launched names = record {
  processes = λ n. record { session_name = names n; stage = waiting };
  file = none;
}

-- The processes open the sessions that they were started with, and their stages fit the file.
abbrev pub IsSound : (ℕ → Text) → Machine → Type 0
IsSound names m =
    AreKept m.file
    × ((n : ℕ)
        → ((m.processes n).session_name ≡ names n) × Fits (names n) (m.processes n).stage m.file)

module _ (names : ℕ → Text) where
  module _ (n now : ℕ) (m : Machine) (sound : IsSound names m) where
    pub Leaves-execute : Leaves now (names n) m.file (execute n now m).file
    unfolding execute
    Leaves-execute =
        rw (sound.1 n).0 (Leaves-statement now (names n) (m.processes n).stage m.file (sound.1 n).1)

    pub IsSound-execute : IsSound names (execute n now m)
    unfolding execute
    IsSound-execute = (
      AreKept-Leaves now (names n) m.file _ Leaves-execute sound.0,
      λ k. elim (Bool-cases (k == n)) [
        | inl e ↦
            rw (e, (==_iff k n).0 e, (sound.1 n).0)
              (refl, Fits-statement now (names n) (m.processes n).stage m.file (sound.1 n).1)
        | inr e ↦ rw e (
          (sound.1 k).0,
          Fits-Leaves now (names n) m.file _ Leaves-execute (names k) _ (sound.1 k).1,
        )
      ],
    )

  pub IsSound-execute_all :
      (turns : List (ℕ × ℕ)) (m : Machine) → IsSound names m → IsSound names (execute_all turns m)
  unfolding execute_all
  IsSound-execute_all [] m h = h
  IsSound-execute_all ((n, now) ∷ turns) m h =
      IsSound-execute_all turns (execute n now m) (IsSound-execute n now m h)

  pub IsSound-launched : IsSound names (launched names)
  IsSound-launched = (AreKept-none, λ n. (refl, tt))

pub opened_id :
    (name : Text) (stage : Stage) (conn : Option Table) (id : ℕ)
    → stage ≡ opened id
    → Fits name stage conn
    → id_of name conn ≡ some id
opened_id name stage conn id e h = rw e at h

same_id : {i j : ℕ} → some i ≡ some j → i ≡ j
same_id e = cc

-- However the processes' statements are interleaved, from a file without the table: of two processes
-- that have opened their sessions, the ids are equal exactly when the session names are. One name is
-- one conversation, and different names are different ones.
pub opened_iff :
    (names : ℕ → Text) (turns : List (ℕ × ℕ)) (p q i j : ℕ)
    → ((execute_all turns (launched names)).processes p).stage ≡ opened i
    → ((execute_all turns (launched names)).processes q).stage ≡ opened j
    → (i ≡ j) ↔ (names p ≡ names q)
opened_iff names turns p q i j hp hq = (
  λ e. sound.0.1 (names p) (names q) i known_p (known_q ∙ ap some (sym e)),
  λ e. same_id (sym known_p ∙ ap (λ n. id_of n m.file) e ∙ known_q),
)
  where
    m : Machine
    m = execute_all turns (launched names)

    sound : IsSound names m
    sound = IsSound-execute_all names turns (launched names) (IsSound-launched names)

    known_p : id_of (names p) m.file ≡ some i
    known_p = opened_id (names p) (m.processes p).stage m.file i hp (sound.1 p).1

    known_q : id_of (names q) m.file ≡ some j
    known_q = opened_id (names q) (m.processes q).stage m.file j hq (sound.1 q).1
