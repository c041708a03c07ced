-- ===== src/Cli/Concurrent/Retry.antt =====
-- A process that failed at its INSERT can be started again.
use carqna_agent.Common.{
  ℕ, ◌+◌, ◌-◌, ◌≤◌, ◌≡◌, refl, ap, inl, inr, Option, none, some, List, [], ◌∷◌, ◌==◌, ==_iff,
  Bool-cases, arith, if◌then◌else◌,
}
use carqna_agent.PyText.{Text}
use carqna_agent.Errors.{Exception}
use carqna_agent.Cli.{Table}
use carqna_agent.Cli.Laws.{id_of}
use carqna_agent.Cli.Concurrent.{
  Stage, waiting, prepared, selected, opened, failed, Machine, statement, execute, execute_all,
}
use carqna_agent.Cli.Concurrent.Stages.{Fits, id_of-Leaves}
use carqna_agent.Cli.Concurrent.Opened.{
  launched, IsSound, Leaves-execute, IsSound-execute, IsSound-execute_all, IsSound-launched,
}

-- The statements that a process still has to execute.
abbrev pub left : Stage → ℕ
left waiting = 3
left prepared = 2
left (selected found) = 1
left (opened id) = 0
left (failed e) = 0

-- Neither failed nor in front of an INSERT.
abbrev pub OnTrack : Stage → Type 0
OnTrack waiting = Unit
OnTrack prepared = Unit
OnTrack (selected none) = ⊥
OnTrack (selected (some id)) = Unit
OnTrack (opened id) = Unit
OnTrack (failed e) = ⊥

-- The turns of one process in a schedule.
unfoldable pub count_turns : ℕ → List (ℕ × ℕ) → ℕ
count_turns q [] = 0
count_turns q ((n, now) ∷ turns) = (if q == n then 1 else 0) + count_turns q turns

OnTrack-selected : {found : Option ℕ} {id : ℕ} → found ≡ some id → OnTrack (selected found)
OnTrack-selected e = rw e tt

OnTrack-statement :
    (now : ℕ) (name : Text) (stage : Stage) (conn : Option Table) (id : ℕ)
    → id_of name conn ≡ some id
    → OnTrack stage
    → OnTrack (statement now name stage conn).0
      × (left (statement now name stage conn).0 ≤ left stage - 1)
unfolding statement
OnTrack-statement now name waiting conn id h t = (tt, omega arith)
OnTrack-statement now name prepared conn id h t = (OnTrack-selected h, omega arith)
OnTrack-statement now name (selected (some i)) conn id h t = (tt, omega arith)
OnTrack-statement now name (selected none) conn id h t = absurd t
OnTrack-statement now name (opened i) conn id h t = (tt, omega arith)
OnTrack-statement now name (failed e) conn id h t = absurd t

opened_at_last : (stage : Stage) → OnTrack stage → left stage ≤ 0 → (id : ℕ) × (stage ≡ opened id)
opened_at_last (opened id) t h = (id, refl)
opened_at_last waiting t h = absurd (omega arith)
opened_at_last prepared t h = absurd (omega arith)
opened_at_last (selected found) t h = absurd (omega arith)
opened_at_last (failed e) t h = absurd t

failed_known :
    (name : Text) (stage : Stage) (conn : Option Table) (e : Exception)
    → stage ≡ failed e
    → Fits name stage conn
    → (id : ℕ) × (id_of name conn ≡ some id)
failed_known name stage conn e s h = rw s at h

module _ (names : ℕ → Text) (q id : ℕ) where
  -- The name of process `q` has an id, and the process is on its way to it.
  abbrev Continues : Machine → Type 0
  Continues m =
      IsSound names m × ((id_of (names q) m.file ≡ some id) × OnTrack (m.processes q).stage)

  module _ (n now : ℕ) (m : Machine) (c : Continues m) where
    known-execute : id_of (names q) (execute n now m).file ≡ some id
    known-execute =
        id_of-Leaves now (names n) m.file _ (Leaves-execute names n now m c.0) (names q) id c.1.0

    -- A turn of the process takes it forward, and another one leaves it where it is.
    turn-execute :
        OnTrack ((execute n now m).processes q).stage
        × (left ((execute n now m).processes q).stage
            ≤ left (m.processes q).stage - (if q == n then 1 else 0))
    unfolding execute
    turn-execute = elim (Bool-cases (q == n)) [
      | inl e ↦
          let same = (==_iff q n).0 e in
          rw (e, same, (c.0.1 n).0)
            (OnTrack-statement now (names n) (m.processes n).stage m.file id (rw same at c.1.0)
              (rw same at c.1.1))
      | inr e ↦ rw e (c.1.1, omega arith)
    ]

    Continues-execute : Continues (execute n now m)
    Continues-execute = (IsSound-execute names n now m c.0, (known-execute, turn-execute.0))

  Continues-execute_all :
      (turns : List (ℕ × ℕ)) (m : Machine)
      → Continues m
      → Continues (execute_all turns m)
        × (left ((execute_all turns m).processes q).stage
            ≤ left (m.processes q).stage - count_turns q turns)
  unfolding execute_all count_turns
  Continues-execute_all [] m c = (c, omega arith)
  Continues-execute_all ((n, now) ∷ turns) m c =
      let rest = Continues-execute_all turns (execute n now m) (Continues-execute n now m c) in
      (rest.0, omega (arith, rest.1, (turn-execute n now m c).1))

-- However the processes' statements are interleaved, from a file without the table: when some process
-- has failed, another process that is to open the same session and has executed no statement yet has
-- it open after any further schedule that gives it three turns, whatever the others do.
pub retry_opens :
    (names : ℕ → Text) (before after : List (ℕ × ℕ)) (p q : ℕ) (e : Exception)
    → ((execute_all before (launched names)).processes p).stage ≡ failed e
    → ((execute_all before (launched names)).processes q).stage ≡ waiting
    → names p ≡ names q
    → 3 ≤ count_turns q after
    → (id : ℕ) × (((execute_all after (execute_all before (launched names))).processes q).stage
        ≡ opened id)
retry_opens names before after p q e failure start same enough =
    let (id, known) = failed_known (names p) (m.processes p).stage m.file e failure (sound.1 p).1 in
    let (kept, turns) =
      Continues-execute_all names q id after m (sound, (rw same at known, rw start tt)) in
    opened_at_last _ kept.1.1 (omega (arith, turns, ap left start))
  where
    m : Machine
    m = execute_all before (launched names)

    sound : IsSound names m
    sound = IsSound-execute_all names before (launched names) (IsSound-launched names)
