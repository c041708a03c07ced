-- ===== src/Cli/Concurrent/Race.antt =====
-- When an INSERT fails: exactly when another process has opened the session since the SELECT.
use carqna_agent.Common.{
  ℕ, ◌≡◌, refl, sym, ap, ◌∙◌, ◌↔◌, ◌⊎◌, inl, inr, Option, none, some, List, [], ◌∷◌, ◌==◌, ==_iff,
  ==_refl, Bool-cases, Option-cases,
}
use carqna_agent.PyText.{Text, text_eq}
use carqna_agent.PyText.Laws.{text_eq_iff}
use carqna_agent.Cli.{Table, create_session_table, find_session}
use carqna_agent.Cli.Laws.{id_of, find_session-stamp}
use carqna_agent.Cli.Concurrent.{
  Stage, waiting, prepared, selected, opened, failed, Machine, not_unique, insert_row,
  inserted_stage, statement, execute, execute_all,
}
use carqna_agent.Cli.Concurrent.Opened.{
  launched, IsSound, IsSound-execute, IsSound-execute_all, IsSound-launched, opened_id,
}

same_id : {i j : ℕ} → some i ≡ some j → i ≡ j
same_id e = cc

-- An id behind a statement is an old one, or the statement's process has opened it.
opened_cases :
    (now : ℕ) (name other : Text) (stage : Stage) (conn : Option Table) (id : ℕ)
    → id_of other (statement now name stage conn).1 ≡ some id
    → (id_of other conn ≡ some id)
      ⊎ ((name ≡ other) × ((statement now name stage conn).0 ≡ opened id))
unfolding statement insert_row create_session_table find_session
opened_cases now name other waiting conn id h = inl h
opened_cases now name other prepared conn id h = inl h
opened_cases now name other (selected (some i)) conn id h =
    inl (sym (find_session-stamp other now i (create_session_table conn).rows) ∙ h)
opened_cases now name other (selected none) conn id h =
    go (create_session_table conn) (Option-cases _) h
  where
    go :
        (t : Table)
        → (find_session name t.rows ≡ none) ⊎ ((i : ℕ) × (find_session name t.rows ≡ some i))
        → find_session other (insert_row now name t).1.rows ≡ some id
        → (find_session other t.rows ≡ some id)
          ⊎ ((name ≡ other) × (inserted_stage (insert_row now name t).0 ≡ opened id))
    go t (inr (i, e)) k = inl (rw e at k)
    go t (inl e) k = elim (Bool-cases (text_eq name other)) [
      | inl s ↦ inr ((text_eq_iff name other).0 s, rw e (ap opened (same_id (rw (e, s) at k))))
      | inr s ↦ inl (rw (e, s) at k)
    ]
opened_cases now name other (opened i) conn id h = inl h
opened_cases now name other (failed e) conn id h = inl h

module _ (names : ℕ → Text) where
  -- Each id in the file is one that a process has opened.
  abbrev pub IsOwned : Machine → Type 0
  IsOwned m =
      (name : Text) (id : ℕ)
      → id_of name m.file ≡ some id
      → (r : ℕ) × ((names r ≡ name) × ((m.processes r).stage ≡ opened id))

  -- A process that has opened its session executes nothing more.
  stays_opened :
      (n now r id : ℕ) (m : Machine)
      → (m.processes r).stage ≡ opened id
      → ((execute n now m).processes r).stage ≡ opened id
  unfolding execute statement
  stays_opened n now r id m h = elim (Bool-cases (r == n)) [
    | inl e ↦ rw (e, sym ((==_iff r n).0 e), h) refl
    | inr e ↦ rw e h
  ]

  IsOwned-execute :
      (n now : ℕ) (m : Machine) → IsSound names m → IsOwned m → IsOwned (execute n now m)
  unfolding execute
  IsOwned-execute n now m sound owned name id h =
      elim (opened_cases now (m.processes n).session_name name (m.processes n).stage m.file id h) [
        | inl k ↦
            let (r, opener) = owned name id k in (r, (opener.0, stays_opened n now r id m opener.1))
        | inr (same, stage) ↦ (n, (sym (sound.1 n).0 ∙ same, rw (==_refl n) stage))
      ]

  IsOwned-execute_all :
      (turns : List (ℕ × ℕ)) (m : Machine)
      → IsSound names m
      → IsOwned m
      → IsOwned (execute_all turns m)
  unfolding execute_all
  IsOwned-execute_all [] m sound owned = owned
  IsOwned-execute_all ((n, now) ∷ turns) m sound owned =
      IsOwned-execute_all turns (execute n now m) (IsSound-execute names n now m sound)
        (IsOwned-execute n now m sound owned)

  IsOwned-launched : IsOwned (launched names)
  unfolding create_session_table find_session
  IsOwned-launched name id h = cc

-- What the INSERT makes of the stage.
insert_cases :
    (now : ℕ) (name : Text) (conn : Option Table)
    → ((statement now name (selected none) conn).0 ≡ failed not_unique)
      ↔ ((id : ℕ) × (id_of name conn ≡ some id))
unfolding statement insert_row
insert_cases now name conn = elim (Option-cases (id_of name conn)) [
  | inl e ↦ rw e (λ f. absurd (not_failed f), λ known. absurd (none_known refl known.1))
  | inr (id, e) ↦ rw e (λ f. (id, refl), λ known. refl)
]
  where
    not_failed : {id : ℕ} → opened id ≡ failed not_unique → ⊥
    not_failed e = cc

    none_known : {found : Option ℕ} {id : ℕ} → found ≡ none → found ≡ some id → ⊥
    none_known e f = cc

-- However the processes' statements have been interleaved so far, from a file without the table: the
-- INSERT of a process raises the UNIQUE column's IntegrityError if some process has opened a session
-- of that name, and only then.
pub insert_fails_iff :
    (names : ℕ → Text) (turns : List (ℕ × ℕ)) (p now : ℕ)
    → ((execute_all turns (launched names)).processes p).stage ≡ selected none
    → (((execute p now (execute_all turns (launched names))).processes p).stage ≡ failed not_unique)
      ↔ ((r : ℕ) × ((id : ℕ) × ((names r ≡ names p)
              × (((execute_all turns (launched names)).processes r).stage ≡ opened id))))
unfolding execute
insert_fails_iff names turns p now s =
    rw (==_refl p, (sound.1 p).0, s)
      (
        λ f.
            let (id, known) = (insert_cases now (names p) m.file).0 f in
            let (r, opener) = owned (names p) id known in (r, (id, opener)),
        λ (r, (id, (same, stage))). (insert_cases now (names p) m.file).1 (
          id,
          rw same at (opened_id (names r) (m.processes r).stage m.file id stage (sound.1 r).1),
        ),
      )
  where
    m : Machine
    m = execute_all turns (launched names)

    sound : IsSound names m
    sound = IsSound-execute_all names turns (launched names) (IsSound-launched names)

    owned : IsOwned names m
    owned =
        IsOwned-execute_all names turns (launched names) (IsSound-launched names)
          (IsOwned-launched names)
