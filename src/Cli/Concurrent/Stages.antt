-- ===== src/Cli/Concurrent/Stages.antt =====
-- What one statement does to the file and to the stage of its process.
use carqna_agent.Common.{ℕ, ◌≡◌, refl, ◌⊎◌, inl, inr, Option, none, some, [], ◌∷◌, Option-cases}
use carqna_agent.PyText.{Text}
use carqna_agent.PyText.Laws.{text_eq_refl}
use carqna_agent.Cli.{Table, create_session_table, find_session, get_or_create_session}
use carqna_agent.Cli.Laws.{id_of, id_of-run}
use carqna_agent.Cli.Ids.{AreKept, AreKept-run}
use carqna_agent.Cli.Concurrent.{
  Stage, waiting, prepared, selected, opened, failed, statement, insert_row,
}

-- What a stage says of the file: the id it holds is the name's, and behind a failure the name has one.
abbrev pub Fits : Text → Stage → Option Table → Type 0
Fits name waiting conn = Unit
Fits name prepared conn = Unit
Fits name (selected none) conn = Unit
Fits name (selected (some id)) conn = id_of name conn ≡ some id
Fits name (opened id) conn = id_of name conn ≡ some id
Fits name (failed e) conn = (id : ℕ) × (id_of name conn ≡ some id)

-- The files that a statement can leave: as it was, with the table made, or as a call of
-- get_or_create_session leaves it.
abbrev pub Leaves : ℕ → Text → Option Table → Option Table → Type 0
Leaves now name conn after =
    (after ≡ conn)
    ⊎ ((after ≡ some (create_session_table conn))
        ⊎ (after ≡ (get_or_create_session now name conn).1))

module _ (now : ℕ) (name : Text) where
  pub Leaves-statement :
      (stage : Stage) (conn : Option Table)
      → Fits name stage conn
      → Leaves now name conn (statement now name stage conn).1
  unfolding statement get_or_create_session insert_row
  Leaves-statement waiting conn h = inr (inl refl)
  Leaves-statement prepared conn h = inl refl
  Leaves-statement (selected (some id)) conn h = inr (inr (rw h refl))
  Leaves-statement (selected none) conn h = elim (Option-cases (id_of name conn)) [
    | inl e ↦ inr (inr (rw e refl))
    | inr (id, e) ↦ inr (inl (rw e refl))
  ]
  Leaves-statement (opened id) conn h = inl refl
  Leaves-statement (failed e) conn h = inl refl

  module _ (conn after : Option Table) (leaves : Leaves now name conn after) where
    -- An id that a name has stays.
    pub id_of-Leaves :
        (other : Text) (id : ℕ) → id_of other conn ≡ some id → id_of other after ≡ some id
    unfolding create_session_table
    id_of-Leaves other id h = elim leaves [
      | inl e ↦ rw e h
      | inr (inl e) ↦ rw e h
      | inr (inr e) ↦ rw e (id_of-run other id ((now, name) ∷ []) conn h)
    ]

    -- What the stage of another process says stays true.
    pub Fits-Leaves :
        (other : Text) (stage : Stage) → Fits other stage conn → Fits other stage after
    Fits-Leaves other waiting h = tt
    Fits-Leaves other prepared h = tt
    Fits-Leaves other (selected none) h = tt
    Fits-Leaves other (selected (some id)) h = id_of-Leaves other id h
    Fits-Leaves other (opened id) h = id_of-Leaves other id h
    Fits-Leaves other (failed e) (id, h) = (id, id_of-Leaves other id h)

    pub AreKept-Leaves : AreKept conn → AreKept after
    unfolding create_session_table
    AreKept-Leaves h = elim leaves [
      | inl e ↦ rw e h
      | inr (inl e) ↦ rw e h
      | inr (inr e) ↦ rw e (AreKept-run ((now, name) ∷ []) conn h)
    ]

  -- The new stage fits the file behind the statement.
  pub Fits-statement :
      (stage : Stage) (conn : Option Table)
      → Fits name stage conn
      → Fits name (statement now name stage conn).0 (statement now name stage conn).1
  unfolding statement insert_row create_session_table find_session
  Fits-statement waiting conn h = tt
  Fits-statement prepared conn h = fits_selected (Option-cases (id_of name conn))
    where
      fits_selected :
          (id_of name conn ≡ none) ⊎ ((id : ℕ) × (id_of name conn ≡ some id))
          → Fits name (selected (id_of name conn)) conn
      fits_selected (inl e) = rw e tt
      fits_selected (inr (id, e)) = rw e e
  Fits-statement (selected (some id)) conn h =
      id_of-Leaves conn _ (Leaves-statement (selected (some id)) conn h) name id h
  Fits-statement (selected none) conn h = fits_inserted (Option-cases (id_of name conn))
    where
      fits_inserted :
          (id_of name conn ≡ none) ⊎ ((id : ℕ) × (id_of name conn ≡ some id))
          → Fits name
              (statement now name (selected none) conn).0
              (statement now name (selected none) conn).1
      fits_inserted (inl e) = rw e (rw (text_eq_refl name) refl)
      fits_inserted (inr (id, e)) = rw e (id, e)
  Fits-statement (opened id) conn h = h
  Fits-statement (failed e) conn h = h
