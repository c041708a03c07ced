-- ===== src/Cli/Laws.antt =====
-- A session name keeps its id over every sequence of calls.
use carqna_agent.Common.{
  ℕ, ◌≡◌, ◌⊎◌, refl, sym, ap, ◌∙◌, Option, none, some, List, [], ◌∷◌, map, ◌==◌, Bool-cases,
  Option-cases, inl, inr, if◌then◌else◌,
}
use carqna_agent.PyText.{Text, text_eq}
use carqna_agent.PyText.Laws.{text_eq_refl, text_eq_iff}
use carqna_agent.Cli.{
  CliSession, Table, create_session_table, find_session, stamp, get_or_insert,
  get_or_create_session,
}

-- A call: its time and its session name.
abbrev pub Call : Type 0
Call = ℕ × Text

-- The connection after some calls, the first one first.
abbrev pub run : List Call → Option Table → Option Table
run [] conn = conn
run ((now, name) ∷ calls) conn = run calls (get_or_create_session now name conn).1

abbrev pub id_of : Text → Option Table → Option ℕ
id_of name conn = find_session name (create_session_table conn).rows

pub find_session-stamp :
    (name : Text) (now id : ℕ) (rows : List CliSession)
    → find_session name (map (stamp now id) rows) ≡ find_session name rows
unfolding find_session
find_session-stamp name now id [] = refl
find_session-stamp name now id (r ∷ rs) = elim (Bool-cases (r.session_id == id)) [
  | inl e ↦ rw (e, find_session-stamp name now id rs) refl
  | inr e ↦ rw (e, find_session-stamp name now id rs) refl
]

-- What each name's id is behind a call.
pub id_of-get_or_create_session :
    (now : ℕ) (name other : Text) (conn : Option Table)
    → id_of other (get_or_create_session now name conn).1 ≡ (
        if text_eq name other
        then some (get_or_create_session now name conn).0
        else id_of other conn)
unfolding get_or_create_session create_session_table find_session
id_of-get_or_create_session now name other conn = go (create_session_table conn) (Option-cases _)
  where
    go :
        (t : Table)
        → (find_session name t.rows ≡ none) ⊎ ((id : ℕ) × (find_session name t.rows ≡ some id))
        → id_of other (get_or_insert now name t (find_session name t.rows)).1 ≡ (
            if text_eq name other
            then some (get_or_insert now name t (find_session name t.rows)).0
            else find_session other t.rows)
    go t (inl e) = rw e refl
    go t (inr (id, e)) = rw e (elim (Bool-cases (text_eq name other)) [
      | inl s ↦ rw s (
          find_session-stamp other now id t.rows
          ∙ ap (λ n. find_session n t.rows) (sym ((text_eq_iff name other).0 s))
          ∙ e)
      | inr s ↦ rw s (find_session-stamp other now id t.rows)
    ])

module _ (now : ℕ) (name : Text) where
  pub id_of_self :
      (conn : Option Table)
      → id_of name (get_or_create_session now name conn).1
        ≡ some (get_or_create_session now name conn).0
  id_of_self conn = id_of-get_or_create_session now name name conn ∙ rw (text_eq_refl name) refl

  -- A name that has an id is answered with it.
  pub get_known :
      (conn : Option Table) (id : ℕ)
      → id_of name conn ≡ some id
      → (get_or_create_session now name conn).0 ≡ id
  unfolding get_or_create_session
  get_known conn id e = rw e refl

-- An id stays, whatever is called in between.
pub id_of-run :
    (name : Text) (id : ℕ) (calls : List Call) (conn : Option Table)
    → id_of name conn ≡ some id
    → id_of name (run calls conn) ≡ some id
id_of-run name id [] conn e = e
id_of-run name id ((now, other) ∷ calls) conn e =
    id_of-run name id calls _ (elim (Bool-cases (text_eq other name)) [
      | inl s ↦
          id_of-get_or_create_session now other name conn
          ∙ rw s (
              ap some (
                get_known now other conn id
                  (ap (λ n. id_of n conn) ((text_eq_iff other name).0 s) ∙ e)))
      | inr s ↦ id_of-get_or_create_session now other name conn ∙ rw s e
    ])

-- Whatever the table and whatever sessions are opened in between, opening a name again gives the id
-- that it had: the conversation is continued.
get_or_create_session-run :
    (now later : ℕ) (name : Text) (calls : List Call) (conn : Option Table)
    → (get_or_create_session later name (run calls (get_or_create_session now name conn).1)).0
      ≡ (get_or_create_session now name conn).0
get_or_create_session-run now later name calls conn =
    get_known later name _ _ (id_of-run name _ calls _ (id_of_self now name conn))
