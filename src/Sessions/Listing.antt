-- ===== src/Sessions/Listing.antt =====
-- `list_sessions`: the caller's sessions, all of them, latest first.
use mathlib.Core.List.{Perm}
use mathlib.Core.List.Perm
use carqna_agent.Common.{
  ℕ, ◌≤◌, ◌≡◌, refl, List, [], ◌∷◌, map, arith, leb, All, every_one, Bool-cases, inl, inr,
}
use carqna_agent.PyText.{Text}
use carqna_agent.Errors.{Result, returned, raised, ◌>>=◌}
use carqna_agent.Database.{StoredSession, Db, insert_desc, sort_desc}
use carqna_agent.Database.Invariant.{IsConsistent}
use carqna_agent.Database.Pool.{Pool, IsTransactional, IsUp, connection_of_IsUp}
use carqna_agent.Sessions.{SessionRow, session_row, list_block, list_sessions}
use carqna_agent.Sessions.Visible.{visible, joined-eq-visible}

abbrev pub IsDescending : List SessionRow → Type 0
IsDescending [] = Unit
IsDescending (s ∷ ss) = All (λ t. t.access_ts ≤ s.access_ts) ss × IsDescending ss

insert_desc-perm : (s : StoredSession) (ss : List StoredSession) → Perm (insert_desc s ss) (s ∷ ss)
insert_desc-perm s [] = Perm.refl (s ∷ [])
insert_desc-perm s (t ∷ ts) = elim (Bool-cases (leb t.access_ts s.access_ts)) [
  | inl e ↦ rw e (Perm.refl (s ∷ t ∷ ts))
  | inr e ↦ rw e (Perm.trans (Perm.cons t (insert_desc-perm s ts)) (Perm.swap s t ts))
]

sort_desc-perm : (ss : List StoredSession) → Perm (sort_desc ss) ss
unfolding sort_desc
sort_desc-perm [] = Perm.refl []
sort_desc-perm (s ∷ ss) =
    Perm.trans (insert_desc-perm s (sort_desc ss)) (Perm.cons s (sort_desc-perm ss))

abbrev AtMost : ℕ → List StoredSession → Type 0
AtMost n ss = All (λ t. t.access_ts ≤ n) (map session_row ss)

AtMost-insert_desc :
    (n : ℕ) (s : StoredSession) (ss : List StoredSession)
    → s.access_ts ≤ n
    → AtMost n ss
    → AtMost n (insert_desc s ss)
AtMost-insert_desc n s [] h k = (h, tt)
AtMost-insert_desc n s (t ∷ ts) h (k, ks) = elim (Bool-cases (leb t.access_ts s.access_ts)) [
  | inl e ↦ rw e (h, (k, ks))
  | inr e ↦ rw e (k, AtMost-insert_desc n s ts h ks)
]

insert_desc-IsDescending :
    (s : StoredSession) (ss : List StoredSession)
    → IsDescending (map session_row ss)
    → IsDescending (map session_row (insert_desc s ss))
insert_desc-IsDescending s [] d = (tt, tt)
insert_desc-IsDescending s (t ∷ ts) (h, d) = elim (Bool-cases (leb t.access_ts s.access_ts)) [
  | inl e ↦
      rw e (((ground arith, every_one _ _ (map session_row ts) h (λ q k. ground arith)), (h, d)))
  | inr e ↦
      rw e (AtMost-insert_desc t.access_ts s ts (ground arith) h, insert_desc-IsDescending s ts d)
]

sort_desc-IsDescending : (ss : List StoredSession) → IsDescending (map session_row (sort_desc ss))
unfolding sort_desc
sort_desc-IsDescending [] = tt
sort_desc-IsDescending (s ∷ ss) =
    insert_desc-IsDescending s (sort_desc ss) (sort_desc-IsDescending ss)

-- What is listed: the user's own sessions, each once, latest access first, in an unchanged database.
pub record IsListing (user_id : Text) (db db' : Db) (rows : List SessionRow) : Type 0 where
  pub complete : Perm rows (map session_row (visible user_id db))
  pub latest_first : IsDescending rows
  pub unchanged : db' ≡ db

visible-IsListing :
    (u : Text) (db : Db) → IsListing u db db (map session_row (sort_desc (visible u db)))
visible-IsListing u db = record {
  complete = Perm.map session_row (sort_desc-perm (visible u db));
  latest_first = sort_desc-IsDescending (visible u db);
  unchanged = refl;
}

list_block_lem :
    (u : Text) {db : Db}
    → IsConsistent db
    → list_block u db ≡ (returned (sort_desc (visible u db)), db)
list_block_lem u c = rw (joined-eq-visible u c) refl

list_sessions_cases :
    (pool : Pool) (u : Text) {db db' : Db} (rows : List SessionRow)
    → IsTransactional pool
    → IsConsistent db
    → (r : Result (List StoredSession)) (d : Db)
    → pool.connection (List StoredSession) (list_block u) db ≡ (r, d)
    → ◌≡◌ {A = Result (List SessionRow) × Db}
        (r >>= λ ss. returned (map session_row ss), d)
        (returned rows, db')
    → IsListing u db db' rows
list_sessions_cases pool u rows t c (raised e) d q h = cc
list_sessions_cases pool u {db} {db'} rows t c (returned ss) d q h =
    let k = t.committed (List StoredSession) (list_block u) db d ss q in
    let same : rows ≡ map session_row (sort_desc (visible u db)) = cc (k, list_block_lem u c) in
    let unchanged : db' ≡ db = cc (k, list_block_lem u c) in
    rw (same, unchanged) (visible-IsListing u db)

-- Behind a transactional pool, on tables that satisfy their constraints: where `list_sessions`
-- returns, it returns the user's own sessions, each once, latest access first, and leaves the
-- database as it was.
pub list_sessions-IsListing :
    (pool : Pool) (u : Text) (db db' : Db) (rows : List SessionRow)
    → IsTransactional pool
    → IsConsistent db
    → list_sessions pool u db ≡ (returned rows, db')
    → IsListing u db db' rows
unfolding list_sessions
list_sessions-IsListing pool u db db' rows t c = list_sessions_cases pool u rows t c _ _ refl

-- With the pool up, it comes back.
pub list_sessions_up :
    (pool : Pool) (u : Text) (db : Db)
    → IsTransactional pool
    → IsUp pool
    → IsConsistent db
    → list_sessions pool u db ≡ (returned (map session_row (sort_desc (visible u db))), db)
unfolding list_sessions
list_sessions_up pool u db t up c =
    rw (connection_of_IsUp t (List StoredSession) (list_block u) db up _ _ (list_block_lem u c))
      refl
