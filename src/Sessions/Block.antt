-- ===== src/Sessions/Block.antt =====
-- What the transaction of `create_session` does to the tables.
use carqna_agent.Common.{ℕ, ◌||◌, Bool-cases, inl, inr, filter}
use carqna_agent.PyText.{Text}
use carqna_agent.Database.{Db, has_user, insert_sessions}
use carqna_agent.Sessions.{has_nul, create_block}

-- What the INSERT keeps, and what held before, is kept by the block, whether or not the name can be
-- stored.
pub create_block_keeps :
    (P : Db → Type 0) (now : ℕ) (u name : Text) (db : Db)
    → P db
    → P (insert_sessions now name (filter (has_user u) db.user_registry) db).1
    → P (create_block now u name db).1
create_block_keeps P now u name db h k = elim (Bool-cases (has_nul name || has_nul u)) [
  | inl nul ↦ rw nul h
  | inr fine ↦ rw fine k
]
