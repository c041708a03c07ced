-- ===== src/Database/Pool.antt =====
-- psycopg_pool's `AsyncConnectionPool.connection()`, which the repository only calls: an interface.
-- A block that ends without an exception is committed, any other leaves the rows as they were.
use Prim.Native.Nat.{max}
use carqna_agent.Common.{◌≤◌, ◌≡◌, refl, ap, arith, every_one, sym, ◌∙◌}
use carqna_agent.Errors.{Exception, Result, returned, raised}
use carqna_agent.Database.{Db}
use carqna_agent.Database.Invariant.{IsConsistent}

pub record Pool : Type 1 where
  pub connection : (A : Type 0) → (Db → Result A × Db) → Db → Result A × Db

-- The rows are the same; an identity sequence may have moved on.
pub record SameRows (old new : Db) : Type 0 where
  pub registry : new.user_registry ≡ old.user_registry
  pub sessions : new.user_sessions ≡ old.user_sessions
  pub user_sequence : old.next_user ≤ new.next_user
  pub session_sequence : old.next_session ≤ new.next_session

pub record IsTransactional (p : Pool) : Type 1 where
  pub committed :
      (A : Type 0) (body : Db → Result A × Db) (db db' : Db) (a : A)
      → p.connection A body db ≡ (returned a, db')
      → body db ≡ (returned a, db')
  pub rolled_back :
      (A : Type 0) (body : Db → Result A × Db) (db db' : Db) (e : Exception)
      → p.connection A body db ≡ (raised e, db')
      → SameRows db db'

-- The pool hands out a connection, and no statement or commit fails for a reason of its own.
pub record IsUp (p : Pool) : Type 1 where
  pub delivered :
      (A : Type 0) (body : Db → Result A × Db) (db : Db) → (p.connection A body db).0 ≡ (body db).0

pub SameRows-IsConsistent : {old new : Db} → SameRows old new → IsConsistent old → IsConsistent new
SameRows-IsConsistent {old} {new} s c = record {
  user_ids = rw s.registry c.user_ids;
  registry_ids = rw s.registry c.registry_ids;
  users_below =
      rw s.registry
        (every_one _ _ old.user_registry c.users_below (λ r h. omega (arith, s.user_sequence)));
  session_ids = rw s.sessions c.session_ids;
  sessions_below =
      rw s.sessions (
        every_one _ _ old.user_sessions c.sessions_below
          (λ r h. omega (arith, s.session_sequence)));
  names = rw s.sessions c.names;
  references = rw (s.sessions, s.registry) c.references;
}

module _ {p : Pool} (t : IsTransactional p) (A : Type 0) (body : Db → Result A × Db) (db : Db) where
  connection_cases :
      (Q : Result A → Db → Type 0)
      → ((e : Exception) (db' : Db) → SameRows db db' → Q (raised e) db')
      → ((a : A) (db' : Db) → body db ≡ (returned a, db') → Q (returned a) db')
      → (r : Result A) (db' : Db) → p.connection A body db ≡ (r, db')
      → Q r db'
  connection_cases Q f k (returned a) db' e = k a db' (t.committed A body db db' a e)
  connection_cases Q f k (raised x) db' e = f x db' (t.rolled_back A body db db' x e)

  -- What holds of a rolled back block and of a committed one holds of the block behind the pool.
  pub connection_elim :
      (Q : Result A → Db → Type 0)
      → ((e : Exception) (db' : Db) → SameRows db db' → Q (raised e) db')
      → ((a : A) (db' : Db) → body db ≡ (returned a, db') → Q (returned a) db')
      → Q (p.connection A body db).0 (p.connection A body db).1
  connection_elim Q f k =
      connection_cases Q f k (p.connection A body db).0 (p.connection A body db).1 refl

  -- A block that keeps the constraints where it succeeds keeps them behind the pool.
  pub connection-IsConsistent :
      IsConsistent db
      → ((a : A) (db' : Db) → body db ≡ (returned a, db') → IsConsistent db')
      → IsConsistent (p.connection A body db).1
  connection-IsConsistent c =
      connection_elim (λ r d. IsConsistent d) (λ e d s. SameRows-IsConsistent s c)

  connection_up :
      IsUp p
      → (r : Result A) (db' : Db) (a : A) (db'' : Db) → p.connection A body db ≡ (r, db')
      → body db ≡ (returned a, db'')
      → p.connection A body db ≡ (returned a, db'')
  connection_up u (returned b) db' a db'' e h = e ∙ sym (t.committed A body db db' b e) ∙ h
  connection_up u (raised x) db' a db'' e h = cc (u.delivered A body db, e, h)

  -- Behind a pool that is up, a block that succeeds is the block.
  pub connection_of_IsUp :
      IsUp p
      → (a : A) (db'' : Db) → body db ≡ (returned a, db'')
      → p.connection A body db ≡ (returned a, db'')
  connection_of_IsUp u a db'' = connection_up u _ _ a db'' refl

-- The pool that runs the block at once: it meets the assumptions.
abbrev settle : {A : Type 0} → Db → Result A → Db → Result A × Db
settle db (returned a) db' = (returned a, db')
settle db (raised e) db' = (
  raised e,
  record db {
    next_user = max db.next_user db'.next_user;
    next_session = max db.next_session db'.next_session;
  },
)

abbrev pub direct : Pool
direct = record { connection = λ A body db. settle db (body db).0 (body db).1 }

settle_committed :
    {A : Type 0} (db : Db) (r : Result A) (d db' : Db) (a : A)
    → settle db r d ≡ (returned a, db')
    → ◌≡◌ {A = Result A × Db} (r, d) (returned a, db')
settle_committed db (returned b) d db' a e = e
settle_committed db (raised x) d db' a e = cc

settle_rolled_back :
    {A : Type 0} (db : Db) (r : Result A) (d db' : Db) (x : Exception)
    → settle db r d ≡ (raised x, db')
    → SameRows db db'
settle_rolled_back db (returned b) d db' x e = cc
settle_rolled_back db (raised y) d db' x e = ground arith

pub direct-IsTransactional : IsTransactional direct
direct-IsTransactional = record {
  committed = λ A body db db' a e. settle_committed db (body db).0 (body db).1 db' a e;
  rolled_back = λ A body db db' x e. settle_rolled_back db (body db).0 (body db).1 db' x e;
}

settle_result : {A : Type 0} (db : Db) (r : Result A) (d : Db) → (settle db r d).0 ≡ r
settle_result db (returned a) d = refl
settle_result db (raised e) d = refl

pub direct-IsUp : IsUp direct
direct-IsUp = record { delivered = λ A body db. settle_result db (body db).0 (body db).1 }

-- Behind a pool that is up, a block that raises raises the same, and the rows stay.
pub connection_raises :
    {p : Pool} (t : IsTransactional p) (A : Type 0) (body : Db → Result A × Db) (db : Db)
    (e : Exception)
    → IsUp p
    → (body db).0 ≡ raised e
    → ((p.connection A body db).0 ≡ raised e) × SameRows db (p.connection A body db).1
connection_raises {p} t A body db e up h = (
  up.delivered A body db ∙ h,
  connection_elim t A body db (λ r d. r ≡ raised e → SameRows db d) (λ x d s _. s) (λ a d q k. cc)
      (up.delivered A body db ∙ h),
)

settle_nothing :
    {A : Type 0} (db : Db) (x : Exception) → settle {A = A} db (raised x) db ≡ (raised x, db)
settle_nothing db x = ground arith

-- A block that raises and has changed nothing changes nothing.
pub direct_raises :
    (A : Type 0) (body : Db → Result A × Db) (db : Db) (x : Exception)
    → body db ≡ (raised x, db)
    → direct.connection A body db ≡ (raised x, db)
direct_raises A body db x e = ap (λ (r : Result A × Db). settle db r.0 r.1) e ∙ settle_nothing db x
