-- ===== src/Server/Concurrent/Turns.antt =====
-- Turns of requests, by what each statement does to the tables.
use carqna_agent.Common.{ℕ, ℤ, ◌≡◌, ap, false, Option, List, [], ◌∷◌, Bool-cases, inl, inr, filter}
use mathlib.Core.Path.{subst}
use carqna_agent.PyText.{Text}
use carqna_agent.PyText.Int.{parse_int}
use carqna_agent.Errors.{Result, returned, raised}
use carqna_agent.Errors.Action.{resume_keeps}
use carqna_agent.Database.{
  UserRow, StoredSession, Db, has_user, update_last_seen, upsert_user, insert_session,
  insert_sessions, with_row, update_access_ts,
}
use carqna_agent.Database.Pool.{Pool, IsTransactional, SameRows, connection_elim}
use carqna_agent.Sessions.Block.{create_block_keeps}
use carqna_agent.Sessions.{
  list_sessions, create_session, touch_session, list_block, create_block, touch_block,
}
use carqna_agent.Sessions.Creation.{is_bad_name}
use carqna_agent.Tracking.{Profile}
use carqna_agent.Auth.Context.{AuthContext}
use carqna_agent.Server.Routes.{Route, chat, sessions, new_session, health, session_id_of}
use carqna_agent.Server.Concurrent.{
  Phase, arrived, unseen, profiled, tracked, answered, count_block, upsert_block, finish, look_up,
  proceed,
}

-- Every block of a request of the user, behind the pool, keeps the property of the tables.
pub record Keeps (pool : Pool) (now : ℕ) (u : Text) (P : Db → Type 0) : Type 0 where
  pub counting : (db : Db) → P db → P (pool.connection ℕ (count_block now u) db).1
  pub storing :
      (email name : Option Text) (db : Db)
      → P db
      → P (pool.connection (Unit {0}) (upsert_block now u email name) db).1
  pub listing : (db : Db) → P db → P (list_sessions pool u db).1
  pub creating : (name : Text) (db : Db) → P db → P (create_session pool now u name db).1
  pub touching : (z : ℤ) (db : Db) → P db → P (touch_session pool now u z db).1

-- So does every statement, and a block that is rolled back.
pub record KeepsStatements (now : ℕ) (u : Text) (P : Db → Type 0) : Type 0 where
  pub same : (db db' : Db) → SameRows db db' → P db → P db'
  pub seeing : (db : Db) → P db → P (update_last_seen now u db).1
  pub storing : (email name : Option Text) (db : Db) → P db → P (upsert_user now u email name db)
  pub inserting :
      (name : Text) (rid : ℕ) (db : Db)
      → is_bad_name name ≡ false
      → P db
      → P (insert_session now name rid db).1
  pub stamping : (z : ℤ) (db : Db) → P db → P (update_access_ts now u z db)

with_row_keeps :
    (P : Db → Type 0) (inserted : Result StoredSession) (db : Db)
    (rest : Result (List StoredSession) × Db)
    → P db
    → P rest.1
    → P (with_row inserted db rest).1
with_row_keeps P (returned row) db rest h k = k
with_row_keeps P (raised e) db rest h k = h

module _ (P : Db → Type 0) where
  pub insert_sessions_keeps :
      (now : ℕ) (name : Text)
      → ((rid : ℕ) (db : Db) → P db → P (insert_session now name rid db).1)
      → (rs : List UserRow) (db : Db) → P db
      → P (insert_sessions now name rs db).1
  unfolding insert_sessions
  insert_sessions_keeps now name k [] db h = h
  insert_sessions_keeps now name k (r ∷ rs) db h =
      let h' = k r.id db h in
      with_row_keeps P (insert_session now name r.id db).0 (insert_session now name r.id db).1 _ h'
        (insert_sessions_keeps now name k rs (insert_session now name r.id db).1 h')

  -- What a rolled back block and the block itself keep is kept behind the pool.
  pub connection_keeps :
      {pool : Pool}
      → IsTransactional pool
      → ((db db' : Db) → SameRows db db' → P db → P db')
      → (A : Type 0) (body : Db → Result A × Db) (db : Db) → P db
      → P (body db).1
      → P (pool.connection A body db).1
  connection_keeps t same A body db h h' =
      connection_elim t A body db (λ r d. P d) (λ x d s. same db d s h)
        (λ a d q. subst P (ap (λ x. x.1) q) h')

module _ {now : ℕ} {u : Text} (P : Db → Type 0) (k : KeepsStatements now u P) where
  -- A property that the statements keep is kept by the blocks.
  pub Keeps_of_statements : (pool : Pool) → IsTransactional pool → Keeps pool now u P
  unfolding list_sessions create_session touch_session
  Keeps_of_statements pool t = record {
    counting = λ db h. behind ℕ (count_block now u) db h (k.seeing db h);
    storing = λ email name db h.
        behind (Unit {0}) (upsert_block now u email name) db h (k.storing email name db h);
    listing = λ db h. behind (List StoredSession) (list_block u) db h h;
    creating = λ name db h. elim (Bool-cases (is_bad_name name)) [
      | inl bad ↦ rw bad h
      | inr good ↦ rw good (
          behind (Option StoredSession) (create_block now u name) db h (
            create_block_keeps P now u name db h (
              insert_sessions_keeps P now name (λ rid d. k.inserting name rid d good)
                (filter (has_user u) db.user_registry) db h)))
    ];
    touching = λ z db h. behind (Unit {0}) (touch_block now u z) db h (k.stamping z db h);
  }
    where
      behind :
          (A : Type 0) (body : Db → Result A × Db) (db : Db)
          → P db
          → P (body db).1
          → P (pool.connection A body db).1
      behind = connection_keeps P t k.same

module _ {pool : Pool} {now : ℕ} {u : Text} (P : Db → Type 0) (k : Keeps pool now u P) where
  finish_keeps : (route : Route) (db : Db) → P db → P (finish pool now route u db).1
  unfolding finish
  finish_keeps (chat thread_id) db h =
      resume_keeps P _ (session_id_of (parse_int thread_id)) db h λ z d h'.
        resume_keeps P _ (touch_session pool now u z d).0 (touch_session pool now u z d).1
          (k.touching z d h') (λ _ _ h''. h'')
  finish_keeps sessions db h =
      resume_keeps P _ (list_sessions pool u db).0 (list_sessions pool u db).1 (k.listing db h)
        (λ _ _ h'. h')
  finish_keeps (new_session name) db h = k.creating name db h
  finish_keeps health db h = h

  look_up_keeps : (route : Route) (db : Db) → P db → P (look_up pool now route u db).1
  unfolding look_up
  look_up_keeps health db h = h
  look_up_keeps _ db h = k.counting db h

module _ {pool : Pool} {now : ℕ} (P : Db → Type 0) (http_get : Text → Text → Result Profile)
    (domain : Option Text) where
  -- So does a turn.
  pub proceed_keeps :
      (phase : Phase) (ctx : AuthContext) (route : Route) (db : Db)
      → Keeps pool now ctx.user_id P
      → P db
      → P (proceed pool now http_get domain phase ctx route db).1
  unfolding proceed
  proceed_keeps arrived ctx route db k h = look_up_keeps P k route db h
  proceed_keeps unseen ctx route db k h = h
  proceed_keeps (profiled email name) ctx route db k h = k.storing email name db h
  proceed_keeps tracked ctx route db k h = finish_keeps P k route db h
  proceed_keeps (answered r) ctx route db k h = h
