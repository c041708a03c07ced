-- ===== src/Database/Sample.antt =====
-- Tables on which the tests run: two users, the first with one session.
use carqna_agent.Common.{ℕ, ◌≢◌, refl, none, [], ◌∷◌, arith}
use carqna_agent.PyText.{Text, codes}
use carqna_agent.Database.{Db, UserRow, StoredSession}
use carqna_agent.Database.Invariant.{IsConsistent}

abbrev pub alice : Text
alice = codes "auth0|alice"

abbrev pub bob : Text
bob = codes "auth0|bob"

abbrev pub carol : Text
carol = codes "auth0|carol"

abbrev user : ℕ → Text → UserRow
user id user_id = record {
  id = id;
  user_id = user_id;
  email = none;
  name = none;
  first_seen_at = id;
  last_seen_at = id;
}

abbrev pub trip : StoredSession
trip = record { id = 1; user_registry_id = 1; session_name = codes "trip"; access_ts = 7 }

abbrev pub two_users : Db
two_users = record {
  user_registry = user 2 bob ∷ user 1 alice ∷ [];
  next_user = 3;
  user_sessions = trip ∷ [];
  next_session = 2;
}

pub bob-ne-alice : bob ≢ alice
bob-ne-alice e = cc e

pub alice-ne-bob : alice ≢ bob
alice-ne-bob e = cc e

pub two_users-IsConsistent : IsConsistent two_users
two_users-IsConsistent = record {
  user_ids = ((λ e. cc e, tt), (tt, tt));
  registry_ids = (((λ e. omega arith), tt), (tt, tt));
  users_below = (omega arith, (omega arith, tt));
  session_ids = (tt, tt);
  sessions_below = (omega arith, tt);
  names = (tt, tt);
  references = (refl, tt);
}
