-- ===== src/Errors.antt =====
-- Python's exceptions, as far as the program tells them apart, and code that may raise.
pub mod Action
use carqna_agent.Common.{ℕ, ◌≡◌, refl, ◌⊎◌, inl, inr}
use carqna_agent.PyText.{Text}

pub data Exception : Type 0 where
  value_error : Text → Exception
  runtime_error : Text → Exception
  file_not_found : Text → Exception
  -- fastapi.HTTPException, with its status and detail
  http_exception : ℕ → Text → Exception
  -- psycopg.errors.UniqueViolation
  unique_violation : Exception
  -- jwt.PyJWTError
  jwt_error : Text → Exception
  -- any other `Exception` that a library raises
  library_error : Text → Exception

-- A call that is over: it raised, or it returned.
pub data Result {ℓ} (A : Type ℓ) : Type ℓ where
  raised : Exception → Result A
  returned : A → Result A

infixl 5 ◌>>=◌
abbrev pub ◌>>=◌ {ℓ κ} : {A : Type ℓ} {B : Type κ} → Result A → (A → Result B) → Result B
raised e >>= k = raised e
returned x >>= k = k x

pub Result-cases {ℓ} :
    {A : Type ℓ} (r : Result A) → ((a : A) × (r ≡ returned a)) ⊎ ((e : Exception) × (r ≡ raised e))
Result-cases (raised e) = inr (e, refl)
Result-cases (returned x) = inl (x, refl)

-- A chain that returned has a first part that returned.
module _ {ℓ κ} {A : Type ℓ} {B : Type κ} where
  pub >>=-returned :
      (first : Result A) (k : A → Result B) {y : B}
      → (first >>= k) ≡ returned y
      → (x : A) × (first ≡ returned x) × (k x ≡ returned y)
  >>=-returned (returned x) k eq = (x, refl, eq)
  >>=-returned (raised e) k eq = cc
