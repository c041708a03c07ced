-- ===== src/Errors/Action.antt =====
-- Code that works on a state and may raise; the state is what the code leaves, also where it raises.
use carqna_agent.Errors.{Result, returned, raised}

abbrev pub Action : Type 0 → Type 0 → Type 0
Action S A = S → Result A × S

abbrev pub resume : {S A B : Type 0} → (A → Action S B) → Result A → S → Result B × S
resume f (returned a) s = f a s
resume f (raised e) s = (raised e, s)

infixl 5 ◌>>=◌ ◌>>◌
abbrev pub ◌>>=◌ : {S A B : Type 0} → Action S A → (A → Action S B) → Action S B
◌>>=◌ m f s = resume f (m s).0 (m s).1

abbrev pub ◌>>◌ : {S A B : Type 0} → Action S A → Action S B → Action S B
m >> k = m >>= λ _. k

-- Code that leaves the state alone.
abbrev pub lift : {S A : Type 0} → Result A → Action S A
lift r s = (r, s)

-- What a `finally` clause that is over leaves of how its `try` block ended.
abbrev pub over : {S A : Type 0} → Result A → Result (Unit {0}) × S → Result A × S
over r (returned _, s) = (r, s)
over r (raised e, s) = (raised e, s)

-- try: m, finally: k
abbrev pub finally_do : {S A : Type 0} → Action S A → Action S (Unit {0}) → Action S A
finally_do m k s = over (m s).0 (k (m s).1)

-- What holds of the state after each part holds after the whole.
pub resume_keeps :
    {S A B : Type 0} (P : S → Type 0) (f : A → Action S B) (r : Result A) (s : S)
    → P s
    → ((a : A) (s' : S) → P s' → P (f a s').1)
    → P (resume f r s).1
resume_keeps P f (returned a) s h k = k a s h
resume_keeps P f (raised e) s h k = h
