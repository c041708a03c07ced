-- ===== src/Server/Lifespan/Runs.antt =====
-- Actions by the calls that they make: from one stage to another, as their results say.
use mathlib.Core.Path.{subst}
use carqna_agent.Common.{◌≡◌, refl, ap, sym, ◌∙◌, List, [], ◌∷◌, ◌++◌, append_assoc}
use carqna_agent.Errors.{Exception, Result, returned, raised}
use carqna_agent.Errors.Action.{Action, resume, ◌>>=◌}
use carqna_agent.Os.{Os}
use carqna_agent.Graph.Create.{Services}
use carqna_agent.Server.Lifespan.{Event, Startup, Externals, call_event}
use carqna_agent.Server.Lifespan.Stages.{Stage, Step, Trace, stop, go, Trace-append}

module _ {C T K P G A : Type 0} (sv : Services C T K P G) (os : Os) (x : Externals P G A) where
  -- A call leads to a stage with its value if it returns and to another if it raises.
  abbrev pub AtEnd :
      {B : Type 0} → (B → Stage P G A) → Stage P G A → Result B → Stage P G A → Type 0
  AtEnd good bad (returned y) b = b ≡ good y
  AtEnd good bad (raised e) b = b ≡ bad

  -- From the events `before` and the stage `a`, the end (r, st) was reached by further calls, to a stage
  -- that `Q` allows for r.
  abbrev pub Reached :
      {B : Type 0}
      → List (Event P G A)
      → Stage P G A
      → (Result B → Stage P G A → Type 0)
      → Result B
      → Startup C T P G A
      → Type 0
  Reached before a Q r st =
      (b : Stage P G A) × (new : List (Event P G A)) × (st.events ≡ before ++ new)
      × Trace sv os x a new b
      × Q r b

  -- The action does so from every state.
  abbrev pub Runs :
      {B : Type 0}
      → Action (Startup C T P G A) B
      → Stage P G A
      → (Result B → Stage P G A → Type 0)
      → Type 0
  Runs m a Q = (st : Startup C T P G A) → Reached st.events a Q (m st).0 (m st).1

  pub Runs-call :
      {B : Type 0} (event : Result B → Event P G A) (r : Result B) (a b : Stage P G A)
      (Q : Result B → Stage P G A → Type 0)
      → Step sv os x a (event r) b
      → Q r b
      → Runs (call_event event r) a Q
  Runs-call event r a b Q s q st = (b, event r ∷ [], refl, go s stop, q)

  pub Reached-then :
      {B D : Type 0} (before : List (Event P G A)) (a : Stage P G A)
      (Q : Result D → Stage P G A → Type 0) (R : Result B → Stage P G A → Type 0) (r : Result D)
      (st : Startup C T P G A) (r' : Result B) (st' : Startup C T P G A)
      → Reached before a Q r st
      → ((b : Stage P G A) → Q r b → Reached st.events b R r' st')
      → Reached before a R r' st'
  Reached-then before a Q R r st r' st' (b, new, e, t, q) k =
      let (c, more, e', t', q') = k b q in
      (
        c,
        new ++ more,
        e' ∙ ap (λ es. es ++ more) e ∙ append_assoc before new more,
        Trace-append sv os x new more t t',
        q',
      )

  bind_rest :
      {B D : Type 0} (before : List (Event P G A)) (a : Stage P G A)
      (Q : Result D → Stage P G A → Type 0) (R : Result B → Stage P G A → Type 0)
      (k : D → Action (Startup C T P G A) B) (r : Result D) (st : Startup C T P G A)
      → Reached before a Q r st
      → ((y : D) (b : Stage P G A) → Q (returned y) b → Runs (k y) b R)
      → ((e : Exception) (b : Stage P G A) → Q (raised e) b → R (raised e) b)
      → Reached before a R (resume k r st).0 (resume k r st).1
  bind_rest before a Q R k (returned y) st h f g =
      Reached-then before a Q R (returned y) st (k y st).0 (k y st).1 h (λ b q. f y b q st)
  bind_rest before a Q R k (raised x) st (b, new, e, t, q) f g = (b, new, e, t, g x b q)

  -- One action and then the next, unless the first raises.
  pub Runs-bind :
      {B D : Type 0} (a : Stage P G A) (Q : Result D → Stage P G A → Type 0)
      (R : Result B → Stage P G A → Type 0) (m : Action (Startup C T P G A) D)
      (k : D → Action (Startup C T P G A) B)
      → Runs m a Q
      → ((y : D) (b : Stage P G A) → Q (returned y) b → Runs (k y) b R)
      → ((e : Exception) (b : Stage P G A) → Q (raised e) b → R (raised e) b)
      → Runs (m >>= k) a R
  Runs-bind a Q R m k h f g st = bind_rest st.events a Q R k (m st).0 (m st).1 (h st) f g

  pub Runs-AtEnd :
      {B : Type 0} (event : Result B → Event P G A) (r : Result B) (a : Stage P G A)
      (good : B → Stage P G A) (bad : Stage P G A)
      → ((y : B) → r ≡ returned y → Step sv os x a (event (returned y)) (good y))
      → ((e : Exception) → Step sv os x a (event (raised e)) bad)
      → Runs (call_event event r) a (AtEnd good bad)
  Runs-AtEnd event (returned y) a good bad s f =
      Runs-call event (returned y) a (good y) (AtEnd good bad) (s y refl) refl
  Runs-AtEnd {B} event (raised e) a good bad s f =
      Runs-call {B = B} event (raised e) a bad (AtEnd good bad) (f e) refl

  pub Runs-chain :
      {B D : Type 0} (a : Stage P G A) (good : D → Stage P G A) (bad : Stage P G A)
      (R : Result B → Stage P G A → Type 0) (m : Action (Startup C T P G A) D)
      (k : D → Action (Startup C T P G A) B)
      → Runs m a (AtEnd good bad)
      → ((y : D) → Runs (k y) (good y) R)
      → ((e : Exception) → R (raised e) bad)
      → Runs (m >>= k) a R
  Runs-chain a good bad R m k h f g =
      Runs-bind a (AtEnd good bad) R m k h (λ y b q. subst (λ c. Runs (k y) c R) (sym q) (f y))
        (λ e b q. subst (R (raised e)) (sym q) (g e))
