-- ===== src/Server/Threads.antt =====
-- The checkpoint threads that chats run on.
use carqna_agent.Common.{ℕ, ℤ, ◌≡◌, refl, sym, some, [], ◌∷◌, ◌++◌, All, All-append_right}
use carqna_agent.PyText.{Text}
use carqna_agent.PyText.Int.{parse_int}
use carqna_agent.PyText.Int.Laws.{NotColon, parse_int-NotColon}
use carqna_agent.Server.Routes.{thread_key}

cons_parts : {c d : ℕ} {s t : Text} → ◌≡◌ {A = Text} (c ∷ s) (d ∷ t) → (c ≡ d) × (s ≡ t)
cons_parts e = (cc, cc)

-- What stands before and after the last colon is determined.
last_colon :
    (u v t s : Text)
    → All NotColon t
    → All NotColon s
    → u ++ 58 ∷ t ≡ v ++ 58 ∷ s
    → (u ≡ v) × (t ≡ s)
last_colon [] [] t s ht hs e = (refl, (cons_parts e).1)
last_colon [] (c ∷ v) t s ht hs e =
    let inside : All NotColon (v ++ 58 ∷ s) = rw (cons_parts e).1 at ht in
    absurd ((All-append_right NotColon v (58 ∷ s) inside).0 refl)
last_colon (c ∷ u) [] t s ht hs e =
    let inside : All NotColon (u ++ 58 ∷ t) = rw (sym (cons_parts e).1) at hs in
    absurd ((All-append_right NotColon u (58 ∷ t) inside).0 refl)
last_colon (c ∷ u) (d ∷ v) t s ht hs e =
    let (same, rest) = last_colon u v t s ht hs (cons_parts e).1 in
    (cc ((cons_parts e).0, same), rest)

-- Thread ids that `int` accepts give one key only for one user and one id, whatever characters the
-- user ids hold.
pub thread_key_injective :
    (u v t s : Text) (x y : ℤ)
    → parse_int t ≡ some x
    → parse_int s ≡ some y
    → thread_key u t ≡ thread_key v s
    → (u ≡ v) × (t ≡ s)
unfolding thread_key
thread_key_injective u v t s x y ht hs e =
    last_colon u v t s (parse_int-NotColon t x ht) (parse_int-NotColon s y hs) e
