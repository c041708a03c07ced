-- ===== src/Server/Stream/Isolation.antt =====
-- A stream among others is what its own rounds make of it.
use carqna_agent.Common.{
  ℕ, zero, suc, ◌≡◌, ◌≢◌, refl, ap, sym, ◌∙◌, Option, none, some, List, [], ◌∷◌, arith, ◌==◌,
  ==_iff, ==_refl, Bool-cases, inl, inr, if◌then◌else◌, ◌++◌, ℤ,
}
use mathlib.Core.Path.{subst}
use carqna_agent.PyText.{Text, codes, text_eq}
use carqna_agent.PyText.Laws.{text_eq_refl, text_eq_iff}
use carqna_agent.PyText.Int.{parse_int}
use carqna_agent.Server.Routes.{thread_key}
use carqna_agent.Server.Threads.{thread_key_injective}
use carqna_agent.Server.Stream.{
  RunInput, AgentClass, Status, streaming, finished, failed, Stream, Heap, Op, start, pull, save,
  rekeyed, new_stream, start_stream, pull_round, pull_from, event_generator, step, run_ops,
}
use carqna_agent.Server.Stream.Objects.{
  put_same, put_other, put_cases, request_agent-pull_round, IsSeparate, start-IsSeparate,
  pull-IsSeparate,
}

save_same : {V : Type 0} (f : Text → V) (a : Text) (v : V) → save f a v a ≡ v
save_same f a v = rw (text_eq_refl a) refl

save_other : {V : Type 0} (f : Text → V) (a b : Text) (v : V) → b ≢ a → save f a v b ≡ f b
save_other f a b v h = elim (Bool-cases (text_eq b a)) [
  | inl e ↦ absurd (h ((text_eq_iff b a).0 e))
  | inr e ↦ rw e refl
]

-- The thread that a user's thread id names.
abbrev pub thread_of : Text → Text → Text
thread_of user_id thread_id = user_id ++ (codes ":" ++ thread_id)

-- The turns of one request in a list of operations.
abbrev pub pulls_of : {P : Type 0} → ℕ → List (Op P) → ℕ
pulls_of n [] = 0
pulls_of n (start m user_id accept input ∷ ops) = pulls_of n ops
pulls_of n (pull m ∷ ops) = let rest = pulls_of n ops in if n == m then suc rest else rest

-- No new chat has that number, and each has a thread id that is accepted and another user or another
-- thread id.
abbrev pub OtherChats : {P : Type 0} → ℕ → Text → Text → List (Op P) → Type 0
OtherChats n u t [] = Unit
OtherChats n u t (start m user_id accept input ∷ ops) =
    (n ≢ m)
    × ((x : ℤ) × (parse_int input.thread_id ≡ some x))
    × ((user_id ≡ u → input.thread_id ≢ t) × OtherChats n u t ops)
OtherChats n u t (pull m ∷ ops) = OtherChats n u t ops

-- Of the other chats on the thread, none is streaming.
abbrev pub IsQuiet : {A C F : Type 0} → ℕ → Text → Heap A C F → Type 0
IsQuiet {A} {C} {F} n thread h =
    (m : ℕ) (q : Stream F) → n ≢ m → h.streams m ≡ some q → q.thread ≡ thread → q.status ≢ streaming

module _ {P A C F E : Type 0} (c : AgentClass P A C F E) where
  -- Rounds of one stream alone.
  abbrev pub rounds : ℕ → Stream F → A → C → Stream F × A × C
  rounds zero s object saved = (s, object, saved)
  rounds (suc k) s object saved =
      let (s', object', saved') = pull_round c s.status s object saved in rounds k s' object' saved'

  -- The request's stream, the object that it works on and the checkpoints of its thread.
  pub record Holds (n : ℕ) (s : Stream F) (object : A) (saved : C) (h : Heap A C F) : Type 0 where
    pub stream : h.streams n ≡ some s
    pub own_object : h.objects s.request_agent ≡ object
    pub own_saved : h.checkpoints s.thread ≡ saved

  -- A round of a stream that is over changes nothing.
  pub round_over :
      (status : Status) (s : Stream F) (a : A) (saved : C)
      → status ≢ streaming
      → pull_round c status s a saved ≡ (s, a, saved)
  round_over finished s a saved h = refl
  round_over (failed e) s a saved h = refl
  round_over streaming s a saved h = absurd (h refl)

  start-IsQuiet :
      (n m : ℕ) (u t user_id : Text) (accept : Option Text) (input : RunInput P) (x y : ℤ)
      (h : Heap A C F)
      → parse_int t ≡ some x
      → parse_int input.thread_id ≡ some y
      → (user_id ≡ u → input.thread_id ≢ t)
      → IsQuiet n (thread_of u t) h
      → IsQuiet n (thread_of u t) (start_stream c m user_id accept input h)
  unfolding start_stream rekeyed thread_key
  start-IsQuiet n m u t user_id accept input x y h ht hi other quiet l q d e on =
      elim (put_cases c (h.objects 0) h.streams m l
        (new_stream c h.next_address user_id accept input) q e) [
          | inl (_, same) ↦
              let (eu, et) =
                thread_key_injective user_id u input.thread_id t y x hi ht
                  (ap (λ (r : Stream F). r.thread) same ∙ on) in
              absurd (other eu et)
          | inr (_, e') ↦ quiet l q d e' on
        ]

  pull-IsQuiet :
      (n m : ℕ) (thread : Text) (h : Heap A C F)
      → IsQuiet n thread h
      → IsQuiet n thread (event_generator c m h)
  unfolding event_generator
  pull-IsQuiet n m thread h quiet = go (h.streams m) refl
    where
      go : (o : Option (Stream F)) → h.streams m ≡ o → IsQuiet n thread (pull_from c m o h)
      go none e = quiet
      go (some s) e = λ l q d f on.
          let object = h.objects s.request_agent in
          let saved = h.checkpoints s.thread in
          elim (put_cases c (h.objects 0) h.streams m l (pull_round c s.status s object saved).0 q
            f) [
              | inl (at, same) ↦
                  let at_thread =
                    sym (request_agent-pull_round c s.status s object saved).1
                    ∙ ap (λ (r : Stream F). r.thread) same
                    ∙ on in
                  let over = quiet m s (λ b. d (b ∙ sym at)) e at_thread in
                  subst (λ (r : Stream F). r.status ≢ streaming)
                    (sym (
                        ap (λ (r : Stream F × A × C). r.0)
                          (round_over s.status s object saved over))
                      ∙ same)
                    over
              | inr (_, f') ↦ quiet l q d f' on
            ]

  module _ (template : A) (n : ℕ) (s : Stream F) (object : A) (saved : C) (h : Heap A C F)
      (k : IsSeparate c template h) (here : Holds n s object saved h) where
    Holds-start :
        (m : ℕ) (user_id : Text) (accept : Option Text) (input : RunInput P)
        → n ≢ m
        → Holds n s object saved (start_stream c m user_id accept input h)
    unfolding start_stream
    Holds-start m user_id accept input d = record {
      stream = put_other h.streams m n _ d ∙ here.stream;
      own_object =
          put_other h.objects h.next_address s.request_agent _
            (λ e. omega (arith, k.below n s here.stream))
          ∙ here.own_object;
      own_saved = here.own_saved;
    }

    -- A stream of another thread does not touch the checkpoints, nor does one that is over.
    saved_after :
        (q : Stream F)
        → (q.thread ≡ s.thread → q.status ≢ streaming)
        → (a : A)
        → save h.checkpoints q.thread
            (pull_round c q.status q a (h.checkpoints q.thread)).2
            s.thread
          ≡ h.checkpoints s.thread
    saved_after q quiet a = elim (Bool-cases (text_eq s.thread q.thread)) [
      | inl e ↦
          let same = (text_eq_iff s.thread q.thread).0 e in
          rw e (
            ap (λ (r : Stream F × A × C). r.2)
              (round_over q.status q a (h.checkpoints q.thread) (quiet (sym same)))
            ∙ ap h.checkpoints (sym same))
      | inr e ↦ rw e refl
    ]

    Holds-pull_other :
        (m : ℕ) → IsQuiet n s.thread h → n ≢ m → Holds n s object saved (event_generator c m h)
    unfolding event_generator
    Holds-pull_other m quiet d = go (h.streams m) refl
      where
        go : (o : Option (Stream F)) → h.streams m ≡ o → Holds n s object saved (pull_from c m o h)
        go none e = here
        go (some q) e = record {
          stream = put_other h.streams m n _ d ∙ here.stream;
          own_object =
              put_other h.objects q.request_agent s.request_agent _
                (k.apart n m s q d here.stream e)
              ∙ here.own_object;
          own_saved = saved_after q (quiet m q d e) (h.objects q.request_agent) ∙ here.own_saved;
        }

    Holds-pull :
        Holds n
          (pull_round c s.status s object saved).0
          (pull_round c s.status s object saved).1
          (pull_round c s.status s object saved).2
          (event_generator c n h)
    unfolding event_generator
    Holds-pull =
        rw (here.stream, here.own_object, here.own_saved)
          (record {
            stream = put_same h.streams n _;
            own_object =
                rw (request_agent-pull_round c s.status s object saved).0
                  (put_same h.objects s.request_agent _);
            own_saved =
                rw (request_agent-pull_round c s.status s object saved).1
                  (save_same h.checkpoints s.thread _);
          })

  -- Whatever streams of other threads do in between, a stream is what its own rounds make of it.
  module _ (template : A) (n : ℕ) (u t : Text) (x : ℤ) (ht : parse_int t ≡ some x) where
    pub Holds-run_ops :
        (ops : List (Op P)) (s : Stream F) (object : A) (saved : C) (h : Heap A C F)
        → IsSeparate c template h
        → s.thread ≡ thread_of u t
        → IsQuiet n (thread_of u t) h
        → OtherChats n u t ops
        → Holds n s object saved h
        → Holds n
            (rounds (pulls_of n ops) s object saved).0
            (rounds (pulls_of n ops) s object saved).1
            (rounds (pulls_of n ops) s object saved).2
            (run_ops c ops h)
    unfolding run_ops step
    Holds-run_ops [] s object saved h k on quiet others here = here
    Holds-run_ops (start m user_id accept input ∷ ops) s object saved h k on quiet
          (d, (y, hy), (other, others)) here =
        Holds-run_ops ops s object saved (start_stream c m user_id accept input h)
          (start-IsSeparate c template h k m user_id accept input) on
          (start-IsQuiet n m u t user_id accept input x y h ht hy other quiet) others
          (Holds-start template n s object saved h k here m user_id accept input d)
    Holds-run_ops (pull m ∷ ops) s object saved h k on quiet others here =
        elim (Bool-cases (n == m)) [
          | inl e ↦ rw (← (==_iff n m).0 e) (
              rw (==_refl n) (
                Holds-run_ops ops (pull_round c s.status s object saved).0
                  (pull_round c s.status s object saved).1 (pull_round c s.status s object saved).2
                  (event_generator c n h) (pull-IsSeparate c template h k n)
                  ((request_agent-pull_round c s.status s object saved).1 ∙ on)
                  (pull-IsQuiet n n (thread_of u t) h quiet) others
                  (Holds-pull template n s object saved h k here)))
          | inr e ↦ rw e (
              Holds-run_ops ops s object saved (event_generator c m h)
                (pull-IsSeparate c template h k m) on (pull-IsQuiet n m (thread_of u t) h quiet)
                others
                (Holds-pull_other template n s object saved h k here m
                  (subst (λ r. IsQuiet n r h) (sym on) quiet) (λ q. ground (arith, ==_iff n m))))
        ]
