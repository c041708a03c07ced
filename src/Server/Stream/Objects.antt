-- ===== src/Server/Stream/Objects.antt =====
-- No two streams share an agent object, and the lifespan's own agent stays as it was.
use carqna_agent.Common.{
  ℕ, ◌<◌, ◌≡◌, ◌≢◌, refl, ap, sym, ◌∙◌, Option, none, some, List, [], ◌∷◌, arith, ◌==◌, ==_iff,
  Bool-cases, inl, inr, ◌⊎◌,
}
use carqna_agent.PyText.{Text}
use carqna_agent.Errors.{Result, returned, raised}
use carqna_agent.Server.Stream.{
  RunInput, Status, streaming, finished, failed, received, AgentClass, Stream, Heap, put, Op, start,
  pull, agent, mounted, new_stream, start_stream, pull_round, pull_from, event_generator, step,
  run_ops,
}

pub put_same : {V : Type 0} (f : ℕ → V) (a : ℕ) (v : V) → put f a v a ≡ v
put_same f a v = ground arith

pub put_other : {V : Type 0} (f : ℕ → V) (a b : ℕ) (v : V) → b ≢ a → put f a v b ≡ f b
put_other f a b v h = ground arith

-- A round leaves the address and the thread of a stream.
pub request_agent-pull_round :
    {P A C F E : Type 0} (c : AgentClass P A C F E) (status : Status) (s : Stream F) (object : A)
    (saved : C)
    → ((pull_round c status s object saved).0.request_agent ≡ s.request_agent)
      × ((pull_round c status s object saved).0.thread ≡ s.thread)
request_agent-pull_round {P} {A} {C} {F} {E} c streaming s object saved =
    go (c.next s.frame object saved).0
  where
    go :
        (event : Option (Result E))
        → ((received c event (record s { frame = (c.next s.frame object saved).1 })).request_agent
            ≡ s.request_agent)
          × ((received c event (record s { frame = (c.next s.frame object saved).1 })).thread
              ≡ s.thread)
    go none = (refl, refl)
    go (some (returned e)) = (refl, refl)
    go (some (raised x)) = (refl, refl)
request_agent-pull_round c finished s object saved = (refl, refl)
request_agent-pull_round c (failed e) s object saved = (refl, refl)

module _ {P A C F E : Type 0} (c : AgentClass P A C F E) (object : A) where
  -- The lifespan's agent is as it was, and no two streams share an object.
  pub record IsSeparate (h : Heap A C F) : Type 0 where
    pub kept : h.objects agent ≡ object
    pub agent_below : agent < h.next_address
    pub below : (n : ℕ) (s : Stream F) → h.streams n ≡ some s → s.request_agent < h.next_address
    pub own : (n : ℕ) (s : Stream F) → h.streams n ≡ some s → s.request_agent ≢ agent
    pub apart :
        (m n : ℕ) (s s' : Stream F)
        → m ≢ n
        → h.streams m ≡ some s
        → h.streams n ≡ some s'
        → s.request_agent ≢ s'.request_agent

  pub mounted-IsSeparate : (saved : Text → C) → IsSeparate (mounted object saved)
  mounted-IsSeparate saved = record {
    kept = refl;
    agent_below = omega arith;
    below = λ n s e. cc (e);
    own = λ n s e. cc (e);
    apart = λ m n s s' d e e'. cc (e);
  }

  -- The address of a stream that is there after `put`.
  pub put_cases :
      (f : ℕ → Option (Stream F)) (n m : ℕ) (new s : Stream F)
      → put f n (some new) m ≡ some s
      → ((m ≡ n) × (new ≡ s)) ⊎ ((m ≢ n) × (f m ≡ some s))
  put_cases f n m new s e = elim (Bool-cases (m == n)) [
    | inl here ↦ inl ((==_iff m n).0 here, cc (rw here at e))
    | inr away ↦ inr (λ q. ground arith, rw away at e)
  ]

  module _ (h : Heap A C F) (k : IsSeparate h) where
    pub start-IsSeparate :
        (n : ℕ) (user_id : Text) (accept : Option Text) (input : RunInput P)
        → IsSeparate (start_stream c n user_id accept input h)
    unfolding start_stream
    start-IsSeparate n user_id accept input =
        let new = new_stream c h.next_address user_id accept input in
        record {
          kept =
              put_other h.objects h.next_address agent _ (λ e. omega (arith, k.agent_below))
              ∙ k.kept;
          agent_below = omega (arith, k.agent_below);
          below = λ m s e. elim (put_cases h.streams n m new s e) [
            | inl (_, same) ↦ omega (arith, ap (λ (q : Stream F). q.request_agent) same)
            | inr (_, e') ↦ omega (arith, k.below m s e')
          ];
          own = λ m s e. elim (put_cases h.streams n m new s e) [
            | inl (_, same) ↦
                λ q. omega (arith, ap (λ (q : Stream F). q.request_agent) same, k.agent_below)
            | inr (_, e') ↦ k.own m s e'
          ];
          apart = λ m l s s' d e e'. elim (put_cases h.streams n m new s e) [
            | inl (here, same) ↦ elim (put_cases h.streams n l new s' e') [
              | inl (there, _) ↦ absurd (d (here ∙ sym there))
              | inr (_, f') ↦
                  λ q. omega (arith, ap (λ (q : Stream F). q.request_agent) same, k.below l s' f')
            ]
            | inr (_, f) ↦ elim (put_cases h.streams n l new s' e') [
              | inl (_, same) ↦
                  λ q. omega (arith, ap (λ (q : Stream F). q.request_agent) same, k.below m s f)
              | inr (_, f') ↦ k.apart m l s s' d f f'
            ]
          ];
        }

    module _ (n : ℕ) (s : Stream F) (here : h.streams n ≡ some s) where
      abbrev pulled : Heap A C F
      pulled = pull_from c n (some s) h

      -- A stream after the round has the address that the request's stream had before.
      old_of :
          (m : ℕ) (q : Stream F)
          → pulled.streams m ≡ some q
          → (o : Stream F) × (h.streams m ≡ some o) × (q.request_agent ≡ o.request_agent)
      old_of m q e = elim (put_cases h.streams n m _ q e) [
        | inl (at, same) ↦ (
          s,
          rw at here,
          ap (λ (x : Stream F). x.request_agent) (sym same)
              ∙ (request_agent-pull_round c s.status s (h.objects s.request_agent)
                  (h.checkpoints s.thread)).0,
        )
        | inr (_, e') ↦ (q, e', refl)
      ]

      pulled-IsSeparate : IsSeparate pulled
      pulled-IsSeparate = record {
        kept = put_other h.objects s.request_agent agent _ (λ q. k.own n s here (sym q)) ∙ k.kept;
        agent_below = k.agent_below;
        below = λ m q e. let (o, f, same) = old_of m q e in rw same (k.below m o f);
        own = λ m q e. let (o, f, same) = old_of m q e in rw same (k.own m o f);
        apart = λ m l q q' d e e'.
            let (o, f, same) = old_of m q e in
            let (o', f', same') = old_of l q' e' in rw (same, same') (k.apart m l o o' d f f');
      }

    pub pull-IsSeparate : (n : ℕ) → IsSeparate (event_generator c n h)
    unfolding event_generator
    pull-IsSeparate n = go (h.streams n) refl
      where
        go : (o : Option (Stream F)) → h.streams n ≡ o → IsSeparate (pull_from c n o h)
        go none e = k
        go (some s) e = pulled-IsSeparate n s e

  pub run_ops-IsSeparate :
      (ops : List (Op P)) (h : Heap A C F) → IsSeparate h → IsSeparate (run_ops c ops h)
  unfolding run_ops step
  run_ops-IsSeparate [] h k = k
  run_ops-IsSeparate (start n user_id accept input ∷ ops) h k =
      run_ops-IsSeparate ops (start_stream c n user_id accept input h)
        (start-IsSeparate h k n user_id accept input)
  run_ops-IsSeparate (pull n ∷ ops) h k =
      run_ops-IsSeparate ops (event_generator c n h) (pull-IsSeparate h k n)
