-- ===== src/Cli/Loop/Laws.antt =====
-- When the prompt loop ends.
use mathlib.Core.Path.{subst}
use carqna_agent.Common.{
  ℕ, zero, suc, ◌-◌, ◌<◌, ◌≡◌, ◌≢◌, refl, sym, ◌∙◌, Bool, true, false, none, some, List, [], ◌∷◌,
  ◌++◌, All, length, arith, Bool-cases, inl, inr, nonempty,
}
use carqna_agent.PyText.{Text, strip, is_space, text_mem}
use carqna_agent.Cli.Loop.{
  Input, line, interrupt, input_error, Outcome, replied, failed, interrupted, quit_words, answered,
  round, next_input, repl,
}

-- The inputs that end the loop by themselves.
abbrev pub is_quit : Input → Bool
is_quit (line text) = text_mem (strip is_space text) quit_words
is_quit interrupt = true
is_quit (input_error e) = false

module _ {S : Type 0} (agent : Text → S → Outcome × S) where
  round_quits : (i : Input) (s : S) → is_quit i ≡ true → (round agent i s).stops ≡ true
  unfolding round
  round_quits (line text) s e = rw e refl
  round_quits interrupt s e = refl
  round_quits (input_error x) s e = cc

  -- Where the agent is not interrupted, nothing else ends it.
  module _ (calm : (t : Text) (s : S) → (agent t s).0 ≢ interrupted) where
    answered_on : (o : Outcome) (s : S) → o ≢ interrupted → (answered agent o s).stops ≡ false
    answered_on (replied r) s n = refl
    answered_on (failed e) s n = refl
    answered_on interrupted s n = absurd (n refl)

    round_on : (i : Input) (s : S) → is_quit i ≡ false → (round agent i s).stops ≡ false
    unfolding round
    round_on (line text) s e = elim (Bool-cases (nonempty (strip is_space text))) [
      | inl n ↦ rw (e, n) (answered_on _ _ (calm (strip is_space text) s))
      | inr n ↦ rw (e, n) refl
    ]
    round_on interrupt s e = cc
    round_on (input_error x) s e = refl

    -- Without an input that quits, the loop never ends, also when the inputs have come to their end,
    -- as long as no call of the agent is interrupted: no number of rounds is enough.
    pub repl_never_ends :
        (fuel : ℕ) (inputs : List Input) (s : S) (out : List Text)
        → All (λ i. is_quit i ≡ false) inputs
        → repl agent fuel inputs s out ≡ none
    unfolding repl
    repl_never_ends zero inputs s out h = refl
    repl_never_ends (suc fuel) [] s out h =
        rw (round_on (next_input agent []) s refl) (repl_never_ends fuel [] _ _ h)
    repl_never_ends (suc fuel) (i ∷ is) s out (h, hs) =
        rw (round_on i s h) (repl_never_ends fuel is _ _ hs)

  repl_stops :
      (fuel : ℕ) (i : Input) (later : List Input) (s : S) (out : List Text)
      → 0 < fuel
      → (round agent i s).stops ≡ true
      → repl agent fuel (i ∷ later) s out
        ≡ some (out ++ (round agent i s).prints, (round agent i s).state)
  unfolding repl
  repl_stops zero i later s out h e = absurd (omega arith)
  repl_stops (suc fuel) i later s out h e = rw e refl

  repl_goes_on :
      (fuel : ℕ) (i : Input) (later : List Input) (s : S) (out : List Text)
      → (round agent i s).stops ≡ false
      → repl agent (suc fuel) (i ∷ later) s out
        ≡ repl agent fuel later (round agent i s).state (out ++ (round agent i s).prints)
  unfolding repl
  repl_goes_on fuel i later s out e = rw e refl

  -- The loop ends at the first input that quits, if not before: there is one result, for which as
  -- many rounds as there are inputs up to that one are enough, whatever follows it.
  pub repl_ends :
      (earlier : List Input) (q : Input) (s : S) (out : List Text)
      → is_quit q ≡ true
      → (r : List Text × S) × ((later : List Input) (fuel : ℕ)
          → length earlier < fuel
          → repl agent fuel (earlier ++ q ∷ later) s out ≡ some r)
  repl_ends [] q s out e =
      (_, λ later fuel h. repl_stops fuel q later s out (omega arith) (round_quits q s e))
  repl_ends (i ∷ is) q s out e = elim (Bool-cases (round agent i s).stops) [
    | inl stop ↦ (_, λ later fuel h. repl_stops fuel i (is ++ q ∷ later) s out (omega arith) stop)
    | inr on ↦
        let (r, k) = repl_ends is q (round agent i s).state (out ++ (round agent i s).prints) e in
        (
          r,
          λ later fuel h.
              let more : fuel ≡ suc (fuel - 1) = omega arith in
              subst (λ n. repl agent n (i ∷ (is ++ q ∷ later)) s out ≡ some r) (sym more)
                (repl_goes_on (fuel - 1) i (is ++ q ∷ later) s out on
                  ∙ k later (fuel - 1) (omega arith)),
        )
  ]
