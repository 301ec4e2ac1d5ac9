-- ===== src/Chaos/Actions.antt =====
-- The actions of a rule, flattened by `rebuild` of chaos/chaos.go and applied by `intercept` of
-- chaos/inject.go, against the documented meaning: one by one, in the order they are declared.
use go_weave.Prelude.{
  ℕ, ◌+◌, ◌%◌, ◌^◌, ◌<◌, ◌≡◌, refl, arith, Bool, true, false, Option, none, some, List, [], ◌∷◌,
  if◌then◌else◌, ◌⊎◌, inl, inr, Bool-cases,
}
use go_weave.Chaos.Rules.{
  Action, Rule, is_set, is_positive, panics, decides, fault_count, check_actions, check,
}
use go_weave.Chaos.Plan.{Compiled, apply_action, apply_actions, start_compiled, compile}
use go_weave.Chaos.Intercept.{Effect, proceeds, panics_with, returns, error_out, apply_fault}

module _ {E V : Type 0} where
  -- The actions one by one, `waits` nanoseconds into the call. An error needs a result to go to.
  pub one_by_one : ℕ → List (Action E V) → Option ℕ → List Bool → Effect E V
  one_by_one waits [] err_out outs = record { faulted = true; waits = waits; outcome = proceeds }
  one_by_one waits (a ∷ rest) err_out outs =
      let next = one_by_one (waits + a.latency) rest err_out outs in
      if is_positive a.latency
      then next
      else if is_set a.err
      then record {
        faulted = true;
        waits = waits;
        outcome = elim err_out [ none ↦ proceeds | some i ↦ returns (error_out outs i a.err) ];
      }
      else record { faulted = true; waits = waits; outcome = panics_with a.panic }

  -- The whole delay of a list.
  unfoldable pub total_latency : List (Action E V) → ℕ
  total_latency [] = 0
  total_latency (a ∷ rest) = a.latency + total_latency rest

  accepted_actions : (r : Rule E V) → check r ≡ none → check_actions 0 false r.actions ≡ none
  unfolding check
  accepted_actions r ok = ground arith

  ended : (i : ℕ) (l : List (Action E V)) → check_actions i true l ≡ none → l ≡ []
  unfolding check_actions
  ended i [] ok = refl
  ended i (a ∷ l) ok = absurd (ground arith)

  decided :
      (i : ℕ) (a : Action E V) (rest : List (Action E V))
      → check_actions i false (a ∷ rest) ≡ none
      → is_positive a.latency ≡ false
      → (rest ≡ []) × ((is_set a.err ≡ true) ⊎ (panics a ≡ true))
  unfolding check_actions fault_count decides
  decided i a rest ok no_delay = let after = ended (i + 1) rest in (ground arith, ground arith)

  delayed :
      (i : ℕ) (a : Action E V) (rest : List (Action E V))
      → check_actions i false (a ∷ rest) ≡ none
      → is_positive a.latency ≡ true
      → check_actions (i + 1) false rest ≡ none
  unfolding check_actions fault_count decides
  delayed i a rest ok delay = ground arith

  delay_step :
      (c : Compiled E V) (a : Action E V)
      → is_positive a.latency ≡ true
      → c.latency + a.latency < 2 ^ 63
      → apply_action c a ≡ record c { latency = c.latency + a.latency }
  delay_step c a h lt =
      let small : (c.latency + a.latency) % 2 ^ 64 ≡ c.latency + a.latency = omega arith in
      simp (h, small)

  quiet_fault :
      (c : Compiled E V) (err_out : Option ℕ) (outs : List Bool)
      → c.err ≡ none
      → c.has_panic ≡ false
      → c.latency < 2 ^ 63
      → apply_fault c err_out outs
        ≡ record { faulted = true; waits = c.latency; outcome = proceeds }
  unfolding apply_fault
  quiet_fault c err_out outs e p lt =
      let w : (if is_positive c.latency then c.latency else 0) ≡ c.latency = ground arith in
      simp (e, p, w)

  one_by_one-delay :
      (w : ℕ) (a : Action E V) (rest : List (Action E V)) (err_out : Option ℕ) (outs : List Bool)
      → is_positive a.latency ≡ true
      → one_by_one w (a ∷ rest) err_out outs ≡ one_by_one (w + a.latency) rest err_out outs
  unfolding one_by_one
  one_by_one-delay w a rest err_out outs h = simp h

  decided_fault :
      (c : Compiled E V) (a : Action E V) (err_out : Option ℕ) (outs : List Bool)
      → is_positive a.latency ≡ false
      → (is_set a.err ≡ true) ⊎ (panics a ≡ true)
      → c.err ≡ none
      → c.has_panic ≡ false
      → c.latency < 2 ^ 63
      → apply_fault (apply_action c a) err_out outs ≡ one_by_one c.latency (a ∷ []) err_out outs
  unfolding apply_fault one_by_one
  decided_fault c a err_out outs no_delay which e p lt =
      let w : (if is_positive c.latency then c.latency else 0) ≡ c.latency = ground arith in
      elim (Bool-cases (is_set a.err)) [
        | inl s ↦
            elim err_out
              as (λ o.
                apply_fault (apply_action c a) o outs ≡ one_by_one c.latency (a ∷ []) o outs) [
                  | none ↦ simp (no_delay, e, p, w, s)
                  | some i ↦ simp (no_delay, e, p, w, s)
                ]
        | inr s ↦ let q : panics a ≡ true = ground arith in simp (no_delay, e, p, w, s, q)
      ]

  flattened :
      (i : ℕ) (c : Compiled E V) (l : List (Action E V)) (err_out : Option ℕ) (outs : List Bool)
      → check_actions i false l ≡ none
      → c.err ≡ none
      → c.has_panic ≡ false
      → c.latency + total_latency l < 2 ^ 63
      → apply_fault (apply_actions c l) err_out outs ≡ one_by_one c.latency l err_out outs
  unfolding apply_actions total_latency one_by_one
  flattened i c [] err_out outs ok e p lt = quiet_fault c err_out outs e p (omega arith)
  flattened i c (a ∷ rest) err_out outs ok e p lt = elim (Bool-cases (is_positive a.latency)) [
    | inl delay ↦
        rw
          (delay_step c a delay (omega arith), one_by_one-delay c.latency a rest err_out outs delay)
          (flattened (i + 1) (record c { latency = c.latency + a.latency }) rest err_out outs
            (delayed i a rest ok delay) e p (omega arith))
    | inr no_delay ↦
        let (end, which) = decided i a rest ok no_delay in
        rw end (decided_fault c a err_out outs no_delay which e p (omega arith))
  ]

  -- A rule that `check` accepts, and whose delays add up to less than 2 ^ 63 nanoseconds, does to a
  -- call what its actions do one by one in their order: the compiled rule waits for the sum of the
  -- delays and then panics, returns the error in the method's error result, or goes on.
  pub apply_fault-compile :
      (i : ℕ) (r : Rule E V) (err_out : Option ℕ) (outs : List Bool)
      → check r ≡ none
      → total_latency r.actions < 2 ^ 63
      → apply_fault (compile i r) err_out outs ≡ one_by_one 0 r.actions err_out outs
  unfolding compile
  apply_fault-compile i r err_out outs ok lt =
      flattened 0 (start_compiled i r) r.actions err_out outs (accepted_actions r ok) refl refl
        (omega (arith, lt))
