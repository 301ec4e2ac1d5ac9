-- ===== src/Chaos/Limit.antt =====
-- The limit of a rule, `MaxCount` of chaos/chaos.go, from the rule set on that a new injector is given.
use mathlib.Core.Path.{subst}
use go_weave.Prelude.{
  ℕ, zero, suc, ◌<◌, ◌≤◌, ◌≡◌, refl, sym, ap, ◌∙◌, arith, true, none, some, List, [], ◌∷◌, String,
  inl, inr, Option-cases, some_eq, length, get_elem?, get_or, All, replicate,
}
use go_weave.Chaos.Rules.{Rule, validate_set, Action}
use go_weave.Chaos.Plan.{
  Compiled, Plan, match, apply_action, apply_actions, start_compiled, compile, build_plan,
}
use go_weave.Chaos.Intercept.{Binder, Injector, new, rebuild}
use go_weave.Chaos.Ownership.{match-Owns}
use go_weave.Chaos.Usable.{check-IsUsable}
use go_weave.Chaos.Validation.{validate_set-IsAccepted}
use go_weave.Chaos.Calls.{Call, serve, InSync}
use go_weave.Chaos.Counting.{count_rule, IsLimited, count-serve}

below_length : {A : Type 0} (l : List A) (k : ℕ) (a : A) → get_elem? l k ≡ some a → k < length l
below_length [] k a at = absurd cc
below_length (x ∷ l) zero a at = omega arith
below_length (x ∷ l) (suc k) a at = omega (arith, below_length l k a at)

length-replicate : (n : ℕ) → length {A = ℕ} (replicate n 0) ≡ n
length-replicate zero = refl
length-replicate (suc n) = ap suc (length-replicate n)

get_or-replicate : (n k : ℕ) → get_or {A = ℕ} (replicate n 0) k 0 ≡ 0
get_or-replicate zero k = refl
get_or-replicate (suc n) zero = refl
get_or-replicate (suc n) (suc k) = get_or-replicate n k

module _ {E V : Type 0} where
  apply_actions_keeps :
      (c : Compiled E V) (l : List (Action E V))
      → ((apply_actions c l).rule ≡ c.rule) × ((apply_actions c l).max_count ≡ c.max_count)
  unfolding apply_actions
  apply_actions_keeps c [] = (refl, refl)
  apply_actions_keeps c (a ∷ l) =
      let (same, limit) = apply_actions_keeps (apply_action c a) l in
      let one : ((apply_action c a).rule ≡ c.rule) × ((apply_action c a).max_count ≡ c.max_count) =
        ground arith in
      (same ∙ one.0, limit ∙ one.1)

  matched_rule :
      (rs : List (Rule E V)) (i m : String) (c : Compiled E V)
      → validate_set rs ≡ none
      → match (build_plan true rs) i m ≡ some c
      → (k : ℕ) × (r : Rule E V) × (get_elem? rs k ≡ some r)
        × (c.rule ≡ k)
        × (c.max_count ≡ r.max_count)
  unfolding compile
  matched_rule rs i m c ok found = elim (match-Owns rs i m ok) [
    | inl (missing, _) ↦ absurd cc
    | inr (c', found', owns) ↦
        let same : c ≡ c' = some_eq c c' (sym found ∙ found') in
        let keeps = apply_actions_keeps (start_compiled owns.k owns.r) owns.r.actions in
        let is = same ∙ owns.compiled in
        (owns.k, owns.r, owns.at, ap (λ c. c.rule) is ∙ keeps.0, ap (λ c. c.max_count) is ∙ keeps.1)
  ]

  plan-IsLimited :
      (rs : List (Rule E V)) (k : ℕ) (r : Rule E V)
      → validate_set rs ≡ none
      → get_elem? rs k ≡ some r
      → IsLimited (build_plan true rs) (length rs) k r.max_count
  plan-IsLimited rs k r ok at = record {
    placed = λ i m c found.
        let (l, s, at', rule, limit) = matched_rule rs i m c ok found in
        omega (arith, below_length rs l s at', rule);
    limit = λ i m c found is_k.
        let (l, s, at', rule, limit) = matched_rule rs i m c ok found in
        let same : s ≡ r = some_eq s r (sym at' ∙ ap (get_elem? rs) (sym rule ∙ is_k) ∙ at) in
        limit ∙ ap (λ r. r.max_count) same;
  }

  new_state :
      (rs : List (Rule E V)) (j : Injector E V)
      → new rs ≡ some j
      → (validate_set rs ≡ none)
        × (j.plan ≡ build_plan true rs)
        × (j.budgets ≡ replicate (length rs) 0)
  unfolding new rebuild
  new_state rs j made = elim (Option-cases (validate_set rs)) [
    | inl ok ↦
        let is = rw (new, ok) at made in
        (ok, ap (λ j. j.plan) (sym (some_eq _ j is)), ap (λ j. j.budgets) (sym (some_eq _ j is)))
    | inr (e, bad) ↦ let is = rw (new, bad) at made in absurd cc
  ]

  All-fresh :
      (g : ℕ) (p : Plan E V) (bs : List (Binder E V))
      → All (λ b. b.cur ≡ none) bs
      → All (InSync g p) bs
  All-fresh g p [] h = tt
  All-fresh g p (b ∷ bs) h = (λ bd cur same. absurd cc, All-fresh g p bs h.1)

  -- A rule of an accepted set whose limit is positive faults at most that many calls, through all the
  -- interfaces that were wrapped from the new injector together, whatever the calls, their order and
  -- their times are, as long as the rule set stays and the calls come one after another.
  pub count_rule-serve :
      (rs : List (Rule E V)) (j : Injector E V) (k : ℕ) (r : Rule E V) (bs : List (Binder E V))
      (cs : List Call)
      → new rs ≡ some j
      → get_elem? rs k ≡ some r
      → 0 < r.max_count
      → All (λ b. b.cur ≡ none) bs
      → count_rule k (serve cs j bs) ≤ r.max_count
  count_rule-serve rs j k r bs cs made at pos fresh =
      let (ok, plan, budgets) = new_state rs j made in
      let size : length j.budgets ≡ length rs = ap length budgets ∙ length-replicate (length rs) in
      let usable = (check-IsUsable r).0 ((validate_set-IsAccepted rs ok).each_good k r at) in
      let limited =
        subst (λ p. IsLimited p (length j.budgets) k r.max_count) (sym plan)
          (subst (λ n. IsLimited (build_plan true rs) n k r.max_count) (sym size)
            (plan-IsLimited rs k r ok at)) in
      let start : get_or j.budgets k 0 ≡ 0 =
        ap (λ b. get_or b k 0) budgets ∙ get_or-replicate (length rs) k in
      let counted =
        count-serve cs j bs k r.max_count (All-fresh j.generation j.plan bs fresh) limited pos
          usable.limit (omega arith) in
      omega arith
