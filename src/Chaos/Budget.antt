-- ===== src/Chaos/Budget.antt =====
-- The budget of a rule, `MaxCount` of chaos/chaos.go, over calls through several wrapped interfaces.
use go_weave.Prelude.{
  ℕ, zero, suc, ◌+◌, ◌^◌, ◌<◌, ◌≤◌, ◌≡◌, refl, ap, ◌∙◌, arith, Bool, true, false, ◌&&◌, Option,
  List, [], ◌∷◌, if◌then◌else◌, ◌==◌, inl, inr, Bool-cases, length, get_or, set, length-set,
}
use go_weave.Chaos.Rules.{is_positive}
use go_weave.Chaos.Plan.{Compiled}
use go_weave.Chaos.Intercept.{
  Bound, Effect, is_closed, at_least, sample, apply_fault, spend, fault, u64,
}

get_or-set :
    (l : List ℕ) (i k v : ℕ)
    → i < length l
    → get_or (set l i v) k 0 ≡ (if i == k then v else get_or l k 0)
get_or-set [] i k v lt = absurd (omega arith)
get_or-set (x ∷ l) zero zero v lt = refl
get_or-set (x ∷ l) zero (suc k) v lt = ground arith
get_or-set (x ∷ l) (suc i) zero v lt = ground arith
get_or-set (x ∷ l) (suc i) (suc k) v lt = get_or-set l i k v (omega arith) ∙ ground arith

abbrev pub hits : Bool → ℕ
hits true = 1
hits false = 0

module _ {E V : Type 0} where
  apply_fault-faulted :
      (r : Compiled E V) (err_out : Option ℕ) (outs : List Bool)
      → (apply_fault r err_out outs).faulted ≡ true
  unfolding apply_fault
  apply_fault-faulted r err_out outs = ground arith

  open_budget :
      (r : Compiled E V) (now budget : ℕ)
      → is_closed r now budget ≡ false
      → is_positive r.max_count ≡ true
      → budget < r.max_count
  unfolding is_closed
  open_budget r now budget h p = ground arith

  -- The budget `k` with limit `n` after a fault that `r` does.
  spend_budget :
      (r : Compiled E V) (now : ℕ) (budgets : List ℕ) (k n : ℕ)
      → r.rule < length budgets
      → 0 < n
      → n < 2 ^ 63
      → (r.rule ≡ k → r.max_count ≡ n)
      → is_closed r now (get_or budgets r.rule 0) ≡ false
      → get_or budgets k 0 ≤ n
      → (get_or (spend r budgets) k 0 ≡ get_or budgets k 0 + hits (r.rule == k))
        × (get_or (spend r budgets) k 0 ≤ n)
  spend_budget r now budgets k n place pos small limit opened below =
      elim (Bool-cases (r.rule == k)) [
        | inr other ↦
            let at = get_or-set budgets r.rule k (u64 (get_or budgets r.rule 0 + 1)) place in
            ground arith
        | inl same ↦
            let e : r.rule ≡ k = ground arith in
            let lim : r.max_count ≡ n = limit e in
            let p : is_positive r.max_count ≡ true = ground arith in
            let b : get_or budgets r.rule 0 < r.max_count = open_budget r now _ opened p in
            let wraps : u64 (get_or budgets r.rule 0 + 1) ≡ get_or budgets r.rule 0 + 1 =
              omega arith in
            let at = get_or-set budgets r.rule k (u64 (get_or budgets r.rule 0 + 1)) place in
            let old : get_or budgets r.rule 0 ≡ get_or budgets k 0 =
              ap (λ k. get_or budgets k 0) e in
            ground arith
      ]

  abbrev pub BudgetMoves : Compiled E V → Effect E V → List ℕ → List ℕ → ℕ → ℕ → Type 0
  BudgetMoves r effect budgets budgets' k n =
      (get_or budgets' k 0 ≡ get_or budgets k 0 + hits (effect.faulted && r.rule == k))
      × (get_or budgets' k 0 ≤ n)

  pub fault_budget :
      (r : Compiled E V) (e : Bound E V) (outs : List Bool) (now : ℕ) (budgets : List ℕ) (k n : ℕ)
      → r.rule < length budgets
      → 0 < n
      → n < 2 ^ 63
      → (r.rule ≡ k → r.max_count ≡ n)
      → get_or budgets k 0 ≤ n
      → BudgetMoves r (fault r e outs now budgets).2 budgets (fault r e outs now budgets).1 k n
  unfolding fault
  fault_budget r e outs now budgets k n place pos small limit below =
      elim (Bool-cases (is_closed r now (get_or budgets r.rule 0))) [
        | inl closed ↦ simp closed (omega arith, below)
        | inr opened ↦ elim (Bool-cases (at_least (sample (u64 (e.seq + 1))) r.rate)) [
          | inl spared ↦ simp (opened, spared) (omega arith, below)
          | inr hit ↦
              simp (opened, hit, apply_fault-faulted r e.err_out outs)
                (spend_budget r now budgets k n place pos small limit opened below)
        ]
      ]

  pub length-fault :
      (r : Compiled E V) (e : Bound E V) (outs : List Bool) (now : ℕ) (budgets : List ℕ)
      → length (fault r e outs now budgets).1 ≡ length budgets
  unfolding fault
  length-fault r e outs now budgets =
      let l = length-set budgets r.rule (u64 (get_or budgets r.rule 0 + 1)) in ground arith

  pub fault_keeps_rule :
      (r : Compiled E V) (e : Bound E V) (outs : List Bool) (now : ℕ) (budgets : List ℕ)
      → (fault r e outs now budgets).0.rule ≡ e.rule
  unfolding fault
  fault_keeps_rule r e outs now budgets = ground arith
