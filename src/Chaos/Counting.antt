-- ===== src/Chaos/Counting.antt =====
-- The number of calls that one rule faults, over a sequence of calls: `MaxCount` of chaos/chaos.go.
use mathlib.Core.Path.{subst}
use go_weave.Prelude.{
  ℕ, zero, suc, ◌+◌, ◌^◌, ◌<◌, ◌≤◌, ◌≡◌, refl, sym, ap, ◌∙◌, arith, Bool, ◌&&◌, Option, none, some,
  List, [], ◌∷◌, String, ◌==◌, inl, inr, Bool-cases, Option-cases, some_eq, length, get_elem?,
  get_or, set, All,
}
use go_weave.Chaos.Plan.{Compiled, Plan, match}
use go_weave.Chaos.Intercept.{
  Method, Bound, Binder, Injector, Effect, resolve, fault, owned_by, owned, untouched, intercept,
}
use go_weave.Chaos.Budget.{hits, fault_budget, length-fault, fault_keeps_rule}
use go_weave.Chaos.Calls.{
  Call, is_rule, owner_of, faulted_rule, serve, InSync, outs_at, intercept-found, intercept-missing,
  after-InSync, owner_at,
}

-- How many of the calls rule `k` faulted.
pub count_rule : ℕ → List (Option ℕ) → ℕ
count_rule k [] = 0
count_rule k (o ∷ os) = hits (is_rule k o) + count_rule k os

module _ {E V : Type 0} where
  -- The limit of rule `k` is `n`, wherever the plan holds it, and every rule has a budget.
  pub record IsLimited (p : Plan E V) (size k n : ℕ) : Type 0 where
    pub placed : (i m : String) (c : Compiled E V) → match p i m ≡ some c → c.rule < size
    pub limit :
        (i m : String) (c : Compiled E V) → match p i m ≡ some c → c.rule ≡ k → c.max_count ≡ n

  -- What a call keeps and counts.
  record Counted (j : Injector E V) (b : Binder E V) (i k n : ℕ)
      (res : Injector E V × Binder E V × Effect E V) : Type 0 where
    plan : res.0.plan ≡ j.plan
    generation : res.0.generation ≡ j.generation
    size : length res.0.budgets ≡ length j.budgets
    counted :
        get_or res.0.budgets k 0
        ≡ get_or j.budgets k 0 + hits (is_rule k (faulted_rule j b i res.2))
    below : get_or res.0.budgets k 0 ≤ n
    sync : InSync j.generation j.plan res.1

  owned_rule :
      (e : Bound E V) (r : Compiled E V) (outs : List Bool) (now : ℕ) (budgets : List ℕ)
      → e.rule ≡ some r
      → owned e outs now budgets ≡ fault r e outs now budgets
  owned_rule e r outs now budgets h = ap (λ o. owned_by o e outs now budgets) h

  owned-none :
      (e : Bound E V) (outs : List Bool) (now : ℕ) (budgets : List ℕ)
      → e.rule ≡ none
      → owned e outs now budgets ≡ (e, budgets, untouched)
  owned-none e outs now budgets h = ap (λ o. owned_by o e outs now budgets) h

  hits_owner :
      (j : Injector E V) (b : Binder E V) (i k : ℕ) (m : Method) (r : Compiled E V)
      (effect : Effect E V)
      → get_elem? b.methods i ≡ some m
      → owner_of j.plan b.iface_name m ≡ some r
      → is_rule k (faulted_rule j b i effect) ≡ (effect.faulted && r.rule == k)
  hits_owner j b i k m r effect at owns = elim (Bool-cases effect.faulted) [
    | inl f ↦ simp (f, at, owns)
    | inr f ↦ simp f
  ]

  -- What becomes of the budgets when entry `e` decides, whether a rule owns it or not.
  owned_moves :
      (j : Injector E V) (b : Binder E V) (i now k n : ℕ) (e : Bound E V) (m : Method)
      → IsLimited j.plan (length j.budgets) k n
      → 0 < n
      → n < 2 ^ 63
      → get_or j.budgets k 0 ≤ n
      → get_elem? b.methods i ≡ some m
      → owner_of j.plan b.iface_name m ≡ e.rule
      → let res = owned e (outs_at b i) now j.budgets in
        (get_or res.1 k 0 ≡ get_or j.budgets k 0 + hits (is_rule k (faulted_rule j b i res.2)))
        × (get_or res.1 k 0 ≤ n)
        × (length res.1 ≡ length j.budgets)
        × (res.0.rule ≡ e.rule)
  owned_moves j b i now k n e m limited pos small below at owner = elim (Option-cases e.rule) [
    | inl none_rule ↦
        rw (owned-none e (outs_at b i) now j.budgets none_rule) (omega arith, below, refl, refl)
    | inr (r, is_r) ↦
        let owns = owner ∙ is_r in
        let placed = limited.placed b.iface_name m.name r owns in
        let limit = limited.limit b.iface_name m.name r owns in
        let (moves, low) =
          fault_budget r e (outs_at b i) now j.budgets k n placed pos small limit below in
        let l = length-fault r e (outs_at b i) now j.budgets in
        let same = fault_keeps_rule r e (outs_at b i) now j.budgets in
        let hit = hits_owner j b i k m r (fault r e (outs_at b i) now j.budgets).2 at owns in
        rw (owned_rule e r (outs_at b i) now j.budgets is_r)
          (moves ∙ ap (λ h. get_or j.budgets k 0 + hits h) (sym hit), low, l, same)
  ]

  intercept-Counted :
      (j : Injector E V) (b : Binder E V) (i now k n : ℕ)
      → InSync j.generation j.plan b
      → IsLimited j.plan (length j.budgets) k n
      → 0 < n
      → n < 2 ^ 63
      → get_or j.budgets k 0 ≤ n
      → Counted j b i k n (intercept i now j b)
  intercept-Counted j b i now k n sync limited pos small below =
      elim (Option-cases (get_elem? (resolve j b).table i)) [
        | inl missing ↦
            let (same_j, same_b, quiet) = intercept-missing j b i now missing in
            record {
              plan = ap (λ j. j.plan) same_j;
              generation = ap (λ j. j.generation) same_j;
              size = ap (λ j. length j.budgets) same_j;
              counted = ap (λ j. get_or j.budgets k 0) same_j ∙ simp quiet (omega arith);
              below = subst (λ x. get_or x.budgets k 0 ≤ n) (sym same_j) below;
              sync = subst (InSync j.generation j.plan) (sym same_b) sync;
            }
        | inr (e, at) ↦
            let (m, at_m, owner) = owner_at j b i e sync at in
            let (moves, low, size, same) =
              owned_moves j b i now k n e m limited pos small below at_m owner in
            let res = owned e (outs_at b i) now j.budgets in
            subst (Counted j b i k n) (sym (intercept-found j b i now e at)) (record {
              plan = refl;
              generation = refl;
              size = size;
              counted = moves;
              below = low;
              sync = after-InSync j b i e res.0 res.1 res.2 sync at same;
            })
      ]

  All-get :
      (P : Binder E V → Type 0) (bs : List (Binder E V)) (i : ℕ) (b : Binder E V)
      → All P bs
      → get_elem? bs i ≡ some b
      → P b
  All-get P [] i b h at = absurd cc
  All-get P (x ∷ bs) zero b h at = subst P (some_eq x b at) h.0
  All-get P (x ∷ bs) (suc i) b h at = All-get P bs i b h.1 at

  All-set :
      (P : Binder E V → Type 0) (bs : List (Binder E V)) (i : ℕ) (b : Binder E V)
      → All P bs
      → P b
      → All P (set bs i b)
  All-set P [] i b h p = tt
  All-set P (x ∷ bs) zero b h p = (p, h.1)
  All-set P (x ∷ bs) (suc i) b h p = (h.0, All-set P bs i b h.1 p)

  serve-found :
      (c : Call) (cs : List Call) (j : Injector E V) (bs : List (Binder E V)) (b : Binder E V)
      → get_elem? bs c.binder ≡ some b
      → let res = intercept c.method c.now j b in
        serve (c ∷ cs) j bs
        ≡ faulted_rule j b c.method res.2 ∷ serve cs res.0 (set bs c.binder res.1)
  unfolding serve
  serve-found c cs j bs b at = rw (serve, at) refl

  serve-missing :
      (c : Call) (cs : List Call) (j : Injector E V) (bs : List (Binder E V))
      → get_elem? bs c.binder ≡ none
      → serve (c ∷ cs) j bs ≡ serve cs j bs
  unfolding serve
  serve-missing c cs j bs at = rw (serve, at) refl

  pub count-serve :
      (cs : List Call) (j : Injector E V) (bs : List (Binder E V)) (k n : ℕ)
      → All (InSync j.generation j.plan) bs
      → IsLimited j.plan (length j.budgets) k n
      → 0 < n
      → n < 2 ^ 63
      → get_or j.budgets k 0 ≤ n
      → count_rule k (serve cs j bs) + get_or j.budgets k 0 ≤ n
  unfolding serve count_rule
  count-serve [] j bs k n sync limited pos small below = omega (arith, below)
  count-serve (c ∷ cs) j bs k n sync limited pos small below =
      elim (Option-cases (get_elem? bs c.binder)) [
        | inl missing ↦
            rw (serve-missing c cs j bs missing)
              (count-serve cs j bs k n sync limited pos small below)
        | inr (b, at) ↦
            let res = intercept c.method c.now j b in
            let step =
              intercept-Counted j b c.method c.now k n (All-get _ bs c.binder b sync at) limited pos
                small below in
            let sync_b = All-set (InSync j.generation j.plan) bs c.binder res.1 sync step.sync in
            let sync_g =
              subst (λ g. All (InSync g j.plan) (set bs c.binder res.1)) (sym step.generation)
                sync_b in
            let sync_p =
              subst (λ p. All (InSync res.0.generation p) (set bs c.binder res.1)) (sym step.plan)
                sync_g in
            let limited' =
              subst (λ p. IsLimited p (length res.0.budgets) k n) (sym step.plan)
                (subst (λ l. IsLimited j.plan l k n) (sym step.size) limited) in
            let rest =
              count-serve cs res.0 (set bs c.binder res.1) k n sync_p limited' pos small
                step.below in
            rw (serve-found c cs j bs b at) (omega (arith, rest, step.counted))
      ]
