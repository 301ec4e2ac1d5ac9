-- ===== src/Chaos/Lookup.antt =====
-- Lookups in the plan that `rebuild` publishes: each condition leads to the rule that was compiled for
-- it.
use package.text.Mathlib.Text.{◌==◌ as str_eq}
use text.Mathlib.TextEquality.{eq_iff}
use go_weave.Prelude.{
  ℕ, zero, suc, ◌+◌, ◌≡◌, refl, ◌∙◌, arith, Bool, true, ◌&&◌, Option, none, some, List, [], ◌∷◌,
  String, if◌then◌else◌, get_elem?, ◌⊎◌, inl, inr, Bool-cases, ◌≢◌,
}
use go_weave.Chaos.Rules.{Rule, is_blank}
use go_weave.Chaos.Plan.{
  get, put, Compiled, Plan, get_or_empty, empty_plan, compile, add_rule, add_rules, build_plan,
  or_else, match,
}

get-put {ℓ} :
    {A : Type ℓ} (k j : String) (a : A) (m : List (String × A))
    → get j (put k a m) ≡ (if str_eq k j then some a else get j m)
unfolding get put
get-put k j a [] = refl
get-put k j a ((i, b) ∷ m) = ground (arith, eq_iff k j, eq_iff i k, eq_iff i j, get-put k j a m)

or_absorb {ℓ} : {A : Type ℓ} (x y : Option A) → or_else x y ≡ or_else x (or_else y (or_else x y))
or_absorb none none = refl
or_absorb none (some y) = refl
or_absorb (some x) y = refl

module _ {E V : Type 0} where
  -- The rule under one exact condition; an empty interface name is the condition on any interface.
  pub condition_at : Plan E V → String → String → Option (Compiled E V)
  condition_at p i m =
      if is_blank i then get m p.any_iface else get m (get_or_empty (get i p.by_iface))

  abbrev pub has_condition : String → String → Rule E V → Bool
  has_condition i m r = str_eq r.iface i && str_eq r.method m

  condition_at-add_rule :
      (j : ℕ) (r : Rule E V) (p : Plan E V) (i m : String)
      → condition_at (add_rule j r p) i m
        ≡ (if has_condition i m r then some (compile j r) else condition_at p i m)
  unfolding condition_at add_rule
  condition_at-add_rule j r p i m =
      let old = get_or_empty (get r.iface p.by_iface) in
      ground (
        arith,
        eq_iff i "",
        eq_iff r.iface "",
        eq_iff r.iface i,
        get-put r.method m (compile j r) p.any_iface,
        get-put r.method m (compile j r) old,
        get-put r.iface i (put r.method (compile j r) old) p.by_iface,
      )

  -- What stands under a condition after more rules: `r` at place `k` of the list, or what stood there.
  condition_at_sound :
      (j : ℕ) (rs : List (Rule E V)) (p : Plan E V) (i m : String) {c : Compiled E V}
      → condition_at (add_rules j rs p) i m ≡ some c
      → (condition_at p i m ≡ some c)
        ⊎ ((k : ℕ) × (r : Rule E V) × (get_elem? rs k ≡ some r)
            × (has_condition i m r ≡ true)
            × (c ≡ compile (j + k) r))
  unfolding add_rules
  condition_at_sound j [] p i m h = inl h
  condition_at_sound j (r ∷ rs) p i m {c} h =
      elim (condition_at_sound (j + 1) rs (add_rule j r p) i m h) [
        | inr (k, r', at, has, e) ↦
            let place : j + 1 + k ≡ j + suc k = omega arith in
            inr (suc k, r', at, has, rw place at e)
        | inl e ↦ elim (Bool-cases (has_condition i m r)) [
          | inl has ↦
              let place : j + 0 ≡ j = omega arith in
              inr (zero, r, refl, has, rw place (ground (arith, condition_at-add_rule j r p i m)))
          | inr has ↦ inl (ground (arith, condition_at-add_rule j r p i m))
        ]
      ]

  condition_at_kept :
      (j : ℕ) (rs : List (Rule E V)) (p : Plan E V) (i m : String)
      → condition_at p i m ≢ none
      → condition_at (add_rules j rs p) i m ≢ none
  unfolding add_rules
  condition_at_kept j [] p i m h = h
  condition_at_kept j (r ∷ rs) p i m h =
      condition_at_kept (j + 1) rs (add_rule j r p) i m
        (λ e. ground (arith, condition_at-add_rule j r p i m, h))

  condition_at_complete :
      (j : ℕ) (rs : List (Rule E V)) (p : Plan E V) (i m : String) (k : ℕ) {r : Rule E V}
      → get_elem? rs k ≡ some r
      → has_condition i m r ≡ true
      → condition_at (add_rules j rs p) i m ≢ none
  unfolding add_rules
  condition_at_complete j [] p i m k at has = cc
  condition_at_complete j (r ∷ rs) p i m zero at has =
      condition_at_kept (j + 1) rs (add_rule j r p) i m
        (λ e. ground (arith, condition_at-add_rule j r p i m))
  condition_at_complete j (r ∷ rs) p i m (suc k) at has =
      condition_at_complete (j + 1) rs (add_rule j r p) i m k at has

  -- A rule of the set that was compiled under condition `i`, `m`.
  pub record Compiles (rs : List (Rule E V)) (i m : String) (c : Compiled E V) : Type 0 where
    pub k : ℕ
    pub r : Rule E V
    pub at : get_elem? rs k ≡ some r
    pub iface : r.iface ≡ i
    pub method : r.method ≡ m
    pub compiled : c ≡ compile k r

  empty_none : (i m : String) (c : Compiled E V) → condition_at empty_plan i m ≢ some c
  unfolding condition_at get
  empty_none i m c h = ground arith

  pub plan_sound :
      (rs : List (Rule E V)) (i m : String) (c : Compiled E V)
      → condition_at (build_plan true rs) i m ≡ some c
      → Compiles rs i m c
  unfolding build_plan
  plan_sound rs i m c h = elim (condition_at_sound 0 rs empty_plan i m h) [
    | inl e ↦ absurd (empty_none i m c e)
    | inr (k, r, at, has, e) ↦
        let place : 0 + k ≡ k = omega arith in
        record {
          k = k;
          r = r;
          at = at;
          iface = ground (arith, eq_iff r.iface i);
          method = ground (arith, eq_iff r.method m);
          compiled = rw place at e;
        }
  ]

  pub plan_complete :
      (rs : List (Rule E V)) (k : ℕ) {r : Rule E V}
      → get_elem? rs k ≡ some r
      → condition_at (build_plan true rs) r.iface r.method ≢ none
  unfolding build_plan
  plan_complete rs k {r} at =
      condition_at_complete 0 rs empty_plan r.iface r.method k at
        (ground (arith, eq_iff r.iface r.iface, eq_iff r.method r.method))

  no_blank_key :
      (j : ℕ) (rs : List (Rule E V)) (p : Plan E V)
      → get "" (add_rules j rs p).by_iface ≡ get "" p.by_iface
  unfolding add_rules add_rule
  no_blank_key j [] p = refl
  no_blank_key j (r ∷ rs) p =
      no_blank_key (j + 1) rs (add_rule j r p)
      ∙ ground (
        arith,
        get-put r.iface "" (put r.method (compile j r) (get_or_empty (get r.iface p.by_iface)))
            p.by_iface,
      )

  -- `match` tries the four conditions from the most specific on.
  pub match_eq :
      (rs : List (Rule E V)) (iface method : String)
      → let p = build_plan true rs in
        match p iface method
        ≡ or_else (condition_at p iface method) (
            or_else
              (condition_at p iface "")
              (or_else (condition_at p "" method) (condition_at p "" "")))
  unfolding match condition_at build_plan get
  match_eq rs iface method = elim (Bool-cases (is_blank iface)) [
    | inr e ↦ rw e
    | inl e ↦
        let same : iface ≡ "" = (eq_iff iface "").0 e in
        let none_there = no_blank_key 0 rs empty_plan in
        rw (same, none_there)
          (or_absorb (get method (build_plan true rs).any_iface)
            (get "" (build_plan true rs).any_iface))
  ]
