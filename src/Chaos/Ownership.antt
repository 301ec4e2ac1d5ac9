-- ===== src/Chaos/Ownership.antt =====
-- Exactly one rule owns every call: `match` of chaos/chaos.go on a validated rule set.
use mathlib.Core.Path.{ap₂}
use text.Mathlib.TextEquality.{eq_iff}
use go_weave.Prelude.{
  ℕ, ◌≡◌, refl, sym, ◌∙◌, arith, true, Option, none, some, List, String, get_elem?, ◌⊎◌, inl, inr,
  Option-cases, ◌≢◌,
}
use go_weave.Chaos.Rules.{Rule, validate_set}
use go_weave.Chaos.Plan.{Compiled, compile, build_plan, or_else, match}
use go_weave.Chaos.Lookup.{condition_at, Compiles, plan_sound, plan_complete, match_eq}
use go_weave.Chaos.Validation.{IsAccepted, validate_set-IsAccepted}

module _ {E V : Type 0} where
  -- The condition of a rule covers a call: an empty name covers every name.
  abbrev pub Covers : Rule E V → String → String → Type 0
  Covers r iface method =
      ((r.iface ≡ "") ⊎ (r.iface ≡ iface)) × ((r.method ≡ "") ⊎ (r.method ≡ method))

  -- Every call that `r` covers, `s` covers, and the conditions differ.
  abbrev pub MoreSpecific : Rule E V → Rule E V → Type 0
  MoreSpecific r s = Covers s r.iface r.method × ((r.iface ≢ s.iface) ⊎ (r.method ≢ s.method))

  -- The rule at place `k` owns the call: it covers it, and is more specific than any other rule of the
  -- set that does.
  pub record Owns (rs : List (Rule E V)) (iface method : String) (c : Compiled E V) : Type 0 where
    pub k : ℕ
    pub r : Rule E V
    pub at : get_elem? rs k ≡ some r
    pub compiled : c ≡ compile k r
    pub covers : Covers r iface method
    pub most_specific :
        (l : ℕ) (s : Rule E V)
        → get_elem? rs l ≡ some s
        → Covers s iface method
        → (l ≡ k) ⊎ MoreSpecific r s

  absent :
      (rs : List (Rule E V)) (i m : String) (l : ℕ) (s : Rule E V)
      → condition_at (build_plan true rs) i m ≡ none
      → get_elem? rs l ≡ some s
      → s.iface ≡ i
      → s.method ≡ m
      → ⊥
  absent rs i m l s h at e e' =
      plan_complete rs l at (ap₂ (condition_at (build_plan true rs)) e e' ∙ h)

  -- The four conditions that cover a call.
  Covers-cases :
      (rs : List (Rule E V)) (iface method : String) (l : ℕ) (s : Rule E V)
      → Covers s iface method
      → ((s.iface ≡ iface) × (s.method ≡ method))
        ⊎ ((s.iface ≡ iface) × (s.method ≡ ""))
        ⊎ ((s.iface ≡ "") × (s.method ≡ method))
        ⊎ ((s.iface ≡ "") × (s.method ≡ ""))
  Covers-cases rs iface method l s h = ground arith

  module _ (rs : List (Rule E V)) (ok : IsAccepted rs) (iface method : String) where
    owner_of :
        {i m : String} {c : Compiled E V}
        → Compiles rs i m c
        → ((i ≡ "") ⊎ (i ≡ iface)) × ((m ≡ "") ⊎ (m ≡ method))
        → ((l : ℕ) (s : Rule E V)
            → get_elem? rs l ≡ some s
            → Covers s iface method
            → ((s.iface ≡ i) × (s.method ≡ m))
              ⊎ (((s.iface ≡ "") ⊎ (s.iface ≡ i))
                  × ((s.method ≡ "") ⊎ (s.method ≡ m))
                  × ((s.iface ≢ i) ⊎ (s.method ≢ m))))
        → Owns rs iface method c
    owner_of w cover best = record {
      k = w.k;
      r = w.r;
      at = w.at;
      compiled = w.compiled;
      covers = ground (arith, w.iface, w.method);
      most_specific = λ l s at c. elim (best l s at c) [
        | inl (e, e') ↦ inl (ok.distinct l w.k s w.r at w.at (e ∙ sym w.iface) (e' ∙ sym w.method))
        | inr p ↦ inr (ground (arith, w.iface, w.method))
      ];
    }

    abbrev NotAt : String → String → Type 0
    NotAt i m = condition_at (build_plan true rs) i m ≡ none

    -- At each of the four lookups, what the earlier ones missed excludes every better rule.
    exact_best :
        (l : ℕ) (s : Rule E V)
        → get_elem? rs l ≡ some s
        → Covers s iface method
        → ((s.iface ≡ iface) × (s.method ≡ method))
          ⊎ (((s.iface ≡ "") ⊎ (s.iface ≡ iface))
              × ((s.method ≡ "") ⊎ (s.method ≡ method))
              × ((s.iface ≢ iface) ⊎ (s.method ≢ method)))
    exact_best l s at c = ground (arith, eq_iff s.iface iface, eq_iff s.method method)

    iface_best :
        (w : (k : ℕ) × (r : Rule E V) × (get_elem? rs k ≡ some r)
          × (r.iface ≡ iface)
          × (r.method ≡ ""))
        → NotAt iface method
        → (l : ℕ) (s : Rule E V) → get_elem? rs l ≡ some s
        → Covers s iface method
        → ((s.iface ≡ iface) × (s.method ≡ ""))
          ⊎ (((s.iface ≡ "") ⊎ (s.iface ≡ iface))
              × ((s.method ≡ "") ⊎ (s.method ≡ ""))
              × ((s.iface ≢ iface) ⊎ (s.method ≢ "")))
    iface_best (k, r, at', e, e') n l s at c = ground (
      arith,
      eq_iff s.iface iface,
      eq_iff s.method "",
      eq_iff iface "",
      λ (p : s.iface ≡ iface) (q : s.method ≡ method). absent rs iface method l s n at p q,
      λ (a : r.iface ≢ "") (b : s.iface ≡ "") (d : s.method ≢ "").
          ok.no_overlap k l r s at' at (a, e') (b, d),
    )

    method_best :
        NotAt iface method
        → NotAt iface ""
        → (l : ℕ) (s : Rule E V) → get_elem? rs l ≡ some s
        → Covers s iface method
        → ((s.iface ≡ "") × (s.method ≡ method))
          ⊎ (((s.iface ≡ "") ⊎ (s.iface ≡ ""))
              × ((s.method ≡ "") ⊎ (s.method ≡ method))
              × ((s.iface ≢ "") ⊎ (s.method ≢ method)))
    method_best n n' l s at c = ground (
      arith,
      eq_iff s.iface "",
      eq_iff s.method method,
      λ (p : s.iface ≡ iface) (q : s.method ≡ method). absent rs iface method l s n at p q,
      λ (p : s.iface ≡ iface) (q : s.method ≡ ""). absent rs iface "" l s n' at p q,
    )

    any_best :
        NotAt iface method
        → NotAt iface ""
        → NotAt "" method
        → (l : ℕ) (s : Rule E V) → get_elem? rs l ≡ some s
        → Covers s iface method
        → (s.iface ≡ "") × (s.method ≡ "")
    any_best n n' n'' l s at c = ground (
      arith,
      λ (p : s.iface ≡ iface) (q : s.method ≡ method). absent rs iface method l s n at p q,
      λ (p : s.iface ≡ iface) (q : s.method ≡ ""). absent rs iface "" l s n' at p q,
      λ (p : s.iface ≡ "") (q : s.method ≡ method). absent rs "" method l s n'' at p q,
    )

    abbrev Outcome : Option (Compiled E V) → Type 0
    Outcome o =
        ((o ≡ none)
          × ((l : ℕ) (s : Rule E V) → get_elem? rs l ≡ some s → Covers s iface method → ⊥))
        ⊎ ((c : Compiled E V) × (o ≡ some c) × Owns rs iface method c)

    stages :
        let p = build_plan true rs in
        Outcome (
          or_else (condition_at p iface method) (
            or_else
              (condition_at p iface "")
              (or_else (condition_at p "" method) (condition_at p "" ""))))
    stages =
        let p = build_plan true rs in
        elim (Option-cases (condition_at p iface method)) [
          | inr (c, e) ↦ rw e (
              inr (
                c,
                refl,
                owner_of (plan_sound rs iface method c e) (inr refl, inr refl) exact_best,
              ))
          | inl e ↦ elim (Option-cases (condition_at p iface "")) [
            | inr (c, e') ↦
                let w = plan_sound rs iface "" c e' in
                rw (e, e')
                  (inr (
                    c,
                    refl,
                    owner_of w (inr refl, inl refl)
                        (iface_best (w.k, w.r, w.at, w.iface, w.method) e),
                  ))
            | inl e' ↦ elim (Option-cases (condition_at p "" method)) [
              | inr (c, e'') ↦
                  rw (e, e', e'')
                    (inr (
                      c,
                      refl,
                      owner_of (plan_sound rs "" method c e'') (inl refl, inr refl)
                          (method_best e e'),
                    ))
              | inl e'' ↦ elim (Option-cases (condition_at p "" "")) [
                | inr (c, e₄) ↦
                    rw (e, e', e'', e₄)
                      (inr (
                        c,
                        refl,
                        owner_of (plan_sound rs "" "" c e₄) (inl refl, inl refl)
                            (λ l s at v. inl (any_best e e' e'' l s at v)),
                      ))
                | inl e₄ ↦
                    rw (e, e', e'', e₄)
                      (inl (
                        refl,
                        λ l s at v.
                            let q = any_best e e' e'' l s at v in absent rs "" "" l s e₄ at q.0 q.1,
                      ))
              ]
            ]
          ]
        ]

  -- On a rule set that `validateSet` accepts, `match` in the plan of the
  -- enabled set either finds nothing, and then no rule of the set covers the call, or finds the compiled
  -- form of one rule of the set that covers the call and is strictly more specific than every other rule
  -- of the set that covers it.
  pub match-Owns :
      (rs : List (Rule E V)) (iface method : String)
      → validate_set rs ≡ none
      → ((match (build_plan true rs) iface method ≡ none)
          × ((l : ℕ) (s : Rule E V) → get_elem? rs l ≡ some s → Covers s iface method → ⊥))
        ⊎ ((c : Compiled E V) × (match (build_plan true rs) iface method ≡ some c)
            × Owns rs iface method c)
  match-Owns rs iface method h =
      rw (match_eq rs iface method) (stages rs (validate_set-IsAccepted rs h) iface method)
