-- ===== src/Chaos/Calls.antt =====
-- Sequences of calls through the interfaces that one injector wraps, chaos/inject.go, and the number
-- of faults that a limited rule injects.
use mathlib.Core.Path.{ap₂}
use go_weave.Prelude.{
  ℕ, zero, suc, ◌≡◌, refl, sym, ap, ◌∙◌, arith, Bool, false, Option, none, some, List, [], ◌∷◌,
  String, if◌then◌else◌, ◌==◌, ◌⊎◌, inl, inr, get_elem?, set, map,
}
use go_weave.Chaos.Plan.{Compiled, Plan, match}
use go_weave.Chaos.Intercept.{
  Method, Bound, Binding, Binder, Injector, Effect, fresh_binding, resolve, bind_method, owned,
  intercept,
}

-- A call of method `method` through the wrapped interface `binder`, at time `now`.
pub record Call : Type 0 where
  pub binder : ℕ
  pub method : ℕ
  pub now : ℕ

map-set {ℓ κ} :
    {A : Type ℓ} {B : Type κ} (f : A → B) (l : List A) (i : ℕ) (a b : A)
    → get_elem? l i ≡ some a
    → f b ≡ f a
    → map f (set l i b) ≡ map f l
map-set f [] i a b at e = refl
map-set f (x ∷ l) zero a b at e = cc
map-set f (x ∷ l) (suc i) a b at e = ap (λ m. f x ∷ m) (map-set f l i a b at e)

get_elem?-map {ℓ κ} :
    {A : Type ℓ} {B : Type κ} (f : A → B) (l : List A) (i : ℕ) (b : B)
    → get_elem? (map f l) i ≡ some b
    → (a : A) × (get_elem? l i ≡ some a) × (f a ≡ b)
get_elem?-map f [] i b at = absurd cc
get_elem?-map f (x ∷ l) zero b at = (x, refl, cc)
get_elem?-map f (x ∷ l) (suc i) b at = get_elem?-map f l i b at

map_get {ℓ κ} :
    {A : Type ℓ} {B : Type κ} (f : A → B) (l : List A) (i : ℕ) (a : A)
    → get_elem? l i ≡ some a
    → get_elem? (map f l) i ≡ some (f a)
map_get f [] i a at = absurd cc
map_get f (x ∷ l) zero a at = cc
map_get f (x ∷ l) (suc i) a at = map_get f l i a at

abbrev pub is_rule : ℕ → Option ℕ → Bool
is_rule k none = false
is_rule k (some i) = i == k

module _ {E V : Type 0} where
  abbrev pub owner_of : Plan E V → String → Method → Option (Compiled E V)
  owner_of p iface m = match p iface m.name

  abbrev pub owners : Plan E V → Binder E V → List (Option (Compiled E V))
  owners p b = map (owner_of p b.iface_name) b.methods

  abbrev rule_of : Bound E V → Option (Compiled E V)
  rule_of e = e.rule

  -- The rule that faulted a call of method `i`, by its number: the owner of the call.
  abbrev pub faulted_rule : Injector E V → Binder E V → ℕ → Effect E V → Option ℕ
  faulted_rule j b i effect =
      if effect.faulted
      then (elim (get_elem? b.methods i) [
        | none ↦ none
        | some m ↦ elim (owner_of j.plan b.iface_name m) [ none ↦ none | some c ↦ some c.rule ]
      ])
      else none

  -- The calls in order: for each, the rule that faulted it.
  unfoldable pub serve : List Call → Injector E V → List (Binder E V) → List (Option ℕ)
  serve [] j bs = []
  serve (c ∷ cs) j bs = elim (get_elem? bs c.binder) [
    | none ↦ serve cs j bs
    | some b ↦
        let (j', b', effect) = intercept c.method c.now j b in
        faulted_rule j b c.method effect ∷ serve cs j' (set bs c.binder b')
  ]

  -- The table that a binder keeps is resolved against the plan, if it is of that generation.
  abbrev pub InSync : ℕ → Plan E V → Binder E V → Type 0
  InSync g p b =
      (bd : Binding E V) → b.cur ≡ some bd → bd.generation ≡ g → map rule_of bd.table ≡ owners p b

  pub bound_rule :
      (p : Plan E V) (iface : String) (m : Method)
      → (bind_method p iface m).rule ≡ owner_of p iface m
  unfolding bind_method
  bound_rule p iface m = ground arith

  bound_rules :
      (p : Plan E V) (iface : String) (ms : List Method)
      → map rule_of (map (bind_method p iface) ms) ≡ map (owner_of p iface) ms
  bound_rules p iface [] = refl
  bound_rules p iface (m ∷ ms) =
      ap₂ (λ r rs. r ∷ rs) (bound_rule p iface m) (bound_rules p iface ms)

  pub kept_or_fresh :
      (j : Injector E V) (b : Binder E V)
      → ((bd : Binding E V) × (b.cur ≡ some bd)
          × (bd.generation ≡ j.generation)
          × (resolve j b ≡ bd))
        ⊎ (resolve j b ≡ fresh_binding j b)
  unfolding resolve
  kept_or_fresh j b = ground arith

  resolve-owners :
      (j : Injector E V) (b : Binder E V)
      → InSync j.generation j.plan b
      → map rule_of (resolve j b).table ≡ owners j.plan b
  resolve-owners j b sync = elim (kept_or_fresh j b) [
    | inl (bd, cur, g, e) ↦ rw e (sync bd cur g)
    | inr e ↦ rw e (bound_rules j.plan b.iface_name b.methods)
  ]

  abbrev pub outs_at : Binder E V → ℕ → List Bool
  outs_at b i = elim (get_elem? b.methods i) [ none ↦ [] | some m ↦ m.outs ]

  -- The injector, the binder and the effect after a call that found `e` in the table.
  abbrev pub after :
      Injector E V
      → Binder E V
      → ℕ
      → Bound E V × List ℕ × Effect E V
      → Injector E V × Binder E V × Effect E V
  after j b i (e', budgets, effect) = (
    record j { budgets = budgets },
    record b { cur = some (record (resolve j b) { table = set (resolve j b).table i e' }) },
    effect,
  )

  pub intercept-found :
      (j : Injector E V) (b : Binder E V) (i now : ℕ) (e : Bound E V)
      → get_elem? (resolve j b).table i ≡ some e
      → intercept i now j b ≡ after j b i (owned e (outs_at b i) now j.budgets)
  unfolding intercept
  intercept-found j b i now e at = rw (intercept, at) refl

  pub intercept-missing :
      (j : Injector E V) (b : Binder E V) (i now : ℕ)
      → get_elem? (resolve j b).table i ≡ none
      → ((intercept i now j b).0 ≡ j)
        × ((intercept i now j b).1 ≡ b)
        × ((intercept i now j b).2.faulted ≡ false)
  unfolding intercept
  intercept-missing j b i now at =
      (rw (intercept, at) refl, rw (intercept, at) refl, rw (intercept, at) refl)

  pub after-InSync :
      (j : Injector E V) (b : Binder E V) (i : ℕ) (e e' : Bound E V) (budgets : List ℕ)
      (effect : Effect E V)
      → InSync j.generation j.plan b
      → get_elem? (resolve j b).table i ≡ some e
      → e'.rule ≡ e.rule
      → InSync j.generation j.plan (after j b i (e', budgets, effect)).1
  after-InSync j b i e e' budgets effect sync at same bd cur g =
      let table : bd.table ≡ set (resolve j b).table i e' = cc in
      ap (map rule_of) table
      ∙ map-set rule_of (resolve j b).table i e e' at same
      ∙ resolve-owners j b sync

  pub owner_at :
      (j : Injector E V) (b : Binder E V) (i : ℕ) (e : Bound E V)
      → InSync j.generation j.plan b
      → get_elem? (resolve j b).table i ≡ some e
      → (m : Method) × (get_elem? b.methods i ≡ some m) × (owner_of j.plan b.iface_name m ≡ e.rule)
  owner_at j b i e sync at = get_elem?-map (owner_of j.plan b.iface_name) b.methods i e.rule (
      ap (λ l. get_elem? l i) (sym (resolve-owners j b sync))
      ∙ map_get rule_of (resolve j b).table i e at)
