-- ===== src/Chaos/Plan.antt =====
-- Compiled rule sets: `rebuild`'s plan and `match` of chaos/chaos.go.
use text.Mathlib.Text.{◌==◌ as str_eq}
use go_weave.Prelude.{
  ℕ, ◌+◌, ◌%◌, ◌^◌, Bool, true, false, not, ◌||◌, Option, none, some, List, [], ◌∷◌, String,
  if◌then◌else◌,
}
use go_weave.Chaos.Rules.{
  Float64, Value, Action, Rule, is_positive, is_set, is_zero, panics, is_blank,
}

-- A Go map with string keys. `put` replaces.
module _ {ℓ} {A : Type ℓ} where
  unfoldable pub get : String → List (String × A) → Option A
  get k [] = none
  get k ((j, a) ∷ m) = if str_eq j k then some a else get k m

  unfoldable pub put : String → A → List (String × A) → List (String × A)
  put k a [] = (k, a) ∷ []
  put k a ((j, b) ∷ m) = if str_eq j k then (j, a) ∷ m else (j, b) ∷ put k a m

-- One rule ready to apply. Its address is the number of the rule in the set; the budget that changes
-- while it runs is kept beside the plan.
pub record Compiled (E V : Type 0) : Type 0 where
  pub rule : ℕ
  pub rate : Float64
  pub latency : ℕ
  pub err : Option E
  pub panic_v : Option (Value V)
  pub has_panic : Bool
  pub max_count : ℕ
  pub has_window : Bool
  pub from : ℕ
  pub until : ℕ

pub record Plan (E V : Type 0) : Type 0 where
  pub by_iface : List (String × List (String × Compiled E V))
  pub any_iface : List (String × Compiled E V)

abbrev pub get_or_empty {ℓ} : {A : Type ℓ} → Option (List A) → List A
get_or_empty none = []
get_or_empty (some l) = l

abbrev pub or_else {ℓ} : {A : Type ℓ} → Option A → Option A → Option A
or_else none b = b
or_else (some a) b = some a

module _ {E V : Type 0} where
  abbrev pub empty_plan : Plan E V
  empty_plan = record { by_iface = []; any_iface = [] }

  -- One round of the loop over the actions; the sum of two `int64` wraps.
  abbrev pub apply_action : Compiled E V → Action E V → Compiled E V
  apply_action c a =
      if is_positive a.latency
      then record c { latency = (c.latency + a.latency) % 2 ^ 64 }
      else if is_set a.err
      then record c { err = a.err }
      else if panics a
      then record c { has_panic = true; panic_v = a.panic }
      else c

  unfoldable pub apply_actions : Compiled E V → List (Action E V) → Compiled E V
  apply_actions c [] = c
  apply_actions c (a ∷ rest) = apply_actions (apply_action c a) rest

  abbrev pub start_compiled : ℕ → Rule E V → Compiled E V
  start_compiled i r = record {
    rule = i;
    rate = r.rate;
    latency = 0;
    err = none;
    panic_v = none;
    has_panic = false;
    max_count = r.max_count;
    has_window = not (is_zero r.from) || not (is_zero r.until);
    from = r.from;
    until = r.until;
  }

  unfoldable pub compile : ℕ → Rule E V → Compiled E V
  compile i r = apply_actions (start_compiled i r) r.actions

  unfoldable pub add_rule : ℕ → Rule E V → Plan E V → Plan E V
  add_rule i r p =
      if is_blank r.iface
      then record p { any_iface = put r.method (compile i r) p.any_iface }
      else record p {
        by_iface =
            put r.iface (put r.method (compile i r) (get_or_empty (get r.iface p.by_iface)))
              p.by_iface;
      }

  -- The loop of `rebuild`.
  unfoldable pub add_rules : ℕ → List (Rule E V) → Plan E V → Plan E V
  add_rules i [] p = p
  add_rules i (r ∷ rs) p = add_rules (i + 1) rs (add_rule i r p)

  unfoldable pub build_plan : Bool → List (Rule E V) → Plan E V
  build_plan enabled rs = if enabled then add_rules 0 rs empty_plan else empty_plan

  -- `match`: a nil map has no key.
  unfoldable pub match : Plan E V → String → String → Option (Compiled E V)
  match p iface method =
      let m = get_or_empty (get iface p.by_iface) in
      or_else (get method m)
        (or_else (get "" m) (or_else (get method p.any_iface) (get "" p.any_iface)))
