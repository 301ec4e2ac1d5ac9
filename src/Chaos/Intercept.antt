-- ===== src/Chaos/Intercept.antt =====
-- Calls through a wrapped interface: `Injector`, `binder` and `intercept` of chaos/chaos.go and
-- chaos/inject.go, one call after another. A plan's address is its generation, and the budgets of the
-- compiled rules stand beside the plan, by the number of the rule.
use go_weave.Prelude.{
  ℕ, zero, suc, ◌+◌, ◌*◌, ◌/◌, ◌%◌, ◌^◌, Bool, true, false, not, ◌&&◌, ◌||◌, Option, none, some,
  List, [], String, ltb, leb, ◌==◌, if◌then◌else◌, length, get_elem?, get_or, set, replicate, map,
  bit_xor,
}
use go_weave.Chaos.Rules.{
  Float64, nan, infinite, finite, Value, Rule, SetError, is_positive, is_set, is_zero, validate_set,
}
use go_weave.Chaos.Plan.{Compiled, Plan, build_plan, match}

-- A method as reflection reports it: its name, and for each result whether its type is `error`.
pub record Method : Type 0 where
  pub name : String
  pub outs : List Bool

pub record Bound (E V : Type 0) : Type 0 where
  pub seq : ℕ
  pub rule : Option (Compiled E V)
  pub err_out : Option ℕ

pub record Binding (E V : Type 0) : Type 0 where
  pub generation : ℕ
  pub table : List (Bound E V)

pub record Binder (E V : Type 0) : Type 0 where
  pub iface_name : String
  pub methods : List Method
  pub cur : Option (Binding E V)

pub record Injector (E V : Type 0) : Type 0 where
  pub rules : List (Rule E V)
  pub enabled : Bool
  pub generation : ℕ
  pub plan : Plan E V
  pub budgets : List ℕ

-- What happens to a call: it goes on to the target, panics, or returns the error (`none` is the zero
-- value of another result). The last one is Go's panic on an index out of range.
pub data Outcome (E V : Type 0) : Type 0 where
  proceeds : Outcome E V
  panics_with : Option (Value V) → Outcome E V
  returns : List (Option E) → Outcome E V
  bad_index : Outcome E V

pub record Effect (E V : Type 0) : Type 0 where
  -- whether the call was faulted, and how long it waits first: less if its context ends before
  pub faulted : Bool
  pub waits : ℕ
  pub outcome : Outcome E V

-- The loop of `errorResult`, over the results before `i`.
unfoldable pub error_result_from : List Bool → ℕ → Option ℕ
error_result_from outs zero = none
error_result_from outs (suc i) = if get_or outs i false then some i else error_result_from outs i

unfoldable pub error_result : List Bool → Option ℕ
error_result outs = error_result_from outs (length outs)

abbrev pub u64 : ℕ → ℕ
u64 n = n % 2 ^ 64

abbrev pub xor_shift : ℕ → ℕ → ℕ
xor_shift k x = bit_xor x (x / 2 ^ k)

-- `x >> 11` at the end of `sample`: the sample in units of 2 ^ -53.
unfoldable pub sample : ℕ → ℕ
sample n =
    let x₁ = xor_shift 30 (u64 (n * 0x9E3779B97F4A7C15)) in
    let x₂ = xor_shift 27 (u64 (x₁ * 0xBF58476D1CE4E5B9)) in
    let x₃ = xor_shift 31 (u64 (x₂ * 0x94D049BB133111EB)) in x₃ / 2 ^ 11

-- `k * 2 ^ -53 >= r`; one unit of 2 ^ -53 is 2 ^ 1021 units of 2 ^ -1074.
unfoldable pub at_least : ℕ → Float64 → Bool
at_least k nan = false
at_least k (infinite minus) = minus
at_least k (finite minus n) = minus || leb n (k * 2 ^ 1021)

-- `out` with the error at `i`.
abbrev pub error_out : {E : Type 0} → List Bool → ℕ → Option E → List (Option E)
error_out outs i e = set (replicate (length outs) none) i e

module _ {E V : Type 0} where
  unfoldable pub rebuild : Injector E V → Injector E V
  rebuild j = record j {
    generation = j.generation + 1;
    plan = build_plan j.enabled j.rules;
    budgets = replicate (length j.rules) 0;
  }

  -- `none` is the panic.
  unfoldable pub new : List (Rule E V) → Option (Injector E V)
  new rs = elim (validate_set rs) [
    | some e ↦ none
    | none ↦ some (
        rebuild (record {
          rules = rs;
          enabled = true;
          generation = 0;
          plan = build_plan false rs;
          budgets = [];
        }))
  ]

  -- A panic leaves the injector as it was.
  unfoldable pub set_rules : List (Rule E V) → Injector E V → Injector E V × Option SetError
  set_rules rs j = elim (validate_set rs) [
    | some e ↦ (j, some e)
    | none ↦ (rebuild (record j { rules = rs; enabled = true }), none)
  ]

  unfoldable pub disable : Injector E V → Injector E V
  disable j = rebuild (record j { enabled = false })

  unfoldable pub enable : Injector E V → Injector E V
  enable j = rebuild (record j { enabled = true })

  -- One round of the loop in `resolve`.
  unfoldable pub bind_method : Plan E V → String → Method → Bound E V
  bind_method p iface m = elim (match p iface m.name) [
    | none ↦ record { seq = 0; rule = none; err_out = none }
    | some c ↦ record { seq = 0; rule = some c; err_out = error_result m.outs }
  ]

  abbrev pub fresh_binding : Injector E V → Binder E V → Binding E V
  fresh_binding j b = record {
    generation = j.generation;
    table = map (bind_method j.plan b.iface_name) b.methods;
  }

  unfoldable pub resolve : Injector E V → Binder E V → Binding E V
  resolve j b = elim (b.cur) [
    | none ↦ fresh_binding j b
    | some bd ↦ if bd.generation == j.generation then bd else fresh_binding j b
  ]

  unfoldable pub active : Compiled E V → ℕ → Bool
  active r now =
      if not (is_zero r.from) && ltb now r.from
      then false
      else if not (is_zero r.until) && ltb r.until now
      then false
      else true

  -- The two guards before the sample: the window and the budget.
  unfoldable pub is_closed : Compiled E V → ℕ → ℕ → Bool
  is_closed r now budget =
      (r.has_window && not (active r now)) || (is_positive r.max_count && leb r.max_count budget)

  -- The actions, flattened: the delay, then the one that decides the call.
  unfoldable pub apply_fault : Compiled E V → Option ℕ → List Bool → Effect E V
  apply_fault r err_out outs =
      let waits = if is_positive r.latency then r.latency else 0 in
      if r.has_panic
      then record { faulted = true; waits = waits; outcome = panics_with r.panic_v }
      else if is_set r.err && is_set err_out
      then record {
        faulted = true;
        waits = waits;
        outcome = elim err_out [ none ↦ proceeds | some i ↦ returns (error_out outs i r.err) ];
      }
      else record { faulted = true; waits = waits; outcome = proceeds }

  abbrev pub untouched : Effect E V
  untouched = record { faulted = false; waits = 0; outcome = proceeds }

  abbrev pub spend : Compiled E V → List ℕ → List ℕ
  spend r budgets =
      if is_positive r.max_count
      then set budgets r.rule (u64 (get_or budgets r.rule 0 + 1))
      else budgets

  -- `intercept` behind the test for a rule. The counter of the method's calls and the budgets change.
  unfoldable pub fault :
      Compiled E V → Bound E V → List Bool → ℕ → List ℕ → Bound E V × List ℕ × Effect E V
  fault r e outs now budgets =
      if is_closed r now (get_or budgets r.rule 0)
      then (e, budgets, untouched)
      else (let seq = u64 (e.seq + 1) in
          let e' = record e { seq = seq } in
          if at_least (sample seq) r.rate
          then (e', budgets, untouched)
          else (e', spend r budgets, apply_fault r e.err_out outs))

  -- `intercept` behind the lookup of the owner.
  abbrev pub owned_by :
      Option (Compiled E V) → Bound E V → List Bool → ℕ → List ℕ → Bound E V × List ℕ × Effect E V
  owned_by none e outs now budgets = (e, budgets, untouched)
  owned_by (some r) e outs now budgets = fault r e outs now budgets

  abbrev pub owned : Bound E V → List Bool → ℕ → List ℕ → Bound E V × List ℕ × Effect E V
  owned e outs now budgets = owned_by e.rule e outs now budgets

  -- `intercept` for method `i` at time `now`.
  unfoldable pub intercept :
      ℕ → ℕ → Injector E V → Binder E V → Injector E V × Binder E V × Effect E V
  intercept i now j b =
      let bd = resolve j b in
      elim (get_elem? bd.table i) [
        | none ↦ (j, b, record { faulted = false; waits = 0; outcome = bad_index })
        | some e ↦
            let (e', budgets, effect) =
              owned e (elim (get_elem? b.methods i) [ none ↦ [] | some m ↦ m.outs ]) now
                j.budgets in
            (
              record j { budgets = budgets },
              record b { cur = some (record bd { table = set bd.table i e' }) },
              effect,
            )
      ]
