-- ===== src/Tests/Chaos.antt =====
-- A rule set with one limited rule and a rule for everything else, on a repository of two methods.
use go_weave.Prelude.{
  ℕ, ◌≡◌, refl, arith, ◌<◌, ◌≤◌, true, false, none, some, List, [], ◌∷◌, ◌^◌, get_elem?, ◌⊎◌, ◌↔◌,
}
use go_weave.Chaos.Plan.{
  Compiled, compile, build_plan, match, apply_actions, add_rule, add_rules, get, put,
}
use go_weave.Chaos.Intercept.{
  Injector, Binder, new, rebuild, disable, intercept, untouched, apply_fault, resolve, bind_method,
  error_result, error_result_from, fault, is_closed, active, at_least, sample,
}
use go_weave.Chaos.Ownership.{Covers, Owns, match-Owns}
use go_weave.Chaos.Usable.{IsUsable, check-IsUsable}
use go_weave.Chaos.Actions.{one_by_one, total_latency, apply_fault-compile}
use go_weave.Chaos.Calls.{Call, serve}
use go_weave.Chaos.Counting.{count_rule}
use go_weave.Chaos.Limit.{count_rule-serve}
use go_weave.Chaos.Switch.{intercept-disable}
use go_weave.Chaos.Rules.{
  finite, one_units, bad_rate, text, Rule, delay, fail, panic_with, panics, fault_count, decides,
  check_actions, check, seen_at, validate_from, validate_set,
}

abbrev save_fails : Rule ℕ ℕ
save_fails = record {
  iface = "UserRepo";
  method = "Save";
  rate = finite false one_units;
  actions = delay 5 ∷ fail 7 ∷ [];
  max_count = 2;
  from = 0;
  until = 0;
}

abbrev all_panic : Rule ℕ ℕ
all_panic = record {
  iface = "";
  method = "";
  rate = finite false 1;
  actions = panic_with (text "boom") ∷ [];
  max_count = 0;
  from = 0;
  until = 0;
}

abbrev rules : List (Rule ℕ ℕ)
rules = save_fails ∷ all_panic ∷ []

rules_accepted : validate_set rules ≡ none
unfolding validate_set validate_from check bad_rate check_actions fault_count panics decides seen_at
    delay fail panic_with
rules_accepted = refl

abbrev injector : Injector ℕ ℕ
injector = record {
  rules = rules;
  enabled = true;
  generation = 1;
  plan = build_plan true rules;
  budgets = 0 ∷ 0 ∷ [];
}

made : new rules ≡ some injector
unfolding new rebuild validate_set validate_from check bad_rate check_actions fault_count panics
    decides seen_at delay fail panic_with
made = refl

-- `Get() (string, error)` and `Save() error`.
abbrev repo : Binder ℕ ℕ
repo = record {
  iface_name = "UserRepo";
  methods =
      record { name = "Get"; outs = false ∷ true ∷ [] }
      ∷ record { name = "Save"; outs = true ∷ [] }
      ∷ [];
  cur = none;
}

abbrev three_saves : List Call
three_saves =
    record { binder = 0; method = 1; now = 10 }
    ∷ record { binder = 1; method = 1; now = 11 }
    ∷ record { binder = 0; method = 1; now = 12 }
    ∷ []

match-Owns_example :
    ((match (build_plan true rules) "UserRepo" "Save" ≡ none)
      × ((l : ℕ) (s : Rule ℕ ℕ) → get_elem? rules l ≡ some s → Covers s "UserRepo" "Save" → ⊥))
    ⊎ ((c : Compiled ℕ ℕ) × (match (build_plan true rules) "UserRepo" "Save" ≡ some c)
        × Owns rules "UserRepo" "Save" c)
match-Owns_example = match-Owns rules "UserRepo" "Save" rules_accepted

check-IsUsable_example : (check save_fails ≡ none) ↔ IsUsable save_fails
check-IsUsable_example = check-IsUsable save_fails

save_fails_accepted : check save_fails ≡ none
unfolding check bad_rate check_actions fault_count panics decides delay fail
save_fails_accepted = refl

short_delays : total_latency save_fails.actions < 2 ^ 63
unfolding total_latency delay fail
short_delays = omega arith

apply_fault-compile_example :
    apply_fault (compile 0 save_fails) (some 0) (true ∷ [])
    ≡ one_by_one 0 save_fails.actions (some 0) (true ∷ [])
apply_fault-compile_example =
    apply_fault-compile 0 save_fails (some 0) (true ∷ []) save_fails_accepted short_delays

count_rule-serve_example : count_rule 0 (serve three_saves injector (repo ∷ repo ∷ [])) ≤ 2
count_rule-serve_example =
    count_rule-serve rules injector 0 save_fails (repo ∷ repo ∷ []) three_saves made refl
      (omega arith) (refl, (refl, tt))

intercept-disable_example :
    ((intercept 1 10 (disable injector) repo).2 ≡ untouched)
    × ((intercept 1 10 (disable injector) repo).0 ≡ disable injector)
intercept-disable_example = intercept-disable injector repo 1 10 (λ bd cur. absurd cc) (omega arith)

-- The two saves within the budget fail and the third goes through.
two_faults : serve three_saves injector (repo ∷ repo ∷ []) ≡ some 0 ∷ some 0 ∷ none ∷ []
unfolding serve intercept resolve bind_method error_result error_result_from fault is_closed active
    at_least sample apply_fault build_plan compile apply_actions add_rules add_rule match get put
    delay fail panic_with panics
two_faults = refl
