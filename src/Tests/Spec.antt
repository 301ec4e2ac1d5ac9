-- ===== src/Tests/Spec.antt =====
-- A document with a delay and an error.
use go_weave.Prelude.{ℕ, ◌≡◌, ◌≢◌, ◌↔◌, refl, Option, none, some, [], ◌∷◌, String, false}
use go_weave.Chaos.Rules.{
  Rule, Action, finite, one_units, delay, fail, validate_set, bad_rule, no_actions,
}
use go_weave.Chaos.Spec.{SpecAction, Spec, converted, spec_rule}
use go_weave.Chaos.Spec.Conversion.{Describes}
use go_weave.Chaos.Spec.Sets.{spec_rule_iff, validate_set-IsConverted}

abbrev half_second : String → Option ℕ
half_second s = some 500000000

abbrev no_time : String → Option ℕ
no_time s = none

abbrev injected : String → String
injected s = s

abbrev document : Spec
document = record {
  interface_name = "UserRepo";
  method_name = "GetUser";
  spec_rate = finite false one_units;
  spec_actions =
      record { latency_text = "500ms"; error_text = ""; panic_text = "" }
      ∷ record { latency_text = ""; error_text = "disk full"; panic_text = "" }
      ∷ [];
  spec_max_count = 100;
  from_text = "";
  until_text = "";
}

abbrev rule : Rule String ℕ
rule = record {
  iface = "UserRepo";
  method = "GetUser";
  rate = finite false one_units;
  actions =
      record { latency = 500000000; err = none; panic = none }
      ∷ record { latency = 0; err = some "disk full"; panic = none }
      ∷ [];
  max_count = 100;
  from = 0;
  until = 0;
}

document-rule : spec_rule half_second no_time injected document ≡ converted rule
unfolding spec_rule go_weave.Chaos.Spec.convert_actions go_weave.Chaos.Spec.action
    go_weave.Chaos.Spec.time_of go_weave.Chaos.Rules.check go_weave.Chaos.Rules.check_actions
    go_weave.Chaos.Rules.delay go_weave.Chaos.Rules.fail go_weave.Chaos.Rules.bad_rate
    go_weave.Chaos.Rules.fault_count go_weave.Chaos.Rules.panics go_weave.Chaos.Rules.decides
document-rule = refl

spec_rule_iff_example :
    (spec_rule half_second no_time injected document ≡ converted rule)
    ↔ Describes half_second no_time injected document rule
spec_rule_iff_example = spec_rule_iff half_second no_time injected document rule

validate_set-IsConverted_example : validate_set (rule ∷ []) ≢ some (bad_rule 0 no_actions)
validate_set-IsConverted_example =
    validate_set-IsConverted half_second no_time injected (rule ∷ []) 0 no_actions
      ((document, document-rule), tt)
