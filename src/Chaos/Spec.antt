-- ===== src/Chaos/Spec.antt =====
-- Rules as data: `SpecAction`, `Spec` and `Spec.Rule` of chaos/spec.go. `time.ParseDuration`, `time.Parse`
-- and the error that `fmt.Errorf` makes around `ErrInjected` are parameters. An error message is the
-- constructor of its branch with the numbers that it prints.
pub mod Conversion
pub mod Sets
use go_weave.Prelude.{
  ℕ, zero, suc, ◌+◌, Bool, true, false, not, Option, none, some, List, [], ◌∷◌, String, ◌==◌,
  if◌then◌else◌,
}
use go_weave.Chaos.Rules.{
  Float64, Value, text, Action, Rule, RuleError, to_ℕ, is_blank, delay, fail, panic_with, check,
}

pub record SpecAction : Type 0 where
  pub latency_text : String
  pub error_text : String
  pub panic_text : String

pub record Spec : Type 0 where
  pub interface_name : String
  pub method_name : String
  pub spec_rate : Float64
  pub spec_actions : List SpecAction
  pub spec_max_count : ℕ
  pub from_text : String
  pub until_text : String

pub data SpecError : Type 0 where
  -- action, number of faults that it sets
  sets_faults : ℕ → ℕ → SpecError
  bad_duration : ℕ → SpecError
  bad_from bad_until : SpecError
  unusable : RuleError → SpecError

pub data Converted {ℓ} (A : Type ℓ) : Type ℓ where
  converted : A → Converted A
  refused : SpecError → Converted A

-- `n` of `SpecAction.action`.
abbrev pub spec_faults : SpecAction → ℕ
spec_faults a =
    to_ℕ (not (is_blank a.latency_text))
    + to_ℕ (not (is_blank a.error_text))
    + to_ℕ (not (is_blank a.panic_text))

-- A timestamp, and the zero time for an empty text.
abbrev pub parsed : SpecError → Option ℕ → Converted ℕ
parsed e none = refused e
parsed e (some t) = converted t

unfoldable pub time_of : (String → Option ℕ) → SpecError → String → Converted ℕ
time_of parse e s = if is_blank s then converted 0 else parsed e (parse s)

module _ {E V : Type 0} (parse_duration parse_time : String → Option ℕ)
    (injected : String → E) where
  abbrev pub delayed : ℕ → Option ℕ → Converted (Action E V)
  delayed i none = refused (bad_duration i)
  delayed i (some d) = converted (delay d)

  -- `SpecAction.action`.
  unfoldable pub action : ℕ → SpecAction → Converted (Action E V)
  action i a =
      if not (spec_faults a == 1)
      then refused (sets_faults i (spec_faults a))
      else if not (is_blank a.latency_text)
      then delayed i (parse_duration a.latency_text)
      else if not (is_blank a.error_text)
      then converted (fail (injected a.error_text))
      else converted (panic_with (text a.panic_text))

  abbrev pub join :
      Converted (Action E V) → Converted (List (Action E V)) → Converted (List (Action E V))
  join (refused e) rest = refused e
  join (converted b) (refused e) = refused e
  join (converted b) (converted bs) = converted (b ∷ bs)

  -- The loop of `Spec.Rule`, at action `i`.
  unfoldable pub convert_actions : ℕ → List SpecAction → Converted (List (Action E V))
  convert_actions i [] = converted []
  convert_actions i (a ∷ rest) = join (action i a) (convert_actions (i + 1) rest)

  abbrev pub checked : Rule E V → Option RuleError → Converted (Rule E V)
  checked r none = converted r
  checked r (some e) = refused (unusable e)

  abbrev pub assemble :
      Spec → Converted (List (Action E V)) → Converted ℕ → Converted ℕ → Converted (Rule E V)
  assemble s (refused e) f u = refused e
  assemble s (converted as') (refused e) u = refused e
  assemble s (converted as') (converted f) (refused e) = refused e
  assemble s (converted as') (converted f) (converted u) =
      let r : Rule E V = record {
        iface = s.interface_name;
        method = s.method_name;
        rate = s.spec_rate;
        actions = as';
        max_count = s.spec_max_count;
        from = f;
        until = u;
      } in
      checked r (check r)

  -- `Spec.Rule`.
  unfoldable pub spec_rule : Spec → Converted (Rule E V)
  spec_rule s =
      assemble s (convert_actions 0 s.spec_actions) (time_of parse_time bad_from s.from_text)
        (time_of parse_time bad_until s.until_text)
