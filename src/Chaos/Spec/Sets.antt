-- ===== src/Chaos/Spec/Sets.antt =====
-- `Spec.Rule` of chaos/spec.go both ways, and what is left to go wrong for a set of converted rules.
use go_weave.Prelude.{
  ℕ, ◌+◌, ◌≡◌, ◌≢◌, ◌↔◌, ap, ◌∙◌, arith, Option, none, some, List, [], ◌∷◌, String, inl, inr,
  Option-cases, All,
}
use go_weave.Chaos.Rules.{
  Rule, RuleError, bad_rule, check, validate_set, validate_from, seen_at, next_iface_wild,
  next_method_wild,
}
use go_weave.Chaos.Usable.{check-IsUsable}
use go_weave.Chaos.Spec.{Spec, bad_from, bad_until, converted, spec_rule}
use go_weave.Chaos.Spec.Conversion.{
  Describes, time_of-TimeOf, ActionsOf-convert_actions, spec_rule-Describes, rule_of,
}

module _ {E V : Type 0} (parse_duration parse_time : String → Option ℕ)
    (injected : String → E) where
  described_rule :
      (s : Spec) (r : Rule E V)
      → Describes parse_duration parse_time injected s r
      → rule_of parse_duration parse_time injected s r.actions r.from r.until ≡ r
  described_rule s r d =
      ap
        (λ n. record r {
          iface = n;
          method = s.method_name;
          rate = s.spec_rate;
          max_count = s.spec_max_count;
        })
        d.condition.0
      ∙ ap (λ n. record r { method = n; rate = s.spec_rate; max_count = s.spec_max_count })
          d.condition.1
      ∙ ap (λ n. record r { rate = n; max_count = s.spec_max_count }) d.numbers.0
      ∙ ap (λ n. record r { max_count = n }) d.numbers.1

  Describes-spec_rule :
      (s : Spec) (r : Rule E V)
      → Describes parse_duration parse_time injected s r
      → spec_rule parse_duration parse_time injected s ≡ converted r
  unfolding spec_rule
  Describes-spec_rule s r d =
      let same = described_rule s r d in
      let ok : check (rule_of parse_duration parse_time injected s r.actions r.from r.until)
          ≡ none =
        ap check same ∙ (check-IsUsable r).1 d.usable in
      let acts =
        ActionsOf-convert_actions parse_duration parse_time injected 0 s.spec_actions r.actions
          d.faults in
      let starts = (time_of-TimeOf parse_time bad_from s.from_text r.from).1 d.starts in
      let ends = (time_of-TimeOf parse_time bad_until s.until_text r.until).1 d.ends in
      rw (spec_rule, acts, starts, ends, ok) (ap converted same)

  -- `Spec.Rule` gives a rule exactly when the document describes it: condition, rate and limit are
  -- taken over, each entry sets exactly one of its texts and becomes that fault, in order, the times
  -- are those that the texts stand for, an empty one leaving its side open, and the rule is usable.
  pub spec_rule_iff :
      (s : Spec) (r : Rule E V)
      → (spec_rule parse_duration parse_time injected s ≡ converted r)
        ↔ Describes parse_duration parse_time injected s r
  spec_rule_iff s r =
      (spec_rule-Describes parse_duration parse_time injected s r, Describes-spec_rule s r)

  -- The rule comes out of a document.
  abbrev pub IsConverted : Rule E V → Type 0
  IsConverted r = (s : Spec) × (spec_rule parse_duration parse_time injected s ≡ converted r)

  good_from :
      (i : ℕ) (seen : List (String × String × ℕ)) (iw mw : String) (rs : List (Rule E V)) (k : ℕ)
      (e : RuleError)
      → All (λ r. check r ≡ none) rs
      → validate_from i seen iw mw rs ≢ some (bad_rule k e)
  unfolding validate_from
  good_from i seen iw mw [] k e ok bad = ground arith
  good_from i seen iw mw (r ∷ rs) k e ok bad = elim (Option-cases (seen_at r.iface r.method seen)) [
    | inl new ↦
        good_from (i + 1) ((r.iface, r.method, i) ∷ seen) (next_iface_wild iw r)
          (next_method_wild mw r) rs k e ok.1 (rw (validate_from, ok.0, new) at bad)
    | inr (j, old) ↦ absurd (let other = rw (validate_from, ok.0, old) at bad in cc)
  ]

  checked_rules : (rs : List (Rule E V)) → All IsConverted rs → All (λ r. check r ≡ none) rs
  checked_rules [] h = tt
  checked_rules (r ∷ rs) h = (
    (check-IsUsable r).1
        ((spec_rule-Describes parse_duration parse_time injected h.0.0 r h.0.1).usable),
    checked_rules rs h.1,
  )

  -- A set of rules that were all converted from documents is never refused for one of its rules: what
  -- `validateSet` can still report is two rules with one condition, or wildcards that overlap.
  pub validate_set-IsConverted :
      (rs : List (Rule E V)) (k : ℕ) (e : RuleError)
      → All IsConverted rs
      → validate_set rs ≢ some (bad_rule k e)
  unfolding validate_set
  validate_set-IsConverted rs k e h = good_from 0 [] "" "" rs k e (checked_rules rs h)
