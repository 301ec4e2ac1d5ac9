-- ===== src/Chaos/Spec/Conversion.antt =====
-- What a converted `Spec` says, and that converted rules are usable.
use package.text.Mathlib.TextEquality.{eq_iff}
use go_weave.Prelude.{
  ℕ, ◌+◌, ◌≡◌, ◌≢◌, ◌⊎◌, ◌↔◌, refl, sym, ap, arith, true, false, Option, none, some, List, [], ◌∷◌,
  String, inl, inr, Bool-cases,
}
use go_weave.Chaos.Rules.{text, Action, Rule, RuleError, is_blank, delay, fail, panic_with, check}
use go_weave.Chaos.Usable.{IsUsable, check-IsUsable}
use go_weave.Chaos.Spec.{
  SpecAction, Spec, SpecError, bad_from, bad_until, Converted, converted, refused, parsed, time_of,
  delayed, action, join, convert_actions, checked, assemble, spec_rule,
}

-- An empty text is the zero time, any other a timestamp.
abbrev pub TimeOf : (String → Option ℕ) → String → ℕ → Type 0
TimeOf parse s t = ((s ≡ "") × (t ≡ 0)) ⊎ ((s ≢ "") × (parse s ≡ some t))

blank_yes : (s : String) → is_blank s ≡ true → s ≡ ""
blank_yes s h = ground (arith, eq_iff s "")

blank_no : (s : String) → is_blank s ≡ false → s ≢ ""
blank_no s h = ground (arith, eq_iff s "")

is_blank-yes : (s : String) → s ≡ "" → is_blank s ≡ true
is_blank-yes s h = ground (arith, eq_iff s "")

is_blank-no : (s : String) → s ≢ "" → is_blank s ≡ false
is_blank-no s h = ground (arith, eq_iff s "")

parsed_time : (e : SpecError) (o : Option ℕ) (t : ℕ) → parsed e o ≡ converted t → o ≡ some t
parsed_time e none t h = absurd (cc)
parsed_time e (some u) t h = ap some (cc)

pub time_of-TimeOf :
    (parse : String → Option ℕ) (e : SpecError) (s : String) (t : ℕ)
    → (time_of parse e s ≡ converted t) ↔ TimeOf parse s t
unfolding time_of
time_of-TimeOf parse e s t = (
  λ h. elim (Bool-cases (is_blank s)) [
    | inl b ↦ let z : converted 0 ≡ converted t = rw (time_of, b) at h in inl (blank_yes s b, (cc))
    | inr b ↦ inr (blank_no s b, parsed_time e (parse s) t (rw (time_of, b) at h))
  ],
  λ h. elim h [
    | inl (b, z) ↦ rw (time_of, is_blank-yes s b, z) refl
    | inr (b, z) ↦ rw (time_of, is_blank-no s b, z) refl
  ],
)

module _ {E V : Type 0} (parse_duration parse_time : String → Option ℕ)
    (injected : String → E) where
  -- The action that an entry stands for: exactly one of its texts is not empty.
  pub data ActionOf : SpecAction → Action E V → Type 0 where
    latency_set :
        {a : SpecAction} {d : ℕ}
        → a.latency_text ≢ ""
        → a.error_text ≡ ""
        → a.panic_text ≡ ""
        → parse_duration a.latency_text ≡ some d
        → ActionOf a (delay d)
    error_set :
        {a : SpecAction}
        → a.latency_text ≡ ""
        → a.error_text ≢ ""
        → a.panic_text ≡ ""
        → ActionOf a (fail (injected a.error_text))
    panic_set :
        {a : SpecAction}
        → a.latency_text ≡ ""
        → a.error_text ≡ ""
        → a.panic_text ≢ ""
        → ActionOf a (panic_with (text a.panic_text))

  delayed_action :
      (i : ℕ) (o : Option ℕ) (b : Action E V)
      → delayed parse_duration parse_time injected i o ≡ converted b
      → (d : ℕ) × (o ≡ some d) × (delay d ≡ b)
  delayed_action i none b h = absurd (cc)
  delayed_action i (some d) b h = (d, refl, (cc))

  action-ActionOf :
      (i : ℕ) (a : SpecAction) (b : Action E V)
      → action parse_duration parse_time injected i a ≡ converted b
      → ActionOf a b
  unfolding action
  action-ActionOf i a b h = elim (Bool-cases (is_blank a.latency_text)) [
    | inl l ↦ elim (Bool-cases (is_blank a.error_text)) [
      | inl e ↦ elim (Bool-cases (is_blank a.panic_text)) [
        | inl p ↦ absurd (let bad = rw (action, l, e, p) at h in cc)
        | inr p ↦
            let same : panic_with (text a.panic_text) ≡ b =
              (let good = rw (action, l, e, p) at h in cc) in
            rw (sym same) (panic_set (blank_yes _ l) (blank_yes _ e) (blank_no _ p))
      ]
      | inr e ↦ elim (Bool-cases (is_blank a.panic_text)) [
        | inl p ↦
            let same : fail (injected a.error_text) ≡ b =
              (let good = rw (action, l, e, p) at h in cc) in
            rw (sym same) (error_set (blank_yes _ l) (blank_no _ e) (blank_yes _ p))
        | inr p ↦ absurd (let bad = rw (action, l, e, p) at h in cc)
      ]
    ]
    | inr l ↦ elim (Bool-cases (is_blank a.error_text)) [
      | inl e ↦ elim (Bool-cases (is_blank a.panic_text)) [
        | inl p ↦
            let (d, at, same) =
              delayed_action i (parse_duration a.latency_text) b (rw (action, l, e, p) at h) in
            rw (sym same) (latency_set (blank_no _ l) (blank_yes _ e) (blank_yes _ p) at)
        | inr p ↦ absurd (let bad = rw (action, l, e, p) at h in cc)
      ]
      | inr e ↦ elim (Bool-cases (is_blank a.panic_text)) [
        | inl p ↦ absurd (let bad = rw (action, l, e, p) at h in cc)
        | inr p ↦ absurd (let bad = rw (action, l, e, p) at h in cc)
      ]
    ]
  ]

  ActionOf-action :
      (i : ℕ) (a : SpecAction) (b : Action E V)
      → ActionOf a b
      → action parse_duration parse_time injected i a ≡ converted b
  unfolding action
  ActionOf-action i a b (latency_set l e p at) =
      rw (action, is_blank-no _ l, is_blank-yes _ e, is_blank-yes _ p, at) refl
  ActionOf-action i a b (error_set l e p) =
      rw (action, is_blank-yes _ l, is_blank-no _ e, is_blank-yes _ p) refl
  ActionOf-action i a b (panic_set l e p) =
      rw (action, is_blank-yes _ l, is_blank-yes _ e, is_blank-no _ p) refl

  -- The actions of a rule are those of the entries, in order.
  abbrev pub ActionsOf : List SpecAction → List (Action E V) → Type 0
  ActionsOf [] [] = Unit
  ActionsOf [] (b ∷ bs) = ⊥
  ActionsOf (a ∷ rest) [] = ⊥
  ActionsOf (a ∷ rest) (b ∷ bs) = ActionOf a b × ActionsOf rest bs

  joined :
      (x : Converted (Action E V)) (y : Converted (List (Action E V))) (bs : List (Action E V))
      → join parse_duration parse_time injected x y ≡ converted bs
      → (b : Action E V) × (rest : List (Action E V)) × (x ≡ converted b)
        × (y ≡ converted rest)
        × (b ∷ rest ≡ bs)
  joined (refused e) y bs h = absurd (cc)
  joined (converted b) (refused e) bs h = absurd (cc)
  joined (converted b) (converted rest) bs h = (b, rest, refl, refl, (cc))

  convert_actions-ActionsOf :
      (i : ℕ) (as' : List SpecAction) (bs : List (Action E V))
      → convert_actions parse_duration parse_time injected i as' ≡ converted bs
      → ActionsOf as' bs
  unfolding convert_actions
  convert_actions-ActionsOf i [] bs h = let nothing : [] ≡ bs = cc in rw (sym nothing) tt
  convert_actions-ActionsOf i (a ∷ rest) bs h =
      let (b, more, at, later, same) =
        joined (action parse_duration parse_time injected i a)
          (convert_actions parse_duration parse_time injected (i + 1) rest) bs h in
      rw (sym same) (action-ActionOf i a b at, convert_actions-ActionsOf (i + 1) rest more later)

  pub ActionsOf-convert_actions :
      (i : ℕ) (as' : List SpecAction) (bs : List (Action E V))
      → ActionsOf as' bs
      → convert_actions parse_duration parse_time injected i as' ≡ converted bs
  unfolding convert_actions
  ActionsOf-convert_actions i [] [] h = refl
  ActionsOf-convert_actions i [] (b ∷ bs) h = absurd h
  ActionsOf-convert_actions i (a ∷ rest) [] h = absurd h
  ActionsOf-convert_actions i (a ∷ rest) (b ∷ bs) h =
      rw (convert_actions, ActionOf-action i a b h.0, ActionsOf-convert_actions (i + 1) rest bs h.1)
        refl

  -- The rule that a `Spec` describes: its condition, rate and limit, its actions in order and its two
  -- times; and the rule is usable.
  pub record Describes (s : Spec) (r : Rule E V) : Type 0 where
    pub condition : (s.interface_name ≡ r.iface) × (s.method_name ≡ r.method)
    pub numbers : (s.spec_rate ≡ r.rate) × (s.spec_max_count ≡ r.max_count)
    pub faults : ActionsOf s.spec_actions r.actions
    pub starts : TimeOf parse_time s.from_text r.from
    pub ends : TimeOf parse_time s.until_text r.until
    pub usable : IsUsable r

  abbrev pub rule_of : Spec → List (Action E V) → ℕ → ℕ → Rule E V
  rule_of s as' f u = record {
    iface = s.interface_name;
    method = s.method_name;
    rate = s.spec_rate;
    actions = as';
    max_count = s.spec_max_count;
    from = f;
    until = u;
  }

  accepted :
      (r r' : Rule E V) (o : Option RuleError)
      → checked parse_duration parse_time injected r o ≡ converted r'
      → (o ≡ none) × (r ≡ r')
  accepted r r' none h = (refl, (cc))
  accepted r r' (some e) h = absurd (cc)

  assembled :
      (s : Spec) (x : Converted (List (Action E V))) (y z : Converted ℕ) (r : Rule E V)
      → assemble parse_duration parse_time injected s x y z ≡ converted r
      → (as' : List (Action E V)) × (f : ℕ) × (u : ℕ) × (x ≡ converted as')
        × (y ≡ converted f)
        × (z ≡ converted u)
        × (check (rule_of s as' f u) ≡ none)
        × (rule_of s as' f u ≡ r)
  assembled s (refused e) y z r h = absurd (cc)
  assembled s (converted as') (refused e) z r h = absurd (cc)
  assembled s (converted as') (converted f) (refused e) r h = absurd (cc)
  assembled s (converted as') (converted f) (converted u) r h =
      let (ok, same) = accepted (rule_of s as' f u) r (check (rule_of s as' f u)) h in
      (as', f, u, refl, refl, refl, ok, same)

  pub spec_rule-Describes :
      (s : Spec) (r : Rule E V)
      → spec_rule parse_duration parse_time injected s ≡ converted r
      → Describes s r
  unfolding spec_rule
  spec_rule-Describes s r h =
      let (as', f, u, ea, ef, eu, ok, same) = assembled s _ _ _ r h in
      rw (sym same) (record {
        condition = (refl, refl);
        numbers = (refl, refl);
        faults = convert_actions-ActionsOf 0 s.spec_actions as' ea;
        starts = (time_of-TimeOf parse_time bad_from s.from_text f).0 ef;
        ends = (time_of-TimeOf parse_time bad_until s.until_text u).0 eu;
        usable = (check-IsUsable (rule_of s as' f u)).0 ok;
      })
