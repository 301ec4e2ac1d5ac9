-- ===== src/Chaos/Rules.antt =====
-- Rules and their validation: `Action`, `Rule`, `check` and `validateSet` of chaos/chaos.go.
-- Errors (`E`) and values to panic with other than strings (`V`) are parameters; an error message is
-- the constructor of its branch with the numbers that it prints.
use package.text.Mathlib.Text.{◌==◌ as str_eq}
use go_weave.Prelude.{
  ℕ, ◌+◌, ◌^◌, Bool, true, false, not, ◌&&◌, ◌||◌, Option, none, some, List, [], ◌∷◌, String, ltb,
  leb, ◌==◌, if◌then◌else◌,
}

-- A `float64`: finite ones are multiples of 2 ^ -1074, the flag says that the sign is minus.
pub data Float64 : Type 0 where
  nan : Float64
  infinite : Bool → Float64
  finite : Bool → ℕ → Float64

-- 1 in units of 2 ^ -1074.
abbrev pub one_units : ℕ
one_units = 2 ^ 1074

-- `math.IsNaN(r) || r <= 0 || r > 1`.
unfoldable pub bad_rate : Float64 → Bool
bad_rate nan = true
bad_rate (infinite minus) = true
bad_rate (finite minus n) = minus || n == 0 || ltb one_units n

-- `int64` values (durations, counts) are bit patterns below 2 ^ 64.
abbrev pub is_negative : ℕ → Bool
is_negative w = leb (2 ^ 63) w

abbrev pub is_positive : ℕ → Bool
is_positive w = ltb 0 w && ltb w (2 ^ 63)

-- A non-nil `any`.
pub data Value (V : Type 0) : Type 0 where
  text : String → Value V
  other : V → Value V

pub record Action (E V : Type 0) : Type 0 where
  pub latency : ℕ
  pub err : Option E
  pub panic : Option (Value V)

-- Times are nanoseconds since the zero time, which stands for an open side.
pub record Rule (E V : Type 0) : Type 0 where
  pub iface : String
  pub method : String
  pub rate : Float64
  pub actions : List (Action E V)
  pub max_count : ℕ
  pub from : ℕ
  pub until : ℕ

abbrev pub is_set {ℓ} : {A : Type ℓ} → Option A → Bool
is_set none = false
is_set (some a) = true

abbrev pub is_zero : ℕ → Bool
is_zero t = t == 0

pub data RuleError : Type 0 where
  rate_out_of_range negative_max_count from_after_until no_actions : RuleError
  negative_latency : ℕ → RuleError
  -- action, number of faults that it sets
  not_one_fault : ℕ → ℕ → RuleError
  after_the_end : ℕ → RuleError

pub data SetError : Type 0 where
  -- rule, what is wrong with it
  bad_rule : ℕ → RuleError → SetError
  same_condition : ℕ → ℕ → SetError
  overlap : String → String → SetError

abbrev pub to_ℕ : Bool → ℕ
to_ℕ true = 1
to_ℕ false = 0

abbrev pub is_empty {ℓ} : {A : Type ℓ} → List A → Bool
is_empty [] = true
is_empty (x ∷ xs) = false

-- The value of `seen[condition]`, if it is there.
unfoldable pub seen_at : String → String → List (String × String × ℕ) → Option ℕ
seen_at iface method [] = none
seen_at iface method ((i, m, j) ∷ seen) =
    if str_eq i iface && str_eq m method then some j else seen_at iface method seen

abbrev pub is_blank : String → Bool
is_blank s = str_eq s ""

abbrev pub panics_value : {V : Type 0} → Option (Value V) → Bool
panics_value none = false
panics_value (some (text s)) = not (str_eq s "")
panics_value (some (other v)) = true

module _ {E V : Type 0} where
  unfoldable pub delay : ℕ → Action E V
  delay d = record { latency = d; err = none; panic = none }

  unfoldable pub fail : E → Action E V
  fail e = record { latency = 0; err = some e; panic = none }

  unfoldable pub panic_with : Value V → Action E V
  panic_with v = record { latency = 0; err = none; panic = some v }

  -- `panics(a)`.
  unfoldable pub panics : Action E V → Bool
  panics a = panics_value a.panic

  -- `n` of the loop in `check`.
  unfoldable pub fault_count : Action E V → ℕ
  fault_count a = to_ℕ (is_positive a.latency) + to_ℕ (is_set a.err) + to_ℕ (panics a)

  unfoldable pub decides : Action E V → Bool
  decides a = is_set a.err || panics a

  -- The loop of `check`, at action `i`.
  unfoldable pub check_actions : ℕ → Bool → List (Action E V) → Option RuleError
  check_actions i terminal [] = none
  check_actions i terminal (a ∷ rest) =
      if is_negative a.latency
      then some (negative_latency i)
      else if not (fault_count a == 1)
      then some (not_one_fault i (fault_count a))
      else if terminal
      then some (after_the_end i)
      else check_actions (i + 1) (decides a) rest

  unfoldable pub check : Rule E V → Option RuleError
  check r =
      if bad_rate r.rate
      then some rate_out_of_range
      else if is_negative r.max_count
      then some negative_max_count
      else if not (is_zero r.from) && not (is_zero r.until) && ltb r.until r.from
      then some from_after_until
      else if is_empty r.actions
      then some no_actions
      else check_actions 0 false r.actions

  -- `ifaceWild` and `methodWild` after rule `r`.
  abbrev pub next_iface_wild : String → Rule E V → String
  next_iface_wild w r =
      if is_blank w && (not (is_blank r.iface) && is_blank r.method) then r.iface else w

  abbrev pub next_method_wild : String → Rule E V → String
  next_method_wild w r =
      if is_blank w && (is_blank r.iface && not (is_blank r.method)) then r.method else w

  -- The loop of `validateSet` from rule `i` on, and the test behind it.
  unfoldable pub validate_from :
      ℕ → List (String × String × ℕ) → String → String → List (Rule E V) → Option SetError
  validate_from i seen iface_wild method_wild [] =
      if not (is_blank iface_wild) && not (is_blank method_wild)
      then some (overlap iface_wild method_wild)
      else none
  validate_from i seen iface_wild method_wild (r ∷ rs) = elim (check r) [
    | some e ↦ some (bad_rule i e)
    | none ↦ elim (seen_at r.iface r.method seen) [
      | some j ↦ some (same_condition j i)
      | none ↦
          validate_from (i + 1) ((r.iface, r.method, i) ∷ seen) (next_iface_wild iface_wild r)
            (next_method_wild method_wild r) rs
    ]
  ]

  unfoldable pub validate_set : List (Rule E V) → Option SetError
  validate_set rs = validate_from 0 [] "" "" rs
