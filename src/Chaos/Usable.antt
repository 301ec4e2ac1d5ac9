-- ===== src/Chaos/Usable.antt =====
-- `check` of chaos/chaos.go: which rules are usable.
use package.text.Mathlib.TextEquality.{eq_iff}
use go_weave.Prelude.{
  Bool-cases, inl, inr, Option, String, ℕ, zero, suc, ◌+◌, ◌^◌, ◌<◌, ◌≤◌, ◌≡◌, refl, sym, ap, arith,
  Bool, true, false, none, some, List, [], ◌∷◌, length, get_elem?, ◌⊎◌, ◌≢◌, ◌↔◌, some_eq,
}
use go_weave.Chaos.Rules.{
  Value, text, other, panics_value, is_set, is_positive, panics, Float64, nan, infinite, finite,
  one_units, bad_rate, Action, Rule, is_empty, fault_count, decides, check_actions, check,
}

-- A rate in (0, 1].
pub data IsRate : Float64 → Type 0 where
  fraction : {n : ℕ} → 0 < n → n ≤ one_units → IsRate (finite false n)

bad_rate_none : (x : Float64) → bad_rate x ≡ false → IsRate x
unfolding bad_rate
bad_rate_none nan h = cc
bad_rate_none (infinite minus) h = cc
bad_rate_none (finite true n) h = cc
bad_rate_none (finite false n) h = fraction (ground arith) (ground arith)

IsRate-bad_rate : (x : Float64) → IsRate x → bad_rate x ≡ false
unfolding bad_rate
IsRate-bad_rate nan h = elim h [ ]
IsRate-bad_rate (infinite minus) h = elim h [ ]
IsRate-bad_rate (finite true n) h = elim h [ ]
IsRate-bad_rate (finite false n) (fraction lo hi) = ground arith

-- The three faults that an action can have.
pub data Fault : Type 0 where
  delay raise panicking : Fault

-- A value that an action panics with: any but nil and the empty text.
pub data IsPanic {V : Type 0} : Option (Value V) → Type 0 where
  a_text : {s : String} → s ≢ "" → IsPanic (some (text s))
  a_value : {v : V} → IsPanic (some (other v))

panics_value-IsPanic : {V : Type 0} (v : Option (Value V)) → panics_value v ≡ true → IsPanic v
panics_value-IsPanic none h = cc
panics_value-IsPanic (some (text s)) h = a_text (ground (arith, eq_iff s ""))
panics_value-IsPanic (some (other v)) h = a_value

IsPanic-panics_value : {V : Type 0} (v : Option (Value V)) → IsPanic v → panics_value v ≡ true
IsPanic-panics_value none h = elim h [ ]
IsPanic-panics_value (some (text s)) (a_text ne) = ground (arith, eq_iff s "")
IsPanic-panics_value (some (other v)) h = refl

is_set-not_none : {B : Type 0} (o : Option B) → is_set o ≡ true → o ≢ none
is_set-not_none none h = cc
is_set-not_none (some b) h = λ e. cc

not_none-is_set : {B : Type 0} (o : Option B) → o ≢ none → is_set o ≡ true
not_none-is_set none h = absurd (h refl)
not_none-is_set (some b) h = refl

module _ {E V : Type 0} where
  -- The action has the fault: a delay that is not 0, an error, or a value to panic with.
  abbrev pub Has : Action E V → Fault → Type 0
  Has a delay = a.latency ≢ 0
  Has a raise = a.err ≢ none
  Has a panicking = IsPanic a.panic

  -- Exactly one of the three.
  abbrev pub OneFault : Action E V → Type 0
  OneFault a = (f : Fault) × Has a f × ((g : Fault) → Has a g → g ≡ f)

  -- The action at place `k` of `n`: exactly one fault, with no negative delay, and an error or a panic
  -- only at the end.
  pub record IsPlaced (k n : ℕ) (a : Action E V) : Type 0 where
    pub not_negative : a.latency < 2 ^ 63
    pub one_fault : OneFault a
    pub last : (f : Fault) → Has a f → f ≢ delay → suc k ≡ n

  pub record IsUsable (r : Rule E V) : Type 0 where
    pub rate : IsRate r.rate
    pub limit : r.max_count < 2 ^ 63
    pub window : (r.from ≡ 0) ⊎ (r.until ≡ 0) ⊎ (r.from ≤ r.until)
    pub some_action : r.actions ≢ []
    pub placed :
        (k : ℕ) (a : Action E V) → get_elem? r.actions k ≡ some a → IsPlaced k (length r.actions) a

  -- The three terms of the sum in `check`.
  abbrev shows : Action E V → Fault → Bool
  shows a delay = is_positive a.latency
  shows a raise = is_set a.err
  shows a panicking = panics a

  shows-Has : (a : Action E V) (f : Fault) → shows a f ≡ true → Has a f
  unfolding panics
  shows-Has a delay h = ground arith
  shows-Has a raise h = is_set-not_none a.err h
  shows-Has a panicking h = panics_value-IsPanic a.panic h

  Has-shows : (a : Action E V) (f : Fault) → a.latency < 2 ^ 63 → Has a f → shows a f ≡ true
  unfolding panics
  Has-shows a delay small h = ground arith
  Has-shows a raise small h = not_none-is_set a.err h
  Has-shows a panicking small h = IsPanic-panics_value a.panic h

  hidden :
      (a : Action E V) (f g : Fault) → ((g : Fault) → Has a g → g ≡ f) → g ≢ f → shows a g ≡ false
  hidden a f g only apart = elim (Bool-cases (shows a g)) [
    | inl e ↦ absurd (apart (only g (shows-Has a g e)))
    | inr e ↦ e
  ]

  clash :
      (a : Action E V) (f g : Fault)
      → fault_count a ≡ 1
      → shows a f ≡ true
      → shows a g ≡ true
      → g ≡ f
  unfolding fault_count
  clash a delay delay one x y = refl
  clash a delay raise one x y = absurd (let h = rw (x, y) at one in omega arith)
  clash a delay panicking one x y = absurd (let h = rw (x, y) at one in omega arith)
  clash a raise delay one x y = absurd (let h = rw (x, y) at one in omega arith)
  clash a raise raise one x y = refl
  clash a raise panicking one x y = absurd (let h = rw (x, y) at one in omega arith)
  clash a panicking delay one x y = absurd (let h = rw (x, y) at one in omega arith)
  clash a panicking raise one x y = absurd (let h = rw (x, y) at one in omega arith)
  clash a panicking panicking one x y = refl

  first_fault : (a : Action E V) → fault_count a ≡ 1 → (f : Fault) × (shows a f ≡ true)
  unfolding fault_count
  first_fault a one = elim (Bool-cases (shows a delay)) [
    | inl d ↦ (delay, d)
    | inr d ↦ elim (Bool-cases (shows a raise)) [
      | inl r ↦ (raise, r)
      | inr r ↦ elim (Bool-cases (shows a panicking)) [
        | inl p ↦ (panicking, p)
        | inr p ↦ absurd (let h = rw (d, r, p) at one in omega arith)
      ]
    ]
  ]

  fault_count-OneFault : (a : Action E V) → a.latency < 2 ^ 63 → fault_count a ≡ 1 → OneFault a
  fault_count-OneFault a small one =
      let (f, x) = first_fault a one in
      (f, shows-Has a f x, λ g h. clash a f g one x (Has-shows a g small h))

  OneFault-fault_count : (a : Action E V) → a.latency < 2 ^ 63 → OneFault a → fault_count a ≡ 1
  unfolding fault_count
  OneFault-fault_count a small (delay, h, only) =
      rw
        (
          Has-shows a delay small h,
          hidden a delay raise only (λ e. cc),
          hidden a delay panicking only (λ e. cc),
        )
        refl
  OneFault-fault_count a small (raise, h, only) =
      rw
        (
          Has-shows a raise small h,
          hidden a raise delay only (λ e. cc),
          hidden a raise panicking only (λ e. cc),
        )
        refl
  OneFault-fault_count a small (panicking, h, only) =
      rw
        (
          Has-shows a panicking small h,
          hidden a panicking delay only (λ e. cc),
          hidden a panicking raise only (λ e. cc),
        )
        refl

  -- `decides` is an error or a panic.
  decides-Has : (a : Action E V) → decides a ≡ true → (f : Fault) × Has a f × (f ≢ delay)
  unfolding decides
  decides-Has a h = elim (Bool-cases (shows a raise)) [
    | inl r ↦ (raise, shows-Has a raise r, λ e. cc)
    | inr r ↦ (panicking, shows-Has a panicking (ground (arith, r)), λ e. cc)
  ]

  Has-decides :
      (a : Action E V) (f : Fault) → a.latency < 2 ^ 63 → Has a f → f ≢ delay → decides a ≡ true
  unfolding decides
  Has-decides a delay small h n = absurd (n refl)
  Has-decides a raise small h n = rw (Has-shows a raise small h) refl
  Has-decides a panicking small h n = let p = Has-shows a panicking small h in ground arith

  abbrev AllPlaced : List (Action E V) → Type 0
  AllPlaced l = (k : ℕ) (a : Action E V) → get_elem? l k ≡ some a → IsPlaced k (length l) a

  nonempty : {a : Action E V} {l : List (Action E V)} → a ∷ l ≢ []
  nonempty e = cc

  is_last : (l : List (Action E V)) → (l ≡ []) → 1 ≡ suc (length l)
  is_last l e = ap (λ l. suc (length l)) (sym e)

  placed_first :
      (a : Action E V) (rest : List (Action E V))
      → IsPlaced 0 (suc (length rest)) a
      → AllPlaced rest
      → AllPlaced (a ∷ rest)
  placed_first a rest p placed zero b at = rw (sym (some_eq a b at)) p
  placed_first a rest p placed (suc k) b at =
      let q = placed k b at in
      record {
        not_negative = q.not_negative;
        one_fault = q.one_fault;
        last = λ f x d. ap suc (q.last f x d);
      }

  placed_rest : (a : Action E V) (rest : List (Action E V)) → AllPlaced (a ∷ rest) → AllPlaced rest
  placed_rest a rest placed k b at =
      let q = placed (suc k) b at in
      record {
        not_negative = q.not_negative;
        one_fault = q.one_fault;
        last = λ f x d. omega (arith, q.last f x d);
      }

  checked_actions :
      (i : ℕ) (terminal : Bool) (l : List (Action E V))
      → check_actions i terminal l ≡ none
      → (terminal ≡ true → l ≡ []) × AllPlaced l
  unfolding check_actions
  checked_actions i terminal [] h = (λ e. refl, λ k a at. absurd cc)
  checked_actions i terminal (a ∷ rest) h =
      let (no_more, placed) = checked_actions (i + 1) (decides a) rest (ground arith) in
      let small : a.latency < 2 ^ 63 = ground arith in
      (
        λ e. absurd (ground arith),
        placed_first a rest
            (record {
              not_negative = small;
              one_fault = fault_count-OneFault a small (ground arith);
              last = λ f x d. is_last rest (no_more (Has-decides a f small x d));
            })
            placed,
      )

  only_one : (l : List (Action E V)) → 1 ≡ suc (length l) → l ≡ []
  only_one [] e = refl
  only_one (a ∷ l) e = absurd (omega arith)

  placed-check_actions :
      (i : ℕ) (terminal : Bool) (l : List (Action E V))
      → (terminal ≡ true → l ≡ [])
      → AllPlaced l
      → check_actions i terminal l ≡ none
  unfolding check_actions
  placed-check_actions i terminal [] no_more placed = refl
  placed-check_actions i terminal (a ∷ rest) no_more placed =
      let q = placed 0 a refl in
      let next =
        placed-check_actions (i + 1) (decides a) rest
          (λ d. let (f, x, late) = decides-Has a d in only_one rest (q.last f x late))
          (placed_rest a rest placed) in
      let n = q.not_negative in
      let f = OneFault-fault_count a n q.one_fault in
      let open_list : terminal ≢ true = λ e. absurd (nonempty (no_more e)) in ground arith

  not_empty : (l : List (Action E V)) → l ≢ [] → is_empty l ≡ false
  not_empty [] ne = absurd (ne refl)
  not_empty (a ∷ l) ne = refl

  -- `check` accepts exactly the usable rules: a rate in (0, 1], a limit that is not negative, a window
  -- that does not end before it starts, at least one action, every action exactly one fault with no
  -- negative delay, and an error or a panic only at the end of the list.
  pub check-IsUsable : (r : Rule E V) → (check r ≡ none) ↔ IsUsable r
  unfolding check
  check-IsUsable r = (
    λ h. record {
      rate = bad_rate_none r.rate (ground arith);
      limit = ground arith;
      window = ground arith;
      some_action = λ e. absurd (ground arith);
      placed = (checked_actions 0 false r.actions (ground arith)).1;
    },
    λ u.
        let rate = IsRate-bad_rate r.rate u.rate in
        let limit = u.limit in
        let window = u.window in
        let actions = placed-check_actions 0 false r.actions (λ e. absurd cc) u.placed in
        let some_action = not_empty r.actions u.some_action in ground arith,
  )
