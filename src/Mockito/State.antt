-- ===== src/Mockito/State.antt =====
-- A mock's state and its interceptor: mockito/mock.go, mockito/matcher.go.
-- An argument or a result is an `any` of type `A` (the zero value of a result type is `none`), and
-- `reflect.DeepEqual` is the parameter `deep_equal`. A matcher is its `Matches` method; its text for
-- messages is left out. A stub has its address in the list of its method. The mutex is held for a whole
-- operation, so operations come one after another.
use go_weave.Prelude.{
  ℕ, zero, suc, ◌+◌, ◌-◌, Bool, true, false, not, ◌&&◌, Option, none, some, List, [], ◌∷◌, ◌++◌,
  String, ltb, leb, ◌==◌, if◌then◌else◌, length, get_elem?, get_or, set, replicate,
}

abbrev pub Matcher : Type 0 → Type 0
Matcher A = A → Bool

-- `answer` is `nil` as `none`; so is a matcher of `matchers`.
pub record Stub (A : Type 0) : Type 0 where
  pub args : List A
  pub matchers : List (Option (Matcher A))
  pub ret_sets : List (List (Option A))
  pub answer : Option (List A → List (Option A))
  pub panics : Bool
  pub panic_v : Option A
  pub consumed : ℕ

-- A call of the log; its method's name is for messages.
pub record Call (A : Type 0) : Type 0 where
  pub method : String
  pub code_ptr : ℕ
  pub args : List A

-- `stubs` maps a code pointer to the stubs of its method, oldest first.
pub record State (A : Type 0) : Type 0 where
  pub spy : Bool
  pub stubs : ℕ → List (Stub A)
  pub calls : List (Call A)
  pub verified : List Bool

-- A method as `intercept` reads it.
pub record Method : Type 0 where
  pub name : String
  pub code_ptr : ℕ
  pub num_out : ℕ

pub data Outcome (A : Type 0) : Type 0 where
  returns : List (Option A) → Outcome A
  panics_with : Option A → Outcome A
  -- the spy's target decides
  proceeds : Outcome A

-- The last call of the goroutine, as `recordLast` keeps it.
pub record PendingCall (A : Type 0) : Type 0 where
  pub code_ptr : ℕ
  pub method : String
  pub args : List A
  pub num_out : ℕ
  pub matchers : List (Option (Matcher A))

abbrev pub drop_last {ℓ} : {B : Type ℓ} → List B → List B
drop_last [] = []
drop_last (x ∷ []) = []
drop_last (x ∷ y ∷ xs) = x ∷ drop_last (y ∷ xs)

module _ {A : Type 0} where
  unfoldable pub new_mock : Bool → State A
  new_mock spy = record { spy = spy; stubs = λ k. []; calls = []; verified = [] }

  -- Whether the matcher at a position, or else the argument, accepts `got`.
  unfoldable pub arg_matches : (A → A → Bool) → A → Option (Matcher A) → A → Bool
  arg_matches deep_equal want none got = deep_equal want got
  arg_matches deep_equal want (some matches) got = matches got

  abbrev pub head_matcher : List (Option (Matcher A)) → Option (Matcher A)
  head_matcher [] = none
  head_matcher (m ∷ ms) = m

  abbrev pub tail_matchers : List (Option (Matcher A)) → List (Option (Matcher A))
  tail_matchers [] = []
  tail_matchers (m ∷ ms) = ms

  -- The loop of `argsMatch`; matchers past the arguments are ignored.
  unfoldable pub all_match : (A → A → Bool) → List A → List (Option (Matcher A)) → List A → Bool
  all_match deep_equal [] ms got = true
  all_match deep_equal (w ∷ want) ms [] = true
  all_match deep_equal (w ∷ want) ms (g ∷ got) =
      arg_matches deep_equal w (head_matcher ms) g
      && all_match deep_equal want (tail_matchers ms) got

  unfoldable pub args_match : (A → A → Bool) → List A → List (Option (Matcher A)) → List A → Bool
  args_match deep_equal want ms got =
      if not (length want == length got) then false else all_match deep_equal want ms got

  abbrev pub stub_match : (A → A → Bool) → Stub A → List A → Bool
  stub_match deep_equal st args = args_match deep_equal st.args st.matchers args

  -- The loop of `findStub`, over the stubs before `i`.
  unfoldable pub find_stub_from : (A → A → Bool) → List (Stub A) → ℕ → List A → Option ℕ
  find_stub_from deep_equal stubs zero args = none
  find_stub_from deep_equal stubs (suc i) args = elim (get_elem? stubs i) [
    | none ↦ none
    | some st ↦
        if stub_match deep_equal st args then some i else find_stub_from deep_equal stubs i args
  ]

  -- The place of the stub in the list of its method.
  unfoldable pub find_stub : (A → A → Bool) → State A → ℕ → List A → Option ℕ
  find_stub deep_equal s code_ptr args =
      find_stub_from deep_equal (s.stubs code_ptr) (length (s.stubs code_ptr)) args

  abbrev pub ret_set_at : Stub A → ℕ
  ret_set_at st =
      if leb (length st.ret_sets) st.consumed then length st.ret_sets - 1 else st.consumed

  -- `values`, with the answer function: the stub afterwards and the results.
  abbrev pub values_by :
      Option (List A → List (Option A)) → Stub A → List A → Stub A × List (Option A)
  values_by (some f) st args = (st, f args)
  values_by none st args =
      if ltb 0 (length st.ret_sets)
      then (record st { consumed = st.consumed + 1 }, get_or st.ret_sets (ret_set_at st) [])
      else (st, [])

  unfoldable pub values : Stub A → List A → Stub A × List (Option A)
  values st args = values_by st.answer st args

  unfoldable pub zero_results : Method → List (Option A)
  zero_results m = replicate m.num_out none

  abbrev pub put_stubs : ℕ → List (Stub A) → (ℕ → List (Stub A)) → ℕ → List (Stub A)
  put_stubs k l stubs i = if i == k then l else stubs i

  -- A matched stub answers; its place holds the stub afterwards.
  unfoldable pub answer_with : Stub A → ℕ → Method → List A → State A → State A × Outcome A
  answer_with st i m args s =
      if st.panics
      then (s, panics_with st.panic_v)
      else (let (st', out) = values st args in
          (
            record s { stubs = put_stubs m.code_ptr (set (s.stubs m.code_ptr) i st') s.stubs },
            returns out,
          ))

  -- The call is logged before a stub is looked up.
  unfoldable pub log_call : Method → List A → State A → State A
  log_call m args s = record s {
    calls = s.calls ++ (record { method = m.name; code_ptr = m.code_ptr; args = args } ∷ []);
    verified = s.verified ++ (false ∷ []);
  }

  abbrev pub fall_back : Method → State A → State A × Outcome A
  fall_back m s = (s, if s.spy then proceeds else returns (zero_results m))

  abbrev pub dispatch : (A → A → Bool) → Method → List A → State A → State A × Outcome A
  dispatch deep_equal m args s = elim (find_stub deep_equal s m.code_ptr args) [
    | none ↦ fall_back m s
    | some i ↦ elim (get_elem? (s.stubs m.code_ptr) i) [
      | none ↦ fall_back m s
      | some st ↦ answer_with st i m args s
    ]
  ]

  -- `intercept`, with the matchers that were pushed before the call: the state, the call to remember as
  -- the goroutine's last, and what becomes of the call.
  unfoldable pub intercept :
      (A → A → Bool)
      → Method
      → List A
      → List (Option (Matcher A))
      → State A
      → State A × PendingCall A × Outcome A
  intercept deep_equal m args ms s =
      let (s', outcome) = dispatch deep_equal m args (log_call m args s) in
      (
        s',
        record {
          code_ptr = m.code_ptr;
          method = m.name;
          args = args;
          num_out = m.num_out;
          matchers = ms;
        },
        outcome,
      )

  unfoldable pub rollback : State A → State A
  rollback s =
      if ltb 0 (length s.calls)
      then record s { calls = drop_last s.calls; verified = drop_last s.verified }
      else s

  unfoldable pub add_stub : ℕ → Stub A → State A → State A
  add_stub code_ptr st s = record s {
    stubs = put_stubs code_ptr (s.stubs code_ptr ++ (st ∷ [])) s.stubs;
  }
