-- ===== src/Mockito/Record.antt =====
-- Recording-style calls, mockito/gls.go, mockito/matcher.go and mockito/stub.go: one goroutine with its
-- pushed matchers and its last call, and one mock.
use go_weave.Prelude.{
  ℕ, Bool, true, false, Option, none, some, List, [], ◌∷◌, ◌++◌, if◌then◌else◌, length, get_elem?,
  set, map, ◌==◌,
}
use go_weave.Mockito.State.{
  Matcher, Stub, State, Method, Outcome, returns, panics_with, proceeds, PendingCall, intercept,
  rollback, add_stub, put_stubs,
}

-- `matchers` and `lasts` at the goroutine's key, and the mock.
pub record Session (A : Type 0) : Type 0 where
  pub state : State A
  pub pushed : List (Option (Matcher A))
  pub last : Option (PendingCall A)

-- `stub` is the place of the rule being built among the stubs of its method.
pub record Stubber (A : Type 0) : Type 0 where
  pub code_ptr : ℕ
  pub args : List A
  pub matchers : List (Option (Matcher A))
  pub num_out : ℕ
  pub stub : Option ℕ

module _ {A : Type 0} where
  unfoldable pub push_matcher : Matcher A → Session A → Session A
  push_matcher m se = record se { pushed = se.pushed ++ (some m ∷ []) }

  -- A call of the mock: it drains the matchers and becomes the last call.
  unfoldable pub call : (A → A → Bool) → Method → List A → Session A → Session A × Outcome A
  call deep_equal m args se =
      let (s, p, outcome) = intercept deep_equal m args se.pushed se.state in
      (record { state = s; pushed = []; last = some p }, outcome)

  unfoldable pub pop_last : Session A → Session A × Option (PendingCall A)
  pop_last se = (record se { last = none }, se.last)

  -- `none` is the panic for a `When` without a call.
  unfoldable pub when_recorded : Session A → Option (Session A × Stubber A)
  when_recorded se =
      let (se', last) = pop_last se in
      elim last [
        | none ↦ none
        | some p ↦ some (
          record se' { state = rollback se'.state },
          record {
            code_ptr = p.code_ptr;
            args = p.args;
            matchers = p.matchers;
            num_out = p.num_out;
            stub = none;
          },
        )
      ]

  -- Did the call of the mock come back? `target_returns` says it of the target of a spy.
  abbrev pub came_back : Bool → Outcome A → Bool
  came_back target_returns (returns out) = true
  came_back target_returns (panics_with v) = false
  came_back target_returns proceeds = target_returns

  -- `When(m.F(args))` or `Verify(m.F(args))`: the call is evaluated first, and only behind a call that
  -- comes back does `recorded` run. Without a result, a panic leaves the session as it is.
  abbrev pub ended : {B : Type 0} → Session A → Option (Session A × B) → Session A × Option B
  ended se none = (se, none)
  ended se (some (se', b)) = (se', some b)

  unfoldable pub around_call :
      {B : Type 0}
      → (Session A → Option (Session A × B))
      → Bool
      → (A → A → Bool)
      → Method
      → List A
      → Session A
      → Session A × Option B
  around_call recorded target_returns deep_equal m args se =
      let (se', outcome) = call deep_equal m args se in
      if came_back target_returns outcome then ended se' (recorded se') else (se', none)

  abbrev pub empty_stub : Stubber A → Stub A
  empty_stub sb = record {
    args = sb.args;
    matchers = sb.matchers;
    ret_sets = [];
    answer = none;
    panics = false;
    panic_v = none;
    consumed = 0;
  }

  unfoldable pub stub_or_create : Stubber A → State A → State A × Stubber A × ℕ
  stub_or_create sb s = elim (sb.stub) [
    | some i ↦ (s, sb, i)
    | none ↦
        let i = length (s.stubs sb.code_ptr) in
        (add_stub sb.code_ptr (empty_stub sb) s, record sb { stub = some i }, i)
  ]

  abbrev pub change_at : (Stub A → Stub A) → List (Stub A) → ℕ → List (Stub A)
  change_at f l i = elim (get_elem? l i) [ none ↦ l | some st ↦ set l i (f st) ]

  -- A write through the pointer to the stub.
  unfoldable pub change_stub : (Stub A → Stub A) → Stubber A → State A → State A × Stubber A
  change_stub f sb s =
      let (s', sb', i) = stub_or_create sb s in
      (
        record s' { stubs = put_stubs sb.code_ptr (change_at f (s'.stubs sb.code_ptr) i) s'.stubs },
        sb',
      )

  abbrev pub one_result : Option A → List (Option A)
  one_result r = r ∷ []

  unfoldable pub then_return : List (Option A) → Stubber A → State A → State A × Stubber A
  then_return results sb s =
      change_stub
        (λ st. record st {
          ret_sets =
              if sb.num_out == 1
              then st.ret_sets ++ map one_result results
              else st.ret_sets ++ (results ∷ []);
        })
        sb s

  unfoldable pub then_answer :
      (List A → List (Option A)) → Stubber A → State A → State A × Stubber A
  then_answer f sb s = change_stub (λ st. record st { answer = some f }) sb s

  unfoldable pub then_panic : Option A → Stubber A → State A → State A × Stubber A
  then_panic v sb s = change_stub (λ st. record st { panics = true; panic_v = v }) sb s
