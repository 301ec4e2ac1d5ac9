-- ===== src/Mockito/Log.antt =====
-- The call log of a mock, mockito/mock.go, and the trigger calls of `When` and `Verify`,
-- mockito/stub.go and mockito/verify.go.
use go_weave.Prelude.{
  ℕ, ◌≡◌, refl, ap, ◌∙◌, arith, Bool, true, false, Option, none, some, List, [], ◌∷◌, ◌++◌, ltb,
  length, length-append, get_elem?,
}
use go_weave.Mockito.State.{
  Matcher, Stub, Call, State, Method, Outcome, drop_last, find_stub, fall_back, answer_with,
  log_call, dispatch, intercept, rollback,
}
use go_weave.Mockito.Record.{
  Session, Stubber, call, came_back, around_call, pop_last, when_recorded,
}
use go_weave.Mockito.Verify.{Verifier, verify_recorded}

drop_last-append {ℓ} : {B : Type ℓ} (l : List B) (x : B) → drop_last (l ++ (x ∷ [])) ≡ l
drop_last-append [] x = refl
drop_last-append (y ∷ []) x = refl
drop_last-append (y ∷ z ∷ l) x = ap (λ l. y ∷ l) (drop_last-append (z ∷ l) x)

module _ {A : Type 0} where
  answer_with-log :
      (i : ℕ) (st : Stub A) (m : Method) (args : List A) (s : State A)
      → ((answer_with st i m args s).0.calls ≡ s.calls)
        × ((answer_with st i m args s).0.verified ≡ s.verified)
  unfolding answer_with
  answer_with-log i st m args s = ground arith

  abbrev KeepsLog : State A → State A × Outcome A → Type 0
  KeepsLog s res = (res.0.calls ≡ s.calls) × (res.0.verified ≡ s.verified)

  place-KeepsLog :
      (m : Method) (args : List A) (s : State A) (i : ℕ) (o : Option (Stub A))
      → KeepsLog s (elim o [ none ↦ fall_back m s | some st ↦ answer_with st i m args s ])
  place-KeepsLog m args s i none = (refl, refl)
  place-KeepsLog m args s i (some st) = answer_with-log i st m args s

  found-KeepsLog :
      (m : Method) (args : List A) (s : State A) (o : Option ℕ)
      → KeepsLog s (elim o [
        | none ↦ fall_back m s
        | some i ↦ elim (get_elem? (s.stubs m.code_ptr) i) [
          | none ↦ fall_back m s
          | some st ↦ answer_with st i m args s
        ]
      ])
  found-KeepsLog m args s none = (refl, refl)
  found-KeepsLog m args s (some i) = place-KeepsLog m args s i (get_elem? (s.stubs m.code_ptr) i)

  dispatch-log :
      (deep_equal : A → A → Bool) (m : Method) (args : List A) (s : State A)
      → KeepsLog s (dispatch deep_equal m args s)
  dispatch-log deep_equal m args s =
      found-KeepsLog m args s (find_stub deep_equal s m.code_ptr args)

  -- A call and the rollback of its log entry leave the log as it was.
  rollback-intercept :
      (deep_equal : A → A → Bool) (m : Method) (args : List A) (ms : List (Option (Matcher A)))
      (s : State A)
      → let s' = rollback (intercept deep_equal m args ms s).0 in
        (s'.calls ≡ s.calls) × (s'.verified ≡ s.verified)
  unfolding rollback intercept log_call
  rollback-intercept deep_equal m args ms s =
      let entry : Call A = record { method = m.name; code_ptr = m.code_ptr; args = args } in
      let (kept, marks) = dispatch-log deep_equal m args (log_call m args s) in
      let some_call : ltb 0 (length (dispatch deep_equal m args (log_call m args s)).0.calls)
          ≡ true =
        ground (arith, ap length kept, length-append s.calls (entry ∷ [])) in
      rw some_call (
        ap drop_last kept ∙ drop_last-append s.calls entry,
        ap drop_last marks ∙ drop_last-append s.verified false,
      )

  -- What a recording keeps of the session before the trigger call and hands on.
  pub record IsRecorded (m : Method) (args : List A) (before after : Session A) (code_ptr : ℕ)
      (args' : List A) (ms : List (Option (Matcher A))) : Type 0 where
    pub calls : after.state.calls ≡ before.state.calls
    pub verified : after.state.verified ≡ before.state.verified
    pub pushed : after.pushed ≡ []
    pub last : after.last ≡ none
    pub method : code_ptr ≡ m.code_ptr
    pub same_args : args' ≡ args
    pub matchers : ms ≡ before.pushed

  recorded :
      (deep_equal : A → A → Bool) (m : Method) (args : List A) (se : Session A)
      → let s = (intercept deep_equal m args se.pushed se.state).0 in
        IsRecorded m args se
          (record { state = rollback s; pushed = []; last = none })
          m.code_ptr
          args
          se.pushed
  recorded deep_equal m args se =
      let (calls, verified) = rollback-intercept deep_equal m args se.pushed se.state in
      record {
        calls = calls;
        verified = verified;
        pushed = refl;
        last = refl;
        method = refl;
        same_args = refl;
        matchers = refl;
      }

  -- The log behind the call itself.
  call-log :
      (deep_equal : A → A → Bool) (m : Method) (args : List A) (se : Session A)
      → (call deep_equal m args se).0.state.calls
        ≡ se.state.calls ++ (record { method = m.name; code_ptr = m.code_ptr; args = args } ∷ [])
  unfolding call intercept log_call
  call-log deep_equal m args se = (dispatch-log deep_equal m args (log_call m args se.state)).0

  -- What a recording makes of a call: a result if the call comes back, and the entry in the log if it
  -- panics.
  abbrev pub Recording :
      {B : Type 0}
      → Bool
      → (A → A → Bool)
      → Method
      → List A
      → Session A
      → (Session A → Option (Session A × B))
      → (Session A → B → Type 0)
      → Type 0
  Recording {B} target_returns deep_equal m args se recorded P =
      let called = call deep_equal m args se in
      let result = around_call recorded target_returns deep_equal m args se in
      (came_back target_returns called.1 ≡ true
        → (after : Session A) × (b : B) × (result ≡ (after, some b)) × P after b)
      × (came_back target_returns called.1 ≡ false
          → (result ≡ (called.0, none))
            × (called.0.state.calls
                ≡ se.state.calls
                  ++ (record { method = m.name; code_ptr = m.code_ptr; args = args } ∷ [])))

  around_call-ended :
      {B : Type 0} (recorded : Session A → Option (Session A × B)) (target_returns : Bool)
      (deep_equal : A → A → Bool) (m : Method) (args : List A) (se after : Session A) (b : B)
      (P : Session A → B → Type 0)
      → recorded (call deep_equal m args se).0 ≡ some (after, b)
      → P after b
      → Recording target_returns deep_equal m args se recorded P
  unfolding around_call
  around_call-ended recorded target_returns deep_equal m args se after b P e p = (
    (λ back. (after, b, rw (back, e) refl, p)),
    (λ lost. (rw lost refl, call-log deep_equal m args se)),
  )

  -- `When` and `Verify` around a call of the mock that comes back (a stub that returns, no stub, or a
  -- target of a spy that returns) take over the call's method, its arguments and the matchers that were
  -- pushed before it, use both up, and leave the log of calls and its marks as they were before the
  -- call: the trigger call does not count. If the call panics (a stub made by `ThenPanic`, or a target
  -- that panics), neither runs, and the entry of the call stays at the end of the log.
  pub recording-IsRecorded :
      (target_returns : Bool) (deep_equal : A → A → Bool) (m : Method) (args : List A)
      (se : Session A)
      → Recording target_returns deep_equal m args se when_recorded
          (λ (after : Session A) (sb : Stubber A).
            IsRecorded m args se after sb.code_ptr sb.args sb.matchers)
        × Recording target_returns deep_equal m args se verify_recorded
            (λ (after : Session A) (v : Verifier A).
              IsRecorded m args se after v.code_ptr v.args v.matchers)
  unfolding call when_recorded verify_recorded pop_last intercept
  recording-IsRecorded target_returns deep_equal m args se = (
    around_call-ended when_recorded target_returns deep_equal m args se _ _ _ refl
        (recorded deep_equal m args se),
    around_call-ended verify_recorded target_returns deep_equal m args se _ _ _ refl
        (recorded deep_equal m args se),
  )
