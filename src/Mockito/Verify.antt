-- ===== src/Mockito/Verify.antt =====
-- Verification of the call log: mockito/verify.go.
-- A failure is reported through `t` or by a panic: here it is the Boolean `false`, without its message.
use go_weave.Prelude.{
  ℕ, ◌+◌, Bool, true, false, not, ◌&&◌, ◌||◌, Option, none, some, List, [], ◌∷◌, leb, ltb, ◌==◌,
  if◌then◌else◌, length,
}
use go_weave.Mockito.State.{Matcher, Call, State, PendingCall, args_match, rollback}
use go_weave.Mockito.Record.{Session, pop_last}

pub record Verifier (A : Type 0) : Type 0 where
  pub code_ptr : ℕ
  pub args : List A
  pub matchers : List (Option (Matcher A))

module _ {A : Type 0} where
  abbrev pub verifier_of : PendingCall A → Verifier A
  verifier_of p = record { code_ptr = p.code_ptr; args = p.args; matchers = p.matchers }

  -- `none` is the panic for a `Verify` without a call.
  unfoldable pub verify_recorded : Session A → Option (Session A × Verifier A)
  verify_recorded se =
      let (se', last) = pop_last se in
      elim last [
        | none ↦ none
        | some p ↦ some (record se' { state = rollback se'.state }, verifier_of p)
      ]

  -- The condition of the loop in `countLocked`.
  unfoldable pub matches_call : (A → A → Bool) → Verifier A → Call A → Bool
  matches_call deep_equal v c =
      c.code_ptr == v.code_ptr && args_match deep_equal v.args v.matchers c.args

  -- The loop of `countLocked`.
  unfoldable pub count_calls : (A → A → Bool) → Verifier A → List (Call A) → ℕ
  count_calls deep_equal v [] = 0
  count_calls deep_equal v (c ∷ cs) =
      let n = count_calls deep_equal v cs in if matches_call deep_equal v c then n + 1 else n

  -- What the loop writes to `verified` when it marks.
  unfoldable pub mark_calls : (A → A → Bool) → Verifier A → List (Call A) → List Bool → List Bool
  mark_calls deep_equal v [] bs = bs
  mark_calls deep_equal v (c ∷ cs) [] = []
  mark_calls deep_equal v (c ∷ cs) (b ∷ bs) =
      (matches_call deep_equal v c || b) ∷ mark_calls deep_equal v cs bs

  unfoldable pub count_locked : (A → A → Bool) → Verifier A → Bool → State A → State A × ℕ
  count_locked deep_equal v mark s = (
    (if mark then record s { verified = mark_calls deep_equal v s.calls s.verified } else s),
    count_calls deep_equal v s.calls,
  )

  -- `assert` without a timeout.
  unfoldable pub assert_count : (A → A → Bool) → Verifier A → (ℕ → Bool) → State A → State A × Bool
  assert_count deep_equal v check s =
      let (s', got) = count_locked deep_equal v true s in (s', check got)

  -- `wait`: the states that the polls see, the last one past the deadline.
  unfoldable pub wait : (A → A → Bool) → Verifier A → (ℕ → Bool) → List (State A) → Bool
  wait deep_equal v check [] = false
  wait deep_equal v check (s ∷ polls) =
      let later = wait deep_equal v check polls in
      let (_, got) = count_locked deep_equal v false s in if check got then true else later

  unfoldable pub times : (A → A → Bool) → ℕ → Verifier A → State A → State A × Bool
  times deep_equal n v s = assert_count deep_equal v (λ got. got == n) s

  unfoldable pub at_least : (A → A → Bool) → ℕ → Verifier A → State A → State A × Bool
  at_least deep_equal n v s = assert_count deep_equal v (λ got. leb n got) s

  unfoldable pub at_most : (A → A → Bool) → ℕ → Verifier A → State A → State A × Bool
  at_most deep_equal n v s = assert_count deep_equal v (λ got. leb got n) s

  unfoldable pub between : (A → A → Bool) → ℕ → ℕ → Verifier A → State A → State A × Bool
  between deep_equal a b v s = assert_count deep_equal v (λ got. leb a got && leb got b) s

  unfoldable pub never : (A → A → Bool) → Verifier A → State A → State A × Bool
  never deep_equal v s = times deep_equal 0 v s

  unfoldable pub once : (A → A → Bool) → Verifier A → State A → State A × Bool
  once deep_equal v s = times deep_equal 1 v s

  unfoldable pub verify_no_interactions : State A → Bool
  verify_no_interactions s = not (ltb 0 (length s.calls))

  -- The calls that the loop of `verifyNoMoreInteractions` collects.
  unfoldable pub unexpected : List (Call A) → List Bool → List (Call A)
  unexpected [] bs = []
  unexpected (c ∷ cs) [] = []
  unexpected (c ∷ cs) (b ∷ bs) = if not b then c ∷ unexpected cs bs else unexpected cs bs

  unfoldable pub verify_no_more_interactions : State A → Bool
  verify_no_more_interactions s = not (ltb 0 (length (unexpected s.calls s.verified)))
