-- ===== src/Mockito/InOrder.antt =====
-- Verification of the order of calls: mockito/inorder.go. The cursor moves over the call log.
use go_weave.Prelude.{
  ℕ, ◌+◌, Bool, true, false, not, Option, none, some, List, [], ◌∷◌, ◌==◌, if◌then◌else◌, drop,
}
use go_weave.Mockito.State.{Call, State, rollback}
use go_weave.Mockito.Record.{Session, pop_last}
use go_weave.Mockito.Verify.{Verifier, verifier_of, matches_call}

abbrev pub cursor_after : ℕ → Option ℕ → ℕ
cursor_after pos none = pos
cursor_after pos (some last) = last + 1

module _ {A : Type 0} where
  -- `verify`; the cursor stays where it is.
  unfoldable pub verify_in_order : Session A → Option (Session A × Verifier A)
  verify_in_order se =
      let (se', last) = pop_last se in
      elim last [
        | none ↦ none
        | some p ↦ some (record se' { state = rollback se'.state }, verifier_of p)
      ]

  -- The loop of `Times`, at call `i` of the log with the calls from there on: `count` and `last`, which
  -- is -1 as `none`.
  unfoldable pub scan :
      (A → A → Bool) → Verifier A → ℕ → ℕ → List (Call A) → ℕ → Option ℕ → ℕ × Option ℕ
  scan deep_equal v n i [] count last = (count, last)
  scan deep_equal v n i (c ∷ cs) count last = elim (matches_call deep_equal v c) [
    | false ↦ scan deep_equal v n (i + 1) cs count last
    | true ↦ elim (count + 1 == n) [
      | true ↦ (count + 1, some i)
      | false ↦ scan deep_equal v n (i + 1) cs (count + 1) (some i)
    ]
  ]

  -- `Times` of an `InOrderVerifier` at cursor `pos`: the new cursor, or the panic as `none`.
  unfoldable pub times_in_order : (A → A → Bool) → ℕ → Verifier A → ℕ → State A → Option ℕ
  times_in_order deep_equal n v pos s =
      let (count, last) = scan deep_equal v n pos (drop pos s.calls) 0 none in
      if not (count == n) then none else some (cursor_after pos last)
