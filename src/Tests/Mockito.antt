-- ===== src/Tests/Mockito.antt =====
-- A mock of one method of two arguments: its log, its stubs and its verification.
use go_weave.Prelude.{
  ℕ, suc, ◌+◌, ◌-◌, ◌<◌, ◌≡◌, refl, arith, Bool, true, false, ◌||◌, none, some, [], ◌∷◌, leb, ◌==◌,
  if◌then◌else◌, length, get_elem?, get_or, drop, ◌⊎◌, ◌↔◌,
}
use go_weave.Mockito.State.{Stub, Call, State, Method, find_stub, stub_match}
use go_weave.Mockito.Record.{Session, Stubber, when_recorded}
use go_weave.Mockito.Verify.{Verifier, verify_recorded, verify_no_more_interactions, count_calls}
use go_weave.Mockito.InOrder.{times_in_order}
use go_weave.Mockito.Stubs.{IsLastMatch, find_stub-IsLastMatch, answers, answers-ret_sets}
use go_weave.Mockito.Log.{Recording, IsRecorded, recording-IsRecorded}
use go_weave.Mockito.Verified.{assert_all, is_covered, verify_no_more_interactions-assert_all}
use go_weave.Mockito.Ordered.{IsNth, times_in_order-IsNth}

abbrev same : ℕ → ℕ → Bool
same a b = a == b

abbrev same_one : ℕ → Bool
same_one x = x == 1

abbrev add : Method
add = record { name = "Add"; code_ptr = 4096; num_out = 1 }

abbrev add_call : ℕ → ℕ → Call ℕ
add_call a b = record { method = "Add"; code_ptr = 4096; args = a ∷ b ∷ [] }

-- `When(m.Add(1, Any())).ThenReturn(3, 4)`.
abbrev any_second : Stub ℕ
any_second = record {
  args = 1 ∷ 0 ∷ [];
  matchers = some same_one ∷ some (λ x. true) ∷ [];
  ret_sets = (some 3 ∷ []) ∷ (some 4 ∷ []) ∷ [];
  answer = none;
  panics = false;
  panic_v = none;
  consumed = 0;
}

abbrev used : State ℕ
used = record {
  spy = false;
  stubs = λ k. any_second ∷ [];
  calls = add_call 1 2 ∷ add_call 5 5 ∷ add_call 1 9 ∷ [];
  verified = false ∷ true ∷ false ∷ [];
}

abbrev one_any : Verifier ℕ
one_any = record {
  code_ptr = 4096;
  args = 1 ∷ 0 ∷ [];
  matchers = some same_one ∷ some (λ x. true) ∷ [];
}

abbrev session : Session ℕ
session = record { state = used; pushed = some (λ x. true) ∷ []; last = none }

find_stub-IsLastMatch_example :
    ((find_stub same used 4096 (1 ∷ 7 ∷ []) ≡ none)
      × ((j : ℕ) (st : Stub ℕ)
          → get_elem? (used.stubs 4096) j ≡ some st
          → stub_match same st (1 ∷ 7 ∷ []) ≡ false))
    ⊎ ((i : ℕ) × (find_stub same used 4096 (1 ∷ 7 ∷ []) ≡ some i)
        × IsLastMatch same (used.stubs 4096) (1 ∷ 7 ∷ []) i)
find_stub-IsLastMatch_example = find_stub-IsLastMatch same used 4096 (1 ∷ 7 ∷ [])

answers-ret_sets_example :
    get_elem? (answers any_second ((1 ∷ 2 ∷ []) ∷ (1 ∷ 2 ∷ []) ∷ (1 ∷ 5 ∷ []) ∷ [])) 2
    ≡ some (
        get_or any_second.ret_sets
          (if leb (length any_second.ret_sets) (any_second.consumed + 2)
            then length any_second.ret_sets - 1
            else any_second.consumed + 2)
          [])
answers-ret_sets_example =
    answers-ret_sets any_second ((1 ∷ 2 ∷ []) ∷ (1 ∷ 2 ∷ []) ∷ (1 ∷ 5 ∷ []) ∷ []) 2 refl
      (omega arith) (omega arith)

recording-IsRecorded_example :
    Recording true same add
      (1 ∷ 2 ∷ [])
      session
      when_recorded
      (λ (after : Session ℕ) (sb : Stubber ℕ).
        IsRecorded add (1 ∷ 2 ∷ []) session after sb.code_ptr sb.args sb.matchers)
    × Recording true same add
        (1 ∷ 2 ∷ [])
        session
        verify_recorded
        (λ (after : Session ℕ) (v : Verifier ℕ).
          IsRecorded add (1 ∷ 2 ∷ []) session after v.code_ptr v.args v.matchers)
recording-IsRecorded_example = recording-IsRecorded true same add (1 ∷ 2 ∷ []) session

verify_no_more_interactions-assert_all_example :
    (verify_no_more_interactions (assert_all same ((one_any, λ got. got == 2) ∷ []) used) ≡ true)
    ↔ ((i : ℕ) (c : Call ℕ)
        → get_elem? used.calls i ≡ some c
        → (is_covered same ((one_any, λ got. got == 2) ∷ []) c || get_or used.verified i false)
          ≡ true)
verify_no_more_interactions-assert_all_example =
    verify_no_more_interactions-assert_all same ((one_any, λ got. got == 2) ∷ []) used refl

times_in_order-IsNth_example :
    ((k : ℕ) × IsNth same one_any 2 (drop 0 used.calls) k
      × (times_in_order same 2 one_any 0 used ≡ some (suc (0 + k))))
    ⊎ ((count_calls same one_any (drop 0 used.calls) < 2)
        × (times_in_order same 2 one_any 0 used ≡ none))
times_in_order-IsNth_example = times_in_order-IsNth same one_any 2 0 used (omega arith)
