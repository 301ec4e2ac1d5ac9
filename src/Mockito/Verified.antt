-- ===== src/Mockito/Verified.antt =====
-- What `VerifyNoMoreInteractions` of mockito/verify.go checks after some verifications.
use go_weave.Prelude.{
  ℕ, zero, suc, ◌≡◌, refl, sym, ap, ◌∙◌, arith, Bool, true, false, ◌||◌, some, List, [], ◌∷◌,
  length, get_elem?, get_or, ◌↔◌, some_eq,
}
use go_weave.Mockito.State.{Call, State}
use go_weave.Mockito.Verify.{
  Verifier, matches_call, mark_calls, count_locked, assert_count, unexpected,
  verify_no_more_interactions,
}

false_true : {X : Type 0} → false ≡ true → X
false_true h = absurd cc

module _ {A : Type 0} where
  -- Verifications in order, each with its condition on the count, whatever their results.
  pub assert_all : (A → A → Bool) → List (Verifier A × (ℕ → Bool)) → State A → State A
  assert_all deep_equal [] s = s
  assert_all deep_equal ((v, check) ∷ vs) s =
      assert_all deep_equal vs (assert_count deep_equal v check s).0

  -- Whether one of the verifications is about the call.
  pub is_covered : (A → A → Bool) → List (Verifier A × (ℕ → Bool)) → Call A → Bool
  is_covered deep_equal [] c = false
  is_covered deep_equal ((v, check) ∷ vs) c =
      matches_call deep_equal v c || is_covered deep_equal vs c

  length-mark_calls :
      (deep_equal : A → A → Bool) (v : Verifier A) (cs : List (Call A)) (bs : List Bool)
      → length (mark_calls deep_equal v cs bs) ≡ (length bs)
  unfolding mark_calls
  length-mark_calls deep_equal v [] bs = refl
  length-mark_calls deep_equal v (c ∷ cs) [] = refl
  length-mark_calls deep_equal v (c ∷ cs) (b ∷ bs) = ap suc (length-mark_calls deep_equal v cs bs)

  get_or-mark_calls :
      (deep_equal : A → A → Bool) (v : Verifier A) (cs : List (Call A)) (bs : List Bool) (i : ℕ)
      (c : Call A)
      → length bs ≡ length cs
      → get_elem? cs i ≡ some c
      → get_or (mark_calls deep_equal v cs bs) i false
        ≡ (matches_call deep_equal v c || get_or bs i false)
  unfolding mark_calls
  get_or-mark_calls deep_equal v [] bs i c e at = absurd cc
  get_or-mark_calls deep_equal v (x ∷ cs) [] i c e at = absurd (omega arith)
  get_or-mark_calls deep_equal v (x ∷ cs) (b ∷ bs) zero c e at =
      ap (λ c. matches_call deep_equal v c || b) (some_eq x c at)
  get_or-mark_calls deep_equal v (x ∷ cs) (b ∷ bs) (suc i) c e at =
      get_or-mark_calls deep_equal v cs bs i c (omega arith) at

  nothing_unexpected :
      (cs : List (Call A)) (bs : List Bool)
      → length bs ≡ length cs
      → (length (unexpected cs bs) ≡ 0)
        ↔ ((i : ℕ) (c : Call A) → get_elem? cs i ≡ some c → get_or bs i false ≡ true)
  unfolding unexpected
  nothing_unexpected [] bs e = (λ h i c at. absurd cc, λ h. refl)
  nothing_unexpected (x ∷ cs) [] e = absurd (omega arith)
  nothing_unexpected (x ∷ cs) (true ∷ bs) e =
      let (to, from) = nothing_unexpected cs bs (omega arith) in
      (
        λ h i c at.
            (elim i as (λ i. get_elem? (x ∷ cs) i ≡ some c → get_or (true ∷ bs) i false ≡ true) [
              | zero ↦ λ at. refl
              | suc i ↦ λ at. to h i c at
            ])
              at,
        λ h. from (λ i c at. h (suc i) c at),
      )
  nothing_unexpected (x ∷ cs) (false ∷ bs) e =
      (λ h. absurd (omega arith), λ h. absurd (false_true (h 0 x refl)))

  assert_count-verified :
      (deep_equal : A → A → Bool) (v : Verifier A) (check : ℕ → Bool) (s : State A)
      → ((assert_count deep_equal v check s).0.calls ≡ s.calls)
        × ((assert_count deep_equal v check s).0.verified
            ≡ mark_calls deep_equal v s.calls s.verified)
  unfolding assert_count count_locked
  assert_count-verified deep_equal v check s = (refl, refl)

  verified_after :
      (deep_equal : A → A → Bool) (vs : List (Verifier A × (ℕ → Bool))) (s : State A)
      → length s.verified ≡ length s.calls
      → let s' = assert_all deep_equal vs s in
        (s'.calls ≡ s.calls)
        × (length s'.verified ≡ length s.verified)
        × ((i : ℕ) (c : Call A)
            → get_elem? s.calls i ≡ some c
            → get_or s'.verified i false
              ≡ (is_covered deep_equal vs c || get_or s.verified i false))
  unfolding assert_all is_covered
  verified_after deep_equal [] s e = (refl, refl, λ i c at. refl)
  verified_after deep_equal ((v, check) ∷ vs) s e =
      let s₁ = (assert_count deep_equal v check s).0 in
      let (calls, marks) = assert_count-verified deep_equal v check s in
      let size = ap length marks ∙ length-mark_calls deep_equal v s.calls s.verified in
      let (calls', size', marked) =
        verified_after deep_equal vs s₁ (size ∙ e ∙ ap length (sym calls)) in
      (
        calls' ∙ calls,
        size' ∙ size,
        λ i c at.
            let here =
              ap (λ b. get_or b i false) marks
              ∙ get_or-mark_calls deep_equal v s.calls s.verified i c e at in
            let later = marked i c (ap (λ l. get_elem? l i) calls ∙ at) in ground arith,
      )

  -- After any verifications of a mock whose marks are as many as its calls, `VerifyNoMoreInteractions`
  -- passes exactly when every call of the log either was marked before or matches one of the
  -- verifications, whether these passed or not.
  pub verify_no_more_interactions-assert_all :
      (deep_equal : A → A → Bool) (vs : List (Verifier A × (ℕ → Bool))) (s : State A)
      → length s.verified ≡ length s.calls
      → (verify_no_more_interactions (assert_all deep_equal vs s) ≡ true) ↔ (
          (i : ℕ) (c : Call A)
          → get_elem? s.calls i ≡ some c
          → (is_covered deep_equal vs c || get_or s.verified i false) ≡ true)
  unfolding verify_no_more_interactions
  verify_no_more_interactions-assert_all deep_equal vs s e =
      let s' = assert_all deep_equal vs s in
      let (calls, size, marked) = verified_after deep_equal vs s e in
      let (to, from) = nothing_unexpected s'.calls s'.verified (size ∙ e ∙ ap length (sym calls)) in
      (
        λ h i c at.
            sym (marked i c at) ∙ to (ground arith) i c (ap (λ l. get_elem? l i) calls ∙ at),
        λ h.
            let empty = from (λ i c at.
              let old = ap (λ l. get_elem? l i) (sym calls) ∙ at in marked i c old ∙ h i c old) in
            ground arith,
      )
