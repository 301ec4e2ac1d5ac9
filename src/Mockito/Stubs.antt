-- ===== src/Mockito/Stubs.antt =====
-- Which stub answers a call and with what: `findStub` and `values` of mockito/mock.go.
use go_weave.Prelude.{
  ℕ, zero, suc, ◌+◌, ◌-◌, ◌<◌, ◌≤◌, ◌≡◌, refl, sym, ap, ◌∙◌, arith, Bool, true, false, Option, none,
  some, List, [], ◌∷◌, leb, ltb, if◌then◌else◌, length, get_elem?, get_or, ◌⊎◌, inl, inr,
  Bool-cases, some_eq,
}
use go_weave.Mockito.State.{
  Stub, State, stub_match, find_stub_from, find_stub, values_by, values, ret_set_at,
}
use mathlib.Core.Path.{subst}

module _ {A : Type 0} (deep_equal : A → A → Bool) where
  -- The stub at place `i` is the last one that matches.
  pub record IsLastMatch (stubs : List (Stub A)) (args : List A) (i : ℕ) : Type 0 where
    pub st : Stub A
    pub at : get_elem? stubs i ≡ some st
    pub matches : stub_match deep_equal st args ≡ true
    pub later :
        (j : ℕ) (s : Stub A)
        → get_elem? stubs j ≡ some s
        → i < j
        → stub_match deep_equal s args ≡ false

  in_list : (l : List (Stub A)) (i : ℕ) → i < length l → (st : Stub A) × (get_elem? l i ≡ some st)
  in_list [] i lt = absurd (omega arith)
  in_list (x ∷ l) zero lt = (x, refl)
  in_list (x ∷ l) (suc i) lt = in_list l i (omega arith)

  in_bounds : (l : List (Stub A)) (i : ℕ) (st : Stub A) → get_elem? l i ≡ some st → i < length l
  in_bounds [] i st at = absurd cc
  in_bounds (x ∷ l) zero st at = omega arith
  in_bounds (x ∷ l) (suc i) st at = omega (arith, in_bounds l i st at)

  abbrev Found : List (Stub A) → List A → Option ℕ → Type 0
  Found stubs args o =
      ((o ≡ none)
        × ((j : ℕ) (s : Stub A)
            → get_elem? stubs j ≡ some s
            → stub_match deep_equal s args ≡ false))
      ⊎ ((i : ℕ) × (o ≡ some i) × IsLastMatch stubs args i)

  find_stub_from-at :
      (stubs : List (Stub A)) (args : List A) (i : ℕ) (st : Stub A)
      → get_elem? stubs i ≡ some st
      → find_stub_from deep_equal stubs (suc i) args
        ≡ (if stub_match deep_equal st args then some i else find_stub_from deep_equal stubs i args)
  unfolding find_stub_from
  find_stub_from-at stubs args i st at = rw (find_stub_from, at) refl

  find_stub_from-Found :
      (stubs : List (Stub A)) (args : List A) (i : ℕ)
      → i ≤ length stubs
      → ((j : ℕ) (s : Stub A)
          → get_elem? stubs j ≡ some s
          → i ≤ j
          → stub_match deep_equal s args ≡ false)
      → Found stubs args (find_stub_from deep_equal stubs i args)
  unfolding find_stub_from
  find_stub_from-Found stubs args zero le past = inl (refl, λ j s at. past j s at (omega arith))
  find_stub_from-Found stubs args (suc i) le past =
      let (st, at) = in_list stubs i (omega arith) in
      elim (Bool-cases (stub_match deep_equal st args)) [
        | inl fits ↦
            rw (find_stub_from-at stubs args i st at, fits)
              (inr (
                i,
                refl,
                record {
                  st = st;
                  at = at;
                  matches = fits;
                  later = λ j s at' lt. past j s at' (omega arith);
                },
              ))
        | inr misses ↦
            rw (find_stub_from-at stubs args i st at, misses)
              (find_stub_from-Found stubs args i (omega arith) (λ j s at' le'. ground (
                arith,
                past j s at',
                λ (e : j ≡ i).
                    subst (λ s. stub_match deep_equal s args ≡ false)
                      (some_eq st s (sym at ∙ ap (get_elem? stubs) (sym e) ∙ at')) misses,
              )))
      ]

  -- `findStub` finds the place of the last stub of the method that matches the arguments, so that later
  -- stubs win, and nothing exactly when no stub of the method matches.
  pub find_stub-IsLastMatch :
      (s : State A) (code_ptr : ℕ) (args : List A)
      → ((find_stub deep_equal s code_ptr args ≡ none)
          × ((j : ℕ) (st : Stub A)
              → get_elem? (s.stubs code_ptr) j ≡ some st
              → stub_match deep_equal st args ≡ false))
        ⊎ ((i : ℕ) × (find_stub deep_equal s code_ptr args ≡ some i)
            × IsLastMatch (s.stubs code_ptr) args i)
  unfolding find_stub
  find_stub-IsLastMatch s code_ptr args =
      let l = s.stubs code_ptr in
      find_stub_from-Found l args (length l) (omega arith)
        (λ j st at le. let lt = in_bounds l j st at in absurd (omega arith))

module _ {A : Type 0} where
  -- The results of calls that the stub answers, one after another.
  pub answers : Stub A → List (List A) → List (List (Option A))
  answers st [] = []
  answers st (args ∷ calls) = let res = values st args in res.1 ∷ answers res.0 calls

  values_sequence :
      (st : Stub A) (args : List A)
      → st.answer ≡ none
      → 0 < length st.ret_sets
      → values st args
        ≡ (record st { consumed = st.consumed + 1 }, get_or st.ret_sets (ret_set_at st) [])
  unfolding values
  values_sequence st args plain some_set =
      let pos : ltb 0 (length st.ret_sets) ≡ true = ground arith in
      ap (λ o. values_by o st args) plain ∙ simp pos

  -- A stub of `ThenReturn` groups without an answer function gives the groups in order, one for each
  -- call, and then the last one again and again: call number `k` gets group `k`, or the last.
  pub answers-ret_sets :
      (st : Stub A) (calls : List (List A)) (k : ℕ)
      → st.answer ≡ none
      → 0 < length st.ret_sets
      → k < length calls
      → get_elem? (answers st calls) k
        ≡ some (
            get_or st.ret_sets
              (if leb (length st.ret_sets) (st.consumed + k)
                then length st.ret_sets - 1
                else st.consumed + k)
              [])
  unfolding answers
  answers-ret_sets st [] k plain some_set lt = absurd (omega arith)
  answers-ret_sets st (args ∷ calls) zero plain some_set lt =
      rw (values_sequence st args plain some_set)
        (ap some (ap (λ i. get_or st.ret_sets i []) (ground arith)))
  answers-ret_sets st (args ∷ calls) (suc k) plain some_set lt =
      let next = record st { consumed = st.consumed + 1 } in
      let shift : st.consumed + 1 + k ≡ st.consumed + suc k = omega arith in
      rw (values_sequence st args plain some_set) (
        answers-ret_sets next calls k plain some_set (omega arith)
        ∙ ap
            (λ n. some (
              get_or st.ret_sets (if leb (length st.ret_sets) n then length st.ret_sets - 1 else n)
                []))
            shift)
