-- ===== src/Mockito/Ordered.antt =====
-- What `InOrderVerifier.Times` of mockito/inorder.go checks: the cursor and the calls before it.
use go_weave.Prelude.{
  ℕ, zero, suc, ◌+◌, ◌<◌, ◌≡◌, refl, sym, ap, ◌∙◌, arith, Bool, true, false, not, Option, none,
  some, List, [], ◌∷◌, ◌==◌, if◌then◌else◌, get_elem?, take, drop, ◌⊎◌, inl, inr, Bool-cases,
}
use go_weave.Mockito.State.{Call, State}
use go_weave.Mockito.Verify.{Verifier, matches_call, count_calls}
use go_weave.Mockito.InOrder.{scan, cursor_after, times_in_order}
use mathlib.Core.Path.{subst, ap₂}

module _ {A : Type 0} (deep_equal : A → A → Bool) (v : Verifier A) where
  -- The `n`-th match of the list stands at place `k`.
  pub record IsNth (n : ℕ) (cs : List (Call A)) (k : ℕ) : Type 0 where
    pub c : Call A
    pub at : get_elem? cs k ≡ some c
    pub matches : matches_call deep_equal v c ≡ true
    pub counted : count_calls deep_equal v (take (suc k) cs) ≡ n

  abbrev Scanned : ℕ → ℕ → List (Call A) → ℕ → ℕ × Option ℕ → Type 0
  Scanned i m cs count res =
      ((k : ℕ) × IsNth m cs k × (res ≡ (count + m, some (i + k))))
      ⊎ ((count_calls deep_equal v cs < m) × (res.0 ≡ count + count_calls deep_equal v cs))

  count_none : count_calls deep_equal v [] ≡ 0
  unfolding count_calls
  count_none = refl

  count_hit :
      (c : Call A) (cs : List (Call A))
      → matches_call deep_equal v c ≡ true
      → count_calls deep_equal v (c ∷ cs) ≡ count_calls deep_equal v cs + 1
  unfolding count_calls
  count_hit c cs h = simp h

  count_miss :
      (c : Call A) (cs : List (Call A))
      → matches_call deep_equal v c ≡ false
      → count_calls deep_equal v (c ∷ cs) ≡ count_calls deep_equal v cs
  unfolding count_calls
  count_miss c cs h = simp h

  IsNth-hit :
      (n : ℕ) (c : Call A) (cs : List (Call A)) (k : ℕ)
      → matches_call deep_equal v c ≡ true
      → IsNth n cs k
      → IsNth (n + 1) (c ∷ cs) (suc k)
  IsNth-hit n c cs k h nth = record {
    c = nth.c;
    at = nth.at;
    matches = nth.matches;
    counted = count_hit c (take (suc k) cs) h ∙ ap (λ n. n + 1) nth.counted;
  }

  IsNth-miss :
      (n : ℕ) (c : Call A) (cs : List (Call A)) (k : ℕ)
      → matches_call deep_equal v c ≡ false
      → IsNth n cs k
      → IsNth n (c ∷ cs) (suc k)
  IsNth-miss n c cs k h nth = record {
    c = nth.c;
    at = nth.at;
    matches = nth.matches;
    counted = count_miss c (take (suc k) cs) h ∙ nth.counted;
  }

  IsNth-first :
      (c : Call A) (cs : List (Call A)) → matches_call deep_equal v c ≡ true → IsNth 1 (c ∷ cs) 0
  IsNth-first c cs h = record {
    c = c;
    at = refl;
    matches = h;
    counted = count_hit c [] h ∙ ap (λ n. n + 1) count_none;
  }

  scan-miss :
      (n i count : ℕ) (last : Option ℕ) (c : Call A) (cs : List (Call A))
      → matches_call deep_equal v c ≡ false
      → scan deep_equal v n i (c ∷ cs) count last ≡ scan deep_equal v n (i + 1) cs count last
  unfolding scan
  scan-miss n i count last c cs h = rw (scan, h) refl

  scan-last :
      (n i count : ℕ) (last : Option ℕ) (c : Call A) (cs : List (Call A))
      → matches_call deep_equal v c ≡ true
      → (count + 1 == n) ≡ true
      → scan deep_equal v n i (c ∷ cs) count last ≡ (count + 1, some i)
  unfolding scan
  scan-last n i count last c cs h e = rw (scan, h, e) refl

  scan-hit :
      (n i count : ℕ) (last : Option ℕ) (c : Call A) (cs : List (Call A))
      → matches_call deep_equal v c ≡ true
      → (count + 1 == n) ≡ false
      → scan deep_equal v n i (c ∷ cs) count last
        ≡ scan deep_equal v n (i + 1) cs (count + 1) (some i)
  unfolding scan
  scan-hit n i count last c cs h e = rw (scan, h, e) refl

  Scanned-miss :
      (i m count : ℕ) (c : Call A) (cs : List (Call A)) (res : ℕ × Option ℕ)
      → matches_call deep_equal v c ≡ false
      → Scanned (i + 1) m cs count res
      → Scanned i m (c ∷ cs) count res
  Scanned-miss i m count c cs res h (inl (k, nth, e)) =
      inl (suc k, IsNth-miss m c cs k h nth, e ∙ ap (λ n. (count + m, some n)) (omega arith))
  Scanned-miss i m count c cs res h (inr (few, e)) =
      inr (omega (arith, count_miss c cs h, few), omega (arith, count_miss c cs h, e))

  Scanned-hit :
      (i m count : ℕ) (c : Call A) (cs : List (Call A)) (res : ℕ × Option ℕ)
      → matches_call deep_equal v c ≡ true
      → Scanned (i + 1) m cs (count + 1) res
      → Scanned i (m + 1) (c ∷ cs) count res
  Scanned-hit i m count c cs res h (inl (k, nth, e)) =
      let total : count + 1 + m ≡ count + (m + 1) = omega arith in
      let place : i + 1 + k ≡ i + suc k = omega arith in
      inl (suc k, IsNth-hit m c cs k h nth, e ∙ ap₂ (λ n p. (n, some p)) total place)
  Scanned-hit i m count c cs res h (inr (few, e)) =
      inr (omega (arith, count_hit c cs h, few), omega (arith, count_hit c cs h, e))

  scan_on :
      (m i : ℕ) (c : Call A) (cs : List (Call A)) (count : ℕ) (last : Option ℕ)
      → matches_call deep_equal v c ≡ true
      → ((m count : ℕ) (last : Option ℕ)
          → Scanned
              (i + 1)
              (m + 1)
              cs
              count
              (scan deep_equal v (count + (m + 1)) (i + 1) cs count last))
      → Scanned i (m + 1) (c ∷ cs) count (scan deep_equal v (count + (m + 1)) i (c ∷ cs) count last)
  scan_on zero i c cs count last hit rest =
      rw (scan-last (count + 1) i count last c cs hit (ground arith))
        (inl (0, IsNth-first c cs hit, ap (λ n. (count + 1, some n)) (omega arith)))
  scan_on (suc m) i c cs count last hit rest =
      let total : count + 1 + (m + 1) ≡ count + (suc m + 1) = omega arith in
      let next : suc m ≡ m + 1 = omega arith in
      rw (scan-hit (count + (suc m + 1)) i count last c cs hit (ground arith)) (
        subst
          (λ n.
            Scanned i (n + 1) (c ∷ cs) count
              (scan deep_equal v (count + (suc m + 1)) (i + 1) cs (count + 1) (some i)))
          (sym next)
          (Scanned-hit i (m + 1) count c cs _ hit (
            subst
              (λ n.
                Scanned (i + 1) (m + 1) cs (count + 1)
                  (scan deep_equal v n (i + 1) cs (count + 1) (some i)))
              total (rest m (count + 1) (some i)))))

  scan-Scanned :
      (m i : ℕ) (cs : List (Call A)) (count : ℕ) (last : Option ℕ)
      → Scanned i (m + 1) cs count (scan deep_equal v (count + (m + 1)) i cs count last)
  unfolding scan
  scan-Scanned m i [] count last = inr (omega (arith, count_none), omega (arith, count_none))
  scan-Scanned m i (c ∷ cs) count last = elim (Bool-cases (matches_call deep_equal v c)) [
    | inr miss ↦
        rw (scan-miss (count + (m + 1)) i count last c cs miss)
          (Scanned-miss i (m + 1) count c cs _ miss (scan-Scanned m (i + 1) cs count last))
    | inl hit ↦
        scan_on m i c cs count last hit (λ m count last. scan-Scanned m (i + 1) cs count last)
  ]

  -- `Times(n)` for a positive `n`, with the cursor at `pos`: either call `k` behind the cursor is the
  -- `n`-th match from there, and the cursor moves just past it, whatever calls follow, so that
  -- everything a later verification finds comes after it; or fewer than `n` calls from the cursor on
  -- match, and it panics.
  pub times_in_order-IsNth :
      (n pos : ℕ) (s : State A)
      → 0 < n
      → ((k : ℕ) × IsNth n (drop pos s.calls) k
          × (times_in_order deep_equal n v pos s ≡ some (suc (pos + k))))
        ⊎ ((count_calls deep_equal v (drop pos s.calls) < n)
            × (times_in_order deep_equal n v pos s ≡ none))
  unfolding times_in_order
  times_in_order-IsNth zero pos s lt = absurd (omega arith)
  times_in_order-IsNth (suc n) pos s lt =
      let next : n + 1 ≡ suc n = omega arith in
      let zero_add : 0 + (n + 1) ≡ n + 1 = omega arith in
      let scanned : Scanned pos (suc n) (drop pos s.calls) 0
          (scan deep_equal v (suc n) pos (drop pos s.calls) 0 none) =
        subst
          (λ n.
            Scanned pos n (drop pos s.calls) 0 (scan deep_equal v n pos (drop pos s.calls) 0 none))
          next
          (subst
            (λ m.
              Scanned pos (n + 1) (drop pos s.calls) 0
                (scan deep_equal v m pos (drop pos s.calls) 0 none))
            zero_add (scan-Scanned n pos (drop pos s.calls) 0 none)) in
      elim scanned [
        | inl (k, nth, e) ↦
            let count : (scan deep_equal v (suc n) pos (drop pos s.calls) 0 none).0 ≡ suc n =
              ap (λ res. res.0) e ∙ omega arith in
            let last : (scan deep_equal v (suc n) pos (drop pos s.calls) 0 none).1
                ≡ some (pos + k) =
              ap (λ res. res.1) e in
            let cursor : cursor_after pos (some (pos + k)) ≡ suc (pos + k) = omega arith in
            inl (
              k,
              nth,
              ap₂ (λ c l. if not (c == suc n) then none else some (cursor_after pos l)) count last
                  ∙ ground arith,
            )
        | inr (few, e) ↦ inr (few, ground arith)
      ]
