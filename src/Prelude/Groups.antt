-- ===== src/Prelude/Groups.antt =====
-- A list cut into groups, with the place where each group starts.
use Prim.Native.Nat.{ℕ, zero, suc, ◌+◌, ◌-◌, ◌<◌, ◌≤◌}
use mathlib.Core.Path.{◌≡◌, refl, ap}
use mathlib.Core.List.{List, [], ◌∷◌, ◌++◌, append-nil}
use native.Mathlib.Omega.{arith}
use go_weave.Prelude.Tests.{if◌then◌else◌, ltb}
use go_weave.Prelude.Lists.{length, get_or, take, drop, length-append}

module _ {ℓ} {A : Type ℓ} where
  abbrev pub concat : List (List A) → List A
  concat [] = []
  concat (g ∷ gs) = g ++ concat gs

  -- Where each group of `concat gs` starts, if the first starts at `n`.
  abbrev pub starts_from : ℕ → List (List A) → List ℕ
  starts_from n [] = []
  starts_from n (g ∷ gs) = n ∷ starts_from (n + length g) gs

module _ {ℓ} {A : Type ℓ} where
  pub take_all : (xs : List A) → take (length xs) xs ≡ xs
  take_all [] = refl
  take_all (x ∷ xs) = rw (take_all xs)

  pub take-append_self : (xs ys : List A) → take (length xs) (xs ++ ys) ≡ xs
  take-append_self [] ys = refl
  take-append_self (x ∷ xs) ys = rw (take-append_self xs ys)

  pub drop-append_self : (n : ℕ) (xs ys : List A) → drop (length xs + n) (xs ++ ys) ≡ drop n ys
  drop-append_self n [] ys = let e : 0 + n ≡ n = omega arith in rw e
  drop-append_self n (x ∷ xs) ys =
      let e : suc (length xs) + n ≡ suc (length xs + n) = omega arith in
      rw e (drop-append_self n xs ys)

  pub length-starts_from : (n : ℕ) (gs : List (List A)) → length (starts_from n gs) ≡ length gs
  length-starts_from n [] = refl
  length-starts_from n (g ∷ gs) = ap suc (length-starts_from (n + length g) gs)

module _ {ℓ} {A : Type ℓ} where
  pub starts-le : (n i : ℕ) (gs : List (List A)) → i < length gs → n ≤ get_or (starts_from n gs) i 0
  starts-le n i [] h = absurd (omega arith)
  starts-le n zero (g ∷ gs) h = omega arith
  starts-le n (suc i) (g ∷ gs) h = omega (arith, starts-le (n + length g) i gs (omega arith))

module _ {ℓ} {A : Type ℓ} where
  -- The group that starts at `start` ends where the next starts, or where the list ends.
  pub group_ends :
      (n i : ℕ) (gs : List (List A))
      → i < length gs
      → (if ltb i (length gs - 1)
          then get_or (starts_from n gs) (i + 1) 0
          else n + length (concat gs))
        ≡ get_or (starts_from n gs) i 0 + length (get_or gs i [])
  group_ends n i [] h = absurd (omega arith)
  group_ends n zero (g ∷ []) h = rw append-nil
  group_ends n zero (g ∷ g' ∷ gs) h = ground arith
  group_ends n (suc i) (g ∷ []) h = absurd (omega arith)
  group_ends n (suc i) (g ∷ g' ∷ gs) h =
      let e : suc i + 1 ≡ suc (i + 1) = omega arith in
      rw e (
        ground (
          arith,
          group_ends (n + length g) i (g' ∷ gs) (omega arith),
          length-append g (g' ++ concat gs),
        ))

module _ {ℓ} {A : Type ℓ} where
  pub group_found :
      (n i : ℕ) (gs : List (List A))
      → i < length gs
      → take (length (get_or gs i [])) (drop (get_or (starts_from n gs) i 0 - n) (concat gs))
        ≡ get_or gs i []
  group_found n i [] h = absurd (omega arith)
  group_found n zero (g ∷ gs) h =
      let e : n - n ≡ 0 = omega arith in rw e (take-append_self g (concat gs))
  group_found n (suc i) (g ∷ gs) h =
      let at = get_or (starts_from (n + length g) gs) i 0 in
      let e : at - n ≡ length g + (at - (n + length g)) =
        omega (arith, starts-le (n + length g) i gs (omega arith)) in
      rw (e, drop-append_self _ g (concat gs)) (group_found (n + length g) i gs (omega arith))
