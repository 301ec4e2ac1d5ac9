-- ===== src/Materialize/Stored.antt =====
-- All results of a method: `storeResults` of materialize.go on the layout of abi.go.
use go_weave.Prelude.{
  ℕ, zero, suc, ◌+◌, ◌≡◌, refl, sym, arith, some, some_eq, List, [], ◌∷◌, All, get_elem?, get_or,
}
use go_weave.Abi.Types.{GoType, FuncType}
use go_weave.Abi.Assign.{Step, Seq, steps_for_value}
use go_weave.Abi.Layout.{AbiLayout}
use go_weave.Abi.Segments.{Each}
use go_weave.Materialize.Memory.{Frame}
use go_weave.Materialize.Values.{GoValue, Host}
use go_weave.Materialize.Results.{choose}
use go_weave.Materialize.Effects.{Keeps}
use go_weave.Materialize.Whole.{AreGroups}
use go_weave.Materialize.Kept.{content, IsReady}

-- The value that result `i` gets.
abbrev pub chosen : Host → GoType → List GoValue → List GoValue → ℕ → GoValue
chosen h t zeros rets i = choose h t (get_elem? rets i) (get_or zeros i GoValue.invalid)

-- Each result, from result `i` on, is there and can be stored in the steps of its group.
abbrev pub AreReady :
    Host → List GoValue → List GoValue → ℕ → List GoType → List (List Step) → Type 0
AreReady h zeros rets i [] gs = Unit
AreReady h zeros rets i (t ∷ ts) [] = ⊥
AreReady h zeros rets i (t ∷ ts) (g ∷ gs) =
    (get_elem? zeros i ≡ some (get_or zeros i GoValue.invalid))
    × IsReady h t (chosen h t zeros rets i) g
    × AreReady h zeros rets (i + 1) ts gs

-- A statement of every result, its type and its steps, from result `i` on.
abbrev pub Throughout :
    (ℕ → GoType → List Step → Type 0) → ℕ → List GoType → List (List Step) → Type 0
Throughout P i [] gs = Unit
Throughout P i (t ∷ ts) [] = ⊥
Throughout P i (t ∷ ts) (g ∷ gs) = P i t g × Throughout P (i + 1) ts gs

-- Each result stands where the caller looks for it.
abbrev pub AreStored :
    Host → List GoValue → List GoValue → Frame → ℕ → List GoType → List (List Step) → Type 0
AreStored h zeros rets m =
    Throughout (λ i t g. All (Keeps (content h t (chosen h t zeros rets i)) m) g)

pub ready_of :
    (h : Host) (ret : Seq) (zeros rets : List GoValue) (i : ℕ) (ts : List GoType)
    (gs : List (List Step))
    → Each ts gs
    → AreGroups ret i gs
    → ((j : ℕ) (t : GoType)
        → get_elem? ts j ≡ some t
        → (get_elem? zeros (i + j) ≡ some (get_or zeros (i + j) GoValue.invalid))
          × IsReady h t (chosen h t zeros rets (i + j)) (steps_for_value ret (i + j)))
    → AreReady h zeros rets i ts gs
ready_of h ret zeros rets i [] gs each grp all = tt
ready_of h ret zeros rets i (t ∷ ts) [] each grp all = absurd each
ready_of h ret zeros rets i (t ∷ ts) (g ∷ gs) each grp all =
    let z : i + 0 ≡ i = omega arith in
    let here = rw z at (all 0 t refl) in
    (
      here.0,
      rw grp.0 at (here.1),
      ready_of h ret zeros rets (i + 1) ts gs each.1 grp.1
          (λ j u e. let s : i + 1 + j ≡ i + suc j = omega arith in rw s (all (suc j) u e)),
    )

pub throughout_at :
    (P : ℕ → GoType → List Step → Type 0) (ret : Seq) (i : ℕ) (ts : List GoType)
    (gs : List (List Step)) (j : ℕ) (t : GoType)
    → Each ts gs
    → AreGroups ret i gs
    → Throughout P i ts gs
    → get_elem? ts j ≡ some t
    → P (i + j) t (steps_for_value ret (i + j))
throughout_at P ret i [] gs j t each grp st e = cc
throughout_at P ret i (u ∷ ts) [] j t each grp st e = absurd each
throughout_at P ret i (u ∷ ts) (g ∷ gs) zero t each grp st e =
    let z : i + 0 ≡ i = omega arith in
    let same : t ≡ u = some_eq t u (sym e) in rw (z, grp.0, same) st.0
throughout_at P ret i (u ∷ ts) (g ∷ gs) (suc j) t each grp st e =
    let s : i + suc j ≡ i + 1 + j = omega arith in
    rw s (throughout_at P ret (i + 1) ts gs j t each.1 grp.1 st.1 e)

-- A method's results can be stored: for each there is a zero value, and the value that is chosen is
-- ready.
abbrev pub ResultsReady : Host → FuncType → AbiLayout → List GoValue → List GoValue → Type 0
ResultsReady h ft l zeros rets =
    (i : ℕ) (t : GoType)
    → get_elem? ft.outs i ≡ some t
    → (get_elem? zeros i ≡ some (get_or zeros i GoValue.invalid))
      × IsReady h t (chosen h t zeros rets i) (steps_for_value l.ret i)

-- The caller finds result `i` in the steps of result `i`, for every `i`.
abbrev pub ResultsFound : Host → FuncType → AbiLayout → List GoValue → List GoValue → Frame → Type 0
ResultsFound h ft l zeros rets m =
    (i : ℕ) (t : GoType)
    → get_elem? ft.outs i ≡ some t
    → All (Keeps (content h t (chosen h t zeros rets i)) m) (steps_for_value l.ret i)
