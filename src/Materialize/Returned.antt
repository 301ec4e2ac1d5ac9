-- ===== src/Materialize/Returned.antt =====
-- What the caller of a proxied method finds after `Dispatch` of dispatch_amd64.go and
-- dispatch_arm64.go, and what the interceptors found on the way in.
use go_weave.Prelude.{
  ℕ, zero, suc, ◌+◌, ◌*◌, ◌≤◌, ◌<◌, ◌≡◌, refl, ◌⊎◌, inl, inr, arith, true, some, List, [], ◌∷◌,
  get_elem?, leb, ◌==◌, All, Bool-cases, concat,
}
use go_weave.Abi.Types.{Arch, GoType, FuncType}
use go_weave.Abi.Assign.{
  StepKind, step_stack, step_int_reg, step_pointer, step_float_reg, Step, Seq, steps_for_value,
}
use go_weave.Abi.Layout.{AbiLayout}
use go_weave.Abi.Segments.{Each}
use go_weave.Abi.StackArea.{slots, Apart}
use go_weave.Materialize.Memory.{int_file, float_file, stack_copy, Frame}
use go_weave.Materialize.Values.{GoValue, Host}
use go_weave.Materialize.Effects.{All-split}
use go_weave.Materialize.Kept.{content}
use go_weave.Materialize.Whole.{AreGroups, Apart-le}
use go_weave.Materialize.Stored.{chosen}
use go_weave.Materialize.Dispatch.{Passed, copied_in, enter_with, enter_call}

-- The byte that a step names, in the registers and the stack area that the caller sees.
abbrev pub passed_byte : StepKind → Step → Passed → ℕ → ℕ
passed_byte step_stack st p k = p.stack (st.stk_off + k)
passed_byte step_int_reg st p k = p.ints (8 * st.ireg + k)
passed_byte step_pointer st p k = p.ints (8 * st.ireg + k)
passed_byte step_float_reg st p k = p.floats (8 * st.freg + k)

-- The step's bytes hold the part of `f` that the step names.
abbrev pub Finds : (ℕ → ℕ) → Passed → Step → Type 0
Finds f p st = (k : ℕ) → k < st.size → passed_byte st.kind st p k ≡ f (k + st.offset)

-- A stack step lies between the two offsets.
abbrev pub Between : ℕ → ℕ → StepKind → Step → Type 0
Between lo hi step_stack st = (lo ≤ st.stk_off) × (st.stk_off + st.size ≤ hi)
Between lo hi k st = Unit

Between-step :
    (st : Step) (sts : List Step) (k : StepKind) (lo hi from : ℕ)
    → st.kind ≡ k
    → lo ≤ from
    → Apart from (slots (st ∷ sts)) hi
    → Between lo hi k st × (from' : ℕ) × (lo ≤ from') × Apart from' (slots sts) hi
Between-step st sts step_stack lo hi from e l h =
    let h' = rw e at h in
    (
      (omega arith, Apart-le (st.stk_off + st.size) hi (slots sts) h'.1),
      st.stk_off + st.size,
      omega arith,
      h'.1,
    )
Between-step st sts step_int_reg lo hi from e l h = (tt, from, l, rw e at h)
Between-step st sts step_pointer lo hi from e l h = (tt, from, l, rw e at h)
Between-step st sts step_float_reg lo hi from e l h = (tt, from, l, rw e at h)

pub all-Between :
    (sts : List Step) (lo hi from : ℕ)
    → lo ≤ from
    → Apart from (slots sts) hi
    → All (λ st. Between lo hi st.kind st) sts
all-Between [] lo hi from l h = tt
all-Between (st ∷ sts) lo hi from l h =
    let (b, from', l', h') = Between-step st sts st.kind lo hi from refl l h in
    (b, all-Between sts lo hi from' l' h')

-- What holds of all steps of a sequence holds of those of one value.
pub all_at :
    (P : Step → Type 0) (s : Seq) (i : ℕ) (ts : List GoType) (gs : List (List Step)) (j : ℕ)
    (t : GoType)
    → Each ts gs
    → AreGroups s i gs
    → All P (concat gs)
    → get_elem? ts j ≡ some t
    → All P (steps_for_value s (i + j))
all_at P s i [] gs j t each grp all e = cc
all_at P s i (u ∷ ts) [] j t each grp all e = absurd each
all_at P s i (u ∷ ts) (g ∷ gs) zero t each grp all e =
    let z : i + 0 ≡ i = omega arith in rw (z, grp.0) (All-split P g (concat gs) all).0
all_at P s i (u ∷ ts) (g ∷ gs) (suc j) t each grp all e =
    let n : i + suc j ≡ i + 1 + j = omega arith in
    rw n (all_at P s (i + 1) ts gs j t each.1 grp.1 (All-split P g (concat gs) all).1 e)

-- The caller's copy agrees with the call's memory where results stand.
record Handed (l : AbiLayout) (p out : Passed) (m : Frame) : Type 0 where
  int_bytes : (k : ℕ) → out.ints k ≡ m.bytes int_file k
  float_bytes : (k : ℕ) → out.floats k ≡ m.bytes float_file k
  stack_bytes : (k : ℕ) → l.ret_offset ≤ k → k < l.stack_bytes → out.stack k ≡ m.bytes stack_copy k
  stack_rest : (k : ℕ) → (k < l.ret_offset) ⊎ (l.stack_bytes ≤ k) → out.stack k ≡ p.stack k

pub enter_call-total :
    (arch : Arch) (l : AbiLayout) (p : Passed) (pooled : Frame)
    → l.stack_call_args_size ≤ arch.stack_window
    → (stack : ℕ → ℕ) × (enter_call arch l p pooled ≡ some (enter_with arch l stack p pooled))
      × ((k : ℕ) → 0 < l.stack_bytes → k < l.stack_call_args_size → stack k ≡ p.stack k)
unfolding enter_call
enter_call-total arch l p pooled window = elim (Bool-cases (l.stack_bytes == 0)) [
  | inl z ↦ (pooled.bytes stack_copy, rw z refl, λ k a b. ground arith)
  | inr z ↦
      let fits : leb l.stack_call_args_size arch.stack_window ≡ true = ground arith in
      (
        copied_in l.stack_call_args_size p.stack (pooled.bytes stack_copy),
        rw (z, fits) refl,
        λ k a b. ground arith,
      )
]

-- The caller finds result `i` in the steps of result `i`, for every `i`, in the registers and in its own
-- stack area.
abbrev pub CallerFinds : Host → FuncType → AbiLayout → List GoValue → List GoValue → Passed → Type 0
CallerFinds h ft l zeros rets out =
    (i : ℕ) (t : GoType)
    → get_elem? ft.outs i ≡ some t
    → All (Finds (content h t (chosen h t zeros rets i)) out) (steps_for_value l.ret i)
