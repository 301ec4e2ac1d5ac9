-- ===== src/Abi/PtrMask.antt =====
-- `ptrMask` of abi.go: the integer registers that hold pointers when a method is called.
use go_weave.Prelude.{
  ℕ, zero, suc, ◌≤◌, ◌<◌, ◌≡◌, refl, ap, ◌∙◌, arith, Bool, true, false, ◌&&◌, ◌||◌, some, List, [],
  ◌∷◌, ◌==◌, All, All-append, bit_or,
}
use go_weave.Prelude.Bits.{has_bit, one_shl, has_bit-set, has_bit-zero}
use go_weave.Abi.Types.{Arch, FuncType}
use go_weave.Abi.Assign.{
  StepKind, step_stack, step_int_reg, step_pointer, step_float_reg, Step, int_steps,
}
use go_weave.Abi.Layout.{AbiLayout, is_pointer_step, ptr_mask_of, finish_layout, new_abi_layout}
use go_weave.Abi.Registers.{int_regs, below, AddedAll-IsNumbered, rcvr-IsNumbered}
use go_weave.Abi.Segments.{AddedAll-AppendsAll}
use go_weave.Abi.Values.{IsMethod, rcvr_seq, new_abi_layout_cases}

or_false : (b : Bool) → (b || false) ≡ b
or_false true = refl
or_false false = refl

-- Some step passes a pointer in integer register `i`.
abbrev pub passes_pointer : ℕ → List Step → Bool
passes_pointer i [] = false
passes_pointer i (st ∷ sts) = (is_pointer_step st && st.ireg == i) || passes_pointer i sts

below-lt : (n w : ℕ) → n ≤ w → All (λ i. i < w) (below n)
below-lt zero w h = tt
below-lt (suc n) w h =
    All-append (λ i. i < w) (below n) (n ∷ []) (below-lt n w (omega arith)) (h, tt)

abbrev regs_of : StepKind → ℕ → List ℕ → List ℕ
regs_of step_stack i l = l
regs_of step_int_reg i l = i ∷ l
regs_of step_pointer i l = i ∷ l
regs_of step_float_reg i l = l

regs_tail :
    (k : StepKind) (i : ℕ) (l : List ℕ) → All (λ r. r < 32) (regs_of k i l) → All (λ r. r < 32) l
regs_tail step_stack i l h = h
regs_tail step_int_reg i l h = h.1
regs_tail step_pointer i l h = h.1
regs_tail step_float_reg i l h = h

regs_head :
    (k : StepKind) (i : ℕ) (l : List ℕ)
    → k ≡ step_pointer
    → All (λ r. r < 32) (regs_of k i l)
    → i < 32
regs_head step_stack i l e h = cc
regs_head step_int_reg i l e h = cc
regs_head step_pointer i l e h = h.0
regs_head step_float_reg i l e h = cc

int_regs-regs_of :
    (k : StepKind) (st : Step) (sts : List Step)
    → st.kind ≡ k
    → int_regs (st ∷ sts) ≡ regs_of k st.ireg (int_regs sts)
int_regs-regs_of step_stack st sts e = rw e
int_regs-regs_of step_int_reg st sts e = rw e
int_regs-regs_of step_pointer st sts e = rw e
int_regs-regs_of step_float_reg st sts e = rw e

ptr_mask_of-bit :
    (sts : List Step) (m i : ℕ)
    → All (λ r. r < 32) (int_regs sts)
    → i < 32
    → has_bit 32 (ptr_mask_of sts m) i ≡ (passes_pointer i sts || has_bit 32 m i)
unfolding ptr_mask_of
ptr_mask_of-bit [] m i r h = refl
ptr_mask_of-bit (st ∷ sts) m i r h =
    let r' = rw (int_regs-regs_of st.kind st sts refl) at r in
    let tail = regs_tail st.kind st.ireg (int_regs sts) r' in
    ground (
      arith,
      λ (e : st.kind ≡ step_pointer).
          has_bit-set 32 m st.ireg i (regs_head st.kind st.ireg (int_regs sts) e r') h,
      ptr_mask_of-bit sts m i tail h,
      ptr_mask_of-bit sts (bit_or m (one_shl 32 st.ireg)) i tail h,
    )

-- On an architecture with at most 32 integer registers, the layout of a method with types as
-- reflection reports them has bit `i` of `ptrMask` set exactly when the receiver or an argument passes
-- a pointer in integer register `i`; bit 0, the receiver's, is always set.
pub ptr_mask_bits :
    (arch : Arch) (ft : FuncType)
    → IsMethod arch ft
    → arch.int_arg_regs ≤ 32
    → (l : AbiLayout) × (new_abi_layout arch ft ≡ some l)
      × ((i : ℕ) → i < 32 → has_bit 32 l.ptr_mask i ≡ passes_pointer i l.call.steps)
      × (has_bit 32 l.ptr_mask 0 ≡ true)
unfolding finish_layout rcvr_seq int_steps has_bit
ptr_mask_bits arch ft m small =
    let (call, ret, e, laid) = new_abi_layout_cases arch ft m in
    let n = AddedAll-IsNumbered laid.args_added (rcvr-IsNumbered arch ft m) in
    let (segs, q) = AddedAll-AppendsAll laid.args_added in
    let low : All (λ r. r < 32) (int_regs call.steps) =
      rw n.int_order (below-lt call.iregs 32 (omega (arith, n.in_file.ints_exist))) in
    let bits = λ (i : ℕ) (h : i < 32).
      ptr_mask_of-bit call.steps 0 i low h
      ∙ ap (λ b. passes_pointer i call.steps || b) (has_bit-zero 32 i h)
      ∙ or_false _ in
    (finish_layout ft call ret, e, bits, bits 0 (omega arith) ∙ rw q.steps)
