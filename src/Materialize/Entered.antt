-- ===== src/Materialize/Entered.antt =====
-- What the interceptors find after the first half of `Dispatch` of dispatch_amd64.go and
-- dispatch_arm64.go: the caller's arguments and the collector's mirror.
use mathlib.Core.Path.{subst}
use go_weave.Prelude.{
  ℕ, suc, ◌+◌, ◌*◌, ◌^◌, ◌≤◌, ◌<◌, ◌≡◌, refl, arith, Bool, true, some, List, [], ◌∷◌, get_elem?,
  ltb, if◌then◌else◌, All, concat,
}
use go_weave.Prelude.Bits.{has_bit}
use go_weave.Abi.Types.{Arch, GoType, FuncType}
use go_weave.Abi.Assign.{
  StepKind, step_stack, step_int_reg, step_pointer, step_float_reg, Step, steps_for_value,
}
use go_weave.Abi.Layout.{AbiLayout, new_abi_layout}
use go_weave.Abi.Values.{IsMethod}
use go_weave.Abi.Steps.{rcvr_type}
use go_weave.Abi.PtrMask.{passes_pointer, ptr_mask_bits}
use go_weave.Abi.StackArea.{demand, slots}
use go_weave.Materialize.Memory.{Frame, view, le_num}
use go_weave.Materialize.Values.{GoValue, Host}
use go_weave.Materialize.Effects.{addr_of, place_of}
use go_weave.Materialize.Whole.{layout-IsWhole, segmented-AreGroups, Apart-le, same_layout}
use go_weave.Materialize.Dispatch.{Passed, pre_ptrs, enter_with, enter_call}
use go_weave.Materialize.Args.{materialize_args}
use go_weave.Materialize.ReadArg.{HasStart}
use go_weave.Materialize.ReadArgs.{ItabsPassed, ArgsRead, materialize_args-ArgsRead}
use go_weave.Materialize.Gathered.{Grows}
use go_weave.Materialize.Returned.{passed_byte, Between, all-Between, all_at, enter_call-total}

-- The memory holds the byte that the caller passed.
abbrev pub Received : Passed → Frame → Step → Type 0
Received p m st = (k : ℕ) → k < st.size → view (addr_of st) m k ≡ passed_byte st.kind st p k

Received-step :
    (arch : Arch) (l : AbiLayout) (stack : ℕ → ℕ) (p : Passed) (pooled : Frame) (st : Step)
    (kind : StepKind)
    → ((k : ℕ) → 0 < l.stack_bytes → k < l.stack_call_args_size → stack k ≡ p.stack k)
    → l.stack_call_args_size ≤ l.stack_bytes
    → Between 0 l.stack_call_args_size kind st
    → (k : ℕ) → k < st.size
    → view (place_of kind st) (enter_with arch l stack p pooled) k ≡ passed_byte kind st p k
Received-step arch l stack p pooled st step_stack same le b k x =
    same (st.stk_off + k) (omega arith) (omega arith)
Received-step arch l stack p pooled st step_int_reg same le b k x = refl
Received-step arch l stack p pooled st step_pointer same le b k x = refl
Received-step arch l stack p pooled st step_float_reg same le b k x = refl

Received-all :
    (arch : Arch) (l : AbiLayout) (stack : ℕ → ℕ) (p : Passed) (pooled : Frame) (sts : List Step)
    → ((k : ℕ) → 0 < l.stack_bytes → k < l.stack_call_args_size → stack k ≡ p.stack k)
    → l.stack_call_args_size ≤ l.stack_bytes
    → All (λ st. Between 0 l.stack_call_args_size st.kind st) sts
    → All (Received p (enter_with arch l stack p pooled)) sts
Received-all arch l stack p pooled [] same le b = tt
Received-all arch l stack p pooled (st ∷ sts) same le b = (
  Received-step arch l stack p pooled st st.kind same le b.0,
  Received-all arch l stack p pooled sts same le b.1,
)

-- The word in an integer register.
abbrev pub register_word : Passed → ℕ → ℕ
register_word p r = le_num 8 (λ k. p.ints (8 * r + k))

mirror_word :
    (arch : Arch) (mask : ℕ) (p : Passed) (r : ℕ) (b : Bool)
    → r < arch.int_arg_regs
    → has_bit 32 mask r ≡ b
    → pre_ptrs arch mask p.ints r ≡ (if b then register_word p r else 0)
unfolding pre_ptrs
mirror_word arch mask p r b lt e =
    let exists : ltb r arch.int_arg_regs ≡ true = ground arith in rw (exists, e) refl

-- What the call state holds when the chain is started.
pub record Entered (h : Host) (ft : FuncType) (l : AbiLayout) (p : Passed) (m : Frame)
    : Type 0 where
  pub args_received :
      (i : ℕ) (t : GoType)
      → get_elem? ft.ins i ≡ some t
      → All (Received p m) (steps_for_value l.call (suc i))
  pub mirrors :
      (r : ℕ)
      → r < h.arch.int_arg_regs
      → m.ptrs r ≡ (if passes_pointer r l.call.steps then register_word p r else 0)

enter_with-Entered :
    (h : Host) (ft : FuncType) (l : AbiLayout) (p : Passed) (pooled : Frame) (stack : ℕ → ℕ)
    → IsMethod h.arch ft
    → demand ft.ins + demand ft.outs + 64 < 2 ^ 64
    → new_abi_layout h.arch ft ≡ some l
    → h.arch.int_arg_regs ≤ 32
    → ((k : ℕ) → 0 < l.stack_bytes → k < l.stack_call_args_size → stack k ≡ p.stack k)
    → Entered h ft l p (enter_with h.arch l stack p pooled)
enter_with-Entered h ft l p pooled stack meth fit e few same =
    let w = layout-IsWhole h.arch ft l meth fit e in
    let le = Apart-le l.ret_offset l.stack_bytes (slots l.ret.steps) w.area.results_apart in
    let (l', e', bits, _) = ptr_mask_bits h.arch ft meth few in
    let bits' =
      subst
        (λ (l : AbiLayout).
          (i : ℕ) → i < 32 → has_bit 32 l.ptr_mask i ≡ passes_pointer i l.call.steps)
        (same_layout h.arch ft l' l e' e) bits in
    record {
      args_received = λ i t x.
          let n : suc i ≡ 0 + suc i = omega arith in
          Received-all h.arch l stack p pooled (steps_for_value l.call (suc i)) same
            (omega (arith, le, w.area.args_end))
            (rw n (
              all_at (λ st. Between 0 l.stack_call_args_size st.kind st) l.call 0
                (rcvr_type ∷ ft.ins) w.call_segs (suc i) t w.call_cut.each
                (segmented-AreGroups (rcvr_type ∷ ft.ins) l.call w.call_segs w.call_cut)
                (all-Between (concat w.call_segs) 0 l.stack_call_args_size 0 (omega arith)
                  (rw w.call_cut.whole at w.area.args_apart))
                x));
      mirrors = λ r lt. mirror_word h.arch l.ptr_mask p r _ lt (bits' r (omega arith));
    }

-- For a method with types as reflection reports them, whose values with their padding fit the address
-- space, whose stack area fits the window and whose parameters of a size begin with their first part, on
-- an architecture with at most 32 integer registers, on a call whose words make nil or an itab of the
-- parameter's type the first word of every interface (which no `any` that is not nil does), and whatever
-- the pooled state held: `Dispatch`
-- reaches the interceptor chain without a panic. There every step of every argument holds the bytes that
-- the caller passed, the collector's mirror of an integer register is its word if the method passes a
-- pointer in it and nil if not, and `materializeArgs` reads every argument from those steps.
pub enter_call-Entered :
    (h : Host) (ft : FuncType) (l : AbiLayout) (p : Passed) (pooled : Frame)
    → IsMethod h.arch ft
    → demand ft.ins + demand ft.outs + 64 < 2 ^ 64
    → new_abi_layout h.arch ft ≡ some l
    → l.stack_bytes ≤ h.arch.stack_window
    → h.arch.int_arg_regs ≤ 32
    → All HasStart ft.ins
    → ((m : Frame) → Entered h ft l p m → ItabsPassed h ft l m)
    → (m : Frame) × (enter_call h.arch l p pooled ≡ some m)
      × Entered h ft l p m
      × (m' : Frame) × (vs : List GoValue) × (materialize_args h l ft.ins m ≡ some (m', vs))
      × ArgsRead h ft l m m' vs
      × Grows 0 m m'
enter_call-Entered h ft l p pooled meth fit e window few start itabs =
    let w = layout-IsWhole h.arch ft l meth fit e in
    let le = Apart-le l.ret_offset l.stack_bytes (slots l.ret.steps) w.area.results_apart in
    let (stack, entered, same) =
      enter_call-total h.arch l p pooled (omega (arith, le, w.area.args_end)) in
    let m = enter_with h.arch l stack p pooled in
    let reached = enter_with-Entered h ft l p pooled stack meth fit e few same in
    let (m', vs, done, read, grows) =
      materialize_args-ArgsRead h ft l m meth fit e window start (itabs m reached) in
    (m, entered, reached, m', vs, done, read, grows)
