-- ===== src/Abi/Steps.antt =====
-- `stepsForValue` of abi.go on the layout of a method.
use go_weave.Prelude.{
  some_eq, ℕ, zero, suc, ◌<◌, ◌≡◌, refl, arith, some, List, [], ◌∷◌, length, get_elem?, get_or,
}
use mathlib.Core.Path.{subst}
use go_weave.Abi.Types.{GoType, basic, pointer, Arch, FuncType}
use go_weave.Abi.Assign.{Step, Seq, steps_for_value, int_steps}
use go_weave.Prelude.Bits.{has_bit}
use go_weave.Abi.Layout.{AbiLayout, ret_start, finish_layout, new_abi_layout}
use go_weave.Abi.Parts.{ptr_part, flatten}
use go_weave.Abi.Values.{AddedAll, rcvr_seq, IsMethod, new_abi_layout_cases}
use go_weave.Abi.Segments.{
  ValueSteps, in_registers, Each, AddedAll-AppendsAll, IsSegmented, steps_for_value_group,
}

value_of_group :
    (ts : List GoType) (gs : List (List Step)) (i : ℕ) {t : GoType}
    → Each ts gs
    → get_elem? ts i ≡ some t
    → (i < length gs) × ValueSteps t (get_or gs i [])
value_of_group [] [] i e h = cc
value_of_group [] (g ∷ gs) i e h = absurd e
value_of_group (t ∷ ts) [] i e h = absurd e
value_of_group (t ∷ ts) (g ∷ gs) zero {t = u} e h =
    (omega arith, subst (λ x. ValueSteps x g) (some_eq t u h) e.0)
value_of_group (t ∷ ts) (g ∷ gs) (suc i) e h =
    let (lt, v) = value_of_group ts gs i e.1 h in (omega arith, v)

-- The receiver is passed as one pointer.
abbrev pub rcvr_type : GoType
rcvr_type = basic pointer 8 8

value_at :
    (ts : List GoType) (s : Seq) (segs : List (List Step)) (i : ℕ) {t : GoType}
    → IsSegmented ts s segs
    → get_elem? ts i ≡ some t
    → ValueSteps t (steps_for_value s i)
value_at ts s segs i {t} g h =
    let (lt, v) = value_of_group ts segs i g.each h in rw (steps_for_value_group ts s segs i g lt) v

rcvr-ValueSteps : ValueSteps rcvr_type rcvr_seq.steps
unfolding rcvr_seq int_steps has_bit flatten
rcvr-ValueSteps = in_registers 0 0 (ptr_part 0 ∷ []) (omega arith) refl refl

pub call-IsSegmented :
    {arch : Arch} (ft : FuncType) {call : Seq}
    → AddedAll arch ft.ins rcvr_seq call
    → (segs : List (List Step)) × IsSegmented (rcvr_type ∷ ft.ins) call segs
call-IsSegmented ft added =
    let (segs, q) = AddedAll-AppendsAll added in
    (
      rcvr_seq.steps ∷ segs,
      record {
        whole = q.steps;
        starts = unfold rcvr_seq int_steps in q.starts;
        each = (rcvr-ValueSteps, q.values);
      },
    )

pub ret-IsSegmented :
    {arch : Arch} (ft : FuncType) (call : Seq) {ret : Seq}
    → AddedAll arch ft.outs (ret_start call) ret
    → (segs : List (List Step)) × IsSegmented ft.outs ret segs
ret-IsSegmented ft call added =
    let (segs, q) = AddedAll-AppendsAll added in
    (segs, record { whole = q.steps; starts = q.starts; each = q.values })

-- In the layout of a method with types as reflection reports them, the steps recorded for a parameter
-- (value 0 is the receiver) and for a result are exactly those of its type: none if its size is 0,
-- one for each integer, pointer and float part in consecutive registers, or else one that moves the
-- whole value on the stack.
pub layout_values :
    (arch : Arch) (ft : FuncType)
    → IsMethod arch ft
    → (l : AbiLayout) × (new_abi_layout arch ft ≡ some l)
      × ValueSteps rcvr_type (steps_for_value l.call 0)
      × ((i : ℕ) (t : GoType)
          → get_elem? ft.ins i ≡ some t
          → ValueSteps t (steps_for_value l.call (suc i)))
      × ((i : ℕ) (t : GoType)
          → get_elem? ft.outs i ≡ some t
          → ValueSteps t (steps_for_value l.ret i))
unfolding finish_layout
layout_values arch ft m =
    let (call, ret, e, laid) = new_abi_layout_cases arch ft m in
    let (segs, c) = call-IsSegmented ft laid.args_added in
    let (rsegs, r) = ret-IsSegmented ft call laid.results_added in
    (
      finish_layout ft call ret,
      e,
      value_at (rcvr_type ∷ ft.ins) call segs 0 c refl,
      (λ i t h. value_at (rcvr_type ∷ ft.ins) call segs (suc i) c h),
      (λ i t h. value_at ft.outs ret rsegs i r h),
    )
