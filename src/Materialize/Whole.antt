-- ===== src/Materialize/Whole.antt =====
-- What the layout of a method says of the steps of its arguments and of its results, together.
use mathlib.Core.Path.{subst}
use go_weave.Prelude.{
  ℕ, suc, ◌+◌, ◌^◌, ◌≤◌, ◌<◌, ◌≡◌, sym, ap, ◌∙◌, arith, some, some_eq, List, [], ◌∷◌, All,
  All-append, concat, get_or, length,
}
use go_weave.Abi.Types.{Arch, GoType, FuncType}
use go_weave.Abi.Assign.{Step, Seq, steps_for_value}
use go_weave.Abi.Layout.{AbiLayout, finish_layout, new_abi_layout}
use go_weave.Abi.Sane.{IsSane}
use go_weave.Abi.Registers.{IsNumbered, layout_registers, int_regs, float_regs, below}
use go_weave.Abi.Segments.{Each, IsSegmented, steps_for_value_group}
use go_weave.Abi.Steps.{ret-IsSegmented, call-IsSegmented, rcvr_type}
use go_weave.Abi.StackArea.{slots, Apart, demand, AreaIsSound, layout_area}
use go_weave.Abi.Values.{IsMethod, new_abi_layout_cases}
use go_weave.Materialize.Effects.{IsInside, Pairwise}
use go_weave.Materialize.Places.{
  HasSize, value-HasSize, all-IsInside, all-Pairwise, below-Once, all_below,
}

pub record IsWhole (arch : Arch) (ft : FuncType) (l : AbiLayout) : Type 0 where
  pub call_segs : List (List Step)
  pub call_cut : IsSegmented (rcvr_type ∷ ft.ins) l.call call_segs
  pub ret_segs : List (List Step)
  pub ret_cut : IsSegmented ft.outs l.ret ret_segs
  pub call_regs : IsNumbered arch l.call
  pub ret_regs : IsNumbered arch l.ret
  pub area : AreaIsSound ft l

pub same_layout :
    (arch : Arch) (ft : FuncType) (l l' : AbiLayout)
    → new_abi_layout arch ft ≡ some l
    → new_abi_layout arch ft ≡ some l'
    → l ≡ l'
same_layout arch ft l l' e e' = some_eq l l' (sym e ∙ e')

pub layout-IsWhole :
    (arch : Arch) (ft : FuncType) (l : AbiLayout)
    → IsMethod arch ft
    → demand ft.ins + demand ft.outs + 64 < 2 ^ 64
    → new_abi_layout arch ft ≡ some l
    → IsWhole arch ft l
unfolding finish_layout
layout-IsWhole arch ft l m fit e =
    let (call, ret, e0, laid) = new_abi_layout_cases arch ft m in
    let (segs, c) = call-IsSegmented ft laid.args_added in
    let (rsegs, r) = ret-IsSegmented ft call laid.results_added in
    let (l1, e1, n, n') = layout_registers arch ft m in
    let (l2, e2, a) = layout_area arch ft m fit in
    record {
      call_segs = segs;
      call_cut =
          subst (λ (l : AbiLayout). IsSegmented (rcvr_type ∷ ft.ins) l.call segs)
            (same_layout arch ft _ l e0 e) c;
      ret_segs = rsegs;
      ret_cut =
          subst (λ (l : AbiLayout). IsSegmented ft.outs l.ret rsegs) (same_layout arch ft _ l e0 e)
            r;
      call_regs =
          subst (λ (l : AbiLayout). IsNumbered arch l.call) (same_layout arch ft _ l e1 e) n;
      ret_regs = subst (λ (l : AbiLayout). IsNumbered arch l.ret) (same_layout arch ft _ l e1 e) n';
      area = subst (λ (l : AbiLayout). AreaIsSound ft l) (same_layout arch ft _ l e2 e) a;
    }

-- `stepsForValue` gives the groups.
abbrev pub AreGroups : Seq → ℕ → List (List Step) → Type 0
AreGroups s i [] = Unit
AreGroups s i (g ∷ gs) = (steps_for_value s i ≡ g) × AreGroups s (i + 1) gs

groups_from :
    (s : Seq) (i : ℕ) (gs : List (List Step))
    → ((j : ℕ) → j < length gs → steps_for_value s (i + j) ≡ get_or gs j [])
    → AreGroups s i gs
groups_from s i [] h = tt
groups_from s i (g ∷ gs) h =
    let z : i + 0 ≡ i = omega arith in
    (
      rw (← z) (h 0 (omega arith)),
      groups_from s (i + 1) gs
          (λ j l. let e : i + 1 + j ≡ i + suc j = omega arith in rw e (h (suc j) (omega arith))),
    )

pub segmented-AreGroups :
    (ts : List GoType) (s : Seq) (segs : List (List Step))
    → IsSegmented ts s segs
    → AreGroups s 0 segs
segmented-AreGroups ts s segs cut =
    groups_from s 0 segs
      (λ j l. let e : 0 + j ≡ j = omega arith in rw e (steps_for_value_group ts s segs j cut l))

each-HasSize :
    (ts : List GoType) (gs : List (List Step))
    → All IsSane ts
    → Each ts gs
    → All (λ st. HasSize st.kind st) (concat gs)
each-HasSize [] [] sane each = tt
each-HasSize [] (g ∷ gs) sane each = absurd each
each-HasSize (t ∷ ts) [] sane each = absurd each
each-HasSize (t ∷ ts) (g ∷ gs) sane each =
    All-append _ g (concat gs) (value-HasSize t g sane.0 each.0) (each-HasSize ts gs sane.1 each.1)

pub Apart-le : (from to : ℕ) (l : List (ℕ × ℕ)) → Apart from l to → from ≤ to
Apart-le from to [] h = h
Apart-le from to ((o, k) ∷ l) h = omega (arith, h.0, Apart-le (o + k) to l h.1)

within_window :
    (from to n : ℕ) (l : List (ℕ × ℕ))
    → Apart from l to
    → to ≤ n
    → All (λ (s : ℕ × ℕ). s.0 + s.1 ≤ n) l
within_window from to n [] h w = tt
within_window from to n ((o, k) ∷ l) h w =
    (omega (arith, Apart-le (o + k) to l h.1), within_window (o + k) to n l h.1 w)

-- The steps of a sequence of a method lie inside the register files and the stack area, and apart.
pub sequence_places :
    (arch : Arch) (ts : List GoType) (s : Seq) (segs : List (List Step)) (from to : ℕ)
    → All IsSane ts
    → IsSegmented ts s segs
    → IsNumbered arch s
    → Apart from (slots s.steps) to
    → to ≤ arch.stack_window
    → All (λ st. IsInside arch st.kind st) (concat segs) × Pairwise (concat segs)
sequence_places arch ts s segs from to sane cut n apart window =
    let sizes = each-HasSize ts segs sane cut.each in
    let ints : int_regs (concat segs) ≡ below s.iregs = ap int_regs (sym cut.whole) ∙ n.int_order in
    let floats : float_regs (concat segs) ≡ below s.fregs =
      ap float_regs (sym cut.whole) ∙ n.float_order in
    let apart' = rw cut.whole at apart in
    (
      all-IsInside arch (concat segs) sizes (
        rw ints (all_below s.iregs _ n.in_file.ints_exist),
        rw floats (all_below s.fregs _ n.in_file.floats_exist),
        within_window from to arch.stack_window (slots (concat segs)) apart' window,
      ),
      all-Pairwise (concat segs) from to sizes (rw ints (below-Once s.iregs))
          (rw floats (below-Once s.fregs)) apart',
    )
