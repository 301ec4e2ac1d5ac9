-- ===== src/Materialize/ReadArgs.antt =====
-- All arguments of a method: `materializeArgs` of materialize.go on the layout of abi.go, with the gather
-- buffer that `newABILayout` lays out.
use go_weave.Prelude.{
  ℕ, zero, suc, ◌+◌, ◌^◌, ◌≤◌, ◌<◌, ◌≡◌, refl, sym, ◌∙◌, inl, inr, arith, Bool, true, false, some,
  some_eq, List, [], ◌∷◌, if◌then◌else◌, All, Bool-cases, get_elem?, concat,
}
use go_weave.Abi.Types.{Arch, GoType, FuncType, size, align_up, u64}
use go_weave.Abi.Assign.{Step, Seq, steps_for_value}
use go_weave.Abi.Layout.{AbiLayout, needs_gather, gather, new_abi_layout, finish_layout}
use go_weave.Abi.Sane.{IsSane}
use go_weave.Abi.Values.{IsMethod, new_abi_layout_cases}
use go_weave.Abi.StackArea.{align_up_lem, demand, slots, AreaIsSound}
use go_weave.Abi.Segments.{Each, IsSegmented}
use go_weave.Abi.Steps.{rcvr_type}
use go_weave.Materialize.Memory.{Frame}
use go_weave.Materialize.Values.{GoValue, Host}
use go_weave.Materialize.Results.{is_iface}
use go_weave.Materialize.Args.{materialize_arg, args_loop, materialize_args}
use go_weave.Materialize.Effects.{IsInside, All-split}
use go_weave.Materialize.Gathered.{Grows, Grows-refl, Grows-trans}
use go_weave.Materialize.ReadArg.{
  HasItab, HasItab-later, IsRead, IsArg, HasStart, materialize_arg-IsRead, IsRead-from,
  IsRead-until,
}
use go_weave.Materialize.Whole.{
  AreGroups, Apart-le, layout-IsWhole, segmented-AreGroups, sequence_places,
}

-- Where the next value of the gather buffer may stand.
abbrev next_off : Seq → ℕ → GoType → ℕ → ℕ
next_off s i t off =
    if needs_gather t (steps_for_value s i) then u64 (align_up off 8 + size t) else off

record IsBeyond (s : Seq) (i : ℕ) (t : GoType) (off : ℕ) : Type 0 where
  aligned : off ≤ align_up off 8
  grows : off ≤ next_off s i t off
  room : needs_gather t (steps_for_value s i) ≡ true → align_up off 8 + size t ≤ next_off s i t off
  small : next_off s i t off ≤ off + size t + 8

next_off-IsBeyond :
    (s : Seq) (i : ℕ) (t : GoType) (off : ℕ) → off + size t + 16 < 2 ^ 64 → IsBeyond s i t off
next_off-IsBeyond s i t off h =
    let up = align_up_lem off 8 (inr (inr (inr refl))) (omega arith) in
    elim (Bool-cases (needs_gather t (steps_for_value s i))) [
      | inl e ↦ record {
        aligned = up.0;
        grows = rw e (omega (arith, up.0, up.1));
        room = λ x. rw e (omega (arith, up.1));
        small = rw e (omega (arith, up.1));
      }
      | inr e ↦ record {
        aligned = up.0;
        grows = rw e (omega arith);
        room = λ x. absurd (no_room e x);
        small = rw e (omega arith);
      }
    ]
  where
    no_room : {b : Bool} → b ≡ false → b ≡ true → ⊥
    no_room e x = cc

gather_total :
    (s : Seq) (i : ℕ) (ts : List GoType) (off : ℕ)
    → off + demand ts + 64 < 2 ^ 64
    → off ≤ (gather s i ts off).1
unfolding gather
gather_total s i [] off h = omega arith
gather_total s i (t ∷ ts) off h =
    let n = next_off-IsBeyond s i t off (omega arith) in
    omega (
      arith,
      n.grows,
      n.small,
      gather_total s (i + 1) ts (next_off s i t off) (omega (arith, n.small)),
    )

-- Each argument is read from its steps.
abbrev pub AreRead :
    Host → ℕ → Frame → Frame → List GoType → List (List Step) → List GoValue → Type 0
AreRead h total m m' [] gs vs = vs ≡ []
AreRead h total m m' (t ∷ ts) [] vs = ⊥
AreRead h total m m' (t ∷ ts) (g ∷ gs) [] = ⊥
AreRead h total m m' (t ∷ ts) (g ∷ gs) (v ∷ vs) =
    IsRead h t g m m' v total × AreRead h total m m' ts gs vs

AreRead-from :
    (h : Host) (total lo : ℕ) (m0 m m' : Frame) (ts : List GoType) (gs : List (List Step))
    (vs : List GoValue)
    → Grows lo m0 m
    → AreRead h total m m' ts gs vs
    → AreRead h total m0 m' ts gs vs
AreRead-from h total lo m0 m m' [] gs vs g r = r
AreRead-from h total lo m0 m m' (t ∷ ts) [] vs g r = absurd r
AreRead-from h total lo m0 m m' (t ∷ ts) (s ∷ gs) [] g r = absurd r
AreRead-from h total lo m0 m m' (t ∷ ts) (s ∷ gs) (v ∷ vs) g r =
    (IsRead-from h t s lo m0 m m' v total g r.0, AreRead-from h total lo m0 m m' ts gs vs g r.1)

gathered_slot :
    (s : Seq) (i : ℕ) (t : GoType) (ts : List GoType) (off : ℕ)
    → needs_gather t (steps_for_value s i) ≡ true
    → get_elem? (gather s i (t ∷ ts) off).0 0 ≡ some (align_up off 8)
unfolding gather
gathered_slot s i t ts off e = rw e refl

gathered_rest :
    (s : Seq) (i : ℕ) (t : GoType) (ts : List GoType) (off j : ℕ)
    → get_elem? (gather s i (t ∷ ts) off).0 (suc j)
      ≡ get_elem? (gather s (i + 1) ts (next_off s i t off)).0 j
unfolding gather
gathered_rest s i t ts off j = refl

gathered_total :
    (s : Seq) (i : ℕ) (t : GoType) (ts : List GoType) (off : ℕ)
    → (gather s i (t ∷ ts) off).1 ≡ (gather s (i + 1) ts (next_off s i t off)).1
unfolding gather
gathered_total s i t ts off = refl

args_loop_step :
    (h : Host) (l : AbiLayout) (i : ℕ) (t : GoType) (ts : List GoType) (g : List Step)
    (m m1 m' : Frame) (v : GoValue) (vs : List GoValue)
    → steps_for_value l.call (i + 1) ≡ g
    → materialize_arg h l.gather_bytes t (get_elem? l.arg_gather i) g m ≡ some (m1, v)
    → args_loop h l (i + 1) ts m1 ≡ some (m', vs)
    → args_loop h l i (t ∷ ts) m ≡ some (m', v ∷ vs)
unfolding args_loop
args_loop_step h l i t ts g m m1 m' v vs e a r = rw (args_loop, e, a, r) refl

-- The itabs of the interfaces among the arguments.
abbrev pub HaveItabs : Host → List GoType → List (List Step) → Frame → Type 0
HaveItabs h [] gs m = Unit
HaveItabs h (t ∷ ts) [] m = Unit
HaveItabs h (t ∷ ts) (g ∷ gs) m = (is_iface t ≡ true → HasItab h t g m) × HaveItabs h ts gs m

HaveItabs-later :
    (h : Host) (ts : List GoType) (gs : List (List Step)) (lo : ℕ) (m0 m : Frame)
    → Grows lo m0 m
    → HaveItabs h ts gs m0
    → HaveItabs h ts gs m
HaveItabs-later h [] gs lo m0 m g i = tt
HaveItabs-later h (t ∷ ts) [] lo m0 m g i = tt
HaveItabs-later h (t ∷ ts) (s ∷ gs) lo m0 m g i =
    ((λ is. HasItab-later h t s lo m0 m g (i.0 is)), HaveItabs-later h ts gs lo m0 m g i.1)

-- Every interface that is passed starts with nil or an itab.
abbrev pub ItabsPassed : Host → FuncType → AbiLayout → Frame → Type 0
ItabsPassed h ft l m =
    (i : ℕ) (t : GoType)
    → get_elem? ft.ins i ≡ some t
    → is_iface t ≡ true
    → HasItab h t (steps_for_value l.call (suc i)) m

itabs_of :
    (h : Host) (s : Seq) (i : ℕ) (ts : List GoType) (gs : List (List Step)) (m : Frame)
    → AreGroups s i gs
    → ((j : ℕ) (t : GoType)
        → get_elem? ts j ≡ some t
        → is_iface t ≡ true
        → HasItab h t (steps_for_value s (i + j)) m)
    → HaveItabs h ts gs m
itabs_of h s i [] gs m grp all = tt
itabs_of h s i (t ∷ ts) [] m grp all = tt
itabs_of h s i (t ∷ ts) (g ∷ gs) m grp all =
    let z : i + 0 ≡ i = omega arith in
    (
      (λ is. let here = rw (z, grp.0) at (all 0 t refl is) in here),
      itabs_of h s (i + 1) ts gs m grp.1
          (λ j u e is. let n : i + 1 + j ≡ i + suc j = omega arith in rw n (all (suc j) u e is)),
    )

args_loop-AreRead :
    (h : Host) (l : AbiLayout) (i : ℕ) (ts : List GoType) (gs : List (List Step)) (off : ℕ)
    (m : Frame)
    → All IsSane ts
    → All HasStart ts
    → Each ts gs
    → AreGroups l.call (i + 1) gs
    → All (λ st. IsInside h.arch st.kind st) (concat gs)
    → HaveItabs h ts gs m
    → ((j : ℕ) → get_elem? l.arg_gather (i + j) ≡ get_elem? (gather l.call (i + 1) ts off).0 j)
    → (gather l.call (i + 1) ts off).1 ≡ l.gather_bytes
    → off + demand ts + 64 < 2 ^ 64
    → (m' : Frame) × (vs : List GoValue) × (args_loop h l i ts m ≡ some (m', vs))
      × AreRead h l.gather_bytes m m' ts gs vs
      × Grows off m m'
unfolding args_loop
args_loop-AreRead h l i [] gs off m sane start each grp ins itabs slots total fit =
    (m, [], refl, refl, Grows-refl off m)
args_loop-AreRead h l i (t ∷ ts) [] off m sane start each grp ins itabs slots total fit =
    absurd each
args_loop-AreRead h l i (t ∷ ts) (g ∷ gs) off m sane start each grp ins itabs slots total fit =
    let n = next_off-IsBeyond l.call (i + 1) t off (omega arith) in
    let off' = next_off l.call (i + 1) t off in
    let (ins_g, ins_r) = All-split (λ st. IsInside h.arch st.kind st) g (concat gs) ins in
    let below_total : off' ≤ l.gather_bytes =
      (let e = sym (gathered_total l.call (i + 1) t ts off) ∙ total in
        omega
          (arith, n.small, e, gather_total l.call (i + 1 + 1) ts off' (omega (arith, n.small)))) in
    let z : i + 0 ≡ i = omega arith in
    let needs = λ (x : needs_gather t g ≡ true).
      (let y : needs_gather t (steps_for_value l.call (i + 1)) ≡ true = rw grp.0 x in y) in
    let arg : IsArg h l.gather_bytes (align_up off 8) off' t (get_elem? l.arg_gather i) g = record {
      sane = sane.0;
      value = each.0;
      start = start.0;
      inside = ins_g;
      slot_is = λ x. rw (← z) (slots 0 ∙ gathered_slot l.call (i + 1) t ts off (needs x));
      room = λ x. (n.room (needs x), omega (arith, n.room (needs x)));
    } in
    let (m1, v, e1, r1, g1) =
      materialize_arg-IsRead h l.gather_bytes (align_up off 8) off' t (get_elem? l.arg_gather i) g m
        arg itabs.0 in
    let g1' = Grows-trans off (align_up off 8) m m m1 n.aligned (Grows-refl off m) g1 in
    let (m', vs, e', rs, g') =
      args_loop-AreRead h l (i + 1) ts gs off' m1 sane.1 start.1 each.1 grp.1 ins_r
        (HaveItabs-later h ts gs off m m1 g1' itabs.1)
        (λ j.
          let s : i + 1 + j ≡ i + suc j = omega arith in
          rw s (slots (suc j) ∙ gathered_rest l.call (i + 1) t ts off j))
        (sym (gathered_total l.call (i + 1) t ts off) ∙ total) (omega (arith, n.small)) in
    (
      m',
      v ∷ vs,
      args_loop_step h l i t ts g m m1 m' v vs grp.0 e1 e',
      (
        IsRead-until h t g m m1 m' v off' l.gather_bytes sane.0 each.0 below_total g' r1,
        AreRead-from h l.gather_bytes off m m1 m' ts gs vs g1' rs,
      ),
      Grows-trans off off' m m1 m' n.grows g1' g',
    )

-- Argument `i` is read from the steps of parameter `i`, for every `i`.
abbrev pub ArgsRead : Host → FuncType → AbiLayout → Frame → Frame → List GoValue → Type 0
ArgsRead h ft l m m' vs =
    (i : ℕ) (t : GoType)
    → get_elem? ft.ins i ≡ some t
    → (v : GoValue) × (get_elem? vs i ≡ some v)
      × IsRead h t (steps_for_value l.call (suc i)) m m' v l.gather_bytes

IsRead-at :
    (h : Host) (s : Seq) (total : ℕ) (m m' : Frame) (i : ℕ) (ts : List GoType)
    (gs : List (List Step)) (vs : List GoValue) (j : ℕ) (t : GoType)
    → AreGroups s i gs
    → AreRead h total m m' ts gs vs
    → get_elem? ts j ≡ some t
    → (v : GoValue) × (get_elem? vs j ≡ some v)
      × IsRead h t (steps_for_value s (i + j)) m m' v total
IsRead-at h s total m m' i [] gs vs j t grp r e = cc
IsRead-at h s total m m' i (u ∷ ts) [] vs j t grp r e = absurd r
IsRead-at h s total m m' i (u ∷ ts) (g ∷ gs) [] j t grp r e = absurd r
IsRead-at h s total m m' i (u ∷ ts) (g ∷ gs) (v ∷ vs) zero t grp r e =
    let z : i + 0 ≡ i = omega arith in
    let same : t ≡ u = some_eq t u (sym e) in (v, refl, rw (z, grp.0, same) r.0)
IsRead-at h s total m m' i (u ∷ ts) (g ∷ gs) (v ∷ vs) (suc j) t grp r e =
    let n : i + suc j ≡ i + 1 + j = omega arith in
    rw n (IsRead-at h s total m m' (i + 1) ts gs vs j t grp.1 r.1 e)

gathers_of :
    (arch : Arch) (ft : FuncType) (l : AbiLayout)
    → IsMethod arch ft
    → new_abi_layout arch ft ≡ some l
    → (l.arg_gather ≡ (gather l.call 1 ft.ins 0).0)
      × ((gather l.call 1 ft.ins 0).1 ≡ l.gather_bytes)
unfolding finish_layout
gathers_of arch ft l meth e =
    let (call, ret, e0, laid) = new_abi_layout_cases arch ft meth in
    let same : finish_layout ft call ret ≡ l = some_eq _ _ (sym e0 ∙ e) in rw (← same) (refl, refl)

pub rcvr-IsSane : IsSane rcvr_type
rcvr-IsSane = (refl, refl)

area_le : (ft : FuncType) (l : AbiLayout) → AreaIsSound ft l → l.ret_offset ≤ l.stack_bytes
area_le ft l a = Apart-le l.ret_offset l.stack_bytes (slots l.ret.steps) a.results_apart

-- The steps of a method's call sequence begin with the receiver's.
args_of_segs :
    (h : Host) (ft : FuncType) (l : AbiLayout) (m : Frame) (segs : List (List Step))
    → IsMethod h.arch ft
    → demand ft.ins + demand ft.outs + 64 < 2 ^ 64
    → new_abi_layout h.arch ft ≡ some l
    → All HasStart ft.ins
    → IsSegmented (rcvr_type ∷ ft.ins) l.call segs
    → All (λ st. IsInside h.arch st.kind st) (concat segs)
    → ItabsPassed h ft l m
    → (m' : Frame) × (vs : List GoValue) × (materialize_args h l ft.ins m ≡ some (m', vs))
      × ArgsRead h ft l m m' vs
      × Grows 0 m m'
args_of_segs h ft l m [] meth fit e start cut ins itabs = absurd cut.each
args_of_segs h ft l m (r ∷ gs) meth fit e start cut ins itabs =
    let (offs, total) = gathers_of h.arch ft l meth e in
    let grp = segmented-AreGroups (rcvr_type ∷ ft.ins) l.call (r ∷ gs) cut in
    let (_, ins_args) = All-split (λ st. IsInside h.arch st.kind st) r (concat gs) ins in
    let (m', vs, done, read, grows) =
      args_loop-AreRead h l 0 ft.ins gs 0 m meth.ins_sane start cut.each.1 grp.1 ins_args
        (itabs_of h l.call 1 ft.ins gs m grp.1
          (λ j t x is. let n : 1 + j ≡ suc j = omega arith in rw n (itabs j t x is)))
        (λ j. let z : 0 + j ≡ j = omega arith in rw (z, offs) refl) total (omega arith) in
    (
      m',
      vs,
      done,
      (λ i t x.
          let n : suc i ≡ 1 + i = omega arith in
          rw n (IsRead-at h l.call l.gather_bytes m m' 1 ft.ins gs vs i t grp.1 read x)),
      grows,
    )

-- For a method with types as reflection reports them, whose values with their padding fit the address
-- space, whose stack area fits the window, and whose parameters of a size begin with their first part,
-- on a call that passes nil or an itab of the parameter's type as first word of every interface (which
-- no `any` that is not nil does): `materializeArgs` does not panic. Argument `i` is the zero value of a type of size 0, the interface
-- value of the two words passed, or a value at an address from which exactly the bytes that the steps
-- of parameter `i` passed are read, also after the later arguments are gathered; in the gather buffer it
-- lies within its size. Only the gather buffer changes.
pub materialize_args-ArgsRead :
    (h : Host) (ft : FuncType) (l : AbiLayout) (m : Frame)
    → IsMethod h.arch ft
    → demand ft.ins + demand ft.outs + 64 < 2 ^ 64
    → new_abi_layout h.arch ft ≡ some l
    → l.stack_bytes ≤ h.arch.stack_window
    → All HasStart ft.ins
    → ItabsPassed h ft l m
    → (m' : Frame) × (vs : List GoValue) × (materialize_args h l ft.ins m ≡ some (m', vs))
      × ArgsRead h ft l m m' vs
      × Grows 0 m m'
materialize_args-ArgsRead h ft l m meth fit e window start itabs =
    let w = layout-IsWhole h.arch ft l meth fit e in
    let (ins, _) =
      sequence_places h.arch (rcvr_type ∷ ft.ins) l.call w.call_segs 0 l.stack_call_args_size
        (rcvr-IsSane, meth.ins_sane) w.call_cut w.call_regs w.area.args_apart
        (omega (arith, w.area.args_end, area_le ft l w.area)) in
    args_of_segs h ft l m w.call_segs meth fit e start w.call_cut ins itabs
