-- ===== src/Abi/Values.antt =====
-- What `addArg` and the loops of `newABILayout` do with one value.
use go_weave.Prelude.{
  ◌≤◌, ◌<◌, ◌≡◌, refl, ◌∙◌, ◌⊎◌, inl, inr, ◌≢◌, arith, true, Option, none, some, List, [], ◌∷◌,
  ◌==◌, Bool-cases, All,
}
use go_weave.Abi.Types.{GoType, size, align, Arch, FuncType, align_up, ptr_size}
use go_weave.Abi.Assign.{
  Seq, empty_seq, fits, no_room, assign_int_n, int_steps, stack_assign, begin_value, add_rcvr,
  add_arg, add_args,
}
use go_weave.Abi.Layout.{ret_start, finish_layout, new_abi_layout}
use go_weave.Abi.Sane.{IsSane}
use go_weave.Abi.Parts.{Part, flatten, place, has_room, assign_parts, InFile}
use go_weave.Abi.Equivalence.{place-InFile, reg_assign-assign_parts}

-- The three ways in which one more value extends a sequence.
pub data Added (arch : Arch) (t : GoType) (s s' : Seq) : Type 0 where
  nothing :
      size t ≡ 0
      → s' ≡ record (begin_value s) { stack_bytes = align_up s.stack_bytes (align t) }
      → Added arch t s s'
  registers :
      (ps : List Part)
      → size t ≢ 0
      → flatten t 0 ≡ some ps
      → has_room arch ps (begin_value s) ≡ true
      → s' ≡ place ps (begin_value s)
      → Added arch t s s'
  stack :
      size t ≢ 0
      → assign_parts arch (flatten t 0) (begin_value s) ≡ no_room
      → s' ≡ stack_assign (size t) (align t) (begin_value s)
      → Added arch t s s'

assign_parts_cases :
    (arch : Arch) (p : Option (List Part)) (s : Seq)
    → (assign_parts arch p s ≡ no_room)
      ⊎ ((ps : List Part) × (p ≡ some ps)
          × (has_room arch ps s ≡ true)
          × (assign_parts arch p s ≡ fits (place ps s)))
unfolding assign_parts
assign_parts_cases arch none s = inl refl
assign_parts_cases arch (some ps) s = elim (Bool-cases (has_room arch ps s)) [
  | inl e ↦ inr (ps, refl, e, rw e)
  | inr e ↦ inl (rw e)
]

begin-InFile : (arch : Arch) (s : Seq) → InFile arch s → InFile arch (begin_value s)
begin-InFile arch s r = omega arith

pub add_arg_cases :
    (arch : Arch) (t : GoType) (s : Seq)
    → IsSane t
    → InFile arch s
    → (s' : Seq) × (add_arg arch t s ≡ some s') × Added arch t s s'
unfolding add_arg
add_arg_cases arch t s sane r = elim (Bool-cases (size t == 0)) [
  | inl e ↦ (_, rw e refl, nothing (ground arith) refl)
  | inr e ↦
      let same = reg_assign-assign_parts arch t 0 (begin_value s) sane (begin-InFile arch s r) in
      elim (assign_parts_cases arch (flatten t 0) (begin_value s)) [
        | inl q ↦ (_, rw (e, same ∙ q) refl, stack (ground arith) q refl)
        | inr (ps, f, room, q) ↦ (_, rw (e, same ∙ q) refl, registers ps (ground arith) f room refl)
      ]
]

pub Added-InFile :
    {arch : Arch} {t : GoType} {s s' : Seq} → Added arch t s s' → InFile arch s → InFile arch s'
unfolding stack_assign
Added-InFile (nothing z e) r =
    rw e (record { ints_exist = r.ints_exist; floats_exist = r.floats_exist; wide = r.wide })
Added-InFile {arch} {s = s} (registers ps z f room e) r =
    rw e (place-InFile arch ps (begin_value s) (begin-InFile arch s r) room)
Added-InFile (stack z q e) r =
    rw e (record { ints_exist = r.ints_exist; floats_exist = r.floats_exist; wide = r.wide })

-- The values of a list, added one after another.
pub data AddedAll (arch : Arch) : List GoType → Seq → Seq → Type 0 where
  done : {s : Seq} → AddedAll arch [] s s
  more :
      {t : GoType} {ts : List GoType} {s s' s'' : Seq}
      → Added arch t s s'
      → AddedAll arch ts s' s''
      → AddedAll arch (t ∷ ts) s s''

pub add_args_cases :
    (arch : Arch) (ts : List GoType) (s : Seq)
    → All IsSane ts
    → InFile arch s
    → (s' : Seq) × (add_args arch ts s ≡ some s') × AddedAll arch ts s s'
unfolding add_args
add_args_cases arch [] s sane r = (s, refl, done)
add_args_cases arch (t ∷ ts) s sane r =
    let (s', e, added) = add_arg_cases arch t s sane.0 r in
    let (s'', e', rest) = add_args_cases arch ts s' sane.1 (Added-InFile added r) in
    (s'', rw (e, add_args) e', more added rest)

-- The receiver: with an integer register it goes to the first one.
unfoldable pub rcvr_seq : Seq
rcvr_seq = int_steps 0 ptr_size 1 0 1 (begin_value empty_seq)

pub add_rcvr_eq : (arch : Arch) → 0 < arch.int_arg_regs → add_rcvr arch empty_seq ≡ some rcvr_seq
unfolding add_rcvr assign_int_n rcvr_seq
add_rcvr_eq arch h = ground arith

-- The conditions on the architecture and on the method: a receiver register, float registers of 8
-- bytes, and types as reflection reports them.
pub record IsMethod (arch : Arch) (ft : FuncType) : Type 0 where
  pub has_reg : 0 < arch.int_arg_regs
  pub wide : 8 ≤ arch.float_reg_size
  pub ins_sane : All IsSane ft.ins
  pub outs_sane : All IsSane ft.outs

-- How the two sequences of a layout came about.
pub record IsLaidOut (arch : Arch) (ft : FuncType) (call ret : Seq) : Type 0 where
  pub args_added : AddedAll arch ft.ins rcvr_seq call
  pub results_added : AddedAll arch ft.outs (ret_start call) ret

rcvr-InFile : (arch : Arch) (ft : FuncType) → IsMethod arch ft → InFile arch rcvr_seq
unfolding rcvr_seq int_steps
rcvr-InFile arch ft m = record { ints_exist = m.has_reg; floats_exist = omega arith; wide = m.wide }

layout_of_parts :
    (arch : Arch) (ft : FuncType) (rcvr call ret : Seq)
    → add_rcvr arch empty_seq ≡ some rcvr
    → add_args arch ft.ins rcvr ≡ some call
    → add_args arch ft.outs (ret_start call) ≡ some ret
    → new_abi_layout arch ft ≡ some (finish_layout ft call ret)
unfolding new_abi_layout
layout_of_parts arch ft rcvr call ret r a o = ground arith

pub new_abi_layout_cases :
    (arch : Arch) (ft : FuncType)
    → IsMethod arch ft
    → (call ret : Seq) × (new_abi_layout arch ft ≡ some (finish_layout ft call ret))
      × IsLaidOut arch ft call ret
new_abi_layout_cases arch ft m =
    let (call, e, args) = add_args_cases arch ft.ins rcvr_seq m.ins_sane (rcvr-InFile arch ft m) in
    let (ret, e', results) =
      add_args_cases arch ft.outs (ret_start call) m.outs_sane
        (record { ints_exist = omega arith; floats_exist = omega arith; wide = m.wide }) in
    (
      call,
      ret,
      layout_of_parts arch ft rcvr_seq call ret (add_rcvr_eq arch m.has_reg) e e',
      record { args_added = args; results_added = results },
    )
