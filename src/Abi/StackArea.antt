-- ===== src/Abi/StackArea.antt =====
-- The caller's stack argument area: the slots of `stackAssign` and the offsets of `newABILayout`.
use go_weave.Prelude.{
  ℕ, ◌+◌, ◌-◌, ◌%◌, ◌^◌, ◌≤◌, ◌<◌, ◌≡◌, refl, inl, inr, arith, some, List, [], ◌∷◌, ◌++◌,
  if◌then◌else◌, All,
}
use mathlib.Core.List.{append-nil}
use go_weave.Prelude.Bits.{and-mask, and-zero, has_bit}
use go_weave.Abi.Types.{
  bool, int8, uint8, int16, uint16, int32, uint32, float32, complex64, GoType, basic, array, struct,
  size, align, Arch, FuncType, u64, align_up,
}
use go_weave.Abi.Assign.{Step, Seq, int_steps, stack_assign, begin_value}
use go_weave.Abi.Layout.{AbiLayout, is_stack_step, finish_layout, new_abi_layout}
use go_weave.Abi.Sane.{IsSane, IsAlign}
use go_weave.Abi.Parts.{Part, int_part, ptr_part, float_part, place}
use go_weave.Abi.Segments.{number, steps-place}
use go_weave.Abi.Values.{
  Added, nothing, registers, stack, AddedAll, done, more, IsMethod, rcvr_seq, new_abi_layout_cases,
}

-- `alignUp` rounds up to the next multiple, where the sum does not wrap.
pub align_up_lem :
    (x a : ℕ)
    → IsAlign a
    → x + 8 < 2 ^ 64
    → (x ≤ align_up x a) × (align_up x a < x + a) × (align_up x a % a ≡ 0)
unfolding align_up
align_up_lem x a (inl e) h = rw (e, and-zero (u64 (x + 1 + (2 ^ 64 - 1)))) (omega arith)
align_up_lem x a (inr (inl e)) h = rw (e, and-mask 1 (u64 (x + 2 + (2 ^ 64 - 1)))) (omega arith)
align_up_lem x a (inr (inr (inl e))) h =
    rw (e, and-mask 2 (u64 (x + 4 + (2 ^ 64 - 1)))) (omega arith)
align_up_lem x a (inr (inr (inr e))) h =
    rw (e, and-mask 3 (u64 (x + 8 + (2 ^ 64 - 1)))) (omega arith)

IsAlign-le : (a : ℕ) → IsAlign a → a ≤ 8
IsAlign-le a h = omega arith

pub align-IsAlign : (t : GoType) → IsSane t → IsAlign (align t)
align-IsAlign (basic bool n a) h = inl h.1
align-IsAlign (basic int8 n a) h = inl h.1
align-IsAlign (basic uint8 n a) h = inl h.1
align-IsAlign (basic int16 n a) h = inr (inl h.1)
align-IsAlign (basic uint16 n a) h = inr (inl h.1)
align-IsAlign (basic int32 n a) h = inr (inr (inl h.1))
align-IsAlign (basic uint32 n a) h = inr (inr (inl h.1))
align-IsAlign (basic float32 n a) h = inr (inr (inl h.1))
align-IsAlign (basic complex64 n a) h = inr (inr (inl h.1))
align-IsAlign (basic _ n a) h = inr (inr (inr h.1))
align-IsAlign (array l e n a) h = rw h.2 (align-IsAlign e h.0)
align-IsAlign (struct fs n a) h = h.1

-- Start and size of each stack slot, in order.
abbrev pub slots : List Step → List (ℕ × ℕ)
slots [] = []
slots (st ∷ sts) = if is_stack_step st then (st.stk_off, st.size) ∷ slots sts else slots sts

-- The slots stand one behind the other between `from` and `to`.
abbrev pub Apart : ℕ → List (ℕ × ℕ) → ℕ → Type 0
Apart from [] to = from ≤ to
Apart from ((o, n) ∷ r) to = (from ≤ o) × Apart (o + n) r to

pub slots-append : (a b : List Step) → slots (a ++ b) ≡ slots a ++ slots b
slots-append [] b = refl
slots-append (st ∷ a) b = ground (arith, slots-append a b)

pub slots-number : (i f : ℕ) (ps : List Part) → slots (number i f ps) ≡ []
slots-number i f [] = refl
slots-number i f (int_part o n ∷ ps) = slots-number (i + 1) f ps
slots-number i f (ptr_part o ∷ ps) = slots-number (i + 1) f ps
slots-number i f (float_part o n ∷ ps) = slots-number i (f + 1) ps

Apart-later : (from to to' : ℕ) (l : List (ℕ × ℕ)) → Apart from l to → to ≤ to' → Apart from l to'
Apart-later from to to' [] h k = omega arith
Apart-later from to to' ((o, n) ∷ l) h k = (h.0, Apart-later (o + n) to to' l h.1 k)

Apart-append :
    (from to o n : ℕ) (l : List (ℕ × ℕ))
    → Apart from l to
    → to ≤ o
    → Apart from (l ++ (o, n) ∷ []) (o + n)
Apart-append from to o n [] h k = (omega arith, omega arith)
Apart-append from to o n ((o', n') ∷ l) h k = (h.0, Apart-append (o' + n') to o n l h.1 k)

stack_bytes-place : (ps : List Part) (s : Seq) → (place ps s).stack_bytes ≡ s.stack_bytes
unfolding place
stack_bytes-place [] s = refl
stack_bytes-place (int_part o n ∷ ps) s = stack_bytes-place ps _
stack_bytes-place (ptr_part o ∷ ps) s = stack_bytes-place ps _
stack_bytes-place (float_part o n ∷ ps) s = stack_bytes-place ps _

-- From `base` on, the slots of `s` stand apart and end where its stack area ends.
abbrev pub IsApart : ℕ → Seq → Type 0
IsApart base s = Apart base (slots s.steps) s.stack_bytes

record Grown (base : ℕ) (t : GoType) (s s' : Seq) : Type 0 where
  apart : IsApart base s'
  bound : s'.stack_bytes ≤ s.stack_bytes + size t + 8

Added-Grown :
    {arch : Arch} {t : GoType} {s s' : Seq} (base : ℕ)
    → Added arch t s s'
    → IsSane t
    → IsApart base s
    → s.stack_bytes + size t + 16 < 2 ^ 64
    → Grown base t s s'
unfolding stack_assign
Added-Grown {t = t} {s = s} base (nothing z e) sane h fit =
    let up = align_up_lem s.stack_bytes (align t) (align-IsAlign t sane) (omega arith) in
    rw e (record {
      apart = Apart-later base _ _ (slots s.steps) h up.0;
      bound = omega (arith, up.1, IsAlign-le (align t) (align-IsAlign t sane));
    })
Added-Grown {s = s} base (registers ps z f room e) sane h fit = rw e (record {
  apart =
      rw
        (
          steps-place ps (begin_value s),
          slots-append s.steps _,
          slots-number s.iregs s.fregs ps,
          append-nil,
          stack_bytes-place ps (begin_value s),
        )
        h;
  bound = rw (stack_bytes-place ps (begin_value s)) (omega arith);
})
Added-Grown {t = t} {s = s} base (stack z q e) sane h fit =
    let up = align_up_lem s.stack_bytes (align t) (align-IsAlign t sane) (omega arith) in
    let small = IsAlign-le (align t) (align-IsAlign t sane) in
    let flat : u64 (align_up s.stack_bytes (align t) + size t)
        ≡ align_up s.stack_bytes (align t) + size t =
      omega (arith, up.1) in
    rw e (record {
      apart =
          rw (flat, slots-append s.steps _)
            (Apart-append base s.stack_bytes _ _ (slots s.steps) h up.0);
      bound = omega (arith, up.1);
    })

-- Room enough for every value with its padding.
abbrev pub demand : List GoType → ℕ
demand [] = 0
demand (t ∷ ts) = size t + 8 + demand ts

AddedAll-IsApart :
    {arch : Arch} {ts : List GoType} {s s' : Seq} (base : ℕ)
    → AddedAll arch ts s s'
    → All IsSane ts
    → IsApart base s
    → s.stack_bytes + demand ts + 16 < 2 ^ 64
    → IsApart base s' × (s'.stack_bytes ≤ s.stack_bytes + demand ts)
AddedAll-IsApart base done sane h fit = (h, omega arith)
AddedAll-IsApart base (more a r) sane h fit =
    let g = Added-Grown base a sane.0 h (omega arith) in
    let rest = AddedAll-IsApart base r sane.1 g.apart (omega (arith, g.bound)) in
    (rest.0, omega (arith, g.bound, rest.1))

-- What the layout says of the caller's argument area.
pub record AreaIsSound (ft : FuncType) (l : AbiLayout) : Type 0 where
  pub args_apart : Apart 0 (slots l.call.steps) l.stack_call_args_size
  pub args_end : l.stack_call_args_size ≤ l.ret_offset
  pub results_apart : Apart l.ret_offset (slots l.ret.steps) l.stack_bytes
  pub aligned : (l.ret_offset % 8 ≡ 0) × (l.stack_bytes % 8 ≡ 0)
  pub bounded : l.stack_bytes ≤ demand ft.ins + demand ft.outs + 14

-- For a method with types as reflection reports them, whose values with their padding fit the address
-- space, the stack-assigned arguments stand one behind the other from 0 to `stackCallArgsSize`, and
-- the stack-assigned results from `retOffset`, behind the arguments, to `stackBytes`: no two slots
-- overlap. `retOffset` and `stackBytes` are multiples of 8.
pub layout_area :
    (arch : Arch) (ft : FuncType)
    → IsMethod arch ft
    → demand ft.ins + demand ft.outs + 64 < 2 ^ 64
    → (l : AbiLayout) × (new_abi_layout arch ft ≡ some l) × AreaIsSound ft l
unfolding finish_layout rcvr_seq int_steps has_bit
layout_area arch ft m fit =
    let (call, ret, e, laid) = new_abi_layout_cases arch ft m in
    let args = AddedAll-IsApart 0 laid.args_added m.ins_sane (omega arith) (omega arith) in
    let up = align_up_lem call.stack_bytes 8 (inr (inr (inr refl))) (omega (arith, args.1)) in
    let results =
      AddedAll-IsApart (align_up call.stack_bytes 8) laid.results_added m.outs_sane (omega arith)
        (omega (arith, args.1, up.1)) in
    let last =
      align_up_lem ret.stack_bytes 8 (inr (inr (inr refl)))
        (omega (arith, args.1, up.1, results.1)) in
    (
      finish_layout ft call ret,
      e,
      record {
        args_apart = args.0;
        args_end = up.0;
        results_apart = Apart-later _ _ _ (slots ret.steps) results.0 last.0;
        aligned = (up.2, last.2);
        bounded = omega (arith, args.1, up.1, results.1, last.1);
      },
    )
