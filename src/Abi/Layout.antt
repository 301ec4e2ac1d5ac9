-- ===== src/Abi/Layout.antt =====
-- `abiLayout`: `newABILayout`, `ptrOffsets` and `shape` of abi.go, with `stubShape` of precise.go.
use go_weave.Prelude.{
  ℕ, zero, suc, ◌+◌, ◌-◌, ◌*◌, ◌/◌, ◌^◌, Bool, true, false, not, ◌&&◌, ◌||◌, bit_or, Option, none,
  some, List, [], ◌∷◌, ◌++◌, ltb, ◌==◌, if◌then◌else◌, length,
}
use go_weave.Prelude.Bits.{one_shl}
use go_weave.Abi.Types.{
  Kind, chan, func, go_map, pointer, unsafe_pointer, string, interface, slice, GoType, basic, array,
  struct, Fields, no_fields, field, size, FuncType, Arch, ptr_size, u64, align_up,
}
use go_weave.Abi.Assign.{
  step_stack, step_pointer, Step, Seq, empty_seq, steps_for_value, add_rcvr, add_args,
}

-- The loop of `ptrOffsets` over the elements of an array, from element `i` with `n` left.
abbrev pub each_element : ℕ → ℕ → (ℕ → List ℕ) → List ℕ
each_element i zero f = []
each_element i (suc n) f = f i ++ each_element (i + 1) n f

unfoldable pub ptr_offsets_basic : Kind → ℕ → List ℕ
ptr_offsets_basic pointer off = off ∷ []
ptr_offsets_basic chan off = off ∷ []
ptr_offsets_basic go_map off = off ∷ []
ptr_offsets_basic func off = off ∷ []
ptr_offsets_basic unsafe_pointer off = off ∷ []
ptr_offsets_basic string off = off ∷ []
ptr_offsets_basic interface off = off ∷ u64 (off + ptr_size) ∷ []
ptr_offsets_basic slice off = off ∷ []
ptr_offsets_basic _ off = []

-- What the call appends to `*out`.
unfoldable mutual
  unfolding ptr_offsets_basic

  pub ptr_offsets : GoType → ℕ → List ℕ
  ptr_offsets (basic k n a) off = ptr_offsets_basic k off
  ptr_offsets (array l e n a) off =
      each_element 0 l (λ i. ptr_offsets e (u64 (off + u64 (i * size e))))
  ptr_offsets (struct fs n a) off = ptr_offsets_fields fs off

  pub ptr_offsets_fields : Fields → ℕ → List ℕ
  ptr_offsets_fields no_fields off = []
  ptr_offsets_fields (field o t fs) off = ptr_offsets t (u64 (off + o)) ++ ptr_offsets_fields fs off

pub record AbiLayout : Type 0 where
  pub call : Seq
  pub ret : Seq
  pub stack_call_args_size : ℕ
  pub ret_offset : ℕ
  pub stack_bytes : ℕ
  pub arg_gather : List ℕ
  pub gather_bytes : ℕ
  pub stack_ptr_offs : List ℕ
  pub ret_stack_ptr_offs : List ℕ
  pub ptr_mask : ℕ

abbrev pub is_pointer_step : Step → Bool
is_pointer_step st = elim (st.kind) [ step_pointer ↦ true | _ ↦ false ]

abbrev pub is_stack_step : Step → Bool
is_stack_step st = elim (st.kind) [ step_stack ↦ true | _ ↦ false ]

-- `for _, st := range l.call.steps { if st.kind == stepPointer { l.ptrMask |= 1 << … } }`.
unfoldable pub ptr_mask_of : List Step → ℕ → ℕ
ptr_mask_of [] m = m
ptr_mask_of (st ∷ sts) m =
    ptr_mask_of sts (if is_pointer_step st then bit_or m (one_shl 32 st.ireg) else m)

-- What one value adds to the pointer words of the stack area.
abbrev pub stack_ptrs_of_value : GoType → List Step → List ℕ
stack_ptrs_of_value t (st ∷ []) = if is_stack_step st then ptr_offsets t st.stk_off else []
stack_ptrs_of_value t _ = []

-- The loops over the parameters and over the results; `i` is the number of the value.
unfoldable pub stack_ptrs : Seq → ℕ → List GoType → List ℕ
stack_ptrs s i [] = []
stack_ptrs s i (t ∷ ts) = stack_ptrs_of_value t (steps_for_value s i) ++ stack_ptrs s (i + 1) ts

-- `^uintptr(0)`: the value needs no assembly.
abbrev pub no_gather : ℕ
no_gather = 2 ^ 64 - 1

abbrev pub needs_gather : GoType → List Step → Bool
needs_gather t steps = ltb 1 (length steps) && ltb 0 (size t)

-- The loop that lays out the gather buffer: the offsets and the final `off`.
unfoldable pub gather : Seq → ℕ → List GoType → ℕ → List ℕ × ℕ
gather s i [] off = ([], off)
gather s i (t ∷ ts) off =
    let here = needs_gather t (steps_for_value s i) in
    let at = align_up off ptr_size in
    let (offs, total) = gather s (i + 1) ts (if here then u64 (at + size t) else off) in
    ((if here then at else no_gather) ∷ offs, total)

-- The rest of `newABILayout`, once both sequences are assigned.
unfoldable pub finish_layout : FuncType → Seq → Seq → AbiLayout
finish_layout ft call ret =
    let (offs, total) = gather call 1 ft.ins 0 in
    record {
      call = call;
      ret = ret;
      stack_call_args_size = call.stack_bytes;
      ret_offset = align_up call.stack_bytes ptr_size;
      stack_bytes = align_up ret.stack_bytes ptr_size;
      arg_gather = offs;
      gather_bytes = total;
      stack_ptr_offs = stack_ptrs call 1 ft.ins;
      ret_stack_ptr_offs = stack_ptrs ret 0 ft.outs;
      ptr_mask = ptr_mask_of call.steps 0;
    }

-- Results start at `retOffset`, behind the arguments.
abbrev pub ret_start : Seq → Seq
ret_start call = record empty_seq { stack_bytes = align_up call.stack_bytes ptr_size }

-- `none` is a panic.
unfoldable pub new_abi_layout : Arch → FuncType → Option AbiLayout
new_abi_layout arch ft = elim (add_rcvr arch empty_seq) [
  | none ↦ none
  | some rcvr ↦ elim (add_args arch ft.ins rcvr) [
    | none ↦ none
    | some call ↦ elim (add_args arch ft.outs (ret_start call)) [
      | none ↦ none
      | some ret ↦ some (finish_layout ft call ret)
    ]
  ]
]

unfoldable pub stack_pointers : AbiLayout → Bool
stack_pointers l = not (length l.stack_ptr_offs == 0) || not (length l.ret_stack_ptr_offs == 0)

pub record StubShape : Type 0 where
  pub index : ℕ
  pub arg_words : ℕ
  pub ret_words : ℕ
  pub arg_ptrs : ℕ
  pub ret_ptrs : ℕ

abbrev pub stub_max_words : ℕ
stub_max_words = 64

-- `a - b` on `uintptr`.
abbrev pub sub_u64 : ℕ → ℕ → ℕ
sub_u64 a b = u64 (a + 2 ^ 64 - b)

-- `sh.argPtrs |= 1 << ((off - base) / ptrSize)` for each offset.
unfoldable pub mark_words : ℕ → List ℕ → ℕ → ℕ
mark_words base [] m = m
mark_words base (off ∷ offs) m =
    mark_words base offs (bit_or m (one_shl 64 (sub_u64 off base / ptr_size)))

-- `none` is a panic.
unfoldable pub shape : AbiLayout → ℕ → Option StubShape
shape l idx =
    let arg_words = l.ret_offset / ptr_size in
    let ret_words = sub_u64 l.stack_bytes l.ret_offset / ptr_size in
    if ltb stub_max_words arg_words || ltb stub_max_words ret_words
    then none
    else some (record {
      index = idx;
      arg_words = arg_words;
      ret_words = ret_words;
      arg_ptrs = mark_words 0 l.stack_ptr_offs 0;
      ret_ptrs = mark_words l.ret_offset l.ret_stack_ptr_offs 0;
    })
