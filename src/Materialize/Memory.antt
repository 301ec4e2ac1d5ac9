-- ===== src/Materialize/Memory.antt =====
-- The memory of one call: `regBuf` and `callState` of materialize.go with the gather buffer of
-- `materializeArgs`, `stepAddr`, `add`, `memcpy`, `writeWord` and `mirrorStepPtr`.
-- Each area is a function from offsets to bytes. `none` is a panic.
use go_weave.Prelude.{
  ℕ, zero, suc, ◌+◌, ◌-◌, ◌*◌, ◌/◌, ◌%◌, Bool, true, false, ◌&&◌, ◌||◌, Option, none, some, ltb,
  leb, ◌==◌, if◌then◌else◌,
}
use go_weave.Abi.Types.{Arch, ptr_size}
use go_weave.Abi.Assign.{StepKind, step_stack, step_int_reg, step_pointer, step_float_reg, Step}

-- `regs.ints`, `regs.floats`, `stackBuf` and the buffer that arguments are gathered in.
pub data Area : Type 0 where
  int_file float_file stack_copy gather_buf : Area

pub record Addr : Type 0 where
  pub area : Area
  pub off : ℕ

-- The mirrors hold words; register `i` stands at byte `8 * i` of its file.
pub record Frame : Type 0 where
  pub bytes : Area → ℕ → ℕ
  pub ptrs : ℕ → ℕ
  pub stack_ptrs : ℕ → ℕ

abbrev pub same_area : Area → Area → Bool
same_area int_file int_file = true
same_area float_file float_file = true
same_area stack_copy stack_copy = true
same_area gather_buf gather_buf = true
same_area a b = false

-- `add(p, off)`; an area lies inside the address space, so the sum does not wrap.
abbrev pub offset_by : Addr → ℕ → Addr
offset_by p n = record p { off = p.off + n }

-- The bytes from an address on.
abbrev pub view : Addr → Frame → ℕ → ℕ
view p m k = m.bytes p.area (p.off + k)

-- The `n` bytes at an address become those of `f`.
unfoldable pub put_bytes : Addr → ℕ → (ℕ → ℕ) → Frame → Frame
put_bytes p n f m = record m {
  bytes = λ a k.
      if same_area p.area a && (leb p.off k && ltb k (p.off + n))
      then f (k - p.off)
      else m.bytes a k;
}

-- `copy` reads its source before it writes.
abbrev pub memcpy : Addr → Addr → ℕ → Frame → Frame
memcpy dst src n m = put_bytes dst n (view src m) m

-- The index of a register array is checked by the language.
abbrev pub reg_at : ℕ → ℕ → Area → Option Addr
reg_at i n a = if ltb i n then some (record { area = a; off = 8 * i }) else none

abbrev pub kind_addr : Arch → Step → StepKind → Option Addr
kind_addr arch st step_stack = some (record { area = stack_copy; off = st.stk_off })
kind_addr arch st step_int_reg = reg_at st.ireg arch.int_arg_regs int_file
kind_addr arch st step_pointer = reg_at st.ireg arch.int_arg_regs int_file
kind_addr arch st step_float_reg = reg_at st.freg arch.float_arg_regs float_file

unfoldable pub step_addr : Arch → Step → Option Addr
step_addr arch st = kind_addr arch st st.kind

-- A little-endian number of `n` bytes, and the bytes of a number.
unfoldable pub le_num : ℕ → (ℕ → ℕ) → ℕ
le_num zero f = 0
le_num (suc n) f = f 0 + 256 * le_num n (λ k. f (k + 1))

unfoldable pub byte_of : ℕ → ℕ → ℕ
byte_of x zero = x % 256
byte_of x (suc k) = byte_of (x / 256) k

-- `*(*unsafe.Pointer)(p)`.
abbrev pub word_at : Addr → Frame → ℕ
word_at p m = le_num 8 (view p m)

abbrev pub is_word_size : ℕ → Bool
is_word_size n = n == 8 || (n == 4 || (n == 2 || n == 1))

unfoldable pub write_word : Addr → ℕ → ℕ → Frame → Option Frame
write_word dst x n m = if is_word_size n then some (put_bytes dst n (byte_of x) m) else none

abbrev pub and_then : {A B : Type 0} → Option A → (A → Option B) → Option B
and_then none f = none
and_then (some a) f = f a

abbrev pub set_word : (ℕ → ℕ) → ℕ → ℕ → ℕ → ℕ
set_word f i w j = if i == j then w else f j

-- `regs.ptrs[i] = w` and `regs.stackPtrs[i] = w`.
unfoldable pub set_ptr : Arch → ℕ → ℕ → Frame → Option Frame
set_ptr arch i w m =
    if ltb i arch.int_arg_regs then some (record m { ptrs = set_word m.ptrs i w }) else none

unfoldable pub set_stack_ptr : Arch → ℕ → ℕ → Frame → Option Frame
set_stack_ptr arch i w m =
    if ltb i (arch.stack_window / 8)
    then some (record m { stack_ptrs = set_word m.stack_ptrs i w })
    else none

abbrev pub mirror_kind : Arch → Step → ℕ → Frame → StepKind → Option Frame
mirror_kind arch st w m step_pointer = set_ptr arch st.ireg w m
mirror_kind arch st w m step_stack = set_stack_ptr arch (st.stk_off / ptr_size) w m
mirror_kind arch st w m _ = some m

unfoldable pub mirror_step_ptr : Arch → Step → Frame → Option Frame
mirror_step_ptr arch st m =
    and_then (step_addr arch st) (λ p. mirror_kind arch st (word_at p m) m st.kind)
