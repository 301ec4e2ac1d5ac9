-- ===== src/Abi/Types.antt =====
-- What abi.go reads of a `reflect.Type`, and the constants of abi_amd64.go and abi_arm64.go.
use go_weave.Prelude.{ℕ, ◌-◌, ◌+◌, ◌%◌, ◌^◌, List}
use go_weave.Prelude.Bits.{and_not}

-- The kinds of `reflect` whose values have no parts that the assignment descends into.
pub data Kind : Type 0 where
  bool int int8 int16 int32 int64 : Kind
  uint uint8 uint16 uint32 uint64 uintptr : Kind
  float32 float64 complex64 complex128 : Kind
  chan func go_map pointer unsafe_pointer : Kind
  string interface slice : Kind

-- A type with the numbers that reflection reports of it: size and alignment of a type, length of an
-- array, offset of a field.
mutual
  pub data GoType : Type 0 where
    basic : Kind → ℕ → ℕ → GoType
    array : ℕ → GoType → ℕ → ℕ → GoType
    struct : Fields → ℕ → ℕ → GoType

  pub data Fields : Type 0 where
    no_fields : Fields
    field : ℕ → GoType → Fields → Fields

-- `t.Size()`.
abbrev pub size : GoType → ℕ
size (basic k n a) = n
size (array l e n a) = n
size (struct fs n a) = n

-- `t.Align()`.
abbrev pub align : GoType → ℕ
align (basic k n a) = a
align (array l e n a) = a
align (struct fs n a) = a

-- A method's func type, receiver excluded.
pub record FuncType : Type 0 where
  pub ins : List GoType
  pub outs : List GoType

-- The constants that differ between the architectures.
pub record Arch : Type 0 where
  pub int_arg_regs : ℕ
  pub float_arg_regs : ℕ
  pub float_reg_size : ℕ
  pub stack_window : ℕ

abbrev pub amd64 : Arch
amd64 = record { int_arg_regs = 9; float_arg_regs = 15; float_reg_size = 8; stack_window = 480 }

abbrev pub arm64 : Arch
arm64 = record { int_arg_regs = 16; float_arg_regs = 16; float_reg_size = 8; stack_window = 480 }

-- `ptrSize` on both.
abbrev pub ptr_size : ℕ
ptr_size = 8

-- Arithmetic on `uintptr` wraps.
abbrev pub u64 : ℕ → ℕ
u64 n = n % 2 ^ 64

-- `(x + a - 1) &^ (a - 1)`; adding `2 ^ 64 - 1` subtracts 1.
unfoldable pub align_up : ℕ → ℕ → ℕ
align_up x a = and_not (u64 (x + a + (2 ^ 64 - 1))) (u64 (a + (2 ^ 64 - 1)))
