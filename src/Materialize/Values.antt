-- ===== src/Materialize/Values.antt =====
-- What materialize.go uses of `reflect.Value`: its kind, its bytes, and the accessors with the panics
-- that their documentation states.
use go_weave.Prelude.{ℕ, ◌+◌, ◌-◌, ◌*◌, ◌^◌, Bool, Option, none, some, ltb, ◌==◌, if◌then◌else◌}
use go_weave.Abi.Types.{
  Kind, bool, int, int8, int16, int32, int64, float32, float64, complex64, complex128, chan, func,
  go_map, pointer, unsafe_pointer, interface, slice, string, GoType, basic, array, struct, size,
  Arch,
}
use go_weave.Materialize.Memory.{Addr, Frame, view, le_num}

-- `held` has storage of its own, `located` is `reflect.NewAt(t, p).Elem()`, and `dynamic` is an
-- interface value with its dynamic type and data words.
pub data GoValue : Type 0 where
  invalid : GoValue
  held : GoType → (ℕ → ℕ) → GoValue
  located : GoType → Addr → GoValue
  dynamic : GoType → ℕ → ℕ → GoValue

-- What is read outside the frame. `itab_type` is the word that the field `Type` of an itab at an address
-- names, and `can_set` says that `Set` takes an `any` of the type at an address into a variable of an
-- interface type: it panics on nil, and on a type that does not implement the interface. `box` is the
-- two words of an interface variable after `Set`, `code_of` the code pointer of a closure, `widen` and
-- `narrow` the conversions between `float32` and `float64` on bit patterns, and `assignable` is
-- `AssignableTo`.
pub record Host : Type 0 where
  pub arch : Arch
  pub itab_type : ℕ → ℕ
  pub can_set : GoType → ℕ → Bool
  pub box : GoType → GoValue → ℕ × ℕ
  pub code_of : ℕ → ℕ
  pub widen : ℕ → ℕ
  pub narrow : ℕ → ℕ
  pub assignable : GoType → GoType → Bool

-- `t.Kind()`; arrays and structs have no kind of the list.
abbrev pub kind_of : GoType → Option Kind
kind_of (basic k n a) = some k
kind_of (array l e n a) = none
kind_of (struct fs n a) = none

abbrev pub type_of : GoValue → Option GoType
type_of invalid = none
type_of (held t f) = some t
type_of (located t p) = some t
type_of (dynamic t typ word) = some t

-- The memory of a value, as it is now.
abbrev pub bytes_of : Frame → GoValue → ℕ → ℕ
bytes_of m (held t f) = f
bytes_of m (located t p) = view p m
bytes_of m _ = λ k. 0

-- `uintptr(v.Int())`: the value of `n` bytes, sign-extended.
abbrev pub sign_extend : ℕ → ℕ → ℕ
sign_extend n x = if ltb x (2 ^ (8 * n - 1)) then x else x + (2 ^ 64 - 2 ^ (8 * n))

-- `v.Pointer()`: of a func it is the code pointer; it panics on the unsigned kinds.
abbrev pub pointer_of : Host → Kind → (ℕ → ℕ) → Option ℕ
pointer_of h chan f = some (le_num 8 f)
pointer_of h go_map f = some (le_num 8 f)
pointer_of h pointer f = some (le_num 8 f)
pointer_of h unsafe_pointer f = some (le_num 8 f)
pointer_of h slice f = some (le_num 8 f)
pointer_of h string f = some (le_num 8 f)
pointer_of h func f = let w = le_num 8 f in some (if w == 0 then 0 else h.code_of w)
pointer_of h _ f = none

-- `v.Float()` as a bit pattern.
abbrev pub float_of : Host → Option Kind → (ℕ → ℕ) → Option ℕ
float_of h (some float64) f = some (le_num 8 f)
float_of h (some float32) f = some (h.widen (le_num 4 f))
float_of h _ f = none

-- `v.Complex()`, real and imaginary part as bit patterns.
abbrev pub complex_of : Host → Kind → (ℕ → ℕ) → Option (ℕ × ℕ)
complex_of h complex128 f = some (le_num 8 f, le_num 8 (λ k. f (k + 8)))
complex_of h complex64 f = some (h.widen (le_num 4 f), h.widen (le_num 4 (λ k. f (k + 4))))
complex_of h _ f = none

-- The number that `writeScalar` computes, by the kind of the value; `n` is the value's size.
unfoldable pub scalar_of : Host → Option Kind → ℕ → (ℕ → ℕ) → Option ℕ
scalar_of h none n f = none
scalar_of h (some bool) n f = some (if f 0 == 0 then 0 else 1)
scalar_of h (some int) n f = some (sign_extend n (le_num n f))
scalar_of h (some int8) n f = some (sign_extend n (le_num n f))
scalar_of h (some int16) n f = some (sign_extend n (le_num n f))
scalar_of h (some int32) n f = some (sign_extend n (le_num n f))
scalar_of h (some int64) n f = some (sign_extend n (le_num n f))
scalar_of h (some float32) n f = none
scalar_of h (some float64) n f = none
scalar_of h (some complex64) n f = none
scalar_of h (some complex128) n f = none
scalar_of h (some string) n f = none
scalar_of h (some interface) n f = none
scalar_of h (some slice) n f = none
scalar_of h (some k) n f = pointer_of h k f

abbrev pub kind_of_value : Option GoType → Option Kind
kind_of_value none = none
kind_of_value (some t) = kind_of t

abbrev pub size_of_value : Option GoType → ℕ
size_of_value none = 0
size_of_value (some t) = size t
