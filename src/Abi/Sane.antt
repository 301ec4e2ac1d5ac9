-- ===== src/Abi/Sane.antt =====
-- What reflection promises of a type on a 64-bit platform: the sizes and alignments of Go's types, and
-- fields that stand in order, aligned, apart and inside their struct.
use go_weave.Prelude.{ℕ, ◌+◌, ◌*◌, ◌%◌, ◌^◌, ◌≤◌, ◌<◌, ◌≡◌, ◌⊎◌}
use go_weave.Abi.Types.{
  Kind, bool, int8, int16, int32, uint8, uint16, uint32, float32, complex64, complex128, string,
  interface, slice, GoType, basic, array, struct, Fields, no_fields, field, size, align,
}

abbrev pub kind_size : Kind → ℕ
kind_size bool = 1
kind_size int8 = 1
kind_size uint8 = 1
kind_size int16 = 2
kind_size uint16 = 2
kind_size int32 = 4
kind_size uint32 = 4
kind_size float32 = 4
kind_size complex128 = 16
kind_size string = 16
kind_size interface = 16
kind_size slice = 24
kind_size _ = 8

abbrev pub kind_align : Kind → ℕ
kind_align bool = 1
kind_align int8 = 1
kind_align uint8 = 1
kind_align int16 = 2
kind_align uint16 = 2
kind_align int32 = 4
kind_align uint32 = 4
kind_align float32 = 4
kind_align complex64 = 4
kind_align _ = 8

abbrev pub IsAlign : ℕ → Type 0
IsAlign a = (a ≡ 1) ⊎ (a ≡ 2) ⊎ (a ≡ 4) ⊎ (a ≡ 8)

abbrev mutual
  pub IsSane : GoType → Type 0
  IsSane (basic k n a) = (n ≡ kind_size k) × (a ≡ kind_align k)
  IsSane (array l e n a) = IsSane e × (n ≡ l * size e) × (a ≡ align e) × (n < 2 ^ 63)
  IsSane (struct fs n a) = AreSane fs 0 n a × IsAlign a × (n < 2 ^ 63)

  -- `from` is where the field before ends; `n` and `a` are the struct's.
  pub AreSane : Fields → ℕ → ℕ → ℕ → Type 0
  AreSane no_fields from n a = from ≤ n
  AreSane (field o t fs) from n a =
      IsSane t
      × (from ≤ o)
      × (o + size t ≤ n)
      × (o % align t ≡ 0)
      × (align t ≤ a)
      × AreSane fs (o + size t) n a
