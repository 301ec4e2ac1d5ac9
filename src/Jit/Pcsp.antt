-- ===== src/Jit/Pcsp.antt =====
-- `encodePCSP` of jit.go: the table of stack-pointer deltas of a generated trampoline.
mod Varint
mod Zigzag
pub mod RoundTrip
use go_weave.Prelude.{
  ℕ, zero, suc, ◌+◌, ◌-◌, ◌*◌, ◌/◌, ◌%◌, ◌^◌, List, [], ◌∷◌, ◌++◌, Bool, true, false, ltb,
  if◌then◌else◌, bit_or, bit_xor,
}

-- `int32` values are their bit patterns, below 2 ^ 32.
pub record PcspEntry : Type 0 where
  pub pc : ℕ
  pub spdelta : ℕ

abbrev pub u32 : ℕ → ℕ
u32 n = n % 2 ^ 32

-- `a - b` on `int32` and `uint32`.
abbrev pub sub_u32 : ℕ → ℕ → ℕ
sub_u32 a b = u32 (u32 a + 2 ^ 32 - u32 b)

-- `uint32(n<<1 ^ n>>31)`; `>>` on `int32` copies the sign.
unfoldable pub zig_zag : ℕ → ℕ
zig_zag n = bit_xor (u32 (n * 2)) (if ltb n (2 ^ 31) then 0 else 2 ^ 32 - 1)

-- `for uv >= 0x80 { … }` and the last byte. A `uint32` has at most five groups of seven bits; with no
-- fuel the loop stops.
unfoldable pub put_varint : ℕ → ℕ → List ℕ
put_varint zero v = []
put_varint (suc fuel) v = elim (ltb v 0x80) [
  | true ↦ v % 256 ∷ []
  | false ↦ bit_or (v % 256) 0x80 ∷ put_varint fuel (v / 2 ^ 7)
]

abbrev pub varint_fuel : ℕ
varint_fuel = 5

-- The loop, from the values that the entry before left in `val` and `pc`.
unfoldable pub encode_entries : ℕ → ℕ → List PcspEntry → List ℕ
encode_entries val pc [] = 0 ∷ []
encode_entries val pc (e ∷ es) =
    put_varint varint_fuel (zig_zag (sub_u32 e.spdelta val))
    ++ (put_varint varint_fuel (sub_u32 e.pc pc) ++ encode_entries e.spdelta e.pc es)

-- `val` starts at -1.
unfoldable pub encode_pcsp : List PcspEntry → List ℕ
encode_pcsp entries = encode_entries (2 ^ 32 - 1) 0 entries
