-- ===== src/Jit/Pcsp/Varint.antt =====
-- The groups of seven bits that `encodePCSP` writes, and how the runtime reads them back.
use go_weave.Prelude.{
  ℕ, zero, suc, ◌+◌, ◌*◌, ◌/◌, ◌%◌, ◌^◌, ◌≤◌, ◌<◌, ◌≡◌, refl, arith, true, false, Option, none,
  some, List, [], ◌∷◌, ◌++◌, ltb, leb, ◌==◌, ==_iff, leb→le, Bool-cases, bit_or, inl, inr,
}
use go_weave.Prelude.Bits.{checks, checked}
use go_weave.Jit.Pcsp.{put_varint}
use native.Mathlib.Nat.{pow-suc}

-- What is read, and the bytes behind it; `none` when the bytes end early.
abbrev pub Read : Type 0
Read = Option (ℕ × List ℕ)

abbrev shift_in : ℕ → Read → Read
shift_in b none = none
shift_in b (some (v, r)) = some (b % 128 + 128 * v, r)

-- A byte below 0x80 ends the number; the low seven bits come first.
unfoldable pub get_varint : List ℕ → Read
get_varint [] = none
get_varint (b ∷ bs) = elim (ltb b 0x80) [ true ↦ some (b, bs) | false ↦ shift_in b (get_varint bs) ]

marked_byte : (b : ℕ) → b < 256 → (128 ≤ bit_or b 0x80) × (bit_or b 0x80 % 128 ≡ b % 128)
marked_byte b h = (
  leb→le 128 (bit_or b 0x80)
      (checked (λ x. leb 128 (bit_or x 0x80)) 256 b (unfold checks in refl) h),
  (==_iff (bit_or b 0x80 % 128) (b % 128)).0
      (checked (λ x. bit_or x 0x80 % 128 == x % 128) 256 b (unfold checks in refl) h),
)

get-put_last :
    (fuel v : ℕ) (rest : List ℕ)
    → v < 128
    → get_varint (put_varint (suc fuel) v ++ rest) ≡ some (v, rest)
unfolding get_varint put_varint
get-put_last fuel v rest h = let e : v % 256 ≡ v = omega arith in ground arith

get-put_more :
    (fuel v : ℕ) (rest : List ℕ)
    → 128 ≤ v
    → get_varint (put_varint fuel (v / 128) ++ rest) ≡ some (v / 128, rest)
    → get_varint (put_varint (suc fuel) v ++ rest) ≡ some (v, rest)
unfolding get_varint put_varint
get-put_more fuel v rest h ih = let m = marked_byte (v % 256) (omega arith) in ground (arith, m)

-- Reading gives back the number that was written, if it fits the groups of seven bits, whatever
-- follows it.
pub get-put_varint :
    (fuel v : ℕ) (rest : List ℕ)
    → v < 128 ^ suc fuel
    → get_varint (put_varint (suc fuel) v ++ rest) ≡ some (v, rest)
get-put_varint zero v rest h = get-put_last zero v rest h
get-put_varint (suc fuel) v rest h = elim (Bool-cases (ltb v 128)) [
  | inl e ↦ get-put_last (suc fuel) v rest (ground arith)
  | inr e ↦
      get-put_more (suc fuel) v rest (ground arith)
        (get-put_varint fuel (v / 128) rest (omega (arith, pow-suc 128 (suc fuel))))
]
