-- ===== src/Jit/Pcsp/Zigzag.antt =====
-- The zig-zag code of `encodePCSP` and its inverse.
use Prim.Native.Nat.{differ, bit_xor-bitwise}
use go_weave.Prelude.{
  ℕ, zero, suc, ◌+◌, ◌-◌, ◌*◌, ◌/◌, ◌%◌, ◌^◌, ◌≤◌, ◌<◌, ◌≡◌, ◌≢◌, refl, arith, ltb, ◌==◌, ltb→lt,
  Bool-cases, inl, inr, if◌then◌else◌, bit_xor,
}
use go_weave.Prelude.Bits.{bitwise_halves}
use go_weave.Jit.Pcsp.{zig_zag, u32, sub_u32}
use native.Mathlib.Nat.{pow-suc, one-le-pow}

-- `-(uv & 1) ^ (uv >> 1)`: an odd number stands for the complement of its half.
unfoldable pub un_zig_zag : ℕ → ℕ
un_zig_zag uv = if uv % 2 == 0 then uv / 2 else 2 ^ 32 - 1 - uv / 2

xor_halves : (x y : ℕ) → bit_xor x y ≡ bit_xor (x / 2) (y / 2) * 2 + differ (x % 2) (y % 2)
xor_halves zero y = simp bit_xor-bitwise (omega arith)
xor_halves (suc x) y = simp bit_xor-bitwise (bitwise_halves (λ b. b) differ x y)

differ-one : (b : ℕ) → b ≤ 1 → differ b 1 ≡ 1 - b
differ-one zero h = refl
differ-one (suc zero) h = refl
differ-one (suc (suc b)) h = absurd (omega arith)

differ-zero : (b : ℕ) → b ≤ 1 → differ b 0 ≡ b
differ-zero zero h = refl
differ-zero (suc zero) h = refl
differ-zero (suc (suc b)) h = absurd (omega arith)

xor-ones : (k x : ℕ) → x < 2 ^ k → bit_xor x (2 ^ k - 1) ≡ 2 ^ k - 1 - x
xor-ones zero x h = let e : x ≡ 0 = omega arith in rw e
xor-ones (suc k) x h =
    let half : (2 ^ suc k - 1) / 2 ≡ 2 ^ k - 1 = omega (arith, pow-suc 2 k, one-le-pow k 2) in
    let odd : (2 ^ suc k - 1) % 2 ≡ 1 = omega (arith, pow-suc 2 k, one-le-pow k 2) in
    rw (xor_halves x (2 ^ suc k - 1), half, odd)
      (omega (
        arith,
        xor-ones k (x / 2) (omega (arith, pow-suc 2 k)),
        differ-one (x % 2) (omega arith),
        pow-suc 2 k,
      ))

xor-zero : (k x : ℕ) → x ≤ k → bit_xor x 0 ≡ x
xor-zero k zero h = refl
xor-zero zero (suc x) h = absurd (omega arith)
xor-zero (suc k) (suc x) h = omega (
  arith,
  xor_halves (suc x) 0,
  xor-zero k (suc x / 2) (omega arith),
  differ-zero (suc x % 2) (omega arith),
)

zig_zag_low : (n : ℕ) → n < 2 ^ 31 → zig_zag n ≡ 2 * n
unfolding zig_zag
zig_zag_low n h = ground (arith, xor-zero (u32 (n * 2)) (u32 (n * 2)) (omega arith))

zig_zag_high : (n : ℕ) → 2 ^ 31 ≤ n → n < 2 ^ 32 → zig_zag n ≡ 2 ^ 33 - 1 - 2 * n
unfolding zig_zag
zig_zag_high n h k = ground (arith, xor-ones 32 (u32 (n * 2)) (omega arith))

-- The code of an `int32` is a `uint32`, is zero for zero alone, and decodes to it.
pub un_zig_zag-zig_zag :
    (n : ℕ)
    → n < 2 ^ 32
    → (un_zig_zag (zig_zag n) ≡ n) × (zig_zag n < 2 ^ 32) × (n ≢ 0 → zig_zag n ≢ 0)
unfolding un_zig_zag
un_zig_zag-zig_zag n h = elim (Bool-cases (ltb n (2 ^ 31))) [
  | inl e ↦
      rw (zig_zag_low n (ltb→lt _ _ e)) (ground arith, omega (arith, ltb→lt _ _ e), omega arith)
  | inr e ↦
      let le : 2 ^ 31 ≤ n = ground arith in
      rw (zig_zag_high n le h) (ground arith, omega arith, omega arith)
]

pub delta_back : (a b : ℕ) → a < 2 ^ 32 → b < 2 ^ 32 → u32 (b + sub_u32 a b) ≡ a
delta_back a b h k = omega arith
