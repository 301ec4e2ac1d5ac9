-- ===== src/Prelude/Bits.antt =====
-- Go's `|`, `&`, `&^` and shifts on unsigned words, read digit by digit.
use Prim.Native.Nat.{
  ℕ, zero, suc, ◌+◌, ◌-◌, ◌*◌, ◌/◌, ◌%◌, ◌^◌, ◌≤◌, ◌<◌, min, max, bit_and, bit_or, digits, bitwise,
  bit_and-bitwise, bit_or-bitwise,
}
use mathlib.Core.Path.{◌≡◌, refl, ap}
use mathlib.Core.Logic.{◌≢◌}
use mathlib.Core.Bool.{Bool, true, false, not, ◌&&◌, ◌||◌}
use native.Mathlib.Omega.{arith}
use native.Mathlib.Nat.{pow-suc, one-le-pow, mod-eq_of_lt}
use go_weave.Prelude.Tests.{◌==◌}

-- `x &^ m`.
abbrev pub and_not : ℕ → ℕ → ℕ
and_not x m = x - bit_and x m

-- `1 << i` in a word of `w` bits.
abbrev pub one_shl : ℕ → ℕ → ℕ
one_shl w i = 2 ^ i % 2 ^ w

-- `m & (1 << i) != 0`.
unfoldable pub has_bit : ℕ → ℕ → ℕ → Bool
has_bit w m i = not (bit_and m (one_shl w i) == 0)

-- Binary digit `i` of `m`.
abbrev digit : ℕ → ℕ → ℕ
digit m zero = m % 2
digit m (suc i) = digit (m / 2) i

module _ (z : ℕ → ℕ) (f : ℕ → ℕ → ℕ) where
  digits_enough : (k l x y : ℕ) → x ≤ k → x ≤ l → digits z f k x y ≡ digits z f l x y
  digits_enough zero zero x y p q = refl
  digits_enough zero (suc l) zero y p q = refl
  digits_enough zero (suc l) (suc x) y p q = absurd (omega arith)
  digits_enough (suc k) zero zero y p q = refl
  digits_enough (suc k) zero (suc x) y p q = absurd (omega arith)
  digits_enough (suc k) (suc l) zero y p q = refl
  digits_enough (suc k) (suc l) (suc x) y p q =
      rw (digits_enough k l (suc x / 2) (y / 2) (omega arith) (omega arith))

  pub bitwise_halves :
      (x y : ℕ)
      → bitwise z f (suc x) y ≡ bitwise z f (suc x / 2) (y / 2) * 2 + f (suc x % 2) (y % 2)
  bitwise_halves x y =
      omega (arith, digits_enough x (suc x / 2) (suc x / 2) (y / 2) (omega arith) (omega arith))

or_halves : (x y : ℕ) → bit_or x y ≡ bit_or (x / 2) (y / 2) * 2 + max (x % 2) (y % 2)
or_halves zero y = simp bit_or-bitwise (omega arith)
or_halves (suc x) y = simp bit_or-bitwise (bitwise_halves (λ b. b) max x y)

and_halves : (x y : ℕ) → bit_and x y ≡ bit_and (x / 2) (y / 2) * 2 + min (x % 2) (y % 2)
and_halves zero y = simp bit_and-bitwise (omega arith)
and_halves (suc x) y = simp bit_and-bitwise (bitwise_halves (λ b. 0) min x y)

and-zero_fuel : (k x : ℕ) → x ≤ k → bit_and x 0 ≡ 0
and-zero_fuel k zero h = refl
and-zero_fuel zero (suc x) h = absurd (omega arith)
and-zero_fuel (suc k) (suc x) h =
    omega (arith, and_halves (suc x) 0, and-zero_fuel k (suc x / 2) (omega arith))

pub and-zero : (x : ℕ) → bit_and x 0 ≡ 0
and-zero x = and-zero_fuel x x (omega arith)

digit-or : (x y i : ℕ) → digit (bit_or x y) i ≡ max (digit x i) (digit y i)
digit-or x y zero = omega (arith, or_halves x y)
digit-or x y (suc i) =
    let half : bit_or x y / 2 ≡ bit_or (x / 2) (y / 2) = omega (arith, or_halves x y) in
    rw half (digit-or (x / 2) (y / 2) i)

and-pow : (x i : ℕ) → bit_and x (2 ^ i) ≡ digit x i * 2 ^ i
and-pow x zero = omega (arith, and_halves x 1, and-zero (x / 2))
and-pow x (suc i) =
    let odd : 2 ^ suc i % 2 ≡ 0 = omega (arith, pow-suc 2 i) in
    let half : 2 ^ suc i / 2 ≡ 2 ^ i = omega (arith, pow-suc 2 i) in
    let step : bit_and x (2 ^ suc i) ≡ bit_and (x / 2) (2 ^ i) * 2 =
      rw (← half) (omega (arith, and_halves x (2 ^ suc i))) in
    omega (arith, step, and-pow (x / 2) i, ap (λ (t : ℕ). digit (x / 2) i * t) (pow-suc 2 i))

digit-zero : (i : ℕ) → digit 0 i ≡ 0
digit-zero zero = refl
digit-zero (suc i) = digit-zero i

digit-le : (x i : ℕ) → digit x i ≤ 1
digit-le x zero = omega arith
digit-le x (suc i) = digit-le (x / 2) i

digit-pow_self : (i : ℕ) → digit (2 ^ i) i ≡ 1
digit-pow_self zero = refl
digit-pow_self (suc i) =
    let half : 2 ^ suc i / 2 ≡ 2 ^ i = omega (arith, pow-suc 2 i) in rw half (digit-pow_self i)

digit-pow_ne : (k i : ℕ) → k ≢ i → digit (2 ^ k) i ≡ 0
digit-pow_ne zero zero h = absurd (h refl)
digit-pow_ne zero (suc i) h = digit-zero i
digit-pow_ne (suc k) zero h = omega (arith, pow-suc 2 k)
digit-pow_ne (suc k) (suc i) h =
    let half : 2 ^ suc k / 2 ≡ 2 ^ k = omega (arith, pow-suc 2 k) in
    rw half (digit-pow_ne k i (λ e. h (ap suc e)))

pow_lt : (i w : ℕ) → i < w → 2 ^ i < 2 ^ w
pow_lt i zero h = absurd (omega arith)
pow_lt zero (suc w) h = omega (arith, pow-suc 2 w, one-le-pow w 2)
pow_lt (suc i) (suc w) h = omega (arith, pow-suc 2 w, pow-suc 2 i, pow_lt i w (omega arith))

one_shl-eq : (w i : ℕ) → i < w → one_shl w i ≡ 2 ^ i
one_shl-eq w i h = mod-eq_of_lt (pow_lt i w h)

has_bit-digit : (w m i : ℕ) → i < w → has_bit w m i ≡ not (digit m i == 0)
unfolding has_bit
has_bit-digit w m i h =
    rw (one_shl-eq w i h, and-pow m i) (grind (arith, one-le-pow i 2, digit-le m i))

-- Setting bit `k` sets that bit and leaves the others.
pub has_bit-set :
    (w m k i : ℕ)
    → k < w
    → i < w
    → has_bit w (bit_or m (one_shl w k)) i ≡ ((k == i) || has_bit w m i)
has_bit-set w m k i hk hi =
    rw
      (
        has_bit-digit w (bit_or m (one_shl w k)) i hi,
        has_bit-digit w m i hi,
        one_shl-eq w k hk,
        digit-or m (2 ^ k) i,
      )
      (ground (arith, digit-pow_ne k i, digit-pow_self i, digit-le m i))

pub has_bit-zero : (w i : ℕ) → i < w → has_bit w 0 i ≡ false
has_bit-zero w i h = rw (has_bit-digit w 0 i h, digit-zero i)

mod_halves : (x m : ℕ) → 0 < m → x / 2 % m * 2 + x % 2 ≡ x % (m * 2)
mod_halves x m h = grind arith

-- A mask of `k` low bits is the remainder by `2 ^ k`.
pub and-mask : (k x : ℕ) → bit_and x (2 ^ k - 1) ≡ x % 2 ^ k
and-mask zero x = rw (and-zero x) (omega arith)
and-mask (suc k) x =
    let half : (2 ^ suc k - 1) / 2 ≡ 2 ^ k - 1 = omega (arith, pow-suc 2 k, one-le-pow k 2) in
    let odd : (2 ^ suc k - 1) % 2 ≡ 1 = omega (arith, pow-suc 2 k, one-le-pow k 2) in
    let ih = and-mask k (x / 2) in
    rw (and_halves x (2 ^ suc k - 1), half, odd, ih, pow-suc 2 k)
      (omega (arith, mod_halves x (2 ^ k) (one-le-pow k 2 (omega arith))))

-- A table of the values of `p` below a bound, to be evaluated once.
unfoldable pub checks : (ℕ → Bool) → ℕ → Bool
checks p zero = true
checks p (suc bound) = checks p bound && p bound

pub checked : (p : ℕ → Bool) (bound v : ℕ) → checks p bound ≡ true → v < bound → p v ≡ true
unfolding checks
checked p zero v table small = absurd (omega arith)
checked p (suc bound) v table small = ground (arith, checked p bound v)
