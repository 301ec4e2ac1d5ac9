-- ===== src/Jit/Text/Decimal.antt =====
-- Reading back a number that `%d` has printed.
use native.Mathlib.Nat.{pow-suc}
use go_weave.Prelude.{
  ℕ, zero, suc, ◌+◌, ◌-◌, ◌*◌, ◌/◌, ◌%◌, ◌^◌, ◌<◌, ◌≡◌, refl, sym, ap, ◌∙◌, arith, true, some, [],
  ◌∷◌, ◌++◌, ltb, All, All-append, Bool-cases, inl, inr,
}
use go_weave.Jit.Text.{
  Text, pos, format_digits, format_uint, is_digit, parse_digits, parse_int, parse_imm, in_range,
}

abbrev pub IsDigit : ℕ → Type 0
IsDigit b = is_digit b ≡ true

digit_step :
    (acc b : ℕ) (bs : Text)
    → IsDigit b
    → parse_digits acc (b ∷ bs) ≡ parse_digits (acc * 10 + (b - 48)) bs
unfolding parse_digits
digit_step acc b bs h = rw (parse_digits, h) refl

digits_left :
    (acc d : ℕ) (bs : Text) (n : ℕ)
    → parse_digits acc bs ≡ some n
    → d < 10
    → parse_digits acc (bs ++ ((48 + d) ∷ [])) ≡ some (n * 10 + d)
unfolding parse_digits
digits_left acc d [] n h lt = digit_step acc (48 + d) [] (ground arith) ∙ ground (arith, h)
digits_left acc d (b ∷ bs) n h lt = elim (Bool-cases (is_digit b)) [
  | inl e ↦
      rw (parse_digits, e) (digits_left (acc * 10 + (b - 48)) d bs n (rw (parse_digits, e) at h) lt)
  | inr e ↦ let bad = rw (parse_digits, e) at h in absurd (cc)
]

format_digits-All : (fuel n : ℕ) → All IsDigit (format_digits fuel n)
unfolding format_digits
format_digits-All zero n = tt
format_digits-All (suc fuel) n = elim (Bool-cases (ltb n 10)) [
  | inl e ↦ rw (format_digits, e) (ground arith, tt)
  | inr e ↦
      rw (format_digits, e)
        (All-append IsDigit (format_digits fuel (n / 10)) _ (format_digits-All fuel (n / 10))
          (ground arith, tt))
]

parse-format_digits :
    (fuel n : ℕ) → n < 10 ^ suc fuel → parse_digits 0 (format_digits (suc fuel) n) ≡ some n
unfolding format_digits parse_digits
parse-format_digits zero n lt =
    let small : n < 10 = omega arith in
    let e : ltb n 10 ≡ true = ground arith in
    rw (format_digits, e) (digits_left 0 n [] 0 refl small ∙ ap some (omega arith))
parse-format_digits (suc fuel) n lt = elim (Bool-cases (ltb n 10)) [
  | inl e ↦ rw (format_digits, e) (digits_left 0 n [] 0 refl (ground arith) ∙ ap some (omega arith))
  | inr e ↦
      let less : n / 10 < 10 ^ suc fuel = omega (arith, pow-suc 10 (suc fuel)) in
      rw (format_digits, e)
        (digits_left 0 (n % 10) (format_digits (suc fuel) (n / 10)) (n / 10)
            (parse-format_digits fuel (n / 10) less) (omega arith)
          ∙ ap some (omega arith))
]

-- What `%d` prints starts with a digit.
abbrev StartsWithDigit : Text → Type 0
StartsWithDigit t = (b : ℕ) × (bs : Text) × (t ≡ b ∷ bs) × IsDigit b

digit-append : (t u : Text) → StartsWithDigit t → StartsWithDigit (t ++ u)
digit-append t u (b, bs, e, d) = (b, bs ++ u, ap (λ t. t ++ u) e, d)

format_head : (fuel n : ℕ) → StartsWithDigit (format_digits (suc fuel) n)
unfolding format_digits
format_head zero n = elim (Bool-cases (ltb n 10)) [
  | inl e ↦ rw (format_digits, e) (48 + n, [], refl, ground arith)
  | inr e ↦ rw (format_digits, e) (48 + n % 10, [], refl, ground arith)
]
format_head (suc fuel) n = elim (Bool-cases (ltb n 10)) [
  | inl e ↦ rw (format_digits, e) (48 + n, [], refl, ground arith)
  | inr e ↦
      rw (format_digits, e)
        (digit-append (format_digits (suc fuel) (n / 10)) _ (format_head fuel (n / 10)))
]

parse_int-digit :
    (b : ℕ) (bs : Text) → IsDigit b → parse_int (b ∷ bs) ≡ in_range (parse_digits 0 (b ∷ bs))
unfolding parse_int
parse_int-digit b bs h = ground arith

parse_imm-digits :
    (t : Text) (n : ℕ)
    → StartsWithDigit t
    → parse_digits 0 t ≡ some n
    → n < 2 ^ 63
    → parse_imm (b'#' ∷ t) ≡ some (pos n)
unfolding parse_imm
parse_imm-digits t n (b, bs, e, d) h lt =
    let fits : ltb n (2 ^ 63) ≡ true = ground arith in
    rw e (parse_int-digit b bs d ∙ ap in_range (sym (ap (parse_digits 0) e) ∙ h) ∙ rw fits refl)

-- `parseImm` reads back an immediate that `%d` has printed, for numbers below 2 ^ 63.
pub parse_imm-format : (n : ℕ) → n < 2 ^ 63 → parse_imm (b'#' ∷ format_uint n) ≡ some (pos n)
parse_imm-format n lt =
    parse_imm-digits (format_uint n) n (format_head 19 n) (parse-format_digits 19 n (omega arith))
      lt

pub format-All : (n : ℕ) → All IsDigit (format_uint n)
format-All n = format_digits-All 20 n
