-- ===== src/Jit/Arm64/Lines.antt =====
-- What the lines of the arm64 trampoline that hold a number assemble to.
use go_weave.Prelude.{ℕ, ◌/◌, ◌%◌, ◌^◌, bit_or, ◌<◌, ◌≡◌, ap, ◌∙◌, arith, false, some, [], ◌∷◌}
use go_weave.Jit.Text.{bytes, sprintf, fields, parse_imm, parse_int, parse_digits, to_u32}
use go_weave.Jit.Text.Decimal.{IsDigit, parse_imm-format}
use go_weave.Jit.Text.Tokens.{fields-format}
use go_weave.Jit.Arm64.Asm.{
  is_sep, tokenize, parse_reg, parse_shift, parse_tokens, parse_ins, asm, field, with_field,
  imm_bits, word_offset,
}

digit_apart : (b : ℕ) → IsDigit b → is_sep b ≡ false
unfolding is_sep
digit_apart b h = ground arith

module _ (n : ℕ) (small : n < 2 ^ 63) where
  pub asm-clear :
      asm "STR ZR, [R16, #%d]" (n ∷ [])
      ≡ some (bit_or (bit_or (bit_or 0xf9000000 (field (n % 2 ^ 32 / 8) 10)) 512) 31)
  unfolding asm parse_ins sprintf tokenize fields is_sep parse_tokens parse_reg parse_int
      parse_digits
  asm-clear =
      ap parse_tokens (
        ap (λ ts. bytes "STR" ∷ bytes "ZR" ∷ bytes "R16" ∷ ts)
          (fields-format is_sep (bytes "#") n (bytes "]") digit_apart))
      ∙ ap
          (λ o.
            with_field
              (with_field (with_field (some 0xf9000000) (imm_bits word_offset 10 o)) (some 512))
              (some 31))
          (parse_imm-format n small)

  pub asm-index :
      asm "MOVZ R0, #%d" (n ∷ []) ≡ some (bit_or (bit_or 0xd2800000 (field (n % 2 ^ 32) 5)) 0)
  unfolding asm parse_ins sprintf tokenize fields is_sep parse_tokens parse_reg parse_int
      parse_digits
  asm-index =
      ap parse_tokens (
        ap (λ ts. bytes "MOVZ" ∷ bytes "R0" ∷ ts)
          (fields-format is_sep (bytes "#") n [] digit_apart))
      ∙ ap (λ o. with_field (with_field (some 0xd2800000) (imm_bits to_u32 5 o)) (some 0))
          (parse_imm-format n small)

  pub asm-low :
      asm "MOVZ R16, #%d" (n ∷ []) ≡ some (bit_or (bit_or 0xd2800000 (field (n % 2 ^ 32) 5)) 16)
  unfolding asm parse_ins sprintf tokenize fields is_sep parse_tokens parse_reg parse_int
      parse_digits
  asm-low =
      ap parse_tokens (
        ap (λ ts. bytes "MOVZ" ∷ bytes "R16" ∷ ts)
          (fields-format is_sep (bytes "#") n [] digit_apart))
      ∙ ap (λ o. with_field (with_field (some 0xd2800000) (imm_bits to_u32 5 o)) (some 16))
          (parse_imm-format n small)

  pub asm-keep_16 :
      asm "MOVK R16, #%d, LSL #16" (n ∷ [])
      ≡ some (bit_or (bit_or 0xf2a00000 (field (n % 2 ^ 32) 5)) 16)
  unfolding asm parse_ins sprintf tokenize fields is_sep parse_tokens parse_reg parse_int
      parse_digits parse_shift parse_imm
  asm-keep_16 =
      ap parse_tokens (
        ap (λ ts. bytes "MOVK" ∷ bytes "R16" ∷ ts)
          (fields-format is_sep (bytes "#") n (bytes ", LSL #16") digit_apart))
      ∙ ap (λ o. with_field (with_field (some 0xf2a00000) (imm_bits to_u32 5 o)) (some 16))
          (parse_imm-format n small)

  pub asm-keep_32 :
      asm "MOVK R16, #%d, LSL #32" (n ∷ [])
      ≡ some (bit_or (bit_or 0xf2c00000 (field (n % 2 ^ 32) 5)) 16)
  unfolding asm parse_ins sprintf tokenize fields is_sep parse_tokens parse_reg parse_int
      parse_digits parse_shift parse_imm
  asm-keep_32 =
      ap parse_tokens (
        ap (λ ts. bytes "MOVK" ∷ bytes "R16" ∷ ts)
          (fields-format is_sep (bytes "#") n (bytes ", LSL #32") digit_apart))
      ∙ ap (λ o. with_field (with_field (some 0xf2c00000) (imm_bits to_u32 5 o)) (some 16))
          (parse_imm-format n small)

  pub asm-keep_48 :
      asm "MOVK R16, #%d, LSL #48" (n ∷ [])
      ≡ some (bit_or (bit_or 0xf2e00000 (field (n % 2 ^ 32) 5)) 16)
  unfolding asm parse_ins sprintf tokenize fields is_sep parse_tokens parse_reg parse_int
      parse_digits parse_shift parse_imm
  asm-keep_48 =
      ap parse_tokens (
        ap (λ ts. bytes "MOVK" ∷ bytes "R16" ∷ ts)
          (fields-format is_sep (bytes "#") n (bytes ", LSL #48") digit_apart))
      ∙ ap (λ o. with_field (with_field (some 0xf2e00000) (imm_bits to_u32 5 o)) (some 16))
          (parse_imm-format n small)
