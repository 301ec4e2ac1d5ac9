-- ===== src/Jit/Amd64/Lines.antt =====
-- What the lines of the trampoline that hold a number assemble to.
use go_weave.Prelude.{
  ℕ, ◌%◌, ◌^◌, ◌<◌, ◌≡◌, refl, ap, ◌∙◌, arith, false, Option, none, some, List, [], ◌∷◌, ◌++◌,
}
use go_weave.Jit.Text.{
  Text, bytes, pos, format_uint, sprintf, fields, parse_imm, parse_int, parse_imm, parse_digits,
}
use go_weave.Jit.Text.Decimal.{IsDigit, parse_imm-format}
use go_weave.Jit.Text.Tokens.{fields-format}
use go_weave.Jit.Amd64.Asm.{
  imm32, imm64, disp_encoding, is_sep, tokenize, parse_reg64, trim_close, cut_plus, parse_parts,
  parse_mem, store_imm_bytes, store_mem, with_disp, parse_mov, parse_tokens, parse_ins, asm,
  low_word, whole_word,
}

digit_apart : (b : ℕ) → IsDigit b → is_sep b ≡ false
unfolding is_sep
digit_apart b h = ground arith

pub asm-movl :
    (n : ℕ) → n < 2 ^ 63 → asm "MOVL EAX, #%d" (n ∷ []) ≡ some (0xb8 ∷ imm32 (n % 2 ^ 32))
unfolding asm parse_ins sprintf tokenize fields is_sep parse_tokens
asm-movl n small =
    ap parse_tokens (
      ap (λ ts. bytes "MOVL" ∷ bytes "EAX" ∷ ts)
        (fields-format is_sep (bytes "#") n [] digit_apart))
    ∙ ap
        (λ o. elim o as (λ x. Option (List ℕ)) [
          | none ↦ none
          | some v ↦ some ((0xb8 ∷ []) ++ low_word v)
        ])
        (parse_imm-format n small)

pub asm-movabs :
    (n : ℕ) → n < 2 ^ 63 → asm "MOVABS R12, #%d" (n ∷ []) ≡ some (0x49 ∷ 0xbc ∷ imm64 (n % 2 ^ 64))
unfolding asm parse_ins sprintf tokenize fields is_sep parse_tokens
asm-movabs n small =
    ap parse_tokens (
      ap (λ ts. bytes "MOVABS" ∷ bytes "R12" ∷ ts)
        (fields-format is_sep (bytes "#") n [] digit_apart))
    ∙ ap
        (λ o. elim o as (λ x. Option (List ℕ)) [
          | none ↦ none
          | some v ↦ some ((0x49 ∷ 0xbc ∷ []) ++ whole_word v)
        ])
        (parse_imm-format n small)

trim_close-append : (bs : Text) → trim_close (bs ++ (b']' ∷ [])) ≡ bs
unfolding trim_close
trim_close-append [] = refl
trim_close-append (b ∷ []) = refl
trim_close-append (b ∷ c ∷ bs) = ap (λ t. b ∷ t) (trim_close-append (c ∷ bs))

parse_mem-rdx :
    (n : ℕ)
    → n < 2 ^ 63
    → parse_mem (bytes "[RDX+" ++ (format_uint n ++ bytes "]")) ≡ some (bytes "RDX", pos n)
unfolding parse_mem cut_plus
parse_mem-rdx n small =
    ap (λ t. parse_parts t (cut_plus t)) (trim_close-append (bytes "RDX+" ++ format_uint n))
    ∙ ap (λ o. with_disp (bytes "RDX") o) (parse_imm-format n small)

tokens-clear :
    (n : ℕ)
    → tokenize (sprintf (bytes "MOV [RDX+%d], #0") (n ∷ []))
      ≡ bytes "MOV" ∷ (bytes "[RDX+" ++ (format_uint n ++ bytes "]")) ∷ bytes "#0" ∷ []
unfolding tokenize sprintf fields is_sep
tokens-clear n =
    ap (λ ts. bytes "MOV" ∷ ts) (fields-format is_sep (bytes "[RDX+") n (bytes "], #0") digit_apart)

pub asm-clear :
    (n : ℕ)
    → n < 2 ^ 63
    → asm "MOV [RDX+%d], #0" (n ∷ [])
      ≡ store_imm_bytes 2 (disp_encoding (n % 2 ^ 32)) (some (pos 0))
unfolding asm parse_ins parse_tokens parse_mov parse_reg64 parse_int parse_digits parse_imm
asm-clear n small =
    ap parse_tokens (tokens-clear n) ∙ ap (λ o. store_mem o (bytes "#0")) (parse_mem-rdx n small)
