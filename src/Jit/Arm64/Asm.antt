-- ===== src/Jit/Arm64/Asm.antt =====
-- The assembler of jitcode_arm64.go: `asm` reads an instruction from its text and gives its 32 bits; a panic
-- is `none`.
use go_weave.Prelude.{
  ℕ, zero, suc, ◌-◌, ◌*◌, ◌/◌, ◌%◌, ◌^◌, bit_or, Bool, ◌||◌, Option, none, some, List, [], ◌∷◌,
  String, leb, ◌==◌, if◌then◌else◌,
}
use go_weave.Jit.Text.{
  Text, bytes, is, ℤ, pos, negsuc, sprintf, fields, parse_int, parse_imm, to_u32,
}

unfoldable pub is_sep : ℕ → Bool
is_sep b = b == b' ' || b == 9 || b == b',' || b == b'[' || b == b']'

unfoldable pub tokenize : Text → List Text
tokenize s = fields is_sep [] s

-- `n >= 0 && n <= 30`, on the result of `strconv.Atoi`.
abbrev pub reg_number : Option ℤ → Option ℕ
reg_number none = none
reg_number (some (negsuc n)) = none
reg_number (some (pos n)) = if leb n 30 then some n else none

abbrev pub numbered_reg : Text → Option ℕ
numbered_reg [] = none
numbered_reg (r ∷ []) = none
numbered_reg (r ∷ b ∷ bs) = if r == b'R' then reg_number (parse_int (b ∷ bs)) else none

unfoldable pub parse_reg : Text → Option ℕ
parse_reg s =
    if is s "SP" || is s "ZR"
    then some 31
    else if is s "FP"
    then some 29
    else if is s "LR"
    then some 30
    else numbered_reg s

-- A field of an instruction, `v<<n` on `uint32`.
abbrev pub field : ℕ → ℕ → ℕ
field v n = v * 2 ^ n % 2 ^ 32

-- The operands that have been read, ored together with the fixed bits.
abbrev pub with_field : Option ℕ → Option ℕ → Option ℕ
with_field none v = none
with_field (some base) none = none
with_field (some base) (some v) = some (bit_or base v)

abbrev pub reg_field : ℕ → List Text → ℕ → Option ℕ
reg_field i [] n = none
reg_field zero (t ∷ ts) n = elim (parse_reg t) [ none ↦ none | some r ↦ some (field r n) ]
reg_field (suc i) (t ∷ ts) n = reg_field i ts n

-- The immediate of a token, as the code turns it into a field.
abbrev pub imm_bits : (ℤ → ℕ) → ℕ → Option ℤ → Option ℕ
imm_bits bits n none = none
imm_bits bits n (some v) = some (field (bits v) n)

abbrev pub imm_field : ℕ → List Text → (ℤ → ℕ) → ℕ → Option ℕ
imm_field i [] bits n = none
imm_field zero (t ∷ ts) bits n = imm_bits bits n (parse_imm t)
imm_field (suc i) (t ∷ ts) bits n = imm_field i ts bits n

-- `uint32(v)/8`, and `uint32((v/8)&0x7f)`: `/` on `int64` rounds towards zero.
abbrev pub word_offset : ℤ → ℕ
word_offset v = to_u32 v / 8

abbrev pub pair_offset : ℤ → ℕ
pair_offset (pos n) = n / 8 % 128
pair_offset (negsuc n) = (128 - suc n / 8 % 128) % 128

-- `parseShift`.
unfoldable pub parse_shift : List Text → ℕ → Option ℕ
parse_shift (lsl ∷ imm ∷ ts) zero =
    if is lsl "LSL"
    then elim (parse_imm imm) as (λ o. Option ℕ) [ none ↦ none | some v ↦ some (to_u32 v / 16) ]
    else none
parse_shift _ zero = none
parse_shift [] (suc i) = none
parse_shift (t ∷ ts) (suc i) = parse_shift ts i

abbrev pub shift_field : Option ℕ → Option ℕ
shift_field none = none
shift_field (some hw) = some (field hw 21)

-- `parseIns`, on the tokens.
unfoldable pub parse_tokens : List Text → Option ℕ
parse_tokens [] = none
parse_tokens (op ∷ ts) =
    let t = op ∷ ts in
    if is op "SUB"
    then with_field
        (with_field (with_field (some 0xd1000000) (imm_field 3 t to_u32 10)) (reg_field 2 t 5))
        (reg_field 1 t 0)
    else if is op "ADD"
    then with_field
        (with_field (with_field (some 0x91000000) (imm_field 3 t to_u32 10)) (reg_field 2 t 5))
        (reg_field 1 t 0)
    else if is op "MOV"
    then with_field (with_field (some 0xaa0003e0) (reg_field 2 t 16)) (reg_field 1 t 0)
    else if is op "STR"
    then with_field
        (with_field (with_field (some 0xf9000000) (imm_field 3 t word_offset 10)) (reg_field 2 t 5))
        (reg_field 1 t 0)
    else if is op "STP"
    then with_field
        (with_field
          (with_field (with_field (some 0xa9000000) (imm_field 4 t pair_offset 15))
            (reg_field 2 t 10))
          (reg_field 3 t 5))
        (reg_field 1 t 0)
    else if is op "LDP"
    then with_field
        (with_field
          (with_field (with_field (some 0xa9400000) (imm_field 4 t pair_offset 15))
            (reg_field 2 t 10))
          (reg_field 3 t 5))
        (reg_field 1 t 0)
    else if is op "MOVZ"
    then with_field (with_field (some 0xd2800000) (imm_field 2 t to_u32 5)) (reg_field 1 t 0)
    else if is op "MOVK"
    then with_field
        (with_field (with_field (some 0xf2800000) (shift_field (parse_shift t 3)))
          (imm_field 2 t to_u32 5))
        (reg_field 1 t 0)
    else if is op "BLR"
    then with_field (some 0xd63f0000) (reg_field 1 t 5)
    else if is op "RET"
    then some 0xd65f03c0
    else none

unfoldable pub parse_ins : Text → Option ℕ
parse_ins s = parse_tokens (tokenize s)

unfoldable pub asm : String → List ℕ → Option ℕ
asm format args = parse_ins (sprintf (bytes format) args)
