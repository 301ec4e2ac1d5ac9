-- ===== src/Jit/Amd64/Asm.antt =====
-- The assembler of jitcode_amd64.go: `asm` reads an instruction from its text and gives its bytes; a panic
-- is `none`.
use go_weave.Prelude.{
  ℕ, ◌-◌, ◌*◌, ◌/◌, ◌%◌, ◌^◌, bit_and, bit_or, Bool, true, false, not, ◌||◌, Option, none, some,
  List, [], ◌∷◌, ◌++◌, String, leb, ◌==◌, if◌then◌else◌,
}
use go_weave.Jit.Text.{Text, bytes, is, ℤ, pos, sprintf, fields, parse_imm, to_u32, to_u64}

-- The four low bytes, lowest first.
abbrev pub imm32 : ℕ → List ℕ
imm32 v = v % 256 ∷ v / 2 ^ 8 % 256 ∷ v / 2 ^ 16 % 256 ∷ v / 2 ^ 24 % 256 ∷ []

abbrev pub imm64 : ℕ → List ℕ
imm64 v =
    v % 256
    ∷ v / 2 ^ 8 % 256
    ∷ v / 2 ^ 16 % 256
    ∷ v / 2 ^ 24 % 256
    ∷ v / 2 ^ 32 % 256
    ∷ v / 2 ^ 40 % 256
    ∷ v / 2 ^ 48 % 256
    ∷ v / 2 ^ 56 % 256
    ∷ []

-- The displacement is a 32-bit pattern: -128 and above is 2 ^ 32 - 128 and above.
unfoldable pub disp_encoding : ℕ → ℕ × List ℕ
disp_encoding disp =
    if disp == 0
    then (0, [])
    else if leb (2 ^ 32 - 128) disp || leb disp 127
    then (1, disp % 256 ∷ [])
    else (2, imm32 disp)

unfoldable pub is_sep : ℕ → Bool
is_sep b = b == b' ' || b == 9 || b == b','

unfoldable pub tokenize : Text → List Text
tokenize s = fields is_sep [] s

unfoldable pub parse_reg64 : Text → Option ℕ
parse_reg64 s =
    if is s "RAX"
    then some 0
    else if is s "RCX"
    then some 1
    else if is s "RDX"
    then some 2
    else if is s "RBX"
    then some 3
    else if is s "RSP"
    then some 4
    else if is s "RBP"
    then some 5
    else if is s "RSI"
    then some 6
    else if is s "RDI"
    then some 7
    else if is s "R8"
    then some 8
    else if is s "R9"
    then some 9
    else if is s "R10"
    then some 10
    else if is s "R11"
    then some 11
    else if is s "R12"
    then some 12
    else none

-- `strings.HasPrefix(s, "[")`, `strings.TrimPrefix(s, "[")`.
abbrev pub is_mem : Text → Bool
is_mem [] = false
is_mem (b ∷ bs) = b == b'['

abbrev pub trim_open : Text → Text
trim_open [] = []
trim_open (b ∷ bs) = if b == b'[' then bs else b ∷ bs

-- `strings.TrimSuffix(s, "]")`.
unfoldable pub trim_close : Text → Text
trim_close [] = []
trim_close (b ∷ []) = if b == b']' then [] else b ∷ []
trim_close (b ∷ c ∷ bs) = b ∷ trim_close (c ∷ bs)

-- The text before the first `+` and the one behind it.
unfoldable pub cut_plus : Text → Option (Text × Text)
cut_plus [] = none
cut_plus (b ∷ bs) = elim (b == b'+') [
  | true ↦ some ([], bs)
  | false ↦ elim (cut_plus bs) [ none ↦ none | some (base, disp) ↦ some (b ∷ base, disp) ]
]

abbrev pub with_disp : Text → Option ℤ → Option (Text × ℤ)
with_disp base none = none
with_disp base (some v) = some (base, v)

abbrev pub parse_parts : Text → Option (Text × Text) → Option (Text × ℤ)
parse_parts inner none = some (inner, pos 0)
parse_parts inner (some (base, disp)) = with_disp base (parse_imm (b'#' ∷ disp))

unfoldable pub parse_mem : Text → Option (Text × ℤ)
parse_mem s = let inner = trim_close (trim_open s) in parse_parts inner (cut_plus inner)

abbrev pub is_imm : Text → Bool
is_imm [] = false
is_imm (b ∷ bs) = b == b'#' || b == b'$'

-- `r&8 != 0`, and `b` ors in the bit if so.
abbrev pub rex_bit : ℕ → ℕ → ℕ → ℕ
rex_bit r b rex = if not (bit_and r 8 == 0) then bit_or rex b else rex

abbrev pub mod_rm : ℕ → ℕ → ℕ → ℕ
mod_rm mode r rm = bit_or (bit_or (mode * 2 ^ 6 % 256) (bit_and r 7 * 2 ^ 3)) rm

-- The SIB byte that addressing by RSP takes.
abbrev pub sib : ℕ → List ℕ
sib rb = if bit_and rb 7 == 4 then 0x24 ∷ [] else []

abbrev pub mov_regs : Option ℕ → Option ℕ → Option (List ℕ)
mov_regs none rd = none
mov_regs (some rs) none = none
mov_regs (some rs) (some rd) = some (
    rex_bit rd 0x01 (rex_bit rs 0x04 0x48)
    ∷ 0x89
    ∷ bit_or (bit_or 0xc0 (bit_and rs 7 * 2 ^ 3)) (bit_and rd 7)
    ∷ [])

abbrev pub store_imm_bytes : ℕ → ℕ × List ℕ → Option ℤ → Option (List ℕ)
store_imm_bytes rb (mode, d) none = none
store_imm_bytes rb (mode, d) (some v) =
    some ((0x48 ∷ 0xc7 ∷ bit_or (mode * 2 ^ 6 % 256) rb ∷ sib rb) ++ (d ++ imm32 (to_u32 v)))

abbrev pub reg_mem_bytes : ℕ → ℕ → ℕ × List ℕ → Option ℕ → Option (List ℕ)
reg_mem_bytes opcode rb (mode, d) none = none
reg_mem_bytes opcode rb (mode, d) (some r) =
    some ((rex_bit r 0x04 0x48 ∷ opcode ∷ mod_rm mode r rb ∷ sib rb) ++ d)

-- The two stores of `parseMov`, once the base register has been read.
abbrev pub store_at : Option ℕ → ℤ → Text → Option (List ℕ)
store_at none disp src = none
store_at (some rb) disp src =
    if is_imm src
    then store_imm_bytes rb (disp_encoding (to_u32 disp)) (parse_imm src)
    else reg_mem_bytes 0x89 rb (disp_encoding (to_u32 disp)) (parse_reg64 src)

abbrev pub store_mem : Option (Text × ℤ) → Text → Option (List ℕ)
store_mem none src = none
store_mem (some (base, disp)) src = store_at (parse_reg64 base) disp src

-- `parseMov` and `parseLea`, on the operands.
unfoldable pub parse_mov : List Text → Option (List ℕ)
parse_mov (dst ∷ src ∷ ts) =
    if not (is_mem dst)
    then mov_regs (parse_reg64 src) (parse_reg64 dst)
    else store_mem (parse_mem dst) src
parse_mov _ = none

abbrev pub lea_at : Option ℕ → Option ℕ → ℤ → Option (List ℕ)
lea_at dst none disp = none
lea_at dst (some rb) disp = reg_mem_bytes 0x8d rb (disp_encoding (to_u32 disp)) dst

abbrev pub lea_mem : Option ℕ → Option (Text × ℤ) → Option (List ℕ)
lea_mem dst none = none
lea_mem dst (some (base, disp)) = lea_at dst (parse_reg64 base) disp

unfoldable pub parse_lea : List Text → Option (List ℕ)
parse_lea (dst ∷ mem ∷ ts) = lea_mem (parse_reg64 dst) (parse_mem mem)
parse_lea _ = none

-- `0x50 | reg` and `0x58 | reg`.
abbrev pub stack_op : ℕ → List Text → Option (List ℕ)
stack_op opcode [] = none
stack_op opcode (r ∷ ts) = elim (parse_reg64 r) [
  | none ↦ none
  | some n ↦ some (bit_or opcode n ∷ [])
]

-- The opcode bytes and the last operand, as 32 or as 64 bits.
abbrev pub imm_op : (ℤ → List ℕ) → List ℕ → List Text → Option (List ℕ)
imm_op encode opcode (r ∷ imm ∷ ts) = elim (parse_imm imm) [
  | none ↦ none
  | some v ↦ some (opcode ++ encode v)
]
imm_op encode opcode _ = none

abbrev pub low_word : ℤ → List ℕ
low_word v = imm32 (to_u32 v)

abbrev pub whole_word : ℤ → List ℕ
whole_word v = imm64 (to_u64 v)

unfoldable pub parse_tokens : List Text → Option (List ℕ)
parse_tokens [] = none
parse_tokens (op ∷ t) =
    if is op "PUSH"
    then stack_op 0x50 t
    else if is op "POP"
    then stack_op 0x58 t
    else if is op "SUB"
    then imm_op low_word (0x48 ∷ 0x81 ∷ 0xec ∷ []) t
    else if is op "ADD"
    then imm_op low_word (0x48 ∷ 0x81 ∷ 0xc4 ∷ []) t
    else if is op "MOV"
    then parse_mov t
    else if is op "LEA"
    then parse_lea t
    else if is op "MOVL"
    then imm_op low_word (0xb8 ∷ []) t
    else if is op "MOVABS"
    then imm_op whole_word (0x49 ∷ 0xbc ∷ []) t
    else if is op "CALL"
    then some (0x41 ∷ 0xff ∷ 0xd4 ∷ [])
    else if is op "RET"
    then some (0xc3 ∷ [])
    else none

unfoldable pub parse_ins : Text → Option (List ℕ)
parse_ins s = parse_tokens (tokenize s)

unfoldable pub asm : String → List ℕ → Option (List ℕ)
asm format args = parse_ins (sprintf (bytes format) args)
