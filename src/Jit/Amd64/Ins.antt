-- ===== src/Jit/Amd64/Ins.antt =====
-- The machine's side: the instructions that the trampoline uses, how their bytes are read, and what
-- they do, after the processor's manual. Registers have their numbers in the encoding, 4 is RSP.
use go_weave.Prelude.{
  ℕ, zero, suc, ◌+◌, ◌-◌, ◌*◌, ◌/◌, ◌%◌, ◌^◌, Option, none, some, List, [], ◌∷◌, ltb, ◌==◌,
  if◌then◌else◌, length,
}

pub data Ins : Type 0 where
  push pop : ℕ → Ins
  -- destination, source
  mov : ℕ → ℕ → Ins
  -- base, displacement, and the register or the number that is stored
  store store_imm : ℕ → ℕ → ℕ → Ins
  -- destination, base, displacement
  lea : ℕ → ℕ → ℕ → Ins
  sub add load : ℕ → ℕ → Ins
  call : ℕ → Ins
  ret : Ins

abbrev pub Decoded : Type 0
Decoded = Option (Ins × List ℕ)

-- An immediate that has been read, with the bytes behind it.
abbrev Imm : Type 0
Imm = Option (ℕ × List ℕ)

-- A number of `n` bytes, the lowest first.
unfoldable pub read_le : ℕ → List ℕ → Option (ℕ × List ℕ)
read_le zero bs = some (0, bs)
read_le (suc n) [] = none
read_le (suc n) (b ∷ bs) = elim (read_le n bs) [
  | none ↦ none
  | some (v, rest) ↦ some (b + 256 * v, rest)
]

-- Sign extension to 64 bits of a number of `w` bits.
abbrev pub extend : ℕ → ℕ → ℕ
extend w v = if ltb v (2 ^ (w - 1)) then v else 2 ^ 64 - 2 ^ w + v

abbrev pub extended : ℕ → Option (ℕ × List ℕ) → Option (ℕ × List ℕ)
extended w none = none
extended w (some (v, rest)) = some (extend w v, rest)

-- The displacement by the mode bits, behind the SIB byte that register 4 has as base.
unfoldable pub read_disp : ℕ → List ℕ → Option (ℕ × List ℕ)
read_disp mode bs =
    if mode == 0
    then some (0, bs)
    else if mode == 1
    then extended 8 (read_le 1 bs)
    else extended 32 (read_le 4 bs)

abbrev pub skip_sib : ℕ → List ℕ → List ℕ
skip_sib rm [] = []
skip_sib rm (b ∷ bs) = if rm == 4 then bs else b ∷ bs

abbrev pub with_imm : (ℕ → Ins) → Option (ℕ × List ℕ) → Option (Ins × List ℕ)
with_imm f none = none
with_imm f (some (v, rest)) = some (f v, rest)

abbrev pub with_mem : ℕ → ℕ → ℕ → Option (ℕ × List ℕ) → Option (Ins × List ℕ)
with_mem op reg rm none = none
with_mem op reg rm (some (disp, rest)) =
    if op == 0x89
    then some (store rm disp reg, rest)
    else if op == 0x8d
    then some (lea reg rm disp, rest)
    else if op == 0xc7
    then with_imm (store_imm rm disp) (extended 32 (read_le 4 rest))
    else none

abbrev pub with_regs : ℕ → ℕ → ℕ → ℕ → List ℕ → Option (Ins × List ℕ)
with_regs op ext reg rm bs =
    if op == 0x89
    then some (mov rm reg, bs)
    else if op == 0x81
    then (if ext == 5
        then with_imm (sub rm) (extended 32 (read_le 4 bs))
        else if ext == 0
        then with_imm (add rm) (extended 32 (read_le 4 bs))
        else none)
    else if op == 0xff
    then (if ext == 2 then some (call rm, bs) else none)
    else none

-- The ModRM byte; `r` and `b` are the extension bits.
abbrev pub read_modrm : ℕ → ℕ → ℕ → List ℕ → Option (Ins × List ℕ)
read_modrm r b op [] = none
read_modrm r b op (m ∷ bs) =
    if m / 64 == 3
    then with_regs op (m / 8 % 8) (m / 8 % 8 + 8 * r) (m % 8 + 8 * b) bs
    else with_mem op (m / 8 % 8 + 8 * r) (m % 8 + 8 * b) (read_disp (m / 64) (skip_sib (m % 8) bs))

-- The opcode, `w` tells a 64-bit operand.
abbrev pub read_opcode : ℕ → ℕ → ℕ → List ℕ → Option (Ins × List ℕ)
read_opcode w r b [] = none
read_opcode w r b (op ∷ bs) =
    if op / 8 == 10
    then some (push (op % 8 + 8 * b), bs)
    else if op / 8 == 11
    then some (pop (op % 8 + 8 * b), bs)
    else if op / 8 == 23
    then with_imm (load (op % 8 + 8 * b)) (read_le (if w == 1 then 8 else 4) bs)
    else if op == 0xc3
    then some (ret, bs)
    else read_modrm r b op bs

-- One instruction. The first byte may be a REX prefix, 0x40 to 0x4f.
unfoldable pub decode : List ℕ → Option (Ins × List ℕ)
unfolding read_disp read_le
decode [] = none
decode (b ∷ bs) =
    if b / 16 == 4
    then read_opcode (b / 8 % 2) (b / 4 % 2) (b % 2) bs
    else read_opcode 0 0 0 (b ∷ bs)

-- The bytes as instructions, each with its size. Every instruction has a byte at least, so the number
-- of bytes is fuel enough.
abbrev pub Listing : Type 0
Listing = List (ℕ × Ins)

abbrev pub sized : ℕ → Ins → Option Listing → Option Listing
sized n i none = none
sized n i (some is) = some ((n, i) ∷ is)

unfoldable pub disassemble_from : ℕ → List ℕ → Option Listing
disassemble_from zero [] = some []
disassemble_from zero (b ∷ bs) = none
disassemble_from (suc fuel) [] = some []
disassemble_from (suc fuel) (b ∷ bs) = elim (decode (b ∷ bs)) [
  | none ↦ none
  | some (i, rest) ↦ sized (suc (length bs) - length rest) i (disassemble_from fuel rest)
]

abbrev pub disassemble : List ℕ → Option Listing
disassemble bs = disassemble_from (length bs) bs

-- Registers, and memory by the addresses of its words.
pub record Cpu : Type 0 where
  pub regs : ℕ → ℕ
  pub mem : ℕ → ℕ

abbrev pub update : (ℕ → ℕ) → ℕ → ℕ → ℕ → ℕ
update f i v j = if i == j then v else f j

abbrev pub plus : ℕ → ℕ → ℕ
plus a b = (a + b) % 2 ^ 64

abbrev pub minus : ℕ → ℕ → ℕ
minus a b = (a + 2 ^ 64 - b) % 2 ^ 64

abbrev pub set_reg : ℕ → ℕ → Cpu → Cpu
set_reg r v c = record c { regs = update c.regs r v }

abbrev pub write : ℕ → ℕ → Cpu → Cpu
write a v c = record c { mem = update c.mem a v }

-- `callee a` is what the function at address `a` does between its call and its return.
unfoldable pub step : (ℕ → Cpu → Cpu) → Ins → Cpu → Cpu
step callee (push r) c = let sp = minus (c.regs 4) 8 in write sp (c.regs r) (set_reg 4 sp c)
step callee (pop r) c = set_reg r (c.mem (c.regs 4)) (set_reg 4 (plus (c.regs 4) 8) c)
step callee (mov d s) c = set_reg d (c.regs s) c
step callee (store b o r) c = write (plus (c.regs b) o) (c.regs r) c
step callee (store_imm b o v) c = write (plus (c.regs b) o) v c
step callee (lea d b o) c = set_reg d (plus (c.regs b) o) c
step callee (sub r n) c = set_reg r (minus (c.regs r) n) c
step callee (add r n) c = set_reg r (plus (c.regs r) n) c
step callee (load r v) c = set_reg r v c
step callee (call r) c = callee (c.regs r) c
step callee ret c = set_reg 4 (plus (c.regs 4) 8) c

unfoldable pub exec : (ℕ → Cpu → Cpu) → Listing → Cpu → Cpu
exec callee [] c = c
exec callee ((n, i) ∷ is) c = exec callee is (step callee i c)

abbrev pub run_listing : (ℕ → Cpu → Cpu) → Option Listing → Cpu → Option Cpu
run_listing callee none c = none
run_listing callee (some is) c = some (exec callee is c)

abbrev pub run_code : (ℕ → Cpu → Cpu) → List ℕ → Cpu → Option Cpu
run_code callee code c = run_listing callee (disassemble code) c

-- The state before each instruction, with the offset of the instruction.
unfoldable pub trace : (ℕ → Cpu → Cpu) → ℕ → Listing → Cpu → List (ℕ × Cpu)
trace callee pc [] c = []
trace callee pc ((n, i) ∷ is) c = (pc, c) ∷ trace callee (pc + n) is (step callee i c)
