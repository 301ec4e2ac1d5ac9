-- ===== src/Jit/Arm64.antt =====
-- The trampoline of jitcode_arm64.go, put together from its instructions; a panic is `none`.
pub mod Asm
pub mod Lines
pub mod Size
use go_weave.Prelude.{
  ℕ, zero, suc, ◌+◌, ◌-◌, ◌*◌, ◌/◌, ◌%◌, ◌^◌, bit_and, bit_or, Bool, true, false, not, ◌&&◌, ◌||◌,
  Option, none, some, List, [], ◌∷◌, ◌++◌, String, ltb, leb, ◌==◌, if◌then◌else◌, length,
}
use go_weave.Prelude.Bits.{has_bit}
use go_weave.Abi.Layout.{StubShape}
use go_weave.Jit.Pcsp.{PcspEntry, encode_pcsp}
use go_weave.Jit.Text.{
  Text, bytes, is, ℤ, pos, negsuc, sprintf, fields, parse_int, parse_imm, to_u32,
}
use go_weave.Jit.Arm64.Asm.{
  is_sep, tokenize, reg_number, numbered_reg, parse_reg, field, with_field, reg_field, imm_bits,
  imm_field, word_offset, pair_offset, parse_shift, shift_field, parse_tokens, parse_ins, asm,
}

abbrev pub frame_size : ℕ
frame_size = 288

-- `jitSPDelta`.
abbrev pub sp_delta : ℕ
sp_delta = frame_size

-- `code` has 512 bytes.
abbrev pub code_size : ℕ
code_size = 512

abbrev pub word_bytes : ℕ → List ℕ
word_bytes i = i % 256 ∷ i / 2 ^ 8 % 256 ∷ i / 2 ^ 16 % 256 ∷ i / 2 ^ 24 % 256 ∷ []

-- `put`, in turn on each instruction. The bytes put so far are `code`; behind the last byte it panics.
unfoldable pub put_all : List (Option ℕ) → List ℕ → Option (List ℕ)
put_all [] code = some code
put_all (none ∷ is) code = none
put_all (some i ∷ is) code =
    let rest = put_all is (code ++ word_bytes i) in
    if leb (length code + 4) code_size then rest else none

unfoldable pub open_frame : List (Option ℕ)
open_frame =
    asm "SUB R20, SP, #%d" (frame_size ∷ [])
    ∷ asm "STP R29, R30, [R20, #-8]" []
    ∷ asm "ADD SP, R20, #0" []
    ∷ []

unfoldable pub stack_param : List (Option ℕ)
stack_param =
    asm "SUB R29, SP, #8" []
    ∷ asm "STR R15, [SP, #8]" []
    ∷ asm "ADD R16, SP, #%d" ((frame_size + 8) ∷ [])
    ∷ asm "STR R16, [SP, #16]" []
    ∷ []

-- The loop that clears the result words, from word `i` with `n` left.
unfoldable pub zero_words : StubShape → ℕ → ℕ → List (Option ℕ)
zero_words sh i zero = []
zero_words sh i (suc n) =
    let rest = zero_words sh (i + 1) n in
    if has_bit 64 sh.ret_ptrs i
    then asm "STR ZR, [R16, #%d]" (((sh.arg_words + i) * 8) ∷ []) ∷ rest
    else rest

-- The loop from R14 down; `n` registers are left.
unfoldable pub shift_regs : ℕ → List (Option ℕ)
shift_regs zero = []
shift_regs (suc r) = asm "MOV R%d, R%d" ((r + 1) ∷ r ∷ []) ∷ shift_regs r

unfoldable pub call_dispatch : ℕ → ℕ → List (Option ℕ)
call_dispatch index dispatch =
    asm "MOVZ R0, #%d" (index ∷ [])
    ∷ asm "MOVZ R16, #%d" ((dispatch % 2 ^ 16) ∷ [])
    ∷ asm "MOVK R16, #%d, LSL #16" ((dispatch / 2 ^ 16 % 2 ^ 16) ∷ [])
    ∷ asm "MOVK R16, #%d, LSL #32" ((dispatch / 2 ^ 32 % 2 ^ 16) ∷ [])
    ∷ asm "MOVK R16, #%d, LSL #48" ((dispatch / 2 ^ 48 % 2 ^ 16) ∷ [])
    ∷ asm "BLR R16" []
    ∷ []

unfoldable pub close_frame : List (Option ℕ)
close_frame = asm "LDP R29, R30, [SP, #-8]" [] ∷ asm "ADD SP, SP, #%d" (frame_size ∷ []) ∷ []

abbrev pub stub_entries : ℕ → ℕ → ℕ → List PcspEntry
stub_entries sp_moved sp_restored size =
    record { pc = sp_moved; spdelta = 0 }
    ∷ record { pc = sp_restored; spdelta = sp_delta }
    ∷ record { pc = size; spdelta = 0 }
    ∷ []

abbrev pub then_put : Option (List ℕ) → List (Option ℕ) → Option (List ℕ)
then_put none is = none
then_put (some code) is = put_all is code

-- The code after the prologue, before RET and at the end.
abbrev pub finish_stub :
    Option (List ℕ) → Option (List ℕ) → Option (List ℕ) → Option (List ℕ × List ℕ)
finish_stub (some start) (some body) (some code) =
    some (code, encode_pcsp (stub_entries (length start) (length body) (length code)))
finish_stub _ _ _ = none

unfoldable pub jit_stub_code : StubShape → ℕ → Option (List ℕ × List ℕ)
jit_stub_code sh dispatch =
    let start = put_all open_frame [] in
    let body = then_put start (
      stack_param
      ++ (zero_words sh 0 sh.ret_words
          ++ (shift_regs 15 ++ (call_dispatch sh.index dispatch ++ close_frame)))) in
    finish_stub start body (then_put body (asm "RET" [] ∷ []))
