-- ===== src/Jit/Amd64.antt =====
-- The trampoline of jitcode_amd64.go, put together from the bytes of its lines; a panic is `none`.
pub mod Asm
pub mod Ins
pub mod Lines
pub mod Listing
pub mod Stub
pub mod Assembled
pub mod Clearing
pub mod Running
pub mod Depth
pub mod Unwind
use go_weave.Prelude.{
  ℕ, zero, suc, ◌+◌, ◌-◌, ◌*◌, ◌/◌, ◌%◌, ◌^◌, bit_and, bit_or, Bool, true, false, not, ◌&&◌, ◌||◌,
  Option, none, some, List, [], ◌∷◌, ◌++◌, String, ltb, leb, ◌==◌, if◌then◌else◌, length,
}
use go_weave.Prelude.Bits.{has_bit}
use go_weave.Abi.Layout.{StubShape}
use go_weave.Jit.Pcsp.{PcspEntry, encode_pcsp}
use go_weave.Jit.Text.{Text, bytes, is, ℤ, pos, sprintf, fields, parse_imm, to_u32, to_u64}
use go_weave.Jit.Amd64.Asm.{
  imm32, imm64, disp_encoding, is_sep, tokenize, parse_reg64, is_mem, trim_open, trim_close,
  cut_plus, with_disp, parse_parts, parse_mem, is_imm, rex_bit, mod_rm, sib, mov_regs,
  store_imm_bytes, reg_mem_bytes, store_at, store_mem, parse_mov, lea_at, lea_mem, parse_lea,
  stack_op, imm_op, low_word, whole_word, parse_tokens, parse_ins, asm,
}

abbrev pub jit_frame_size : ℕ
jit_frame_size = 0xd0

abbrev pub jit_sp_delta : ℕ
jit_sp_delta = jit_frame_size + 8

-- `emit` of several instructions.
infixr 5 ◌then_emit◌
abbrev pub ◌then_emit◌ : Option (List ℕ) → Option (List ℕ) → Option (List ℕ)
none then_emit more = none
some b then_emit none = none
some b then_emit some bs = some (b ++ bs)

unfoldable pub prologue : Option (List ℕ)
prologue =
    asm "PUSH RBP" []
    then_emit asm "MOV RBP, RSP" []
    then_emit asm "SUB RSP, #%d" (jit_frame_size ∷ [])

unfoldable pub stack_param : Option (List ℕ)
stack_param =
    asm "MOV [RSP], R11" []
    then_emit asm "LEA RDX, [RSP+%d]" ((jit_frame_size + 16) ∷ [])
    then_emit asm "MOV [RSP+8], RDX" []

-- The loop that clears the result words, from word `i` with `n` left.
unfoldable pub zero_words : StubShape → ℕ → ℕ → Option (List ℕ)
zero_words sh i zero = some []
zero_words sh i (suc n) =
    let rest = zero_words sh (i + 1) n in
    if has_bit 64 sh.ret_ptrs i
    then asm "MOV [RDX+%d], #0" (((sh.arg_words + i) * 8) ∷ []) then_emit rest
    else rest

unfoldable pub shift_regs : Option (List ℕ)
shift_regs =
    asm "MOV R11, R10" []
    then_emit asm "MOV R10, R9" []
    then_emit asm "MOV R9, R8" []
    then_emit asm "MOV R8, RSI" []
    then_emit asm "MOV RSI, RDI" []
    then_emit asm "MOV RDI, RCX" []
    then_emit asm "MOV RCX, RBX" []
    then_emit asm "MOV RBX, RAX" []

unfoldable pub call_dispatch : ℕ → ℕ → Option (List ℕ)
call_dispatch index dispatch =
    asm "MOVL EAX, #%d" (index ∷ [])
    then_emit asm "MOVABS R12, #%d" (dispatch ∷ [])
    then_emit asm "CALL R12" []

unfoldable pub epilogue : Option (List ℕ)
epilogue =
    asm "ADD RSP, #%d" (jit_frame_size ∷ []) then_emit asm "POP RBP" [] then_emit asm "RET" []

-- The entries, from the lengths of the prologue and of the whole code.
abbrev pub stub_entries : ℕ → ℕ → List PcspEntry
stub_entries sp_moved size =
    record { pc = 1; spdelta = 0 }
    ∷ record { pc = sp_moved; spdelta = 8 }
    ∷ record { pc = size - 2; spdelta = jit_sp_delta }
    ∷ record { pc = size - 1; spdelta = 8 }
    ∷ record { pc = size; spdelta = 0 }
    ∷ []

abbrev pub finish_stub : Option (List ℕ) → Option (List ℕ) → Option (List ℕ × List ℕ)
finish_stub none body = none
finish_stub (some start) none = none
finish_stub (some start) (some body) =
    let code = start ++ body in some (code, encode_pcsp (stub_entries (length start) (length code)))

unfoldable pub jit_stub_code : StubShape → ℕ → Option (List ℕ × List ℕ)
jit_stub_code sh dispatch = finish_stub prologue (
    stack_param
    then_emit zero_words sh 0 sh.ret_words
    then_emit shift_regs
    then_emit call_dispatch sh.index dispatch
    then_emit epilogue)
