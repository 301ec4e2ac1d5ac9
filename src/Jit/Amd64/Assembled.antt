-- ===== src/Jit/Amd64/Assembled.antt =====
-- The assembler makes the bytes of the trampoline, and the machine reads them as its instructions.
use go_weave.Prelude.{
  ℕ, zero, suc, ◌+◌, ◌*◌, ◌%◌, ◌^◌, ◌<◌, ◌≡◌, refl, sym, ap, ◌∙◌, arith, some, List, [], ◌∷◌, ◌++◌,
  Bool-cases, inl, inr, length, All, All-append,
}
use mathlib.Core.List.{append_assoc}
use go_weave.Prelude.Bits.{has_bit}
use go_weave.Abi.Layout.{StubShape}
use go_weave.Jit.Text.{pos, sprintf, fields, format_digits, parse_int, parse_imm, parse_digits}
use go_weave.Jit.Pcsp.{encode_pcsp}
use go_weave.Jit.Amd64.{
  prologue, stack_param, zero_words, shift_regs, call_dispatch, epilogue, jit_stub_code,
  stub_entries,
}
use go_weave.Jit.Amd64.Asm.{
  disp_encoding, store_imm_bytes, asm, parse_ins, tokenize, is_sep, parse_tokens, parse_mov,
  parse_lea, parse_reg64, parse_mem, trim_close, cut_plus,
}
use go_weave.Jit.Amd64.Ins.{decode, read_le, read_disp}
use go_weave.Jit.Amd64.Lines.{asm-movl, asm-movabs, asm-clear}
use go_weave.Jit.Amd64.Listing.{Line, IsLine, flat, clear-Encodes, imm32-Encodes, imm64-Encodes}
use go_weave.Jit.Amd64.Stub.{
  enter, param, clear_line, clears, shuffle, load_target, call_line, leave, before_call, stub_lines,
}

-- What the numbers of a shape are bounded by.
pub record Fits (sh : StubShape) (dispatch : ℕ) : Type 0 where
  pub index_fits : sh.index < 2 ^ 32
  pub words_fit : (sh.arg_words + sh.ret_words) * 8 < 2 ^ 31
  pub dispatch_fits : dispatch < 2 ^ 63

fixed-asm :
    (prologue ≡ some (flat enter))
    × (stack_param ≡ some (flat param))
    × (shift_regs ≡ some (flat shuffle))
    × (epilogue ≡ some (flat leave))
    × (asm "CALL R12" [] ≡ some (call_line.0))
unfolding prologue stack_param shift_regs epilogue asm parse_ins sprintf tokenize fields is_sep
    parse_tokens format_digits parse_int parse_imm parse_digits parse_mov parse_lea parse_reg64
    parse_mem trim_close cut_plus disp_encoding flat
fixed-asm = (refl, refl, refl, refl, refl)

enter-All : All IsLine enter
unfolding decode read_le read_disp
enter-All =
    ((λ rest. refl, omega arith), ((λ rest. refl, omega arith), ((λ rest. refl, omega arith), tt)))

param-All : All IsLine param
unfolding decode read_le read_disp
param-All =
    ((λ rest. refl, omega arith), ((λ rest. refl, omega arith), ((λ rest. refl, omega arith), tt)))

shuffle-All : All IsLine shuffle
unfolding decode
shuffle-All = (
  (λ rest. refl, omega arith),
  (
    (λ rest. refl, omega arith),
    (
      (λ rest. refl, omega arith),
      (
        (λ rest. refl, omega arith),
        (
          (λ rest. refl, omega arith),
          (
            (λ rest. refl, omega arith),
            ((λ rest. refl, omega arith), ((λ rest. refl, omega arith), tt)),
          ),
        ),
      ),
    ),
  ),
)

leave-All : All IsLine (call_line ∷ leave)
unfolding decode read_le
leave-All = (
  (λ rest. refl, omega arith),
  ((λ rest. refl, omega arith), ((λ rest. refl, omega arith), ((λ rest. refl, omega arith), tt))),
)

flat-append : (ls ls' : List Line) → flat (ls ++ ls') ≡ flat ls ++ flat ls'
unfolding flat
flat-append [] ls' = refl
flat-append ((bs, i) ∷ ls) ls' =
    ap (λ t. bs ++ t) (flat-append ls ls') ∙ sym (append_assoc bs (flat ls) (flat ls'))

clear-asm :
    (sh : StubShape) (i : ℕ)
    → (sh.arg_words + i) * 8 < 2 ^ 31
    → asm "MOV [RDX+%d], #0" (((sh.arg_words + i) * 8) ∷ []) ≡ some ((clear_line sh i).0)
clear-asm sh i small =
    let n = (sh.arg_words + i) * 8 in
    let whole : n % 2 ^ 32 ≡ n = omega arith in
    asm-clear n (omega arith) ∙ ap (λ d. store_imm_bytes 2 (disp_encoding d) (some (pos 0))) whole

clears-asm :
    (sh : StubShape) (i n : ℕ)
    → (sh.arg_words + (i + n)) * 8 < 2 ^ 31
    → zero_words sh i n ≡ some (flat (clears sh i n))
unfolding zero_words clears flat
clears-asm sh i zero small = refl
clears-asm sh i (suc n) small =
    let more = clears-asm sh (i + 1) n (omega arith) in
    elim (Bool-cases (has_bit 64 sh.ret_ptrs i)) [
      | inl e ↦ rw (zero_words, clears, e, clear-asm sh i (omega arith), more) refl
      | inr e ↦ rw (zero_words, clears, e) more
    ]

clears-All :
    (sh : StubShape) (i n : ℕ) → (sh.arg_words + (i + n)) * 8 < 2 ^ 31 → All IsLine (clears sh i n)
unfolding clears
clears-All sh i zero small = tt
clears-All sh i (suc n) small =
    let more = clears-All sh (i + 1) n (omega arith) in
    elim (Bool-cases (has_bit 64 sh.ret_ptrs i)) [
      | inl e ↦ rw (clears, e) ((clear-Encodes _ (omega arith), omega arith), more)
      | inr e ↦ rw (clears, e) more
    ]

-- The machine reads the trampoline as its instructions.
pub stub_lines-All :
    (sh : StubShape) (dispatch : ℕ) → Fits sh dispatch → All IsLine (stub_lines sh dispatch)
stub_lines-All sh dispatch fits =
    All-append IsLine (before_call sh dispatch) (call_line ∷ leave)
      (All-append IsLine enter
        (param ++ (clears sh 0 sh.ret_words ++ (shuffle ++ load_target sh.index dispatch)))
        enter-All
        (All-append IsLine param
          (clears sh 0 sh.ret_words ++ (shuffle ++ load_target sh.index dispatch)) param-All
          (All-append IsLine (clears sh 0 sh.ret_words) (shuffle ++ load_target sh.index dispatch)
            (clears-All sh 0 sh.ret_words (omega (arith, fits.words_fit)))
            (All-append IsLine shuffle (load_target sh.index dispatch) shuffle-All (
              (imm32-Encodes sh.index fits.index_fits, omega arith),
              ((imm64-Encodes dispatch (omega (arith, fits.dispatch_fits)), omega arith), tt),
            )))))
      leave-All

call_dispatch-lines :
    (sh : StubShape) (dispatch : ℕ)
    → Fits sh dispatch
    → call_dispatch sh.index dispatch
      ≡ some (flat (load_target sh.index dispatch ++ (call_line ∷ [])))
unfolding call_dispatch flat
call_dispatch-lines sh dispatch fits =
    let index_whole : sh.index % 2 ^ 32 ≡ sh.index = omega (arith, fits.index_fits) in
    let target_whole : dispatch % 2 ^ 64 ≡ dispatch = omega (arith, fits.dispatch_fits) in
    rw
      (
        asm-movl sh.index (omega (arith, fits.index_fits)),
        asm-movabs dispatch fits.dispatch_fits,
        fixed-asm.4,
        index_whole,
        target_whole,
      )
      refl

enter-size : length (flat enter) ≡ 11
unfolding flat
enter-size = refl

abbrev pub stub_size : StubShape → ℕ → ℕ
stub_size sh dispatch = length (flat (stub_lines sh dispatch))

stub_lines-flat :
    (sh : StubShape) (dispatch : ℕ)
    → flat enter
        ++ (flat param
            ++ (flat (clears sh 0 sh.ret_words)
                ++ (flat shuffle
                    ++ (flat (load_target sh.index dispatch ++ (call_line ∷ [])) ++ flat leave))))
      ≡ flat (stub_lines sh dispatch)
unfolding flat
stub_lines-flat sh dispatch =
    ap (λ t. flat enter ++ (flat param ++ t))
      (sym (
        flat-append (clears sh 0 sh.ret_words)
          (shuffle ++ (load_target sh.index dispatch ++ (call_line ∷ leave)))))
    ∙ ap (λ ls. flat enter ++ (flat param ++ flat ls))
        (sym (
          append_assoc (clears sh 0 sh.ret_words) (shuffle ++ load_target sh.index dispatch)
            (call_line ∷ leave)))

pub jit_stub_code-lines :
    (sh : StubShape) (dispatch : ℕ)
    → Fits sh dispatch
    → jit_stub_code sh dispatch
      ≡ some (flat (stub_lines sh dispatch), encode_pcsp (stub_entries 11 (stub_size sh dispatch)))
unfolding jit_stub_code
jit_stub_code-lines sh dispatch fits =
    rw
      (
        fixed-asm.0,
        fixed-asm.1,
        fixed-asm.2,
        fixed-asm.3,
        clears-asm sh 0 sh.ret_words (omega (arith, fits.words_fit)),
        call_dispatch-lines sh dispatch fits,
      )
      (ap (λ code. some (code, encode_pcsp (stub_entries (length (flat enter)) (length code))))
          (stub_lines-flat sh dispatch)
        ∙ ap
            (λ n.
              some (
                flat (stub_lines sh dispatch),
                encode_pcsp (stub_entries n (stub_size sh dispatch)),
              ))
            (enter-size))
