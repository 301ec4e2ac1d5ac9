-- ===== src/Jit/Arm64/Size.antt =====
-- The buffer of the arm64 trampoline is large enough, and every line of it assembles.
use go_weave.Prelude.{
  ℕ, zero, suc, ◌+◌, ◌-◌, ◌*◌, ◌/◌, ◌%◌, ◌^◌, ◌<◌, ◌≤◌, ◌≡◌, refl, ap, ◌∙◌, arith, true, ◌||◌,
  Option, none, some, List, [], ◌∷◌, ◌++◌, ltb, leb, if◌then◌else◌, Bool-cases, inl, inr, length,
  length-append, All, All-append,
}
use go_weave.Prelude.Bits.{has_bit}
use go_weave.Abi.Layout.{AbiLayout, StubShape, shape, stub_max_words, sub_u64}
use go_weave.Abi.Types.{ptr_size}
use go_weave.Jit.Text.{sprintf, fields, format_digits, parse_imm, parse_int, parse_digits}
use go_weave.Jit.Pcsp.{encode_pcsp}
use go_weave.Jit.Arm64.{
  code_size, word_bytes, put_all, open_frame, stack_param, zero_words, shift_regs, call_dispatch,
  close_frame, stub_entries, then_put, finish_stub, jit_stub_code,
}
use go_weave.Jit.Arm64.Asm.{is_sep, tokenize, parse_reg, parse_tokens, parse_ins, asm}
use go_weave.Jit.Arm64.Lines.{asm-clear, asm-index, asm-low, asm-keep_16, asm-keep_32, asm-keep_48}

abbrev IsSome : Option ℕ → Type 0
IsSome o = (i : ℕ) × (o ≡ some i)

abbrev Assembled : List (Option ℕ) → Type 0
Assembled is = All IsSome is

-- The instructions are put, if there is room for four bytes each.
abbrev Stored : List (Option ℕ) → List ℕ → Type 0
Stored is code =
    (code' : List ℕ) × (put_all is code ≡ some code') × (length code' ≡ length code + 4 * length is)

put_all-Stored :
    (is : List (Option ℕ)) (code : List ℕ)
    → Assembled is
    → length code + 4 * length is ≤ 512
    → Stored is code
unfolding put_all
put_all-Stored [] code h room = (code, refl, omega arith)
put_all-Stored (none ∷ is) code ((i, bad), h) room = absurd (cc)
put_all-Stored (some i ∷ is) code (h, hs) room =
    let size = length-append code (word_bytes i) in
    let fits : leb (length code + 4) 512 ≡ true = ground arith in
    let (code', e, n) = put_all-Stored is (code ++ word_bytes i) hs (omega (arith, size)) in
    rw (put_all, fits) (code', e, omega (arith, n, size))

open_frame-Assembled : Assembled open_frame
unfolding open_frame asm parse_ins sprintf tokenize fields is_sep parse_tokens parse_reg parse_int
    parse_digits parse_imm format_digits
open_frame-Assembled = ((_, refl), ((_, refl), ((_, refl), tt)))

stack_param-Assembled : Assembled stack_param
unfolding stack_param asm parse_ins sprintf tokenize fields is_sep parse_tokens parse_reg parse_int
    parse_digits parse_imm format_digits
stack_param-Assembled = ((_, refl), ((_, refl), ((_, refl), ((_, refl), tt))))

close_frame-Assembled : Assembled close_frame
unfolding close_frame asm parse_ins sprintf tokenize fields is_sep parse_tokens parse_reg parse_int
    parse_digits parse_imm format_digits
close_frame-Assembled = ((_, refl), ((_, refl), tt))

ret-Assembled : Assembled (asm "RET" [] ∷ [])
unfolding asm parse_ins sprintf tokenize fields is_sep parse_tokens parse_reg parse_int parse_digits
    parse_imm format_digits
ret-Assembled = ((_, refl), tt)

open_frame-length : length open_frame ≡ 3
unfolding open_frame
open_frame-length = refl

shift_regs-Assembled : Assembled (shift_regs 15)
unfolding shift_regs asm parse_ins sprintf tokenize fields is_sep parse_tokens parse_reg parse_int
    parse_digits parse_imm format_digits
shift_regs-Assembled = (
  (_, refl),
  (
    (_, refl),
    (
      (_, refl),
      (
        (_, refl),
        (
          (_, refl),
          (
            (_, refl),
            (
              (_, refl),
              (
                (_, refl),
                (
                  (_, refl),
                  ((_, refl), ((_, refl), ((_, refl), ((_, refl), ((_, refl), ((_, refl), tt)))))),
                ),
              ),
            ),
          ),
        ),
      ),
    ),
  ),
)

call_dispatch-Assembled :
    (index dispatch : ℕ) → index < 2 ^ 63 → Assembled (call_dispatch index dispatch)
unfolding call_dispatch asm parse_ins sprintf tokenize fields is_sep parse_tokens parse_reg
    parse_int parse_digits
call_dispatch-Assembled index dispatch small = (
  (_, asm-index index small),
  (
    (_, asm-low (dispatch % 2 ^ 16) (omega arith)),
    (
      (_, asm-keep_16 (dispatch / 2 ^ 16 % 2 ^ 16) (omega arith)),
      (
        (_, asm-keep_32 (dispatch / 2 ^ 32 % 2 ^ 16) (omega arith)),
        ((_, asm-keep_48 (dispatch / 2 ^ 48 % 2 ^ 16) (omega arith)), ((_, refl), tt)),
      ),
    ),
  ),
)

-- How many of `n` result words, from word `i`, the shape marks.
unfoldable pub marked_words : StubShape → ℕ → ℕ → ℕ
marked_words sh i zero = 0
marked_words sh i (suc n) =
    let rest = marked_words sh (i + 1) n in if has_bit 64 sh.ret_ptrs i then suc rest else rest

zero_words-length : (sh : StubShape) (i n : ℕ) → length (zero_words sh i n) ≡ marked_words sh i n
unfolding zero_words marked_words
zero_words-length sh i zero = refl
zero_words-length sh i (suc n) = elim (Bool-cases (has_bit 64 sh.ret_ptrs i)) [
  | inl e ↦ rw (zero_words, marked_words, e) (ap suc (zero_words-length sh (i + 1) n))
  | inr e ↦ rw (zero_words, marked_words, e) (zero_words-length sh (i + 1) n)
]

marked_words-bound : (sh : StubShape) (i n : ℕ) → marked_words sh i n ≤ n
unfolding marked_words
marked_words-bound sh i zero = omega arith
marked_words-bound sh i (suc n) = let rest = marked_words-bound sh (i + 1) n in ground arith

zero_words-Assembled :
    (sh : StubShape) (i n : ℕ) → sh.arg_words ≤ 64 → i + n ≤ 64 → Assembled (zero_words sh i n)
unfolding zero_words
zero_words-Assembled sh i zero args results = tt
zero_words-Assembled sh i (suc n) args results =
    let rest = zero_words-Assembled sh (i + 1) n args (omega arith) in
    elim (Bool-cases (has_bit 64 sh.ret_ptrs i)) [
      | inl e ↦ rw (zero_words, e) ((_, asm-clear ((sh.arg_words + i) * 8) (omega arith)), rest)
      | inr e ↦ rw (zero_words, e) rest
    ]

abbrev pub IsSmall : Option StubShape → ℕ → Type 0
IsSmall none idx = Unit
IsSmall (some sh) idx = (sh.index ≡ idx) × (sh.arg_words ≤ 64) × (sh.ret_words ≤ 64)

pub shape-IsSmall : (l : AbiLayout) (idx : ℕ) → IsSmall (shape l idx) idx
unfolding shape
shape-IsSmall l idx =
    elim (Bool-cases (
      ltb stub_max_words (l.ret_offset / ptr_size)
      || ltb stub_max_words (sub_u64 l.stack_bytes l.ret_offset / ptr_size))) [
        | inl e ↦ rw (shape, e) tt
        | inr e ↦ rw (shape, e) (refl, ground arith, ground arith)
      ]

-- Behind the prologue, without RET.
abbrev body_of : StubShape → ℕ → List (Option ℕ)
body_of sh dispatch =
    stack_param
    ++ (zero_words sh 0 sh.ret_words
        ++ (shift_regs 15 ++ (call_dispatch sh.index dispatch ++ close_frame)))

body_of-Assembled :
    (sh : StubShape) (dispatch : ℕ)
    → sh.index < 2 ^ 63
    → sh.arg_words ≤ 64
    → sh.ret_words ≤ 64
    → Assembled (body_of sh dispatch)
body_of-Assembled sh dispatch small args results =
    All-append IsSome stack_param _ stack_param-Assembled (
      All-append IsSome (zero_words sh 0 sh.ret_words) _
        (zero_words-Assembled sh 0 sh.ret_words args (omega (arith, results)))
        (All-append IsSome (shift_regs 15) _ shift_regs-Assembled (
          All-append IsSome (call_dispatch sh.index dispatch) close_frame
            (call_dispatch-Assembled sh.index dispatch small) close_frame-Assembled)))

body_of-length :
    (sh : StubShape) (dispatch : ℕ)
    → length (body_of sh dispatch) ≡ 27 + marked_words sh 0 sh.ret_words
unfolding stack_param shift_regs call_dispatch close_frame
body_of-length sh dispatch = omega (
  arith,
  length-append (zero_words sh 0 sh.ret_words)
      (shift_regs 15 ++ (call_dispatch sh.index dispatch ++ close_frame)),
  zero_words-length sh 0 sh.ret_words,
)

pub small-code :
    (sh : StubShape) (dispatch : ℕ)
    → sh.index < 2 ^ 63
    → sh.arg_words ≤ 64
    → sh.ret_words ≤ 64
    → (code : List ℕ) × (jit_stub_code sh dispatch
        ≡ some (code, encode_pcsp (stub_entries 12 (length code - 4) (length code))))
      × (length code ≡ 4 * (31 + marked_words sh 0 sh.ret_words))
unfolding jit_stub_code
small-code sh dispatch small args results =
    let three = open_frame-length in
    let lines = body_of-length sh dispatch in
    let bound = marked_words-bound sh 0 sh.ret_words in
    let (start, e, m) = put_all-Stored open_frame [] open_frame-Assembled (omega (arith, three)) in
    let (body, f, n) =
      put_all-Stored (body_of sh dispatch) start (body_of-Assembled sh dispatch small args results)
        (omega (arith, three, m, lines, bound)) in
    let (code, g, o) =
      put_all-Stored (asm "RET" [] ∷ []) body ret-Assembled
        (omega (arith, three, m, n, lines, bound)) in
    (
      code,
      ap
            (λ s.
              finish_stub s (then_put s (body_of sh dispatch))
                (then_put (then_put s (body_of sh dispatch)) (asm "RET" [] ∷ [])))
            e
          ∙ ap (λ s. finish_stub (some start) s (then_put s (asm "RET" [] ∷ []))) f
          ∙ ap (λ s. finish_stub (some start) (some body) s) g
          ∙ ap (λ k. some (code, encode_pcsp (stub_entries k (length body) (length code))))
              (omega (arith, three, m))
          ∙ ap (λ k. some (code, encode_pcsp (stub_entries 12 k (length code)))) (omega (arith, o)),
      omega (arith, three, m, n, o, lines),
    )

-- Where the code makes a trampoline of a method's shape, the arm64 trampoline is made without a panic:
-- every line assembles, and the buffer of 512 bytes is large enough. The code has 31 instructions and
-- one for each result word that the shape marks, of four bytes each, and the entries that `encodePCSP`
-- is given, which are byte offsets, have the frame open from 12 up to the last instruction. It holds
-- for a method index below 2 ^ 63.
pub jit_stub_code-shape :
    (l : AbiLayout) (idx dispatch : ℕ) (sh : StubShape)
    → idx < 2 ^ 63
    → shape l idx ≡ some sh
    → (code : List ℕ) × (jit_stub_code sh dispatch
        ≡ some (code, encode_pcsp (stub_entries 12 (length code - 4) (length code))))
      × (length code ≡ 4 * (31 + marked_words sh 0 sh.ret_words))
      × (length code ≤ code_size)
jit_stub_code-shape l idx dispatch sh small e =
    let (same, args, results) = rw e at (shape-IsSmall l idx) in
    let (code, made, size) = small-code sh dispatch (omega (arith, same, small)) args results in
    (code, made, size, omega (arith, size, marked_words-bound sh 0 sh.ret_words, results))
