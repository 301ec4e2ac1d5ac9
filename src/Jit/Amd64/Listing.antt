-- ===== src/Jit/Amd64/Listing.antt =====
-- How the machine reads the bytes of the trampoline back: `disassemble` gives the instructions.
use go_weave.Prelude.{
  ℕ, zero, suc, ◌+◌, ◌-◌, ◌*◌, ◌/◌, ◌%◌, ◌^◌, bit_or, ◌<◌, ◌≤◌, ◌≢◌, ◌≡◌, refl, ap, ◌∙◌, arith,
  Option, none, some, List, [], ◌∷◌, ◌++◌, leb, ◌==◌, Bool-cases, inl, inr, length, length-append,
  All,
}
use go_weave.Jit.Amd64.Asm.{imm32, imm64, disp_encoding}
use go_weave.Jit.Amd64.Ins.{
  Ins, store_imm, load, Listing, sized, disassemble_from, disassemble, decode, read_le, read_disp,
  extend,
}

-- The bytes are one instruction, whatever follows them.
abbrev pub Encodes : List ℕ → Ins → Type 0
Encodes bs i = (rest : List ℕ) → decode (bs ++ rest) ≡ some (i, rest)

abbrev pub clear_bytes : ℕ × List ℕ → List ℕ
clear_bytes (mode, d) = (0x48 ∷ 0xc7 ∷ bit_or (mode * 2 ^ 6 % 256) 2 ∷ []) ++ (d ++ imm32 0)

pub imm32-Encodes : (n : ℕ) → n < 2 ^ 32 → Encodes (0xb8 ∷ imm32 n) (load 0 n)
unfolding decode read_le
imm32-Encodes n small rest = ap (λ v. some (load 0 v, rest)) (omega arith)

pub imm64-Encodes : (n : ℕ) → n < 2 ^ 64 → Encodes (0x49 ∷ 0xbc ∷ imm64 n) (load 12 n)
unfolding decode read_le
imm64-Encodes n small rest = ap (λ v. some (load 12 v, rest)) (omega arith)

clear-short : (n : ℕ) → n ≤ 127 → Encodes (clear_bytes (1, n ∷ [])) (store_imm 2 n 0)
unfolding decode read_le read_disp
clear-short n small rest =
    let plain : extend 8 (n + 0) ≡ n = ground arith in ap (λ v. some (store_imm 2 v 0, rest)) plain

clear-long : (n : ℕ) → n < 2 ^ 31 → Encodes (clear_bytes (2, imm32 n)) (store_imm 2 n 0)
unfolding decode read_le read_disp
clear-long n small rest =
    let value : n % 256
          + 256 * (n / 2 ^ 8 % 256 + 256 * (n / 2 ^ 16 % 256 + 256 * (n / 2 ^ 24 % 256 + 0)))
        ≡ n =
      omega arith in
    let plain : extend 32 n ≡ n = ground arith in
    ap (λ v. some (store_imm 2 (extend 32 v) 0, rest)) value
    ∙ ap (λ v. some (store_imm 2 v 0, rest)) plain

disp-short : (n : ℕ) → n ≤ 127 → n ≢ 0 → disp_encoding n ≡ (1, n ∷ [])
unfolding disp_encoding
disp-short n small h = ground arith

disp-long : (n : ℕ) → 127 < n → n < 2 ^ 31 → disp_encoding n ≡ (2, imm32 n)
unfolding disp_encoding
disp-long n large small = ground arith

clear-none : Encodes (clear_bytes (disp_encoding 0)) (store_imm 2 0 0)
unfolding decode disp_encoding
clear-none rest = refl

pub clear-Encodes : (n : ℕ) → n < 2 ^ 31 → Encodes (clear_bytes (disp_encoding n)) (store_imm 2 n 0)
clear-Encodes n small = elim (Bool-cases (n == 0)) [
  | inl e ↦ let z : n ≡ 0 = ground arith in rw z clear-none
  | inr e ↦ elim (Bool-cases (leb n 127)) [
    | inl l ↦ rw (disp-short n (ground arith) (ground arith)) (clear-short n (ground arith))
    | inr l ↦ rw (disp-long n (ground arith) small) (clear-long n small)
  ]
]

-- Bytes with the instruction that they are.
abbrev pub Line : Type 0
Line = List ℕ × Ins

abbrev pub IsLine : Line → Type 0
IsLine (bs, i) = Encodes bs i × (0 < length bs)

unfoldable pub flat : List Line → List ℕ
flat [] = []
flat ((bs, i) ∷ ls) = bs ++ flat ls

unfoldable pub listing : List Line → Listing
listing [] = []
listing ((bs, i) ∷ ls) = (length bs, i) ∷ listing ls

disassemble-line :
    (fuel : ℕ) (l : Line) (bs : List ℕ)
    → IsLine l
    → disassemble_from (suc fuel) (l.0 ++ bs) ≡ sized (length l.0) l.1 (disassemble_from fuel bs)
unfolding disassemble_from
disassemble-line fuel ([], i) bs (enc, some_byte) = absurd (omega arith)
disassemble-line fuel (b ∷ rest, i) bs (enc, some_byte) =
    ap
      (λ o. elim o as (λ x. Option Listing) [
        | none ↦ none
        | some (j, r) ↦ sized (suc (length (rest ++ bs)) - length r) j (disassemble_from fuel r)
      ])
      (enc bs)
    ∙ ap (λ n. sized n i (disassemble_from fuel bs)) (omega (arith, length-append rest bs))

-- Enough fuel is a step per line.
disassemble-flat :
    (fuel : ℕ) (ls : List Line)
    → All IsLine ls
    → length (flat ls) ≤ fuel
    → disassemble_from fuel (flat ls) ≡ some (listing ls)
unfolding disassemble_from flat listing
disassemble-flat zero [] h le = refl
disassemble-flat (suc fuel) [] h le = refl
disassemble-flat zero ((bs, i) ∷ ls) h le =
    absurd (omega (arith, length-append bs (flat ls), h.0.1))
disassemble-flat (suc fuel) ((bs, i) ∷ ls) h le =
    disassemble-line fuel (bs, i) (flat ls) h.0
    ∙ ap (sized (length bs) i)
        (disassemble-flat fuel ls h.1 (omega (arith, length-append bs (flat ls), h.0.1)))

pub disassemble-lines : (ls : List Line) → All IsLine ls → disassemble (flat ls) ≡ some (listing ls)
disassemble-lines ls h = disassemble-flat (length (flat ls)) ls h (omega arith)
