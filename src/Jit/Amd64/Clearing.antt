-- ===== src/Jit/Amd64/Clearing.antt =====
-- What the instructions that clear the result words do to the machine.
use go_weave.Prelude.{
  ℕ, zero, suc, ◌+◌, ◌*◌, ◌<◌, ◌≤◌, ◌≡◌, ◌≢◌, refl, sym, ap, ◌∙◌, arith, true, false, List, [], ◌∷◌,
  ◌++◌, ◌==◌, Bool-cases, inl, inr,
}
use go_weave.Prelude.Bits.{has_bit}
use go_weave.Abi.Layout.{StubShape}
use go_weave.Jit.Amd64.Ins.{Cpu, store_imm, plus, step, exec}
use go_weave.Jit.Amd64.Listing.{Line, listing}
use go_weave.Jit.Amd64.Stub.{clears}

abbrev pub exec_lines : (ℕ → Cpu → Cpu) → List Line → Cpu → Cpu
exec_lines callee ls c = exec callee (listing ls) c

pub exec-append :
    (callee : ℕ → Cpu → Cpu) (ls ls' : List Line) (c : Cpu)
    → exec_lines callee (ls ++ ls') c ≡ exec_lines callee ls' (exec_lines callee ls c)
unfolding exec listing
exec-append callee [] ls' c = refl
exec-append callee ((bs, i) ∷ ls) ls' c = exec-append callee ls ls' (step callee i c)

-- The address of result word `i`, from the address of the stack area.
abbrev pub result_word : StubShape → ℕ → ℕ → ℕ
result_word sh area i = plus area ((sh.arg_words + i) * 8)

module _ (callee : ℕ → Cpu → Cpu) (sh : StubShape) where
  abbrev cleared : ℕ → Cpu → Cpu
  cleared i c = step callee (store_imm 2 ((sh.arg_words + i) * 8) 0) c

  clear_step :
      (i n : ℕ) (c : Cpu)
      → has_bit 64 sh.ret_ptrs i ≡ true
      → exec_lines callee (clears sh i (suc n)) c
        ≡ exec_lines callee (clears sh (i + 1) n) (cleared i c)
  unfolding clears exec listing
  clear_step i n c e = rw (clears, e) refl

  skip_step :
      (i n : ℕ) (c : Cpu)
      → has_bit 64 sh.ret_ptrs i ≡ false
      → exec_lines callee (clears sh i (suc n)) c ≡ exec_lines callee (clears sh (i + 1) n) c
  unfolding clears
  skip_step i n c e = rw (clears, e) refl

  pub clears-regs : (i n : ℕ) (c : Cpu) → (exec_lines callee (clears sh i n) c).regs ≡ c.regs
  unfolding clears exec listing step
  clears-regs i zero c = refl
  clears-regs i (suc n) c = elim (Bool-cases (has_bit 64 sh.ret_ptrs i)) [
    | inl e ↦ ap (λ d. d.regs) (clear_step i n c e) ∙ clears-regs (i + 1) n (cleared i c)
    | inr e ↦ ap (λ d. d.regs) (skip_step i n c e) ∙ clears-regs (i + 1) n c
  ]

  -- Words that are none of those stay.
  pub clears-kept :
      (i n : ℕ) (c : Cpu) (a : ℕ)
      → ((k : ℕ)
          → i ≤ k
          → k < i + n
          → has_bit 64 sh.ret_ptrs k ≡ true
          → a ≢ result_word sh (c.regs 2) k)
      → (exec_lines callee (clears sh i n) c).mem a ≡ c.mem a
  unfolding clears exec listing step
  clears-kept i zero c a apart = refl
  clears-kept i (suc n) c a apart = elim (Bool-cases (has_bit 64 sh.ret_ptrs i)) [
    | inl e ↦
        let other : a ≢ result_word sh (c.regs 2) i = apart i (omega arith) (omega arith) e in
        ap (λ d. d.mem a) (clear_step i n c e)
        ∙ clears-kept (i + 1) n (cleared i c) a
            (λ k low high bit. apart k (omega arith) (omega arith) bit)
        ∙ ground arith
    | inr e ↦
        ap (λ d. d.mem a) (skip_step i n c e)
        ∙ clears-kept (i + 1) n c a (λ k low high bit. apart k (omega arith) (omega arith) bit)
  ]

  stays_zero :
      (i n : ℕ) (c : Cpu) (a : ℕ) → c.mem a ≡ 0 → (exec_lines callee (clears sh i n) c).mem a ≡ 0
  unfolding clears exec listing step
  stays_zero i zero c a z = z
  stays_zero i (suc n) c a z = elim (Bool-cases (has_bit 64 sh.ret_ptrs i)) [
    | inl e ↦
        ap (λ d. d.mem a) (clear_step i n c e) ∙ stays_zero (i + 1) n (cleared i c) a (ground arith)
    | inr e ↦ ap (λ d. d.mem a) (skip_step i n c e) ∙ stays_zero (i + 1) n c a z
  ]

  pub clears-zero :
      (i n : ℕ) (c : Cpu) (k : ℕ)
      → i ≤ k
      → k < i + n
      → has_bit 64 sh.ret_ptrs k ≡ true
      → (exec_lines callee (clears sh i n) c).mem (result_word sh (c.regs 2) k) ≡ 0
  unfolding clears exec listing step
  clears-zero i zero c k low high bit = absurd (omega arith)
  clears-zero i (suc n) c k low high bit = elim (Bool-cases (i == k)) [
    | inl here ↦
        let same : k ≡ i = ground arith in
        rw same (
          ap (λ d. d.mem (result_word sh (c.regs 2) i))
            (clear_step i n c (ap (has_bit 64 sh.ret_ptrs) (sym same) ∙ bit))
          ∙ stays_zero (i + 1) n (cleared i c) (result_word sh (c.regs 2) i) (ground arith))
    | inr later ↦ elim (Bool-cases (has_bit 64 sh.ret_ptrs i)) [
      | inl e ↦
          ap (λ d. d.mem (result_word sh (c.regs 2) k)) (clear_step i n c e)
          ∙ clears-zero (i + 1) n (cleared i c) k (ground arith) (omega arith) bit
      | inr e ↦
          ap (λ d. d.mem (result_word sh (c.regs 2) k)) (skip_step i n c e)
          ∙ clears-zero (i + 1) n c k (ground arith) (omega arith) bit
    ]
  ]
