-- ===== src/Jit/Amd64/Depth.antt =====
-- Where the stack pointer stands still in the trampoline, and how long its parts are.
use go_weave.Prelude.{
  ℕ, zero, suc, ◌+◌, ◌*◌, ◌<◌, ◌≤◌, ◌≡◌, refl, ap, ◌∙◌, arith, List, [], ◌∷◌, ◌++◌, Bool-cases, inl,
  inr, length, length-append, All, All-append,
}
use go_weave.Prelude.Bits.{has_bit}
use go_weave.Abi.Layout.{StubShape}
use go_weave.Jit.Amd64.Asm.{imm32, disp_encoding}
use go_weave.Jit.Amd64.Ins.{Cpu, step, exec, trace}
use go_weave.Jit.Amd64.Listing.{Line, IsLine, listing, flat}
use go_weave.Jit.Amd64.Stub.{param, clears, shuffle, load_target, before_call, call_line, leave}
use go_weave.Jit.Amd64.Assembled.{stub_size}
use go_weave.Jit.Amd64.Clearing.{exec_lines}

abbrev pub trace_lines : (ℕ → Cpu → Cpu) → ℕ → List Line → Cpu → List (ℕ × Cpu)
trace_lines callee pc ls c = trace callee pc (listing ls) c

-- While the stack pointer stands still, it is the one of the start, and the offsets are in range.
unfoldable pub Within : ℕ → ℕ → ℕ → ℕ × Cpu → Type 0
Within low high sp (pc, c) = (low ≤ pc) × (pc < high) × (c.regs 4 ≡ sp)

-- Behind the prologue and before the call.
abbrev pub middle : StubShape → ℕ → List Line
middle sh dispatch =
    param ++ (clears sh 0 sh.ret_words ++ (shuffle ++ load_target sh.index dispatch))

module _ (callee : ℕ → Cpu → Cpu) where
  pub trace-append :
      (pc : ℕ) (ls ls' : List Line) (c : Cpu)
      → trace_lines callee pc (ls ++ ls') c
        ≡ trace_lines callee pc ls c
          ++ trace_lines callee (pc + length (flat ls)) ls' (exec_lines callee ls c)
  unfolding trace listing flat exec
  trace-append pc [] ls' c = ap (λ k. trace_lines callee k ls' c) (omega arith)
  trace-append pc ((bs, i) ∷ ls) ls' c =
      ap (λ t. (pc, c) ∷ t)
        (trace-append (pc + length bs) ls ls' (step callee i c)
          ∙ ap
              (λ k.
                trace_lines callee (pc + length bs) ls (step callee i c)
                ++ trace_lines callee k ls' (exec_lines callee ls (step callee i c)))
              (omega (arith, length-append bs (flat ls))))

  -- The instruction leaves the stack pointer alone.
  abbrev Still : Line → Type 0
  Still (bs, i) = (c : Cpu) → (step callee i c).regs 4 ≡ c.regs 4

  widen :
      (low high low' sp sp' : ℕ) (ts : List (ℕ × Cpu))
      → low ≤ low'
      → sp' ≡ sp
      → All (Within low' high sp') ts
      → All (Within low high sp) ts
  unfolding Within
  widen low high low' sp sp' [] h same w = tt
  widen low high low' sp sp' (t ∷ ts) h same w =
      ((omega (arith, w.0), w.0.1, w.0.2 ∙ same), widen low high low' sp sp' ts h same w.1)

  pub Still-Within :
      (pc : ℕ) (ls : List Line) (c : Cpu)
      → All IsLine ls
      → All Still ls
      → All (Within pc (pc + length (flat ls)) (c.regs 4)) (trace_lines callee pc ls c)
  unfolding trace listing flat Within
  Still-Within pc [] c lines still = tt
  Still-Within pc ((bs, i) ∷ ls) c lines still =
      let size = length-append bs (flat ls) in
      let rest = Still-Within (pc + length bs) ls (step callee i c) lines.1 still.1 in
      let end : pc + length bs + length (flat ls) ≡ pc + length (bs ++ flat ls) =
        omega (arith, size) in
      (
        (omega arith, omega (arith, size, lines.0.1), refl),
        widen pc (pc + length (bs ++ flat ls)) (pc + length bs) (c.regs 4)
            ((step callee i c).regs 4) _ (omega arith) (still.0 c) (rw end at rest),
      )

  param-Still : All Still param
  unfolding step
  param-Still = (λ c. refl, (λ c. refl, (λ c. refl, tt)))

  shuffle-Still : All Still shuffle
  unfolding step
  shuffle-Still = (
    λ c. refl,
    (λ c. refl, (λ c. refl, (λ c. refl, (λ c. refl, (λ c. refl, (λ c. refl, (λ c. refl, tt))))))),
  )

  clears-Still : (sh : StubShape) (i n : ℕ) → All Still (clears sh i n)
  unfolding clears step
  clears-Still sh i zero = tt
  clears-Still sh i (suc n) = elim (Bool-cases (has_bit 64 sh.ret_ptrs i)) [
    | inl e ↦ rw (clears, e) (λ c. refl, clears-Still sh (i + 1) n)
    | inr e ↦ rw (clears, e) (clears-Still sh (i + 1) n)
  ]

  pub middle-Still : (sh : StubShape) (dispatch : ℕ) → All Still (middle sh dispatch)
  unfolding step
  middle-Still sh dispatch =
      All-append Still param
        (clears sh 0 sh.ret_words ++ (shuffle ++ load_target sh.index dispatch)) param-Still
        (All-append Still (clears sh 0 sh.ret_words) (shuffle ++ load_target sh.index dispatch)
          (clears-Still sh 0 sh.ret_words)
          (All-append Still shuffle (load_target sh.index dispatch) shuffle-Still
            (λ c. refl, (λ c. refl, tt))))

-- The sizes.
disp-length : (n : ℕ) → length (disp_encoding n).1 ≤ 4
unfolding disp_encoding
disp-length n = ground arith

pub clears-length : (sh : StubShape) (i n : ℕ) → length (flat (clears sh i n)) ≤ 11 * n
unfolding clears flat
clears-length sh i zero = omega arith
clears-length sh i (suc n) =
    let more = clears-length sh (i + 1) n in
    let disp = (disp_encoding ((sh.arg_words + i) * 8)).1 in
    elim (Bool-cases (has_bit 64 sh.ret_ptrs i)) [
      | inl e ↦
          rw (clears, e)
            (omega (
              arith,
              disp-length ((sh.arg_words + i) * 8),
              length-append disp (imm32 0),
              length-append (disp ++ imm32 0) (flat (clears sh (i + 1) n)),
              more,
            ))
      | inr e ↦ rw (clears, e) (omega (arith, more))
    ]

flat-length :
    (ls ls' : List Line) → length (flat (ls ++ ls')) ≡ length (flat ls) + length (flat ls')
unfolding flat
flat-length [] ls' = omega arith
flat-length ((bs, i) ∷ ls) ls' =
    omega
      (arith, flat-length ls ls', length-append bs (flat (ls ++ ls')), length-append bs (flat ls))

pub size-parts :
    (sh : StubShape) (dispatch : ℕ)
    → (stub_size sh dispatch ≡ length (flat (before_call sh dispatch)) + 12)
      × (length (flat (before_call sh dispatch)) ≡ 67 + length (flat (clears sh 0 sh.ret_words)))
unfolding flat
size-parts sh dispatch = (
  flat-length (before_call sh dispatch) (call_line ∷ leave),
  omega (arith, flat-length (clears sh 0 sh.ret_words) (shuffle ++ load_target sh.index dispatch)),
)
