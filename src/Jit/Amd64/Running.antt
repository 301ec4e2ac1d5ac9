-- ===== src/Jit/Amd64/Running.antt =====
-- What the trampoline does when it runs: what it hands to `dispatch`, and what it leaves when
-- `dispatch` has come back.
use go_weave.Prelude.{
  ℕ, ◌+◌, ◌-◌, ◌*◌, ◌^◌, ◌<◌, ◌≤◌, ◌≡◌, ◌≢◌, refl, sym, ap, ◌∙◌, arith, true, List, ◌∷◌, ◌++◌, some,
}
use go_weave.Prelude.Bits.{has_bit}
use go_weave.Abi.Layout.{StubShape}
use go_weave.Jit.Amd64.{jit_stub_code, stub_entries}
use go_weave.Jit.Pcsp.{encode_pcsp}
use go_weave.Jit.Amd64.Ins.{Cpu, plus, minus, update, step, exec, run_code, run_listing}
use go_weave.Jit.Amd64.Listing.{listing, flat, disassemble-lines}
use go_weave.Jit.Amd64.Stub.{
  enter, param, clears, shuffle, load_target, before_call, call_line, leave, stub_lines,
}
use go_weave.Jit.Amd64.Assembled.{Fits, jit_stub_code-lines, stub_lines-All, stub_size}
use go_weave.Jit.Amd64.Clearing.{
  exec_lines, exec-append, result_word, clears-regs, clears-kept, clears-zero,
}

-- The stack has room for the frame below, and the stack area of the call lies above.
pub record HasRoom (sh : StubShape) (c : Cpu) : Type 0 where
  pub below : 0xd8 ≤ c.regs 4
  pub above : c.regs 4 + 8 + (sh.arg_words + sh.ret_words) * 8 < 2 ^ 64

-- Is `a` a result word of the call that the shape marks as a pointer? `area` is the stack area.
abbrev pub IsMarked : StubShape → ℕ → ℕ → Type 0
IsMarked sh area a =
    (i : ℕ) × (i < sh.ret_words)
    × (has_bit 64 sh.ret_ptrs i ≡ true)
    × (a ≡ area + (sh.arg_words + i) * 8)

-- State `b` is what `dispatch` is called with, by a trampoline that has been entered with `c`.
-- Register 0 is AX, then CX, DX, BX, SP, BP, SI, DI and R8 to R12.
pub record HandsOver (sh : StubShape) (dispatch : ℕ) (c b : Cpu) : Type 0 where
  pub index_first : b.regs 0 ≡ sh.index
  pub args_shifted :
      (b.regs 3 ≡ c.regs 0)
      × (b.regs 1 ≡ c.regs 3)
      × (b.regs 7 ≡ c.regs 1)
      × (b.regs 6 ≡ c.regs 7)
      × (b.regs 8 ≡ c.regs 6)
      × (b.regs 9 ≡ c.regs 8)
      × (b.regs 10 ≡ c.regs 9)
      × (b.regs 11 ≡ c.regs 10)
  pub last_on_stack : b.mem (b.regs 4) ≡ c.regs 11
  pub area_on_stack : b.mem (b.regs 4 + 8) ≡ c.regs 4 + 8
  pub target : b.regs 12 ≡ dispatch
  pub frame : b.regs 4 ≡ c.regs 4 - 0xd8
  pub saved : b.mem (c.regs 4 - 8) ≡ c.regs 5
  pub cleared : (a : ℕ) → IsMarked sh (c.regs 4 + 8) a → b.mem a ≡ 0
  pub kept : (a : ℕ) → c.regs 4 ≤ a → ¬ IsMarked sh (c.regs 4 + 8) a → b.mem a ≡ c.mem a

-- The called function comes back with the stack pointer and the saved frame pointer as they were, for
-- a trampoline that has been entered with `c`.
abbrev pub ComesBack : Cpu → Cpu → Type 0
ComesBack c d = (d.regs 4 ≡ c.regs 4 - 0xd8) × (d.mem (c.regs 4 - 8) ≡ c.regs 5)

-- What the caller of the trampoline gets: `d` is the state that `dispatch` has left.
pub record Returned (c d e : Cpu) : Type 0 where
  pub popped : e.regs 4 ≡ c.regs 4 + 8
  pub frame_back : e.regs 5 ≡ c.regs 5
  pub mem_same : e.mem ≡ d.mem
  pub others_same : (r : ℕ) → r ≢ 4 → r ≢ 5 → e.regs r ≡ d.regs r

module _ (callee : ℕ → Cpu → Cpu) where
  abbrev opened : Cpu → Cpu
  opened c = exec_lines callee (enter ++ param) c

  opened-regs :
      (c : Cpu)
      → 0xd8 ≤ c.regs 4
      → c.regs 4 + 8 < 2 ^ 64
      → ((opened c).regs 4 ≡ c.regs 4 - 0xd8) × ((opened c).regs 2 ≡ c.regs 4 + 8)
  unfolding exec listing step
  opened-regs c below above = (omega arith, omega arith)

  abbrev opened_mem : ℕ → Cpu → ℕ → ℕ
  opened_mem sp c =
      update (update (update c.mem (sp - 8) (c.regs 5)) (sp - 216) (c.regs 11)) (sp - 208) (sp + 8)

  opened-writes :
      (c : Cpu) → 0xd8 ≤ c.regs 4 → c.regs 4 + 8 < 2 ^ 64 → (opened c).mem ≡ opened_mem (c.regs 4) c
  unfolding exec listing step
  opened-writes c below above =
      let first : minus (c.regs 4) 8 ≡ c.regs 4 - 8 = omega arith in
      let second : plus (minus (minus (c.regs 4) 8) 208) 0 ≡ c.regs 4 - 216 = omega arith in
      let third : plus (minus (minus (c.regs 4) 8) 208) 8 ≡ c.regs 4 - 208 = omega arith in
      let fourth : plus (minus (minus (c.regs 4) 8) 208) 224 ≡ c.regs 4 + 8 = omega arith in
      rw (second, third, fourth, first) refl

  opened-mem :
      (c : Cpu)
      → 0xd8 ≤ c.regs 4
      → c.regs 4 + 8 < 2 ^ 64
      → ((opened c).mem (c.regs 4 - 0xd8) ≡ c.regs 11)
        × ((opened c).mem (c.regs 4 - 0xd8 + 8) ≡ c.regs 4 + 8)
        × ((opened c).mem (c.regs 4 - 8) ≡ c.regs 5)
  opened-mem c below above =
      rw (opened-writes c below above) (ground arith, ground arith, ground arith)

  opened-kept :
      (c : Cpu) (a : ℕ)
      → 0xd8 ≤ c.regs 4
      → c.regs 4 + 8 < 2 ^ 64
      → c.regs 4 ≤ a
      → (opened c).mem a ≡ c.mem a
  opened-kept c a below above high = rw (opened-writes c below above) (ground arith)

  -- The state at the call, and the state that the caller gets back.
  abbrev pub at_call : StubShape → ℕ → Cpu → Cpu
  at_call sh dispatch c = exec_lines callee (before_call sh dispatch) c

  at_call-opened :
      (sh : StubShape) (dispatch : ℕ) (c : Cpu)
      → at_call sh dispatch c
        ≡ exec_lines callee
            (shuffle ++ load_target sh.index dispatch)
            (exec_lines callee (clears sh 0 sh.ret_words) (opened c))
  at_call-opened sh dispatch c =
      exec-append callee (enter ++ param)
        (clears sh 0 sh.ret_words ++ (shuffle ++ load_target sh.index dispatch)) c
      ∙ exec-append callee (clears sh 0 sh.ret_words) (shuffle ++ load_target sh.index dispatch)
          (opened c)

  shuffle-regs :
      (sh : StubShape) (dispatch : ℕ) (c d : Cpu)
      → d.regs ≡ (opened c).regs
      → let b = exec_lines callee (shuffle ++ load_target sh.index dispatch) d in
        (b.regs 0 ≡ sh.index)
        × (b.regs 4 ≡ (opened c).regs 4)
        × (b.regs 12 ≡ dispatch)
        × ((b.regs 3 ≡ c.regs 0)
            × (b.regs 1 ≡ c.regs 3)
            × (b.regs 7 ≡ c.regs 1)
            × (b.regs 6 ≡ c.regs 7)
            × (b.regs 8 ≡ c.regs 6)
            × (b.regs 9 ≡ c.regs 8)
            × (b.regs 10 ≡ c.regs 9)
            × (b.regs 11 ≡ c.regs 10))
        × (b.mem ≡ d.mem)
  unfolding exec listing step
  shuffle-regs sh dispatch c d same = (
    refl,
    ap (λ f. f 4) same,
    refl,
    (
      ap (λ f. f 0) same,
      ap (λ f. f 3) same,
      ap (λ f. f 1) same,
      ap (λ f. f 7) same,
      ap (λ f. f 6) same,
      ap (λ f. f 8) same,
      ap (λ f. f 9) same,
      ap (λ f. f 10) same,
    ),
    refl,
  )

  module _ (sh : StubShape) (dispatch : ℕ) (c : Cpu) (room : HasRoom sh c) where
    low_room : c.regs 4 + 8 < 2 ^ 64
    low_room = omega (arith, room.above)

    word_at :
        (i : ℕ)
        → i < sh.ret_words
        → result_word sh ((opened c).regs 2) i ≡ c.regs 4 + 8 + (sh.arg_words + i) * 8
    word_at i small =
        ap (λ area. result_word sh area i) ((opened-regs c room.below low_room).1)
        ∙ omega (arith, room.above)

    cleared_regs : (exec_lines callee (clears sh 0 sh.ret_words) (opened c)).regs ≡ (opened c).regs
    cleared_regs = clears-regs callee sh 0 sh.ret_words (opened c)

    at_call-mem :
        (a : ℕ)
        → (at_call sh dispatch c).mem a
          ≡ (exec_lines callee (clears sh 0 sh.ret_words) (opened c)).mem a
    at_call-mem a =
        ap (λ b. b.mem a) (at_call-opened sh dispatch c)
        ∙ ap (λ f. f a)
            ((shuffle-regs sh dispatch c (exec_lines callee (clears sh 0 sh.ret_words) (opened c))
              cleared_regs).4)

    at_call-unmarked :
        (a : ℕ) → ¬ IsMarked sh (c.regs 4 + 8) a → (at_call sh dispatch c).mem a ≡ (opened c).mem a
    at_call-unmarked a h =
        at_call-mem a
        ∙ clears-kept callee sh 0 sh.ret_words (opened c) a (λ k low high bit same.
          let small : k < sh.ret_words = omega (arith, high) in
          h (k, small, bit, same ∙ word_at k small))

    at_call-marked : (a : ℕ) → IsMarked sh (c.regs 4 + 8) a → (at_call sh dispatch c).mem a ≡ 0
    at_call-marked a (k, small, bit, here) =
        ap ((at_call sh dispatch c).mem) (here ∙ sym (word_at k small))
        ∙ at_call-mem (result_word sh ((opened c).regs 2) k)
        ∙ clears-zero callee sh 0 sh.ret_words (opened c) k (omega arith) (omega (arith, small)) bit

    unmarked_below : (a : ℕ) → a < c.regs 4 + 8 → ¬ IsMarked sh (c.regs 4 + 8) a
    unmarked_below a low (k, small, bit, here) = omega (arith, here)

    pub at_call-HandsOver : HandsOver sh dispatch c (at_call sh dispatch c)
    at_call-HandsOver =
        let r =
          shuffle-regs sh dispatch c (exec_lines callee (clears sh 0 sh.ret_words) (opened c))
            cleared_regs in
        let o = opened-mem c room.below low_room in
        let there = at_call-opened sh dispatch c in
        let sp : (at_call sh dispatch c).regs 4 ≡ c.regs 4 - 0xd8 =
          ap (λ b. b.regs 4) there ∙ r.1 ∙ (opened-regs c room.below low_room).0 in
        record {
          index_first = ap (λ b. b.regs 0) there ∙ r.0;
          args_shifted = rw there (r.3);
          last_on_stack =
              ap ((at_call sh dispatch c).mem) sp
              ∙ at_call-unmarked (c.regs 4 - 0xd8) (unmarked_below _ (omega (arith, room.below)))
              ∙ o.0;
          area_on_stack =
              ap (λ a. (at_call sh dispatch c).mem (a + 8)) sp
              ∙ at_call-unmarked (c.regs 4 - 0xd8 + 8)
                  (unmarked_below _ (omega (arith, room.below)))
              ∙ o.1;
          target = ap (λ b. b.regs 12) there ∙ r.2;
          frame = sp;
          saved =
              at_call-unmarked (c.regs 4 - 8) (unmarked_below _ (omega (arith, room.below))) ∙ o.2;
          cleared = at_call-marked;
          kept = λ a high h. at_call-unmarked a h ∙ opened-kept c a room.below low_room high;
        }

    leave-Returned : (d : Cpu) → ComesBack c d → Returned c d (exec_lines callee leave d)
    unfolding exec listing step
    leave-Returned d (sp, bp) =
        let at : plus (d.regs 4) 0xd0 ≡ c.regs 4 - 8 = omega (arith, sp, room.below, low_room) in
        record {
          popped = omega (arith, sp, room.below, low_room);
          frame_back = ap d.mem at ∙ bp;
          mem_same = refl;
          others_same = λ r a b. ground arith;
        }

    -- The whole trampoline, up to the call, the call and behind it.
    stub_lines-exec :
        exec_lines callee (stub_lines sh dispatch) c
        ≡ exec_lines callee leave (callee dispatch (at_call sh dispatch c))
    unfolding exec listing step
    stub_lines-exec =
        let b = at_call sh dispatch c in
        exec-append callee (before_call sh dispatch) (call_line ∷ leave) c
        ∙ ap (λ r. exec_lines callee leave (callee r b)) (at_call-HandsOver.target)

run_code-lines :
    (callee : ℕ → Cpu → Cpu) (sh : StubShape) (dispatch : ℕ) (c : Cpu)
    → Fits sh dispatch
    → run_code callee (flat (stub_lines sh dispatch)) c
      ≡ some (exec_lines callee (stub_lines sh dispatch) c)
run_code-lines callee sh dispatch c fits =
    ap (λ o. run_listing callee o c)
      (disassemble-lines (stub_lines sh dispatch) (stub_lines-All sh dispatch fits))

-- For a shape that fits, the trampoline is assembled without a panic. A machine that reads its bytes
-- and runs them calls the function at address `dispatch`, with the state that `HandsOver` describes: the index in AX, the
-- arguments one register on, the ninth and the address of the stack area on the stack, the result
-- words that are marked cleared and all others of the caller kept. If `dispatch` comes back with the
-- stack pointer and the saved frame pointer as they were, the caller gets control back with the stack
-- and the frame pointer of before the call, and memory and results as `dispatch` has left them.
pub jit_stub_code-run_code :
    (sh : StubShape) (dispatch : ℕ) (callee : ℕ → Cpu → Cpu) (c : Cpu)
    → Fits sh dispatch
    → HasRoom sh c
    → ((b : Cpu) → HandsOver sh dispatch c b → ComesBack c (callee dispatch b))
    → (code : List ℕ) × (pcsp : List ℕ) × (b : Cpu) × (e : Cpu) × (jit_stub_code sh dispatch
        ≡ some (code, pcsp))
      × (run_code callee code c ≡ some e)
      × HandsOver sh dispatch c b
      × Returned c (callee dispatch b) e
jit_stub_code-run_code sh dispatch callee c fits room back =
    let b = at_call callee sh dispatch c in
    let handed = at_call-HandsOver callee sh dispatch c room in
    (
      flat (stub_lines sh dispatch),
      encode_pcsp (stub_entries 11 (stub_size sh dispatch)),
      b,
      exec_lines callee leave (callee dispatch b),
      jit_stub_code-lines sh dispatch fits,
      run_code-lines callee sh dispatch c fits
          ∙ ap some (stub_lines-exec callee sh dispatch c room),
      handed,
      leave-Returned callee sh dispatch c room (callee dispatch b) (back b handed),
    )
