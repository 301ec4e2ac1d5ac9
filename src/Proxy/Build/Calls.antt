-- ===== src/Proxy/Build/Calls.antt =====
-- A call through a slot of a forged itab on amd64: what arrives at `Dispatch`.
use go_weave.Prelude.{
  ℕ, ◌+◌, ◌-◌, ◌^◌, ◌<◌, ◌≤◌, ◌≡◌, refl, sym, ap, ◌∙◌, arith, some, List, ◌∷◌, ◌++◌, inl, inr,
}
use go_weave.Abi.Types.{Arch}
use go_weave.Abi.Layout.{AbiLayout, StubShape}
use go_weave.Jit.Amd64.Ins.{Cpu, run_code}
use go_weave.Jit.Amd64.Assembled.{Fits}
use go_weave.Jit.Amd64.Running.{HasRoom, HandsOver, ComesBack, Returned, jit_stub_code-run_code}
use go_weave.Jit.Arm64.Size.{shape-IsSmall}
use go_weave.Jit.Cache.{Os, Jit, slot_count}
use go_weave.Jit.Cache.Startup.{IsTarget, AlwaysMaps}
use go_weave.Jit.Cache.Choice.{Wanted}
use go_weave.Jit.Cache.Targets.{amd64_target}
use go_weave.Proxy.Build.{IfaceMethod, MethodInfo}
use go_weave.Proxy.Build.Slots.{IsSlot}

module _ {Space : Type 0} (func_size dispatch : ℕ) (os : Os Space)
    (ok : IsTarget (amd64_target func_size dispatch)) (maps : AlwaysMaps os) where
  module _ (arch : Arch) (window : arch.stack_window ≤ 512) (ps : List ℕ) where
    -- A shape for slot `i` that the trampolines take.
    abbrev IsSlotShape : StubShape → ℕ → Type 0
    IsSlotShape sh i = (sh.index ≡ i) × (sh.arg_words ≤ 64) × (sh.ret_words ≤ 64)

    slot_shape :
        (l : AbiLayout) (i : ℕ) (sh : StubShape)
        → Wanted (amd64_target func_size dispatch) os arch l i sh
        → IsSlotShape sh i
    slot_shape l i sh (inl (plain, same)) = rw same (refl, omega (arith, window), omega arith)
    slot_shape l i sh (inr (pointers, shaped)) = rw shaped at (shape-IsSmall l i)

    -- A call through slot `i` of a proxy, for an `i` below the number of slots and a `dispatch` below
    -- 2 ^ 63: the code at the slot's code pointer, run on the machine with 216 bytes of stack below and
    -- room for 128 words of stack area above, calls the function at address `dispatch` with `i` in AX,
    -- the arguments one register on and the address of the stack area. If that function leaves the stack
    -- pointer and the saved frame pointer as they were, the caller gets its results, with the stack and
    -- the frame pointer of before the call. It takes an assembler that makes code for small shapes, a
    -- system that maps every page, and a window of at most 512 bytes.
    pub slot-HandsOver :
        (i : ℕ) (m : IfaceMethod) (d : MethodInfo) (j : Jit Space) (callee : ℕ → Cpu → Cpu)
        (c : Cpu)
        → IsSlot (amd64_target func_size dispatch) os ok maps arch window ps i m d j
        → i < slot_count
        → dispatch < 2 ^ 63
        → 0xd8 ≤ c.regs 4
        → c.regs 4 + 1032 < 2 ^ 64
        → ((b : Cpu)
            → (b.regs 4 ≡ c.regs 4 - 0xd8)
            → (b.mem (c.regs 4 - 8) ≡ c.regs 5)
            → ComesBack c (callee dispatch b))
        → (sh : StubShape) × (code : List ℕ) × (b : Cpu) × (e : Cpu) × ((xs : List (ℕ × List ℕ))
            × (ys : List (ℕ × List ℕ)) × (j.pages ≡ xs ++ ((d.code, code) ∷ ys)))
          × (run_code callee code c ≡ some e)
          × (b.regs 0 ≡ i)
          × HandsOver sh dispatch c b
          × Returned c (callee dispatch b) e
    slot-HandsOver i m d j callee c slot low near below above back =
        let (sh, wanted, known, serves) = slot.right_code in
        let (index, args, results) = slot_shape d.layout i sh wanted in
        let fits : Fits sh dispatch = record {
          index_fits = omega (arith, index, low);
          words_fit = omega (arith, args, results);
          dispatch_fits = near;
        } in
        let room : HasRoom sh c = record {
          below = below;
          above = omega (arith, args, results, above);
        } in
        let (code, pcsp, b, e, made, ran, handed, returned) =
          jit_stub_code-run_code sh dispatch callee c fits room (λ b h. back b h.frame h.saved) in
        let same : code ≡ serves.code = (let there = serves.made in cc) in
        (
          sh,
          serves.code,
          b,
          e,
          serves.paged,
          ap (λ t. run_code callee t c) (sym same) ∙ ran,
          handed.index_first ∙ index,
          handed,
          returned,
        )
