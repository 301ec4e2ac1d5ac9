-- ===== src/Tests/Amd64.antt =====
-- The amd64 trampoline of a method with a pointer result on the stack.
use go_weave.Prelude.{◌==◌, if◌then◌else◌, ℕ, ◌+◌, ◌≡◌, arith, some, List, All}
use go_weave.Abi.Layout.{StubShape}
use go_weave.Jit.Pcsp.{PcspEntry}
use go_weave.Jit.Pcsp.RoundTrip.{decode_pcsp}
use go_weave.Jit.Amd64.{jit_stub_code}
use go_weave.Jit.Amd64.Ins.{Cpu, Listing, run_code, trace, disassemble}
use go_weave.Jit.Amd64.Assembled.{Fits}
use go_weave.Jit.Amd64.Running.{HasRoom, HandsOver, Returned, jit_stub_code-run_code}
use go_weave.Jit.Amd64.Unwind.{DepthAt, jit_stub_code-trace}

abbrev method : StubShape
method = record { index = 3; arg_words = 1; ret_words = 2; arg_ptrs = 1; ret_ptrs = 2 }

abbrev entered : Cpu
entered = record { regs = λ r. 65536 + r; mem = λ a. a }

-- Only the function at the address of `dispatch` keeps its registers.
abbrev back : ℕ → Cpu → Cpu
back a b = if a == 4198400 then b else record b { regs = λ r. 0 }

method-Fits : Fits method 4198400
method-Fits = record {
  index_fits = omega arith;
  words_fit = omega arith;
  dispatch_fits = omega arith;
}

entered-HasRoom : HasRoom method entered
entered-HasRoom = record { below = omega arith; above = omega arith }

jit_stub_code-run_code_example :
    (code : List ℕ) × (pcsp : List ℕ) × (b : Cpu) × (e : Cpu) × (jit_stub_code method 4198400
      ≡ some (code, pcsp))
    × (run_code back code entered ≡ some e)
    × HandsOver method 4198400 entered b
    × Returned entered (back 4198400 b) e
jit_stub_code-run_code_example =
    jit_stub_code-run_code method 4198400 back entered method-Fits entered-HasRoom
      (λ b h. (h.frame, h.saved))

jit_stub_code-trace_example :
    (code : List ℕ) × (pcsp : List ℕ) × (is : Listing) × (es : List PcspEntry) × (jit_stub_code
        method 4198400
      ≡ some (code, pcsp))
    × (disassemble code ≡ some is)
    × (decode_pcsp 6 1 pcsp ≡ some es)
    × All (DepthAt es (entered.regs 4)) (trace back 0 is entered)
jit_stub_code-trace_example =
    jit_stub_code-trace method 4198400 back entered method-Fits entered-HasRoom
      (λ b h. (h.frame, h.saved))
