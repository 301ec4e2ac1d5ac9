-- ===== src/Jit/Amd64/Unwind.antt =====
-- The stack depth that the trampoline's pcsp table gives is the one that the machine has.
use mathlib.Core.Path.{subst}
use go_weave.Prelude.{
  ℕ, ◌+◌, ◌-◌, ◌^◌, ◌<◌, ◌≤◌, ◌≡◌, refl, sym, ap, ◌∙◌, arith, List, [], ◌∷◌, ◌++◌, Option, none,
  some, ltb, if◌then◌else◌, length, All, All-append, map,
}
use go_weave.Abi.Layout.{StubShape}
use go_weave.Jit.Pcsp.{PcspEntry, encode_pcsp}
use go_weave.Jit.Pcsp.RoundTrip.{decode_pcsp, decode_pcsp-encode_pcsp, IsTable, scale}
use go_weave.Jit.Amd64.{jit_stub_code, stub_entries}
use go_weave.Jit.Amd64.Ins.{Cpu, Listing, step, exec, trace, disassemble}
use go_weave.Jit.Amd64.Listing.{IsLine, listing, flat, disassemble-lines}
use go_weave.Jit.Amd64.Stub.{enter, before_call, call_line, leave, stub_lines}
use go_weave.Jit.Amd64.Assembled.{Fits, stub_size, jit_stub_code-lines, stub_lines-All}
use go_weave.Jit.Amd64.Clearing.{exec_lines}
use go_weave.Jit.Amd64.Depth.{
  trace_lines, trace-append, Within, Still-Within, middle, middle-Still, clears-length, size-parts,
}
use go_weave.Jit.Amd64.Running.{HasRoom, HandsOver, ComesBack, at_call, at_call-HandsOver}

-- `pcvalue` of the runtime, on the decoded table: the delta of the first entry that ends behind `pc`.
unfoldable pub sp_delta_at : List PcspEntry → ℕ → Option ℕ
sp_delta_at [] pc = none
sp_delta_at (e ∷ es) pc = if ltb pc e.pc then some e.spdelta else sp_delta_at es pc

abbrev table : StubShape → ℕ → List PcspEntry
table sh dispatch = stub_entries 11 (stub_size sh dispatch)

-- The table, at the offset, has the depth below `sp` of the stack pointer.
unfoldable pub DepthAt : List PcspEntry → ℕ → ℕ × Cpu → Type 0
DepthAt es sp (pc, d) = sp_delta_at es pc ≡ some (sp - d.regs 4)

stub_entries-IsTable :
    (size : ℕ) → 20 < size → size < 2 ^ 32 → IsTable (2 ^ 32 - 1) 0 (stub_entries 11 size)
stub_entries-IsTable size low high =
    ((
      omega arith,
      omega arith,
      omega arith,
      omega arith,
      (
        omega arith,
        omega arith,
        omega arith,
        omega arith,
        (
          omega arith,
          omega arith,
          omega arith,
          omega arith,
          (
            omega arith,
            omega arith,
            omega arith,
            omega arith,
            (omega arith, omega arith, omega arith, omega arith, tt),
          ),
        ),
      ),
    ))

scale-one : (es : List PcspEntry) → map (scale 1) es ≡ es
scale-one [] = refl
scale-one (e ∷ es) =
    ap (λ p. record e { pc = p } ∷ map (scale 1) es) (omega arith) ∙ ap (λ t. e ∷ t) (scale-one es)

table-decode :
    (size : ℕ)
    → 20 < size
    → size < 2 ^ 32
    → decode_pcsp 6 1 (encode_pcsp (stub_entries 11 size)) ≡ some (stub_entries 11 size)
table-decode size low high =
    decode_pcsp-encode_pcsp 6 1 (stub_entries 11 size) (omega arith) (λ e. absurd (cc))
      (omega arith) (stub_entries-IsTable size low high)
    ∙ ap some (scale-one (stub_entries 11 size))

enter-DepthAt :
    (callee : ℕ → Cpu → Cpu) (size : ℕ) (c : Cpu)
    → 20 < size
    → 0xd8 ≤ c.regs 4
    → c.regs 4 < 2 ^ 64
    → All (DepthAt (stub_entries 11 size) (c.regs 4)) (trace_lines callee 0 enter c)
unfolding DepthAt sp_delta_at trace listing step
enter-DepthAt callee size c large below above = (ground arith, (ground arith, (ground arith, tt)))

middle-DepthAt :
    (size high sp sp_here : ℕ) (ts : List (ℕ × Cpu))
    → 0xd8 ≤ sp
    → 20 < size
    → high ≡ size - 12
    → sp_here ≡ sp - 0xd8
    → All (Within 11 high sp_here) ts
    → All (DepthAt (stub_entries 11 size) sp) ts
unfolding DepthAt sp_delta_at Within
middle-DepthAt size high sp sp_here [] below large end here h = tt
middle-DepthAt size high sp sp_here ((pc, d) ∷ ts) below large end here (h, hs) =
    (ground arith, middle-DepthAt size high sp sp_here ts below large end here hs)

tail-DepthAt :
    (callee : ℕ → Cpu → Cpu) (size : ℕ) (c b : Cpu)
    → 40 < size
    → 0xd8 ≤ c.regs 4
    → c.regs 4 < 2 ^ 64
    → b.regs 4 ≡ c.regs 4 - 0xd8
    → ComesBack c (callee (b.regs 12) b)
    → All
        (DepthAt (stub_entries 11 size) (c.regs 4))
        (trace_lines callee (size - 12) (call_line ∷ leave) b)
unfolding DepthAt sp_delta_at trace listing step
tail-DepthAt callee size c b large below above sp back =
    (ground arith, (ground arith, (ground arith, (ground arith, tt))))

All-left {ℓ κ} : {A : Type ℓ} (P : A → Type κ) (xs ys : List A) → All P (xs ++ ys) → All P xs
All-left P [] ys h = tt
All-left P (x ∷ xs) ys h = (h.0, All-left P xs ys h.1)

-- The depths before the call, from the sizes of the parts.
before-DepthAt :
    (callee : ℕ → Cpu → Cpu) (sh : StubShape) (dispatch : ℕ) (c : Cpu)
    → Fits sh dispatch
    → 0xd8 ≤ c.regs 4
    → c.regs 4 < 2 ^ 64
    → All
        (DepthAt (table sh dispatch) (c.regs 4))
        (trace_lines callee 0 (before_call sh dispatch) c)
unfolding flat exec listing step
before-DepthAt callee sh dispatch c fits below above =
    let sizes = size-parts sh dispatch in
    let all =
      (All-left IsLine (before_call sh dispatch) (call_line ∷ leave)
        (stub_lines-All sh dispatch fits)).1.1.1 in
    let still =
      Still-Within callee 11 (middle sh dispatch) (exec_lines callee enter c) all
        (middle-Still callee sh dispatch) in
    let seen =
      middle-DepthAt (stub_size sh dispatch) _ (c.regs 4) _ _ below (omega (arith, sizes))
        (omega (arith, sizes)) (omega arith) still in
    rw (trace-append callee 0 enter (middle sh dispatch) c) (
      All-append (DepthAt (table sh dispatch) (c.regs 4)) (trace_lines callee 0 enter c) _
        (enter-DepthAt callee (stub_size sh dispatch) c (omega (arith, sizes)) below above) seen)

lines-DepthAt :
    (callee : ℕ → Cpu → Cpu) (sh : StubShape) (dispatch : ℕ) (c : Cpu)
    → Fits sh dispatch
    → HasRoom sh c
    → ComesBack c (callee dispatch (at_call callee sh dispatch c))
    → All (DepthAt (table sh dispatch) (c.regs 4)) (trace_lines callee 0 (stub_lines sh dispatch) c)
lines-DepthAt callee sh dispatch c fits room back =
    let sizes = size-parts sh dispatch in
    let start : 0 + length (flat (before_call sh dispatch)) ≡ stub_size sh dispatch - 12 =
      omega (arith, sizes) in
    let b = at_call callee sh dispatch c in
    let handed = at_call-HandsOver callee sh dispatch c room in
    let rest =
      tail-DepthAt callee (stub_size sh dispatch) c b (omega (arith, sizes)) room.below
        (omega (arith, room.above)) handed.frame
        (subst (λ r. ComesBack c (callee r b)) (sym handed.target) back) in
    rw (trace-append callee 0 (before_call sh dispatch) (call_line ∷ leave) c) (
      All-append (DepthAt (table sh dispatch) (c.regs 4))
        (trace_lines callee 0 (before_call sh dispatch) c) _
        (before-DepthAt callee sh dispatch c fits room.below (omega (arith, room.above)))
        (rw start rest))

-- The table that goes with the trampoline tells the truth: read back, it gives before every instruction
-- the machine executes the number of bytes that the stack pointer stands below the one of the entry.
-- It holds for a shape that fits, and a `dispatch` that comes back with the stack pointer and the saved
-- frame pointer as they were.
pub jit_stub_code-trace :
    (sh : StubShape) (dispatch : ℕ) (callee : ℕ → Cpu → Cpu) (c : Cpu)
    → Fits sh dispatch
    → HasRoom sh c
    → ((b : Cpu) → HandsOver sh dispatch c b → ComesBack c (callee dispatch b))
    → (code : List ℕ) × (pcsp : List ℕ) × (is : Listing) × (es : List PcspEntry) × (jit_stub_code sh
          dispatch
        ≡ some (code, pcsp))
      × (disassemble code ≡ some is)
      × (decode_pcsp 6 1 pcsp ≡ some es)
      × All (DepthAt es (c.regs 4)) (trace callee 0 is c)
jit_stub_code-trace sh dispatch callee c fits room back =
    let sizes = size-parts sh dispatch in
    (
      flat (stub_lines sh dispatch),
      encode_pcsp (table sh dispatch),
      listing (stub_lines sh dispatch),
      table sh dispatch,
      jit_stub_code-lines sh dispatch fits,
      disassemble-lines (stub_lines sh dispatch) (stub_lines-All sh dispatch fits),
      table-decode (stub_size sh dispatch) (omega (arith, sizes))
          (omega (arith, sizes, clears-length sh 0 sh.ret_words, fits.words_fit)),
      lines-DepthAt callee sh dispatch c fits room
          (back _ (at_call-HandsOver callee sh dispatch c room)),
    )
