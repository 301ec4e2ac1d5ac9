-- ===== src/Jit/Amd64/Stub.antt =====
-- The trampoline as instructions, with the bytes of each.
use go_weave.Prelude.{ℕ, zero, suc, ◌+◌, ◌*◌, List, [], ◌∷◌, ◌++◌, if◌then◌else◌}
use go_weave.Prelude.Bits.{has_bit}
use go_weave.Abi.Layout.{StubShape}
use go_weave.Jit.Amd64.Asm.{imm32, imm64, disp_encoding}
use go_weave.Jit.Amd64.Ins.{push, pop, mov, store, store_imm, lea, sub, add, load, call, ret}
use go_weave.Jit.Amd64.Listing.{Line, clear_bytes}

abbrev pub enter : List Line
enter =
    (0x55 ∷ [], push 5)
    ∷ (0x48 ∷ 0x89 ∷ 0xe5 ∷ [], mov 5 4)
    ∷ (0x48 ∷ 0x81 ∷ 0xec ∷ imm32 0xd0, sub 4 0xd0)
    ∷ []

abbrev pub param : List Line
param =
    (0x4c ∷ 0x89 ∷ 0x1c ∷ 0x24 ∷ [], store 4 0 11)
    ∷ (0x48 ∷ 0x8d ∷ 0x94 ∷ 0x24 ∷ imm32 0xe0, lea 2 4 0xe0)
    ∷ (0x48 ∷ 0x89 ∷ 0x54 ∷ 0x24 ∷ 8 ∷ [], store 4 8 2)
    ∷ []

abbrev pub clear_line : StubShape → ℕ → Line
clear_line sh i =
    let disp = (sh.arg_words + i) * 8 in (clear_bytes (disp_encoding disp), store_imm 2 disp 0)

unfoldable pub clears : StubShape → ℕ → ℕ → List Line
clears sh i zero = []
clears sh i (suc n) =
    let rest = clears sh (i + 1) n in
    if has_bit 64 sh.ret_ptrs i then clear_line sh i ∷ rest else rest

abbrev pub shuffle : List Line
shuffle =
    (0x4d ∷ 0x89 ∷ 0xd3 ∷ [], mov 11 10)
    ∷ (0x4d ∷ 0x89 ∷ 0xca ∷ [], mov 10 9)
    ∷ (0x4d ∷ 0x89 ∷ 0xc1 ∷ [], mov 9 8)
    ∷ (0x49 ∷ 0x89 ∷ 0xf0 ∷ [], mov 8 6)
    ∷ (0x48 ∷ 0x89 ∷ 0xfe ∷ [], mov 6 7)
    ∷ (0x48 ∷ 0x89 ∷ 0xcf ∷ [], mov 7 1)
    ∷ (0x48 ∷ 0x89 ∷ 0xd9 ∷ [], mov 1 3)
    ∷ (0x48 ∷ 0x89 ∷ 0xc3 ∷ [], mov 3 0)
    ∷ []

abbrev pub load_target : ℕ → ℕ → List Line
load_target index dispatch =
    (0xb8 ∷ imm32 index, load 0 index) ∷ (0x49 ∷ 0xbc ∷ imm64 dispatch, load 12 dispatch) ∷ []

abbrev pub call_line : Line
call_line = (0x41 ∷ 0xff ∷ 0xd4 ∷ [], call 12)

abbrev pub leave : List Line
leave = (0x48 ∷ 0x81 ∷ 0xc4 ∷ imm32 0xd0, add 4 0xd0) ∷ (0x5d ∷ [], pop 5) ∷ (0xc3 ∷ [], ret) ∷ []

-- Up to the call.
abbrev pub before_call : StubShape → ℕ → List Line
before_call sh dispatch =
    enter ++ (param ++ (clears sh 0 sh.ret_words ++ (shuffle ++ load_target sh.index dispatch)))

abbrev pub stub_lines : StubShape → ℕ → List Line
stub_lines sh dispatch = before_call sh dispatch ++ (call_line ∷ leave)
