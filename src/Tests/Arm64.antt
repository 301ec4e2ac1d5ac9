-- ===== src/Tests/Arm64.antt =====
-- The arm64 trampoline of a method with a pointer result on the stack.
use go_weave.Prelude.{ℕ, ◌+◌, ◌-◌, ◌*◌, ◌≤◌, ◌≡◌, refl, arith, some, List, [], ◌∷◌, length}
use go_weave.Abi.Assign.{Seq}
use go_weave.Abi.Layout.{AbiLayout, StubShape, shape}
use go_weave.Jit.Pcsp.{encode_pcsp}
use go_weave.Jit.Arm64.{jit_stub_code, stub_entries, code_size}
use go_weave.Jit.Arm64.Size.{marked_words, jit_stub_code-shape}

abbrev nothing : Seq
nothing = record { steps = []; value_start = []; stack_bytes = 0; iregs = 0; fregs = 0 }

-- One argument word and two result words, of which the second holds a pointer.
abbrev layout : AbiLayout
layout = record {
  call = nothing;
  ret = nothing;
  stack_call_args_size = 8;
  ret_offset = 8;
  stack_bytes = 24;
  arg_gather = [];
  gather_bytes = 0;
  stack_ptr_offs = 0 ∷ [];
  ret_stack_ptr_offs = 16 ∷ [];
  ptr_mask = 0;
}

abbrev method : StubShape
method = record { index = 3; arg_words = 1; ret_words = 2; arg_ptrs = 1; ret_ptrs = 2 }

layout-shape : shape layout 3 ≡ some method
unfolding shape go_weave.Abi.Layout.mark_words
layout-shape = refl

jit_stub_code-shape_example :
    (code : List ℕ) × (jit_stub_code method 4198400
      ≡ some (code, encode_pcsp (stub_entries 12 (length code - 4) (length code))))
    × (length code ≡ 4 * (31 + marked_words method 0 2))
    × (length code ≤ code_size)
jit_stub_code-shape_example = jit_stub_code-shape layout 3 4198400 method (omega arith) layout-shape
