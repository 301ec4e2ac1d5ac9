-- ===== src/Jit/Cache/Targets.antt =====
-- The two processors that go-weave has trampolines for.
use go_weave.Prelude.{ℕ, ◌^◌, ◌<◌, arith}
use go_weave.Jit.Cache.{Target}
use go_weave.Jit.Cache.Startup.{IsTarget}
use go_weave.Jit.Amd64
use go_weave.Jit.Amd64.Assembled.{jit_stub_code-lines}
use go_weave.Jit.Arm64
use go_weave.Jit.Arm64.Size.{small-code}

abbrev pub amd64_target : ℕ → ℕ → Target
amd64_target func_size dispatch = record {
  quantum = 1;
  func_size = func_size;
  stub_code = λ sh. Amd64.jit_stub_code sh dispatch;
}

abbrev pub arm64_target : ℕ → ℕ → Target
arm64_target func_size dispatch = record {
  quantum = 4;
  func_size = func_size;
  stub_code = λ sh. Arm64.jit_stub_code sh dispatch;
}

-- The assembler of amd64 makes code for every small shape, when the address of `Dispatch` is below
-- 2 ^ 63.
pub amd64_target-IsTarget :
    (func_size dispatch : ℕ) → dispatch < 2 ^ 63 → IsTarget (amd64_target func_size dispatch)
amd64_target-IsTarget func_size dispatch low = record {
  makes = λ sh small. (
    _,
    _,
    jit_stub_code-lines sh dispatch (record {
      index_fits = omega (arith, small);
      words_fit = omega (arith, small);
      dispatch_fits = low;
    }),
  );
}

-- The assembler of arm64 makes code for every small shape.
pub arm64_target-IsTarget : (func_size dispatch : ℕ) → IsTarget (arm64_target func_size dispatch)
arm64_target-IsTarget func_size dispatch = record {
  makes = λ sh small.
      let (code, made, size) = small-code sh dispatch (omega (arith, small)) small.1 small.2 in
      (code, _, made);
}
