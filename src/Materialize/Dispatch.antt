-- ===== src/Materialize/Dispatch.antt =====
-- `Dispatch` of dispatch_amd64.go and dispatch_arm64.go: the registers and the caller's stack area on
-- their way in and out. `proceed` is `c.Proceed()` with all that interceptors and the target do to the
-- call's memory; it may panic.
use go_weave.Prelude.{
  ℕ, ◌+◌, ◌*◌, Bool, ◌&&◌, Option, none, some, List, ltb, leb, ◌==◌, if◌then◌else◌,
}
use go_weave.Prelude.Bits.{has_bit}
use go_weave.Abi.Types.{Arch, FuncType}
use go_weave.Abi.Layout.{AbiLayout}
use go_weave.Materialize.Memory.{
  Area, int_file, float_file, stack_copy, gather_buf, Frame, le_num, and_then,
}
use go_weave.Materialize.Values.{GoValue, Host}
use go_weave.Materialize.Results.{store_results}

-- The register files and the caller's stack area, as bytes.
pub record Passed : Type 0 where
  pub ints : ℕ → ℕ
  pub floats : ℕ → ℕ
  pub stack : ℕ → ℕ

-- `prePtrs`: the registers that `ptrMask` marks, zero elsewhere.
unfoldable pub pre_ptrs : Arch → ℕ → (ℕ → ℕ) → ℕ → ℕ
pre_ptrs arch mask ints i =
    if ltb i arch.int_arg_regs && has_bit 32 mask i then le_num 8 (λ k. ints (8 * i + k)) else 0

-- The first `n` bytes of the pooled buffer become those of the caller's area.
abbrev pub copied_in : ℕ → (ℕ → ℕ) → (ℕ → ℕ) → ℕ → ℕ
copied_in n stack pooled k = if ltb k n then stack k else pooled k

abbrev pub entered_bytes : (ℕ → ℕ) → Passed → Frame → Area → ℕ → ℕ
entered_bytes stack p pooled int_file = p.ints
entered_bytes stack p pooled float_file = p.floats
entered_bytes stack p pooled stack_copy = stack
entered_bytes stack p pooled gather_buf = pooled.bytes gather_buf

abbrev pub enter_with : Arch → AbiLayout → (ℕ → ℕ) → Passed → Frame → Frame
enter_with arch l stack p pooled = record {
  bytes = entered_bytes stack p pooled;
  ptrs = pre_ptrs arch l.ptr_mask p.ints;
  stack_ptrs = λ i. 0;
}

-- The call state out of the pool, up to `c.Proceed()`. Slicing the buffer past its end is a panic.
unfoldable pub enter_call : Arch → AbiLayout → Passed → Frame → Option Frame
enter_call arch l p pooled =
    if l.stack_bytes == 0
    then some (enter_with arch l (pooled.bytes stack_copy) p pooled)
    else if leb l.stack_call_args_size arch.stack_window
    then some (
        enter_with arch l (copied_in l.stack_call_args_size p.stack (pooled.bytes stack_copy)) p
          pooled)
    else none

-- The bytes from `lo` to `hi` are copied back to the caller.
abbrev pub copied_out : ℕ → ℕ → (ℕ → ℕ) → (ℕ → ℕ) → ℕ → ℕ
copied_out lo hi buffer stack k = if leb lo k && ltb k hi then buffer k else stack k

-- After `storeResults`.
unfoldable pub leave_call : Arch → AbiLayout → Passed → Frame → Option Passed
leave_call arch l p m =
    if l.stack_bytes == 0
    then some (record { ints = m.bytes int_file; floats = m.bytes float_file; stack = p.stack })
    else if leb l.ret_offset l.stack_bytes && leb l.stack_bytes arch.stack_window
    then some (record {
      ints = m.bytes int_file;
      floats = m.bytes float_file;
      stack = copied_out l.ret_offset l.stack_bytes (m.bytes stack_copy) p.stack;
    })
    else none

-- What `Proceed` leaves: the memory, whether the results were delivered in registers, and the values.
pub record Proceeded : Type 0 where
  pub frame : Frame
  pub direct : Bool
  pub rets : Option (List GoValue)

unfoldable pub dispatch_call :
    Host
    → FuncType
    → AbiLayout
    → List GoValue
    → (Frame → Option Proceeded)
    → Passed
    → Frame
    → Option Passed
dispatch_call h ft l zeros proceed p pooled = and_then (enter_call h.arch l p pooled) (λ m.
    and_then (proceed m) (λ c.
      and_then (store_results h l.ret ft.outs zeros c.direct c.rets c.frame)
        (leave_call h.arch l p)))
