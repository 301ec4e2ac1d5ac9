-- ===== src/Tests/Materialize.antt =====
-- Calls of one method through the dispatcher on amd64:
-- `func(error, string, [4]uint16) (string, error, [2]*int)`.
use go_weave.Prelude.{
  ℕ, zero, suc, ◌+◌, ◌*◌, ◌%◌, ◌≡◌, leb, inl, inr, refl, arith, true, false, Option, none, some,
  some_eq, List, [], ◌∷◌, All,
}
use go_weave.Abi.Types.{
  uint16, uint64, int64, string, pointer, interface, GoType, basic, array, FuncType, amd64,
  align_up,
}
use go_weave.Prelude.Bits.{has_bit}
use go_weave.Abi.Assign.{
  step_pointer, step_int_reg, Seq, steps_for_value, add_rcvr, assign_int_n, add_args, add_arg,
  reg_assign, int_steps, stack_assign,
}
use go_weave.Abi.Layout.{
  AbiLayout, new_abi_layout, finish_layout, gather, stack_ptrs, ptr_mask_of, ptr_offsets,
}
use go_weave.Abi.Parts.{int_step, basic_parts, flatten}
use go_weave.Abi.Segments.{stack_step}
use go_weave.Abi.Values.{IsMethod}
use go_weave.Materialize.Memory.{
  int_file, word_at, Frame, step_addr, write_word, put_bytes, byte_of, le_num,
}
use go_weave.Materialize.Values.{GoValue, held, located, Host, scalar_of}
use go_weave.Materialize.Results.{
  store_results, store_loop, scatter_value, scatter_steps, scatter_single, write_scalar,
}
use go_weave.Materialize.Args.{materialize_args}
use go_weave.Materialize.Gathered.{Grows}
use go_weave.Materialize.ReadArg.{HasStart}
use go_weave.Materialize.ReadArgs.{ItabsPassed, ArgsRead, materialize_args-ArgsRead}
use go_weave.Materialize.Panics.{store_results-none}
use go_weave.Materialize.Dispatch.{Passed, Proceeded, enter_call}
use go_weave.Materialize.Entered.{Entered, enter_call-Entered}

abbrev message : GoType
message = basic string 16 8

abbrev words : GoType
words = array 4 (basic uint16 2 2) 8 2

abbrev failure : GoType
failure = basic interface 16 8

abbrev pair : GoType
pair = array 2 (basic pointer 8 8) 16 8

abbrev exchange : FuncType
exchange = record { ins = failure ∷ message ∷ words ∷ []; outs = message ∷ failure ∷ pair ∷ [] }

abbrev layout : AbiLayout
layout = record {
  call = record {
    steps =
        int_step step_pointer 0 8 0
        ∷ int_step step_int_reg 0 8 1
        ∷ int_step step_pointer 8 8 2
        ∷ int_step step_pointer 0 8 3
        ∷ int_step step_int_reg 8 8 4
        ∷ stack_step 8 0
        ∷ [];
    value_start = 0 ∷ 1 ∷ 3 ∷ 5 ∷ [];
    stack_bytes = 8;
    iregs = 5;
    fregs = 0;
  };
  ret = record {
    steps =
        int_step step_pointer 0 8 0
        ∷ int_step step_int_reg 8 8 1
        ∷ int_step step_int_reg 0 8 2
        ∷ int_step step_pointer 8 8 3
        ∷ stack_step 16 8
        ∷ [];
    value_start = 0 ∷ 2 ∷ 4 ∷ [];
    stack_bytes = 24;
    iregs = 4;
    fregs = 0;
  };
  stack_call_args_size = 8;
  ret_offset = 8;
  stack_bytes = 24;
  arg_gather = 0 ∷ 16 ∷ 18446744073709551615 ∷ [];
  gather_bytes = 32;
  stack_ptr_offs = [];
  ret_stack_ptr_offs = 8 ∷ 16 ∷ [];
  ptr_mask = 13;
}

exchange_layout : new_abi_layout amd64 exchange ≡ some layout
unfolding new_abi_layout add_rcvr assign_int_n add_args add_arg reg_assign int_steps finish_layout
    stack_assign align_up gather stack_ptrs ptr_mask_of has_bit steps_for_value ptr_offsets
exchange_layout = refl

exchange-IsMethod : IsMethod amd64 exchange
exchange-IsMethod = omega arith

-- Every type is assignable to every other, itabs stand 64 bytes before their type and no type below 64, and no `float32` is
-- changed by a conversion.
abbrev host : Host
host = record {
  arch = amd64;
  itab_type = λ tab. tab + 64;
  can_set = λ t typ. leb 64 typ;
  box = λ t v. (4096, 8192);
  code_of = λ w. w + 1;
  widen = λ x. x;
  narrow = λ x. x;
  assignable = λ d t. true;
}

abbrev filled : ℕ → ℕ → ℕ
filled b k = (b + k) % 256

abbrev zeros : List GoValue
zeros = held message (filled 0) ∷ held failure (filled 0) ∷ held pair (filled 0) ∷ []

abbrev answers : List GoValue
answers =
    held message (filled 7) ∷ held (basic pointer 8 8) (filled 9) ∷ held pair (filled 100) ∷ []

abbrev memory : Frame
memory = record { bytes = λ a k. filled 3 k; ptrs = λ i. 0; stack_ptrs = λ i. 0 }

exchange_starts : All HasStart exchange.ins
unfolding flatten
exchange_starts = (
  (λ ps s e. let same : basic_parts interface 16 0 ≡ ps = some_eq _ _ e in rw (← same) refl),
  (
    (λ ps s e. let same : basic_parts string 16 0 ≡ ps = some_eq _ _ e in rw (← same) refl),
    ((λ ps s e. absurd (cc)), tt),
  ),
)

exchange_itabs : (m : Frame) → ItabsPassed host exchange layout m
unfolding steps_for_value
exchange_itabs m zero t e is =
    let same : failure ≡ t = some_eq failure t e in
    let high : leb 64 (word_at (record { area = int_file; off = 8 }) m + 64) ≡ true =
      ground arith in
    inr high
exchange_itabs m (suc zero) t e is =
    let same : message ≡ t = some_eq message t e in let is' = rw (← same) at is in cc
exchange_itabs m (suc (suc zero)) t e is =
    let same : words ≡ t = some_eq words t e in let is' = rw (← same) at is in cc
exchange_itabs m (suc (suc (suc i))) t e is = cc

materialize_args-ArgsRead_example :
    (m' : Frame) × (vs : List GoValue) × (materialize_args host layout exchange.ins memory
      ≡ some (m', vs))
    × ArgsRead host exchange layout memory m' vs
    × Grows 0 memory m'
materialize_args-ArgsRead_example =
    materialize_args-ArgsRead host exchange layout memory exchange-IsMethod (omega arith)
      exchange_layout (omega arith) exchange_starts (exchange_itabs memory)

abbrev passed : Passed
passed = record { ints = filled 1; floats = filled 2; stack = filled 5 }

enter_call-Entered_example :
    (m : Frame) × (enter_call amd64 layout passed memory ≡ some m)
    × Entered host exchange layout passed m
    × (m' : Frame) × (vs : List GoValue) × (materialize_args host layout exchange.ins m
        ≡ some (m', vs))
    × ArgsRead host exchange layout m m' vs
    × Grows 0 m m'
enter_call-Entered_example =
    enter_call-Entered host exchange layout passed memory exchange-IsMethod (omega arith)
      exchange_layout (omega arith) (omega arith) exchange_starts (λ m e. exchange_itabs m)

abbrev answered : Proceeded
answered = record { frame = memory; direct = false; rets = some answers }

-- A `uint64` in the first result register.
abbrev counter : Seq
counter = record {
  steps = int_step step_int_reg 0 8 0 ∷ [];
  value_start = 0 ∷ [];
  stack_bytes = 0;
  iregs = 1;
  fregs = 0;
}

store_results-none_example :
    store_results host counter
      (basic uint64 8 8 ∷ [])
      (held (basic uint64 8 8) (filled 0) ∷ [])
      false
      (some (held (basic uint64 8 8) (filled 1) ∷ []))
      memory
    ≡ none
unfolding steps_for_value
store_results-none_example =
    store_results-none host counter (basic uint64 8 8 ∷ [])
      (held (basic uint64 8 8) (filled 0) ∷ []) false (held (basic uint64 8 8) (filled 1) ∷ [])
      memory 0 (basic uint64 8 8) (filled 1) refl tt (inl refl) refl refl

-- `func(int64, int64, int64) (int64, int64, int64)` whose interceptor returns its arguments in reverse:
-- the third result is read from a register that the second one has overwritten.
abbrev number_type : GoType
number_type = basic int64 8 8

abbrev triple : Seq
triple = record {
  steps =
      int_step step_int_reg 0 8 0 ∷ int_step step_int_reg 0 8 1 ∷ int_step step_int_reg 0 8 2 ∷ [];
  value_start = 0 ∷ 1 ∷ 2 ∷ [];
  stack_bytes = 0;
  iregs = 3;
  fregs = 0;
}

abbrev arg_at : ℕ → GoValue
arg_at i = located number_type (record { area = int_file; off = 8 * i })

abbrev lowest_byte : Option Frame → ℕ → ℕ
lowest_byte none i = 0
lowest_byte (some m) i = m.bytes int_file (8 * i)

reversed : Option Frame
unfolding store_results
reversed =
    store_results host triple (number_type ∷ number_type ∷ number_type ∷ [])
      (arg_at 1 ∷ arg_at 1 ∷ arg_at 1 ∷ []) false (some (arg_at 3 ∷ arg_at 2 ∷ arg_at 1 ∷ []))
      memory

aliased : lowest_byte reversed 2 ≡ filled 3 16
unfolding reversed store_loop scatter_value scatter_steps steps_for_value step_addr scatter_single
    write_scalar scalar_of write_word put_bytes byte_of le_num
aliased = refl
