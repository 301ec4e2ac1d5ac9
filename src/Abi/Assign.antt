-- ===== src/Abi/Assign.antt =====
-- `seq` and its methods: one value after another goes to registers or to the stack area.
use go_weave.Prelude.{
  ℕ, zero, suc, ◌+◌, ◌-◌, ◌*◌, ◌&&◌, ◌||◌, Option, none, some, List, [], ◌∷◌, ◌++◌, ltb, ◌==◌, not,
  if◌then◌else◌, length, get_or, take, drop,
}
use go_weave.Prelude.Bits.{has_bit}
use go_weave.Abi.Types.{
  Kind, int64, uint64, float32, float64, complex64, complex128, chan, func, go_map, pointer,
  unsafe_pointer, string, interface, slice, GoType, basic, array, struct, Fields, no_fields, field,
  size, align, Arch, ptr_size, u64, align_up,
}

pub data StepKind : Type 0 where
  step_stack step_int_reg step_pointer step_float_reg : StepKind

pub record Step : Type 0 where
  pub kind : StepKind
  pub offset : ℕ
  pub size : ℕ
  pub stk_off : ℕ
  pub ireg : ℕ
  pub freg : ℕ

pub record Seq : Type 0 where
  pub steps : List Step
  pub value_start : List ℕ
  pub stack_bytes : ℕ
  pub iregs : ℕ
  pub fregs : ℕ

abbrev pub empty_seq : Seq
empty_seq = record { steps = []; value_start = []; stack_bytes = 0; iregs = 0; fregs = 0 }

-- What the code's `bool` result says: assigned, or not (the caller then restores `old`), or a panic.
pub data Assigned : Type 0 where
  fits : Seq → Assigned
  no_room : Assigned
  panic : Assigned

abbrev pub end_of_value : Seq → ℕ → ℕ
end_of_value s i =
    if ltb i (length s.value_start - 1) then get_or s.value_start (i + 1) 0 else length s.steps

unfoldable pub steps_for_value : Seq → ℕ → List Step
steps_for_value s i =
    let start = get_or s.value_start i 0 in take (end_of_value s i - start) (drop start s.steps)

abbrev pub int_kind : ℕ → ℕ → StepKind
int_kind ptr_map i = if has_bit 8 ptr_map i then step_pointer else step_int_reg

-- The loop of `assignIntN`, from round `i` with `n` rounds left.
unfoldable pub int_steps : ℕ → ℕ → ℕ → ℕ → ℕ → Seq → Seq
int_steps offset width ptr_map i zero s = s
int_steps offset width ptr_map i (suc n) s = int_steps offset width ptr_map (i + 1) n (record s {
  steps =
      s.steps
      ++ record {
        kind = int_kind ptr_map i;
        offset = u64 (offset + u64 (i * width));
        size = width;
        stk_off = 0;
        ireg = s.iregs;
        freg = 0;
      }
        ∷ [];
  iregs = s.iregs + 1;
})

unfoldable pub assign_int_n : Arch → ℕ → ℕ → ℕ → ℕ → Seq → Assigned
assign_int_n arch offset width n ptr_map s =
    if ltb 8 n || (not (ptr_map == 0) && not (width == ptr_size))
    then panic
    else if ltb arch.int_arg_regs (s.iregs + n)
    then no_room
    else fits (int_steps offset width ptr_map 0 n s)

-- The loop of `assignFloatN`.
unfoldable pub float_steps : ℕ → ℕ → ℕ → ℕ → Seq → Seq
float_steps offset width i zero s = s
float_steps offset width i (suc n) s = float_steps offset width (i + 1) n (record s {
  steps =
      s.steps
      ++ record {
        kind = step_float_reg;
        offset = u64 (offset + u64 (i * width));
        size = width;
        stk_off = 0;
        ireg = 0;
        freg = s.fregs;
      }
        ∷ [];
  fregs = s.fregs + 1;
})

unfoldable pub assign_float_n : Arch → ℕ → ℕ → ℕ → Seq → Assigned
assign_float_n arch offset width n s =
    if ltb arch.float_arg_regs (s.fregs + n) || ltb arch.float_reg_size width
    then no_room
    else fits (float_steps offset width 0 n s)

unfoldable pub stack_assign : ℕ → ℕ → Seq → Seq
stack_assign width alignment s =
    let base = align_up s.stack_bytes alignment in
    record s {
      steps =
          s.steps
          ++ record {
            kind = step_stack;
            offset = 0;
            size = width;
            stk_off = base;
            ireg = 0;
            freg = 0;
          }
            ∷ [];
      stack_bytes = u64 (base + width);
    }

-- `regAssign` at a kind with no parts; `n` is `t.Size()`.
unfoldable pub reg_assign_basic : Arch → Kind → ℕ → ℕ → Seq → Assigned
reg_assign_basic arch unsafe_pointer n off s = assign_int_n arch off n 1 1 s
reg_assign_basic arch pointer n off s = assign_int_n arch off n 1 1 s
reg_assign_basic arch chan n off s = assign_int_n arch off n 1 1 s
reg_assign_basic arch go_map n off s = assign_int_n arch off n 1 1 s
reg_assign_basic arch func n off s = assign_int_n arch off n 1 1 s
reg_assign_basic arch int64 n off s =
    if ptr_size == 4 then assign_int_n arch off 4 2 0 s else assign_int_n arch off 8 1 0 s
reg_assign_basic arch uint64 n off s =
    if ptr_size == 4 then assign_int_n arch off 4 2 0 s else assign_int_n arch off 8 1 0 s
reg_assign_basic arch float32 n off s = assign_float_n arch off n 1 s
reg_assign_basic arch float64 n off s = assign_float_n arch off n 1 s
reg_assign_basic arch complex64 n off s = assign_float_n arch off 4 2 s
reg_assign_basic arch complex128 n off s = assign_float_n arch off 8 2 s
reg_assign_basic arch string n off s = assign_int_n arch off ptr_size 2 1 s
reg_assign_basic arch interface n off s = assign_int_n arch off ptr_size 2 2 s
reg_assign_basic arch slice n off s = assign_int_n arch off ptr_size 3 1 s
reg_assign_basic arch _ n off s = assign_int_n arch off n 1 0 s

unfoldable mutual
  unfolding reg_assign_basic

  pub reg_assign : Arch → GoType → ℕ → Seq → Assigned
  reg_assign arch (basic k n a) off s = reg_assign_basic arch k n off s
  reg_assign arch (array zero e n a) off s = fits s
  reg_assign arch (array (suc zero) e n a) off s = reg_assign arch e off s
  reg_assign arch (array (suc (suc l)) e n a) off s = no_room
  reg_assign arch (struct fs n a) off s = reg_assign_fields arch fs off s

  -- The loop over the fields.
  pub reg_assign_fields : Arch → Fields → ℕ → Seq → Assigned
  reg_assign_fields arch no_fields off s = fits s
  reg_assign_fields arch (field o t fs) off s = elim (reg_assign arch t (u64 (off + o)) s) [
    | fits s' ↦ reg_assign_fields arch fs off s'
    | no_room ↦ no_room
    | panic ↦ panic
  ]

-- Where `steps` stands when a value begins.
abbrev pub begin_value : Seq → Seq
begin_value s = record s { value_start = s.value_start ++ length s.steps ∷ [] }

-- `none` is a panic. A failed assignment leaves the sequence as it began the receiver.
unfoldable pub add_rcvr : Arch → Seq → Option Seq
add_rcvr arch s = elim (assign_int_n arch 0 ptr_size 1 1 (begin_value s)) [
  | fits s' ↦ some s'
  | no_room ↦ some (stack_assign ptr_size ptr_size (begin_value s))
  | panic ↦ none
]

-- The returned step is read by no caller and is left out.
unfoldable pub add_arg : Arch → GoType → Seq → Option Seq
add_arg arch t s =
    if size t == 0
    then some (record (begin_value s) { stack_bytes = align_up s.stack_bytes (align t) })
    else elim (reg_assign arch t 0 (begin_value s)) [
      | fits s' ↦ some s'
      | no_room ↦ some (stack_assign (size t) (align t) (begin_value s))
      | panic ↦ none
    ]

-- The loops of `newABILayout` over the parameters and over the results.
unfoldable pub add_args : Arch → List GoType → Seq → Option Seq
add_args arch [] s = some s
add_args arch (t ∷ ts) s = elim (add_arg arch t s) [ none ↦ none | some s' ↦ add_args arch ts s' ]
