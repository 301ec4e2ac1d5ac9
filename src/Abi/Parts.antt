-- ===== src/Abi/Parts.antt =====
-- The register assignment described a second time: a type is flattened into parts once, and a value
-- goes to registers exactly when there is room for all of its parts.
use go_weave.Prelude.{
  ℕ, zero, suc, ◌+◌, ◌≤◌, ◌≡◌, refl, arith, Bool, ◌&&◌, Option, none, some, List, [], ◌∷◌, ◌++◌,
  leb, if◌then◌else◌,
}
use go_weave.Prelude.Bits.{has_bit}
use go_weave.Abi.Types.{
  Kind, bool, float32, float64, complex64, complex128, chan, func, go_map, pointer, unsafe_pointer,
  string, interface, slice, GoType, basic, array, struct, Fields, no_fields, field, Arch, u64,
}
use go_weave.Abi.Assign.{
  StepKind, step_int_reg, step_pointer, step_float_reg, Step, Seq, Assigned, fits, no_room,
  int_steps, float_steps, assign_int_n, assign_float_n, reg_assign_basic,
}
use go_weave.Abi.Sane.{IsSane}

pub data Part : Type 0 where
  -- offset and size of an integer, offset of a pointer, offset and size of a float
  int_part : ℕ → ℕ → Part
  ptr_part : ℕ → Part
  float_part : ℕ → ℕ → Part

abbrev pub basic_parts : Kind → ℕ → ℕ → List Part
basic_parts unsafe_pointer n off = ptr_part (u64 off) ∷ []
basic_parts pointer n off = ptr_part (u64 off) ∷ []
basic_parts chan n off = ptr_part (u64 off) ∷ []
basic_parts go_map n off = ptr_part (u64 off) ∷ []
basic_parts func n off = ptr_part (u64 off) ∷ []
basic_parts float32 n off = float_part (u64 off) n ∷ []
basic_parts float64 n off = float_part (u64 off) n ∷ []
basic_parts complex64 n off = float_part (u64 off) 4 ∷ float_part (u64 (off + 4)) 4 ∷ []
basic_parts complex128 n off = float_part (u64 off) 8 ∷ float_part (u64 (off + 8)) 8 ∷ []
basic_parts string n off = ptr_part (u64 off) ∷ int_part (u64 (off + 8)) 8 ∷ []
basic_parts interface n off = int_part (u64 off) 8 ∷ ptr_part (u64 (off + 8)) ∷ []
basic_parts slice n off =
    ptr_part (u64 off) ∷ int_part (u64 (off + 8)) 8 ∷ int_part (u64 (off + 16)) 8 ∷ []
basic_parts _ n off = int_part (u64 off) n ∷ []

abbrev pub join : Option (List Part) → Option (List Part) → Option (List Part)
join none b = none
join (some p) none = none
join (some p) (some q) = some (p ++ q)

-- `none`: the type has an array of two or more elements and never goes to registers.
unfoldable mutual
  pub flatten : GoType → ℕ → Option (List Part)
  flatten (basic k n a) off = some (basic_parts k n off)
  flatten (array zero e n a) off = some []
  flatten (array (suc zero) e n a) off = flatten e off
  flatten (array (suc (suc l)) e n a) off = none
  flatten (struct fs n a) off = flatten_fields fs off

  pub flatten_fields : Fields → ℕ → Option (List Part)
  flatten_fields no_fields off = some []
  flatten_fields (field o t fs) off = join (flatten t (u64 (off + o))) (flatten_fields fs off)

abbrev pub ints : List Part → ℕ
ints [] = 0
ints (int_part o n ∷ ps) = ints ps + 1
ints (ptr_part o ∷ ps) = ints ps + 1
ints (float_part o n ∷ ps) = ints ps

abbrev pub floats : List Part → ℕ
floats [] = 0
floats (int_part o n ∷ ps) = floats ps
floats (ptr_part o ∷ ps) = floats ps
floats (float_part o n ∷ ps) = floats ps + 1

abbrev pub int_step : StepKind → ℕ → ℕ → ℕ → Step
int_step k o n i = record { kind = k; offset = o; size = n; stk_off = 0; ireg = i; freg = 0 }

abbrev pub push_int : StepKind → ℕ → ℕ → Seq → Seq
push_int k o n s = record s { steps = s.steps ++ int_step k o n s.iregs ∷ []; iregs = s.iregs + 1 }

abbrev pub float_step : ℕ → ℕ → ℕ → Step
float_step o n f = record {
  kind = step_float_reg;
  offset = o;
  size = n;
  stk_off = 0;
  ireg = 0;
  freg = f;
}

abbrev pub push_float : ℕ → ℕ → Seq → Seq
push_float o n s = record s { steps = s.steps ++ float_step o n s.fregs ∷ []; fregs = s.fregs + 1 }

-- Each part takes the next register of its file.
unfoldable pub place : List Part → Seq → Seq
place [] s = s
place (int_part o n ∷ ps) s = place ps (push_int step_int_reg o n s)
place (ptr_part o ∷ ps) s = place ps (push_int step_pointer o 8 s)
place (float_part o n ∷ ps) s = place ps (push_float o n s)

unfoldable pub has_room : Arch → List Part → Seq → Bool
has_room arch ps s =
    leb (s.iregs + ints ps) arch.int_arg_regs && leb (s.fregs + floats ps) arch.float_arg_regs

unfoldable pub assign_parts : Arch → Option (List Part) → Seq → Assigned
assign_parts arch none s = no_room
assign_parts arch (some ps) s = if has_room arch ps s then fits (place ps s) else no_room

-- The registers handed out so far exist, and a float register holds 8 bytes.
pub record InFile (arch : Arch) (s : Seq) : Type 0 where
  pub ints_exist : s.iregs ≤ arch.int_arg_regs
  pub floats_exist : s.fregs ≤ arch.float_arg_regs
  pub wide : 8 ≤ arch.float_reg_size

pub basic-parts :
    (arch : Arch) (k : Kind) (n a off : ℕ) (s : Seq)
    → IsSane (basic k n a)
    → InFile arch s
    → reg_assign_basic arch k n off s ≡ assign_parts arch (some (basic_parts k n off)) s
unfolding reg_assign_basic assign_parts has_room place assign_int_n assign_float_n int_steps
    float_steps has_bit
basic-parts arch pointer n a off s h r = ground arith
basic-parts arch bool n a off s h r = ground arith
basic-parts arch slice n a off s h r = ground arith
basic-parts arch float32 n a off s h r = ground arith
basic-parts arch complex64 n a off s h r = ground arith
basic-parts arch _ n a off s h r = ground arith

pub ints-append : (ps qs : List Part) → ints (ps ++ qs) ≡ ints ps + ints qs
ints-append [] qs = omega arith
ints-append (int_part o n ∷ ps) qs = omega (arith, ints-append ps qs)
ints-append (ptr_part o ∷ ps) qs = omega (arith, ints-append ps qs)
ints-append (float_part o n ∷ ps) qs = omega (arith, ints-append ps qs)

pub floats-append : (ps qs : List Part) → floats (ps ++ qs) ≡ floats ps + floats qs
floats-append [] qs = omega arith
floats-append (int_part o n ∷ ps) qs = omega (arith, floats-append ps qs)
floats-append (ptr_part o ∷ ps) qs = omega (arith, floats-append ps qs)
floats-append (float_part o n ∷ ps) qs = omega (arith, floats-append ps qs)

pub place-append : (ps qs : List Part) (s : Seq) → place (ps ++ qs) s ≡ place qs (place ps s)
unfolding place
place-append [] qs s = refl
place-append (int_part o n ∷ ps) qs s = place-append ps qs _
place-append (ptr_part o ∷ ps) qs s = place-append ps qs _
place-append (float_part o n ∷ ps) qs s = place-append ps qs _

pub iregs-place : (ps : List Part) (s : Seq) → (place ps s).iregs ≡ s.iregs + ints ps
unfolding place
iregs-place [] s = omega arith
iregs-place (int_part o n ∷ ps) s = omega (arith, iregs-place ps (push_int step_int_reg o n s))
iregs-place (ptr_part o ∷ ps) s = omega (arith, iregs-place ps (push_int step_pointer o 8 s))
iregs-place (float_part o n ∷ ps) s = omega (arith, iregs-place ps (push_float o n s))

pub fregs-place : (ps : List Part) (s : Seq) → (place ps s).fregs ≡ s.fregs + floats ps
unfolding place
fregs-place [] s = omega arith
fregs-place (int_part o n ∷ ps) s = omega (arith, fregs-place ps (push_int step_int_reg o n s))
fregs-place (ptr_part o ∷ ps) s = omega (arith, fregs-place ps (push_int step_pointer o 8 s))
fregs-place (float_part o n ∷ ps) s = omega (arith, fregs-place ps (push_float o n s))
