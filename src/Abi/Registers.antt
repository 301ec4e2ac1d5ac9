-- ===== src/Abi/Registers.antt =====
-- The registers that a method's layout hands out.
use go_weave.Prelude.{ℕ, zero, suc, ◌+◌, ◌≡◌, refl, arith, some, List, [], ◌∷◌, ◌++◌}
use mathlib.Core.List.{append-nil}
use go_weave.Prelude.Bits.{has_bit}
use go_weave.Abi.Types.{GoType, size, align, Arch, FuncType}
use go_weave.Abi.Assign.{
  step_int_reg, step_pointer, step_float_reg, Step, Seq, int_steps, stack_assign, begin_value,
}
use go_weave.Abi.Layout.{AbiLayout, finish_layout, new_abi_layout}
use go_weave.Abi.Parts.{Part, int_part, ptr_part, float_part, push_int, push_float, place, InFile}
use go_weave.Abi.Values.{
  Added, nothing, registers, stack, AddedAll, done, more, rcvr_seq, IsMethod, new_abi_layout_cases,
}
use go_weave.Abi.Equivalence.{place-InFile}

-- The integer registers of a list of steps, in order.
abbrev pub int_regs : List Step → List ℕ
int_regs [] = []
int_regs (st ∷ sts) = elim (st.kind) [
  | step_int_reg ↦ st.ireg ∷ int_regs sts
  | step_pointer ↦ st.ireg ∷ int_regs sts
  | _ ↦ int_regs sts
]

abbrev pub float_regs : List Step → List ℕ
float_regs [] = []
float_regs (st ∷ sts) = elim (st.kind) [
  | step_float_reg ↦ st.freg ∷ float_regs sts
  | _ ↦ float_regs sts
]

-- 0, 1, … up to `n`, without `n`.
abbrev pub below : ℕ → List ℕ
below zero = []
below (suc n) = below n ++ n ∷ []

int_regs-append : (a b : List Step) → int_regs (a ++ b) ≡ int_regs a ++ int_regs b
int_regs-append [] b = refl
int_regs-append (st ∷ a) b = ground (arith, int_regs-append a b)

float_regs-append : (a b : List Step) → float_regs (a ++ b) ≡ float_regs a ++ float_regs b
float_regs-append [] b = refl
float_regs-append (st ∷ a) b = ground (arith, float_regs-append a b)

-- The registers of each file are handed out in order: none twice, none left out, none that the
-- architecture does not have.
pub record IsNumbered (arch : Arch) (s : Seq) : Type 0 where
  pub int_order : int_regs s.steps ≡ below s.iregs
  pub float_order : float_regs s.steps ≡ below s.fregs
  pub in_file : InFile arch s

below-suc : (n : ℕ) → below (n + 1) ≡ below n ++ n ∷ []
below-suc n = let e : n + 1 ≡ suc n = omega arith in rw e

place-order :
    (ps : List Part) (s : Seq)
    → int_regs s.steps ≡ below s.iregs
    → float_regs s.steps ≡ below s.fregs
    → (int_regs (place ps s).steps ≡ below (place ps s).iregs)
      × (float_regs (place ps s).steps ≡ below (place ps s).fregs)
unfolding place
place-order [] s h k = (h, k)
place-order (int_part o n ∷ ps) s h k =
    place-order ps (push_int step_int_reg o n s)
      (rw (int_regs-append s.steps _, h, below-suc s.iregs))
      (rw (float_regs-append s.steps _, append-nil) k)
place-order (ptr_part o ∷ ps) s h k =
    place-order ps (push_int step_pointer o 8 s)
      (rw (int_regs-append s.steps _, h, below-suc s.iregs))
      (rw (float_regs-append s.steps _, append-nil) k)
place-order (float_part o n ∷ ps) s h k =
    place-order ps (push_float o n s) (rw (int_regs-append s.steps _, append-nil) h)
      (rw (float_regs-append s.steps _, k, below-suc s.fregs))

stack_assign-IsNumbered :
    (arch : Arch) (n a : ℕ) (s : Seq) → IsNumbered arch s → IsNumbered arch (stack_assign n a s)
unfolding stack_assign
stack_assign-IsNumbered arch n a s h = record {
  int_order = rw (int_regs-append s.steps _, append-nil) h.int_order;
  float_order = rw (float_regs-append s.steps _, append-nil) h.float_order;
  in_file = record {
    ints_exist = h.in_file.ints_exist;
    floats_exist = h.in_file.floats_exist;
    wide = h.in_file.wide;
  };
}

Added-IsNumbered :
    {arch : Arch} {t : GoType} {s s' : Seq}
    → Added arch t s s'
    → IsNumbered arch s
    → IsNumbered arch s'
Added-IsNumbered {s = s} (nothing z e) h = rw e (record {
  int_order = h.int_order;
  float_order = h.float_order;
  in_file = record {
    ints_exist = h.in_file.ints_exist;
    floats_exist = h.in_file.floats_exist;
    wide = h.in_file.wide;
  };
})
Added-IsNumbered {arch} {s = s} (registers ps z f room e) h =
    let (i, x) = place-order ps (begin_value s) h.int_order h.float_order in
    let begun : InFile arch (begin_value s) = record {
      ints_exist = h.in_file.ints_exist;
      floats_exist = h.in_file.floats_exist;
      wide = h.in_file.wide;
    } in
    rw e (record {
      int_order = i;
      float_order = x;
      in_file = place-InFile arch ps (begin_value s) begun room;
    })
Added-IsNumbered {arch} {t} {s} (stack z q e) h = rw e (
    stack_assign-IsNumbered arch (size t) (align t) (begin_value s) (record {
      int_order = h.int_order;
      float_order = h.float_order;
      in_file = record {
        ints_exist = h.in_file.ints_exist;
        floats_exist = h.in_file.floats_exist;
        wide = h.in_file.wide;
      };
    }))

pub AddedAll-IsNumbered :
    {arch : Arch} {ts : List GoType} {s s' : Seq}
    → AddedAll arch ts s s'
    → IsNumbered arch s
    → IsNumbered arch s'
AddedAll-IsNumbered done h = h
AddedAll-IsNumbered (more a r) h = AddedAll-IsNumbered r (Added-IsNumbered a h)

pub rcvr-IsNumbered : (arch : Arch) (ft : FuncType) → IsMethod arch ft → IsNumbered arch rcvr_seq
unfolding rcvr_seq int_steps has_bit
rcvr-IsNumbered arch ft m = record {
  int_order = refl;
  float_order = refl;
  in_file = record { ints_exist = m.has_reg; floats_exist = omega arith; wide = m.wide };
}

-- For a method with types as reflection reports them, the layout is computed without a panic. Its
-- arguments, receiver first, take the integer registers 0, 1, 2, … and the float registers
-- 0, 1, 2, … in order, and so do its results: no register is given twice, none is left out, and none
-- lies outside the register file.
pub layout_registers :
    (arch : Arch) (ft : FuncType)
    → IsMethod arch ft
    → (l : AbiLayout) × (new_abi_layout arch ft ≡ some l)
      × IsNumbered arch l.call
      × IsNumbered arch l.ret
unfolding finish_layout
layout_registers arch ft m =
    let (call, ret, e, laid) = new_abi_layout_cases arch ft m in
    (
      finish_layout ft call ret,
      e,
      AddedAll-IsNumbered laid.args_added (rcvr-IsNumbered arch ft m),
      AddedAll-IsNumbered laid.results_added (record {
        int_order = refl;
        float_order = refl;
        in_file = record { ints_exist = omega arith; floats_exist = omega arith; wide = m.wide };
      }),
    )
