-- ===== src/Abi/Segments.antt =====
-- The steps of each single value: what `stepsForValue` of abi.go returns.
use go_weave.Prelude.{
  ℕ, ◌+◌, ◌-◌, ◌<◌, ◌≡◌, refl, sym, ap, ◌∙◌, ◌≢◌, arith, some, List, [], ◌∷◌, ◌++◌, length, get_or,
  concat, starts_from, length-append, length-starts_from, group_ends, group_found, take, drop,
}
use mathlib.Core.List.{append_assoc, append-nil}
use go_weave.Abi.Types.{GoType, size, align, Arch, align_up}
use go_weave.Abi.Assign.{
  step_stack, step_int_reg, step_pointer, Step, Seq, stack_assign, begin_value, end_of_value,
  steps_for_value,
}
use go_weave.Abi.Parts.{
  Part, int_part, ptr_part, float_part, flatten, place, push_int, push_float, int_step, float_step,
}
use go_weave.Abi.Values.{Added, nothing, registers, stack, AddedAll, done, more}

-- The steps of the parts, in the registers from `i` and `f` on.
abbrev pub number : ℕ → ℕ → List Part → List Step
number i f [] = []
number i f (int_part o n ∷ ps) = int_step step_int_reg o n i ∷ number (i + 1) f ps
number i f (ptr_part o ∷ ps) = int_step step_pointer o 8 i ∷ number (i + 1) f ps
number i f (float_part o n ∷ ps) = float_step o n f ∷ number i (f + 1) ps

-- The steps of a value of type `t`: none for a type of size 0, one for each part in registers, or one
-- for the whole value on the stack.
pub data ValueSteps (t : GoType) (steps : List Step) : Type 0 where
  no_steps : size t ≡ 0 → steps ≡ [] → ValueSteps t steps
  in_registers :
      (i f : ℕ) (ps : List Part)
      → size t ≢ 0
      → flatten t 0 ≡ some ps
      → steps ≡ number i f ps
      → ValueSteps t steps
  on_stack :
      (st : Step)
      → st.kind ≡ step_stack
      → st.offset ≡ 0
      → st.size ≡ size t
      → steps ≡ st ∷ []
      → ValueSteps t steps

abbrev pub Each : List GoType → List (List Step) → Type 0
Each [] [] = Unit
Each [] (g ∷ gs) = ⊥
Each (t ∷ ts) [] = ⊥
Each (t ∷ ts) (g ∷ gs) = ValueSteps t g × Each ts gs

pub steps-place :
    (ps : List Part) (s : Seq) → (place ps s).steps ≡ s.steps ++ number s.iregs s.fregs ps
unfolding place
steps-place [] s = sym (append-nil s.steps)
steps-place (int_part o n ∷ ps) s =
    steps-place ps (push_int step_int_reg o n s) ∙ append_assoc s.steps _ _
steps-place (ptr_part o ∷ ps) s =
    steps-place ps (push_int step_pointer o 8 s) ∙ append_assoc s.steps _ _
steps-place (float_part o n ∷ ps) s = steps-place ps (push_float o n s) ∙ append_assoc s.steps _ _

pub value_start-place : (ps : List Part) (s : Seq) → (place ps s).value_start ≡ s.value_start
unfolding place
value_start-place [] s = refl
value_start-place (int_part o n ∷ ps) s = value_start-place ps (push_int step_int_reg o n s)
value_start-place (ptr_part o ∷ ps) s = value_start-place ps (push_int step_pointer o 8 s)
value_start-place (float_part o n ∷ ps) s = value_start-place ps (push_float o n s)

abbrev pub stack_step : ℕ → ℕ → Step
stack_step n o = record { kind = step_stack; offset = 0; size = n; stk_off = o; ireg = 0; freg = 0 }

-- What one more value appends.
record Appends (t : GoType) (s s' : Seq) (seg : List Step) : Type 0 where
  steps : s'.steps ≡ s.steps ++ seg
  starts : s'.value_start ≡ s.value_start ++ length s.steps ∷ []
  value : ValueSteps t seg

Added-Appends :
    {arch : Arch} {t : GoType} {s s' : Seq}
    → Added arch t s s'
    → (seg : List Step) × Appends t s s' seg
unfolding stack_assign
Added-Appends {s = s} (nothing z e) =
    ([], rw e (record { steps = sym (append-nil s.steps); starts = refl; value = no_steps z refl }))
Added-Appends {t = t} {s = s} (registers ps z f room e) = (
  number s.iregs s.fregs ps,
  rw e (record {
    steps = steps-place ps (begin_value s);
    starts = value_start-place ps (begin_value s);
    value = in_registers s.iregs s.fregs ps z f refl;
  }),
)
Added-Appends {t = t} {s = s} (stack z q e) =
    let st = stack_step (size t) (align_up s.stack_bytes (align t)) in
    (
      st ∷ [],
      rw e (record { steps = refl; starts = refl; value = on_stack st refl refl refl refl }),
    )

pub record AppendsAll (ts : List GoType) (s s' : Seq) (segs : List (List Step)) : Type 0 where
  pub steps : s'.steps ≡ s.steps ++ concat segs
  pub starts : s'.value_start ≡ s.value_start ++ starts_from (length s.steps) segs
  pub values : Each ts segs

pub AddedAll-AppendsAll :
    {arch : Arch} {ts : List GoType} {s s' : Seq}
    → AddedAll arch ts s s'
    → (segs : List (List Step)) × AppendsAll ts s s' segs
AddedAll-AppendsAll {s = s} done =
    ([], record { steps = sym (append-nil _); starts = sym (append-nil _); values = tt })
AddedAll-AppendsAll {s = s} (more {s' = s'} a r) =
    let (seg, p) = Added-Appends a in
    let (segs, q) = AddedAll-AppendsAll r in
    (
      seg ∷ segs,
      record {
        steps =
            q.steps ∙ ap (λ x. x ++ concat segs) p.steps ∙ append_assoc s.steps seg (concat segs);
        starts =
            rw (q.starts, p.starts, p.steps, length-append s.steps seg)
              (append_assoc s.value_start _ _);
        values = (p.value, q.values);
      },
    )

-- A sequence that is exactly the groups of steps of its values.
pub record IsSegmented (ts : List GoType) (s : Seq) (segs : List (List Step)) : Type 0 where
  pub whole : s.steps ≡ concat segs
  pub starts : s.value_start ≡ starts_from 0 segs
  pub each : Each ts segs

ends_of_group :
    (s : Seq) (segs : List (List Step)) (i : ℕ)
    → s.steps ≡ concat segs
    → s.value_start ≡ starts_from 0 segs
    → i < length segs
    → end_of_value s i ≡ get_or (starts_from 0 segs) i 0 + length (get_or segs i [])
ends_of_group s segs i w g h =
    rw (g, w, length-starts_from 0 segs) (ground (arith, group_ends 0 i segs h))

slice_of_group {ℓ} :
    {A : Type ℓ} (at l : ℕ) (xs : List A)
    → take (at + l - at) (drop at xs) ≡ take l (drop (at - 0) xs)
slice_of_group at l xs =
    let e : at + l - at ≡ l = omega arith in let e' : at - 0 ≡ at = omega arith in rw (e, e')

-- `stepsForValue` returns the steps that were appended for that value.
pub steps_for_value_group :
    (ts : List GoType) (s : Seq) (segs : List (List Step)) (i : ℕ)
    → IsSegmented ts s segs
    → i < length segs
    → steps_for_value s i ≡ get_or segs i []
unfolding steps_for_value
steps_for_value_group ts s segs i g h =
    rw
      (
        ends_of_group s segs i g.whole g.starts h,
        g.whole,
        g.starts,
        slice_of_group (get_or (starts_from 0 segs) i 0) (length (get_or segs i [])) (concat segs),
      )
      (group_found 0 i segs h)
