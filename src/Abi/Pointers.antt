-- ===== src/Abi/Pointers.antt =====
-- The pointer steps of `regAssign` against `ptrOffsets`, both of abi.go.
use go_weave.Prelude.{
  ℕ, zero, suc, ◌+◌, ◌*◌, ◌≡◌, refl, sym, ap, ◌∙◌, inl, inr, ◌≢◌, arith, Option, none, some, List,
  [], ◌∷◌, ◌++◌, if◌then◌else◌, Bool-cases,
}
use mathlib.Core.List.{append-nil}
use go_weave.Abi.Types.{
  Kind, slice, interface, GoType, basic, array, struct, Fields, no_fields, field, size, Arch, u64,
}
use go_weave.Abi.Assign.{Step, Seq, fits, reg_assign}
use go_weave.Abi.Layout.{is_pointer_step, ptr_offsets, ptr_offsets_fields, ptr_offsets_basic}
use go_weave.Abi.Parts.{
  Part, int_part, ptr_part, float_part, basic_parts, join, flatten, flatten_fields, InFile, place,
  has_room, assign_parts,
}
use go_weave.Abi.Sane.{IsSane}
use go_weave.Abi.Equivalence.{reg_assign-assign_parts}
use go_weave.Abi.Segments.{number, steps-place}

-- No interface inside: an interface's first word is an itab, which the collector need not see and the
-- register steps do not mark, while `ptrOffsets` lists both of its words.
abbrev mutual
  pub HasNoIface : GoType → Type 0
  HasNoIface (basic k n a) = k ≢ interface
  HasNoIface (array l e n a) = HasNoIface e
  HasNoIface (struct fs n a) = HaveNoIface fs

  pub HaveNoIface : Fields → Type 0
  HaveNoIface no_fields = Unit
  HaveNoIface (field o t fs) = HasNoIface t × HaveNoIface fs

-- The offsets of the pointer parts.
abbrev pub pointer_parts : List Part → List ℕ
pointer_parts [] = []
pointer_parts (int_part o n ∷ ps) = pointer_parts ps
pointer_parts (ptr_part o ∷ ps) = o ∷ pointer_parts ps
pointer_parts (float_part o n ∷ ps) = pointer_parts ps

pointer_parts-append :
    (ps qs : List Part) → pointer_parts (ps ++ qs) ≡ pointer_parts ps ++ pointer_parts qs
pointer_parts-append [] qs = refl
pointer_parts-append (int_part o n ∷ ps) qs = pointer_parts-append ps qs
pointer_parts-append (ptr_part o ∷ ps) qs = ap (λ l. o ∷ l) (pointer_parts-append ps qs)
pointer_parts-append (float_part o n ∷ ps) qs = pointer_parts-append ps qs

basic_pointers :
    (k : Kind) (n off : ℕ)
    → k ≢ interface
    → u64 off ≡ off
    → pointer_parts (basic_parts k n off) ≡ ptr_offsets_basic k off
unfolding ptr_offsets_basic
basic_pointers interface n off h e = absurd (h refl)
basic_pointers slice n off h e = cc
basic_pointers _ n off h e = cc

join_cases :
    (p q : Option (List Part)) (ps : List Part)
    → join p q ≡ some ps
    → (a b : List Part) × (p ≡ some a) × (q ≡ some b) × (ps ≡ a ++ b)
join_cases none q ps h = cc
join_cases (some a) none ps h = cc
join_cases (some a) (some b) ps h = (a, b, refl, refl, cc)

mutual
  unfolding flatten ptr_offsets

  parts_pointers :
      (t : GoType) (off : ℕ) (ps : List Part)
      → HasNoIface t
      → u64 off ≡ off
      → flatten t off ≡ some ps
      → pointer_parts ps ≡ ptr_offsets t off
  parts_pointers (basic k n a) off ps h e f =
      let same : basic_parts k n off ≡ ps = cc in rw (← same) (basic_pointers k n off h e)
  parts_pointers (array zero e n a) off ps h u f = let same : [] ≡ ps = cc in rw (← same)
  parts_pointers (array (suc zero) e n a) off ps h u f =
      let at : u64 (off + u64 (0 * size e)) ≡ off = omega arith in
      rw (append-nil, at) (parts_pointers e off ps h u f)
  parts_pointers (array (suc (suc l)) e n a) off ps h u f = cc
  parts_pointers (struct fs n a) off ps h u f = fields_pointers fs off ps h f

  fields_pointers :
      (fs : Fields) (off : ℕ) (ps : List Part)
      → HaveNoIface fs
      → flatten_fields fs off ≡ some ps
      → pointer_parts ps ≡ ptr_offsets_fields fs off
  fields_pointers no_fields off ps h f = let same : [] ≡ ps = cc in rw (← same)
  fields_pointers (field o t fs) off ps h f =
      let (a, b, p, q, e) = join_cases (flatten t (u64 (off + o))) (flatten_fields fs off) ps f in
      rw (
        e,
        pointer_parts-append a b,
        parts_pointers t (u64 (off + o)) a h.0 (omega arith) p,
        fields_pointers fs off b h.1 q,
      )

-- The offsets inside the value of the parts that steps move as pointers.
abbrev pub pointer_steps : List Step → List ℕ
pointer_steps [] = []
pointer_steps (st ∷ sts) =
    if is_pointer_step st then st.offset ∷ pointer_steps sts else pointer_steps sts

pointer_steps-number : (i f : ℕ) (ps : List Part) → pointer_steps (number i f ps) ≡ pointer_parts ps
pointer_steps-number i f [] = refl
pointer_steps-number i f (int_part o n ∷ ps) = pointer_steps-number (i + 1) f ps
pointer_steps-number i f (ptr_part o ∷ ps) = ap (λ l. o ∷ l) (pointer_steps-number (i + 1) f ps)
pointer_steps-number i f (float_part o n ∷ ps) = pointer_steps-number i (f + 1) ps

assign_parts-fits :
    (arch : Arch) (p : Option (List Part)) (s s' : Seq)
    → assign_parts arch p s ≡ fits s'
    → (ps : List Part) × (p ≡ some ps) × (s' ≡ place ps s)
unfolding assign_parts
assign_parts-fits arch none s s' h = cc
assign_parts-fits arch (some ps) s s' h = elim (Bool-cases (has_room arch ps s)) [
  | inl e ↦ (ps, refl, ground arith)
  | inr e ↦ ground arith
]

-- When `regAssign` succeeds on a type as reflection reports it, with no interface inside, the steps
-- that it adds mark as pointers exactly the words that `ptrOffsets` lists for that type, in order.
pub reg_assign-ptr_offsets :
    (arch : Arch) (t : GoType) (s s' : Seq)
    → IsSane t
    → InFile arch s
    → HasNoIface t
    → reg_assign arch t 0 s ≡ fits s'
    → (added : List Step) × (s'.steps ≡ s.steps ++ added) × (pointer_steps added ≡ ptr_offsets t 0)
reg_assign-ptr_offsets arch t s s' sane r clean h =
    let (ps, f, e) =
      assign_parts-fits arch (flatten t 0) s s'
        (sym (reg_assign-assign_parts arch t 0 s sane r) ∙ h) in
    (
      number s.iregs s.fregs ps,
      rw e (steps-place ps s),
      pointer_steps-number s.iregs s.fregs ps ∙ parts_pointers t 0 ps clean refl f,
    )
