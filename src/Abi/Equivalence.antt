-- ===== src/Abi/Equivalence.antt =====
-- `regAssign` of abi.go agrees with the flattened description of `Parts`.
use go_weave.Prelude.{
  ℕ, zero, suc, ◌+◌, ◌≡◌, refl, ap, ◌∙◌, inl, inr, arith, true, ◌&&◌, Option, none, some, List, [],
  ◌++◌, Bool-cases,
}
use go_weave.Abi.Types.{GoType, basic, array, struct, Fields, no_fields, field, Arch, u64}
use go_weave.Abi.Assign.{Seq, Assigned, fits, no_room, panic, reg_assign, reg_assign_fields}
use go_weave.Abi.Parts.{
  Part, join, flatten, flatten_fields, place, has_room, assign_parts, InFile, basic-parts,
  ints-append, floats-append, place-append, iregs-place, fregs-place,
}
use go_weave.Abi.Sane.{IsSane, AreSane}

has_room-append :
    (arch : Arch) (ps qs : List Part) (s : Seq)
    → has_room arch (ps ++ qs) s ≡ (has_room arch ps s && has_room arch qs (place ps s))
unfolding has_room
has_room-append arch ps qs s =
    ground (arith, ints-append ps qs, floats-append ps qs, iregs-place ps s, fregs-place ps s)

pub place-InFile :
    (arch : Arch) (ps : List Part) (s : Seq)
    → InFile arch s
    → has_room arch ps s ≡ true
    → InFile arch (place ps s)
unfolding has_room
place-InFile arch ps s r h = ground (arith, iregs-place ps s, fregs-place ps s)

abbrev and_then : Assigned → (Seq → Assigned) → Assigned
and_then r f = elim r [ fits s ↦ f s | no_room ↦ no_room | panic ↦ panic ]

assign_parts-join :
    (arch : Arch) (p q : Option (List Part)) (s : Seq)
    → and_then (assign_parts arch p s) (assign_parts arch q) ≡ assign_parts arch (join p q) s
unfolding assign_parts
assign_parts-join arch none q s = refl
assign_parts-join arch (some ps) none s = ground arith
assign_parts-join arch (some ps) (some qs) s =
    rw (has_room-append arch ps qs s, place-append ps qs s) (ground arith)

and_then_congr :
    (arch : Arch) (p : Option (List Part)) (f g : Seq → Assigned) (s : Seq)
    → InFile arch s
    → ((s' : Seq) → InFile arch s' → f s' ≡ g s')
    → and_then (assign_parts arch p s) f ≡ and_then (assign_parts arch p s) g
unfolding assign_parts
and_then_congr arch none f g s r h = refl
and_then_congr arch (some ps) f g s r h = elim (Bool-cases (has_room arch ps s)) [
  | inl e ↦ rw e (h _ (place-InFile arch ps s r e))
  | inr e ↦ rw e
]

assign_nothing : (arch : Arch) (s : Seq) → InFile arch s → fits s ≡ assign_parts arch (some []) s
unfolding assign_parts has_room place
assign_nothing arch s r = ground arith

mutual
  unfolding reg_assign flatten assign_parts

  reg_assign_eq :
      (arch : Arch) (t : GoType) (off : ℕ) (s : Seq)
      → IsSane t
      → InFile arch s
      → reg_assign arch t off s ≡ assign_parts arch (flatten t off) s
  reg_assign_eq arch (basic k n a) off s h r = basic-parts arch k n a off s h r
  reg_assign_eq arch (array zero e n a) off s h r = assign_nothing arch s r
  reg_assign_eq arch (array (suc zero) e n a) off s h r = reg_assign_eq arch e off s h.0 r
  reg_assign_eq arch (array (suc (suc l)) e n a) off s h r = refl
  reg_assign_eq arch (struct fs n a) off s h r = reg_assign_fields_eq arch fs off s 0 n a h.0 r

  reg_assign_fields_eq :
      (arch : Arch) (fs : Fields) (off : ℕ) (s : Seq) (from n a : ℕ)
      → AreSane fs from n a
      → InFile arch s
      → reg_assign_fields arch fs off s ≡ assign_parts arch (flatten_fields fs off) s
  reg_assign_fields_eq arch no_fields off s from n a h r = assign_nothing arch s r
  reg_assign_fields_eq arch (field o t fs) off s from n a h r =
      ap (λ x. and_then x (reg_assign_fields arch fs off))
        (reg_assign_eq arch t (u64 (off + o)) s h.0 r)
      ∙ and_then_congr arch (flatten t (u64 (off + o))) _ _ s r
          (λ s' r'. reg_assign_fields_eq arch fs off s' _ n a h.5 r')
      ∙ assign_parts-join arch (flatten t (u64 (off + o))) (flatten_fields fs off) s

-- For a type as reflection reports it, and registers handed out within the file, the recursive
-- assignment agrees with the flattened description: it succeeds exactly when the type flattens and
-- all its parts fit in the registers that are left, it then gives the parts the next registers in
-- order, and it never panics.
pub reg_assign-assign_parts :
    (arch : Arch) (t : GoType) (off : ℕ) (s : Seq)
    → IsSane t
    → InFile arch s
    → reg_assign arch t off s ≡ assign_parts arch (flatten t off) s
reg_assign-assign_parts arch t off s h r = reg_assign_eq arch t off s h r
