-- ===== src/Abi/Spread.antt =====
-- The parts of a type stand in order and apart inside the value: what `regAssign` of abi.go records as
-- the offsets of its steps.
use go_weave.Prelude.{
  ℕ, zero, suc, ◌+◌, ◌^◌, ◌≤◌, ◌<◌, ◌≡◌, refl, ◌⊎◌, inl, inr, arith, Option, none, some, List, [],
  ◌∷◌, ◌++◌,
}
use go_weave.Abi.Types.{
  Kind, bool, int8, int16, int32, uint8, uint16, uint32, float32, complex64, complex128, string,
  interface, slice, chan, func, go_map, pointer, unsafe_pointer, GoType, basic, array, struct,
  Fields, no_fields, field, size, u64,
}
use go_weave.Abi.Sane.{IsSane, AreSane, kind_size}
use go_weave.Abi.Parts.{
  Part, int_part, ptr_part, float_part, basic_parts, join, flatten, flatten_fields,
}

-- One part behind the other between `from` and `to`; each is 1, 2, 4 or 8 bytes, a float 4 or 8.
abbrev pub IsWordSize : ℕ → Type 0
IsWordSize n = (n ≡ 1) ⊎ ((n ≡ 2) ⊎ ((n ≡ 4) ⊎ (n ≡ 8)))

abbrev pub Spread : ℕ → List Part → ℕ → Type 0
Spread from [] to = from ≤ to
Spread from (int_part o n ∷ ps) to = (from ≤ o) × IsWordSize n × Spread (o + n) ps to
Spread from (ptr_part o ∷ ps) to = (from ≤ o) × Spread (o + 8) ps to
Spread from (float_part o n ∷ ps) to = (from ≤ o) × IsWordSize n × Spread (o + n) ps to

Spread-append :
    (from mid to : ℕ) (ps qs : List Part)
    → Spread from ps mid
    → Spread mid qs to
    → Spread from (ps ++ qs) to
Spread-append from mid to [] (int_part o n ∷ qs) h k = (omega arith, k.1, k.2)
Spread-append from mid to [] (ptr_part o ∷ qs) h k = (omega arith, k.1)
Spread-append from mid to [] (float_part o n ∷ qs) h k = (omega arith, k.1, k.2)
Spread-append from mid to [] [] h k = omega arith
Spread-append from mid to (int_part o n ∷ ps) qs h k =
    (h.0, h.1, Spread-append (o + n) mid to ps qs h.2 k)
Spread-append from mid to (ptr_part o ∷ ps) qs h k = (h.0, Spread-append (o + 8) mid to ps qs h.1 k)
Spread-append from mid to (float_part o n ∷ ps) qs h k =
    (h.0, h.1, Spread-append (o + n) mid to ps qs h.2 k)

basic-Spread :
    (k : Kind) (off : ℕ)
    → off + kind_size k < 2 ^ 64
    → Spread off (basic_parts k (kind_size k) off) (off + kind_size k)
basic-Spread bool off h = (omega arith, inl refl, omega arith)
basic-Spread int8 off h = (omega arith, inl refl, omega arith)
basic-Spread uint8 off h = (omega arith, inl refl, omega arith)
basic-Spread int16 off h = (omega arith, inr (inl refl), omega arith)
basic-Spread uint16 off h = (omega arith, inr (inl refl), omega arith)
basic-Spread int32 off h = (omega arith, inr (inr (inl refl)), omega arith)
basic-Spread uint32 off h = (omega arith, inr (inr (inl refl)), omega arith)
basic-Spread float32 off h = (omega arith, inr (inr (inl refl)), omega arith)
basic-Spread complex64 off h =
    (omega arith, inr (inr (inl refl)), (omega arith, inr (inr (inl refl)), omega arith))
basic-Spread complex128 off h =
    (omega arith, inr (inr (inr refl)), (omega arith, inr (inr (inr refl)), omega arith))
basic-Spread string off h = (omega arith, (omega arith, inr (inr (inr refl)), omega arith))
basic-Spread interface off h = (omega arith, inr (inr (inr refl)), (omega arith, omega arith))
basic-Spread slice off h = (
  omega arith,
  (omega arith, inr (inr (inr refl)), (omega arith, inr (inr (inr refl)), omega arith)),
)
basic-Spread pointer off h = (omega arith, omega arith)
basic-Spread unsafe_pointer off h = (omega arith, omega arith)
basic-Spread chan off h = (omega arith, omega arith)
basic-Spread go_map off h = (omega arith, omega arith)
basic-Spread func off h = (omega arith, omega arith)
basic-Spread _ off h = (omega arith, inr (inr (inr refl)), omega arith)

abbrev SpreadOpt : ℕ → Option (List Part) → ℕ → Type 0
SpreadOpt from none to = Unit
SpreadOpt from (some ps) to = Spread from ps to

join-SpreadOpt :
    (from mid to : ℕ) (p q : Option (List Part))
    → SpreadOpt from p mid
    → SpreadOpt mid q to
    → SpreadOpt from (join p q) to
join-SpreadOpt from mid to none q h k = tt
join-SpreadOpt from mid to (some ps) none h k = tt
join-SpreadOpt from mid to (some ps) (some qs) h k = Spread-append from mid to ps qs h k

Spread-wider :
    (from from' to to' : ℕ) (ps : List Part)
    → Spread from ps to
    → from' ≤ from
    → to ≤ to'
    → Spread from' ps to'
Spread-wider from from' to to' [] h a b = omega arith
Spread-wider from from' to to' (int_part o n ∷ ps) h a b =
    (omega arith, h.1, Spread-wider (o + n) (o + n) to to' ps h.2 (omega arith) b)
Spread-wider from from' to to' (ptr_part o ∷ ps) h a b =
    (omega arith, Spread-wider (o + 8) (o + 8) to to' ps h.1 (omega arith) b)
Spread-wider from from' to to' (float_part o n ∷ ps) h a b =
    (omega arith, h.1, Spread-wider (o + n) (o + n) to to' ps h.2 (omega arith) b)

SpreadOpt-wider :
    (from from' to to' : ℕ) (p : Option (List Part))
    → SpreadOpt from p to
    → from' ≤ from
    → to ≤ to'
    → SpreadOpt from' p to'
SpreadOpt-wider from from' to to' none h a b = tt
SpreadOpt-wider from from' to to' (some ps) h a b = Spread-wider from from' to to' ps h a b

mutual
  unfolding flatten

  flatten-SpreadOpt :
      (t : GoType) (off : ℕ)
      → IsSane t
      → off + size t < 2 ^ 64
      → SpreadOpt off (flatten t off) (off + size t)
  flatten-SpreadOpt (basic k n a) off sane h = rw (sane.0) (basic-Spread k off (omega arith))
  flatten-SpreadOpt (array zero e n a) off sane h = omega arith
  flatten-SpreadOpt (array (suc zero) e n a) off sane h =
      SpreadOpt-wider off off (off + size e) (off + n) (flatten e off)
        (flatten-SpreadOpt e off sane.0 (omega arith)) (omega arith) (omega arith)
  flatten-SpreadOpt (array (suc (suc l)) e n a) off sane h = tt
  flatten-SpreadOpt (struct fs n a) off sane h =
      SpreadOpt-wider (off + 0) off (off + n) (off + n) (flatten_fields fs off)
        (flatten_fields-SpreadOpt fs 0 n a off sane.0 h) (omega arith) (omega arith)

  flatten_fields-SpreadOpt :
      (fs : Fields) (from n a off : ℕ)
      → AreSane fs from n a
      → off + n < 2 ^ 64
      → SpreadOpt (off + from) (flatten_fields fs off) (off + n)
  flatten_fields-SpreadOpt no_fields from n a off sane h = omega arith
  flatten_fields-SpreadOpt (field o t fs) from n a off sane h =
      let at : u64 (off + o) ≡ off + o = omega arith in
      join-SpreadOpt (off + from) (off + (o + size t)) (off + n) (flatten t (u64 (off + o)))
        (flatten_fields fs off)
        (rw at (
          SpreadOpt-wider (off + o) (off + from) (off + o + size t) (off + (o + size t))
            (flatten t (off + o)) (flatten-SpreadOpt t (off + o) sane.0 (omega arith)) (omega arith)
            (omega arith)))
        (flatten_fields-SpreadOpt fs (o + size t) n a off sane.5 h)

-- The parts of a type as reflection reports it stand inside the value, in order and apart.
pub flatten-Spread :
    (t : GoType) (ps : List Part)
    → IsSane t
    → size t < 2 ^ 64
    → flatten t 0 ≡ some ps
    → Spread 0 ps (size t)
flatten-Spread t ps sane h e =
    let s : SpreadOpt 0 (flatten t 0) (size t) =
      SpreadOpt-wider 0 0 (0 + size t) (size t) (flatten t 0)
        (flatten-SpreadOpt t 0 sane (omega arith)) (omega arith) (omega arith) in
    rw e at s
