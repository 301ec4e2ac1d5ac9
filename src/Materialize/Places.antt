-- ===== src/Materialize/Places.antt =====
-- The steps of a layout name registers and stack slots that exist and are apart: what the cases of
-- `scatterValue` and `materializeArgs` rely on.
use go_weave.Prelude.{
  ℕ, zero, suc, ◌+◌, ◌*◌, ◌≤◌, ◌<◌, ◌≡◌, refl, ◌⊎◌, ◌≢◌, inl, inr, arith, true, List, [], ◌∷◌, ◌++◌,
  All, All-append,
}
use go_weave.Abi.Types.{Arch, GoType, size}
use go_weave.Abi.Assign.{StepKind, step_stack, step_int_reg, step_pointer, step_float_reg, Step}
use go_weave.Abi.Layout.{is_pointer_step}
use go_weave.Abi.Sane.{IsSane}
use go_weave.Abi.Parts.{Part, int_part, ptr_part, float_part}
use go_weave.Abi.Spread.{IsWordSize, Spread, flatten-Spread}
use go_weave.Abi.Registers.{int_regs, float_regs, below}
use go_weave.Abi.Segments.{number, ValueSteps, no_steps, in_registers, on_stack}
use go_weave.Abi.StackArea.{slots, Apart}
use go_weave.Materialize.Effects.{IsInside, IsClear, IsNoMirror, addr_of, Away, Pairwise}
use go_weave.Materialize.Kept.{size-lt}

-- A register step moves a word or less.
abbrev pub HasSize : StepKind → Step → Type 0
HasSize step_stack st = Unit
HasSize step_int_reg st = IsWordSize st.size
HasSize step_pointer st = st.size ≡ 8
HasSize step_float_reg st = IsWordSize st.size

number-HasSize :
    (i j from to : ℕ) (ps : List Part)
    → Spread from ps to
    → All (λ st. HasSize st.kind st) (number i j ps)
number-HasSize i j from to [] h = tt
number-HasSize i j from to (int_part o n ∷ ps) h = (h.1, number-HasSize (i + 1) j (o + n) to ps h.2)
number-HasSize i j from to (ptr_part o ∷ ps) h = (refl, number-HasSize (i + 1) j (o + 8) to ps h.1)
number-HasSize i j from to (float_part o n ∷ ps) h =
    (h.1, number-HasSize i (j + 1) (o + n) to ps h.2)

pub value-HasSize :
    (t : GoType) (steps : List Step)
    → IsSane t
    → ValueSteps t steps
    → All (λ st. HasSize st.kind st) steps
value-HasSize t steps sane (no_steps z e) = rw e tt
value-HasSize t steps sane (in_registers i j ps z f e) =
    rw e (number-HasSize i j 0 (size t) ps (flatten-Spread t ps sane (size-lt t sane) f))
value-HasSize t steps sane (on_stack st kind off sz e) =
    let one : HasSize st.kind st = rw kind tt in rw e (one, tt)

abbrev pub Registers : Arch → List Step → Type 0
Registers arch sts =
    All (λ r. r < arch.int_arg_regs) (int_regs sts)
    × All (λ r. r < arch.float_arg_regs) (float_regs sts)
    × All (λ (s : ℕ × ℕ). s.0 + s.1 ≤ arch.stack_window) (slots sts)

IsInside-step :
    (arch : Arch) (st : Step) (sts : List Step) (k : StepKind)
    → st.kind ≡ k
    → HasSize k st
    → Registers arch (st ∷ sts)
    → IsInside arch k st × Registers arch sts
IsInside-step arch st sts step_stack e s r = let r' = rw e at r in (r'.2.0, (r'.0, r'.1, r'.2.1))
IsInside-step arch st sts step_int_reg e s r =
    let r' = rw e at r in ((r'.0.0, s), (r'.0.1, r'.1, r'.2))
IsInside-step arch st sts step_pointer e s r =
    let r' = rw e at r in ((r'.0.0, s), (r'.0.1, r'.1, r'.2))
IsInside-step arch st sts step_float_reg e s r =
    let r' = rw e at r in ((r'.1.0, s), (r'.0, r'.1.1, r'.2))

pub all-IsInside :
    (arch : Arch) (sts : List Step)
    → All (λ st. HasSize st.kind st) sts
    → Registers arch sts
    → All (λ st. IsInside arch st.kind st) sts
all-IsInside arch [] s r = tt
all-IsInside arch (st ∷ sts) s r =
    let (i, r') = IsInside-step arch st sts st.kind refl s.0 r in (i, all-IsInside arch sts s.1 r')

-- The register or the slot of the one step is not that of the other.
abbrev Differs : StepKind → StepKind → Step → Step → Type 0
Differs step_stack step_stack st s = st.stk_off + st.size ≤ s.stk_off
Differs step_float_reg step_float_reg st s = s.freg ≢ st.freg
Differs step_int_reg step_int_reg st s = s.ireg ≢ st.ireg
Differs step_int_reg step_pointer st s = s.ireg ≢ st.ireg
Differs step_pointer step_int_reg st s = s.ireg ≢ st.ireg
Differs step_pointer step_pointer st s = s.ireg ≢ st.ireg
Differs a b st s = Unit

registers_apart : (a b n l : ℕ) → a ≢ b → n ≤ 8 → l ≤ 8 → (8 * a + n ≤ 8 * b) ⊎ (8 * b + l ≤ 8 * a)
registers_apart a b n l h x y = ground arith

no_pointer : (st : Step) (k : StepKind) → st.kind ≡ k → k ≢ step_pointer → is_pointer_step st ≢ true
no_pointer st step_stack e n p = ground arith
no_pointer st step_int_reg e n p = ground arith
no_pointer st step_pointer e n p = n refl
no_pointer st step_float_reg e n p = ground arith

IsClear-step :
    (st s : Step) (k k' : StepKind)
    → st.kind ≡ k
    → s.kind ≡ k'
    → HasSize k st
    → HasSize k' s
    → Differs k k' st s
    → IsClear (addr_of st) st.size s
IsClear-step st s step_stack step_stack e e' a b d = rw (e, e') (inr (inr d))
IsClear-step st s step_stack step_int_reg e e' a b d = rw (e, e') (inl refl)
IsClear-step st s step_stack step_pointer e e' a b d = rw (e, e') (inl refl)
IsClear-step st s step_stack step_float_reg e e' a b d = rw (e, e') (inl refl)
IsClear-step st s step_int_reg step_stack e e' a b d = rw (e, e') (inl refl)
IsClear-step st s step_int_reg step_int_reg e e' a b d =
    rw (e, e') (inr (registers_apart s.ireg st.ireg s.size st.size d (omega arith) (omega arith)))
IsClear-step st s step_int_reg step_pointer e e' a b d =
    rw (e, e') (inr (registers_apart s.ireg st.ireg s.size st.size d (omega arith) (omega arith)))
IsClear-step st s step_int_reg step_float_reg e e' a b d = rw (e, e') (inl refl)
IsClear-step st s step_pointer step_stack e e' a b d = rw (e, e') (inl refl)
IsClear-step st s step_pointer step_int_reg e e' a b d =
    rw (e, e') (inr (registers_apart s.ireg st.ireg s.size st.size d (omega arith) (omega arith)))
IsClear-step st s step_pointer step_pointer e e' a b d =
    rw (e, e') (inr (registers_apart s.ireg st.ireg s.size st.size d (omega arith) (omega arith)))
IsClear-step st s step_pointer step_float_reg e e' a b d = rw (e, e') (inl refl)
IsClear-step st s step_float_reg step_stack e e' a b d = rw (e, e') (inl refl)
IsClear-step st s step_float_reg step_int_reg e e' a b d = rw (e, e') (inl refl)
IsClear-step st s step_float_reg step_pointer e e' a b d = rw (e, e') (inl refl)
IsClear-step st s step_float_reg step_float_reg e e' a b d =
    rw (e, e') (inr (registers_apart s.freg st.freg s.size st.size d (omega arith) (omega arith)))

mirror_step :
    (st s : Step) (k k' : StepKind)
    → st.kind ≡ k
    → s.kind ≡ k'
    → Differs k k' st s
    → is_pointer_step st ≡ true
    → IsNoMirror st.ireg s
mirror_step st s step_pointer step_pointer e e' d p q = d
mirror_step st s step_pointer step_int_reg e e' d p q = d
mirror_step st s step_pointer step_stack e e' d p q =
    absurd (no_pointer s step_stack e' (λ x. cc) q)
mirror_step st s step_pointer step_float_reg e e' d p q =
    absurd (no_pointer s step_float_reg e' (λ x. cc) q)
mirror_step st s step_stack k' e e' d p q = absurd (no_pointer st step_stack e (λ x. cc) p)
mirror_step st s step_int_reg k' e e' d p q = absurd (no_pointer st step_int_reg e (λ x. cc) p)
mirror_step st s step_float_reg k' e e' d p q = absurd (no_pointer st step_float_reg e (λ x. cc) p)

-- What the rest of a list says of the step before it.
abbrev Ahead : StepKind → Step → List Step → Type 0
Ahead step_stack st sts = All (λ (s : ℕ × ℕ). st.stk_off + st.size ≤ s.0) (slots sts)
Ahead step_int_reg st sts = All (λ r. r ≢ st.ireg) (int_regs sts)
Ahead step_pointer st sts = All (λ r. r ≢ st.ireg) (int_regs sts)
Ahead step_float_reg st sts = All (λ r. r ≢ st.freg) (float_regs sts)

Ahead-step :
    (st s : Step) (sts : List Step) (k k' : StepKind)
    → s.kind ≡ k'
    → Ahead k st (s ∷ sts)
    → Differs k k' st s × Ahead k st sts
Ahead-step st s sts step_stack step_stack e h = let h' = rw e at h in (h'.0, h'.1)
Ahead-step st s sts step_stack step_int_reg e h = let h' = rw e at h in (tt, h')
Ahead-step st s sts step_stack step_pointer e h = let h' = rw e at h in (tt, h')
Ahead-step st s sts step_stack step_float_reg e h = let h' = rw e at h in (tt, h')
Ahead-step st s sts step_int_reg step_stack e h = let h' = rw e at h in (tt, h')
Ahead-step st s sts step_int_reg step_int_reg e h = let h' = rw e at h in (h'.0, h'.1)
Ahead-step st s sts step_int_reg step_pointer e h = let h' = rw e at h in (h'.0, h'.1)
Ahead-step st s sts step_int_reg step_float_reg e h = let h' = rw e at h in (tt, h')
Ahead-step st s sts step_pointer step_stack e h = let h' = rw e at h in (tt, h')
Ahead-step st s sts step_pointer step_int_reg e h = let h' = rw e at h in (h'.0, h'.1)
Ahead-step st s sts step_pointer step_pointer e h = let h' = rw e at h in (h'.0, h'.1)
Ahead-step st s sts step_pointer step_float_reg e h = let h' = rw e at h in (tt, h')
Ahead-step st s sts step_float_reg step_stack e h = let h' = rw e at h in (tt, h')
Ahead-step st s sts step_float_reg step_int_reg e h = let h' = rw e at h in (tt, h')
Ahead-step st s sts step_float_reg step_pointer e h = let h' = rw e at h in (tt, h')
Ahead-step st s sts step_float_reg step_float_reg e h = let h' = rw e at h in (h'.0, h'.1)

all-Away :
    (st : Step) (sts : List Step)
    → HasSize st.kind st
    → All (λ s. HasSize s.kind s) sts
    → Ahead st.kind st sts
    → All (Away st) sts
all-Away st [] a b h = tt
all-Away st (s ∷ sts) a b h =
    let (d, h') = Ahead-step st s sts st.kind s.kind refl h in
    (
      (
        IsClear-step st s st.kind s.kind refl refl a b.0 d,
        mirror_step st s st.kind s.kind refl refl d,
      ),
      all-Away st sts a b.1 h',
    )

-- No element twice.
abbrev pub Once : List ℕ → Type 0
Once [] = Unit
Once (x ∷ xs) = All (λ y. y ≢ x) xs × Once xs

all_from : (from to : ℕ) (l : List (ℕ × ℕ)) → Apart from l to → All (λ (s : ℕ × ℕ). from ≤ s.0) l
all_from from to [] h = tt
all_from from to ((o, n) ∷ l) h = (h.0, wider (o + n) l (omega arith) (all_from (o + n) to l h.1))
  where
    wider :
        (from' : ℕ) (l : List (ℕ × ℕ))
        → from ≤ from'
        → All (λ (s : ℕ × ℕ). from' ≤ s.0) l
        → All (λ (s : ℕ × ℕ). from ≤ s.0) l
    wider from' [] a b = tt
    wider from' (s ∷ l) a b = (omega arith, wider from' l a b.1)

abbrev AreOnce : List Step → ℕ → ℕ → Type 0
AreOnce sts from to = Once (int_regs sts) × Once (float_regs sts) × Apart from (slots sts) to

once_step :
    (st : Step) (sts : List Step) (k : StepKind) (from to : ℕ)
    → st.kind ≡ k
    → AreOnce (st ∷ sts) from to
    → Ahead k st sts × (from' : ℕ) × AreOnce sts from' to
once_step st sts step_stack from to e h =
    let h' = rw e at h in
    (
      all_from (st.stk_off + st.size) to (slots sts) h'.2.1,
      st.stk_off + st.size,
      (h'.0, h'.1, h'.2.1),
    )
once_step st sts step_int_reg from to e h =
    let h' = rw e at h in (h'.0.0, from, (h'.0.1, h'.1, h'.2))
once_step st sts step_pointer from to e h =
    let h' = rw e at h in (h'.0.0, from, (h'.0.1, h'.1, h'.2))
once_step st sts step_float_reg from to e h =
    let h' = rw e at h in (h'.1.0, from, (h'.0, h'.1.1, h'.2))

pub all-Pairwise :
    (sts : List Step) (from to : ℕ)
    → All (λ s. HasSize s.kind s) sts
    → Once (int_regs sts)
    → Once (float_regs sts)
    → Apart from (slots sts) to
    → Pairwise sts
all-Pairwise [] from to a i f h = tt
all-Pairwise (st ∷ sts) from to a i f h =
    let (ahead, from', r) = once_step st sts st.kind from to refl (i, f, h) in
    (all-Away st sts a.0 a.1 ahead, all-Pairwise sts from' to a.1 r.0 r.1 r.2)

pub all_below : (n m : ℕ) → n ≤ m → All (λ r. r < m) (below n)
all_below zero m h = tt
all_below (suc n) m h =
    All-append (λ r. r < m) (below n) (n ∷ []) (all_below n m (omega arith)) (omega arith, tt)

Once-last : (xs : List ℕ) (n : ℕ) → All (λ r. r < n) xs → Once xs → Once (xs ++ n ∷ [])
Once-last [] n h o = (tt, tt)
Once-last (x ∷ xs) n h o =
    (All-append (λ y. y ≢ x) xs (n ∷ []) o.0 ((λ e. omega arith), tt), Once-last xs n h.1 o.1)

pub below-Once : (n : ℕ) → Once (below n)
below-Once zero = tt
below-Once (suc n) = Once-last (below n) n (all_below n n (omega arith)) (below-Once n)
