-- ===== src/Materialize/Effects.antt =====
-- What steps of the layout change in the memory of a call, and what they leave as it was.
use go_weave.Prelude.{
  ℕ, ◌+◌, ◌*◌, ◌≤◌, ◌<◌, ◌≡◌, refl, ◌∙◌, ◌≢◌, arith, true, some, List, [], ◌∷◌, ◌++◌, ltb, All,
}
use go_weave.Abi.Types.{Arch}
use go_weave.Abi.Assign.{StepKind, step_stack, step_int_reg, step_pointer, step_float_reg, Step}
use go_weave.Abi.Layout.{is_pointer_step}
use go_weave.Abi.Spread.{IsWordSize}
use go_weave.Materialize.Memory.{int_file, float_file, stack_copy, Addr, Frame, view, step_addr}
use go_weave.Materialize.Bytes.{AreApart}
use go_weave.Materialize.Results.{header_word}

-- Where a step reads or writes.
abbrev pub place_of : StepKind → Step → Addr
place_of step_stack st = record { area = stack_copy; off = st.stk_off }
place_of step_int_reg st = record { area = int_file; off = 8 * st.ireg }
place_of step_pointer st = record { area = int_file; off = 8 * st.ireg }
place_of step_float_reg st = record { area = float_file; off = 8 * st.freg }

abbrev pub addr_of : Step → Addr
addr_of st = place_of st.kind st

-- The register of a step exists and holds it; a pointer is a whole word.
abbrev pub IsInside : Arch → StepKind → Step → Type 0
IsInside arch step_stack st = st.stk_off + st.size ≤ arch.stack_window
IsInside arch step_int_reg st = (st.ireg < arch.int_arg_regs) × IsWordSize st.size
IsInside arch step_pointer st = (st.ireg < arch.int_arg_regs) × (st.size ≡ 8)
IsInside arch step_float_reg st = (st.freg < arch.float_arg_regs) × IsWordSize st.size

step_addr_by :
    (arch : Arch) (st : Step) (k : StepKind)
    → st.kind ≡ k
    → IsInside arch k st
    → step_addr arch st ≡ some (place_of k st)
unfolding step_addr
step_addr_by arch st step_stack e h = rw e refl
step_addr_by arch st step_int_reg e h =
    let in_file : ltb st.ireg arch.int_arg_regs ≡ true = ground arith in rw (e, in_file) refl
step_addr_by arch st step_pointer e h =
    let in_file : ltb st.ireg arch.int_arg_regs ≡ true = ground arith in rw (e, in_file) refl
step_addr_by arch st step_float_reg e h =
    let in_file : ltb st.freg arch.float_arg_regs ≡ true = ground arith in rw (e, in_file) refl

pub step_addr-inside :
    (arch : Arch) (st : Step) → IsInside arch st.kind st → step_addr arch st ≡ some (addr_of st)
step_addr-inside arch st h = step_addr_by arch st st.kind refl h

-- The other step writes neither these bytes nor this mirror.
abbrev pub IsClear : Addr → ℕ → Step → Type 0
IsClear q l st = AreApart (addr_of st) st.size q l

abbrev pub IsNoMirror : ℕ → Step → Type 0
IsNoMirror r st = is_pointer_step st ≡ true → st.ireg ≢ r

-- What a list of steps leaves as it was.
pub record Spares (sts : List Step) (m m' : Frame) : Type 0 where
  pub bytes_stay : (q : Addr) (l k : ℕ) → All (IsClear q l) sts → k < l → view q m' k ≡ view q m k
  pub ptrs_stay : (r : ℕ) → All (IsNoMirror r) sts → m'.ptrs r ≡ m.ptrs r

-- The step's bytes and mirror hold the part of `f` that the step names.
pub record Keeps (f : ℕ → ℕ) (m : Frame) (st : Step) : Type 0 where
  pub bytes_kept : (k : ℕ) → k < st.size → view (addr_of st) m k ≡ f (k + st.offset)
  pub mirrored : is_pointer_step st ≡ true → m.ptrs st.ireg ≡ header_word f st.offset

abbrev pub Away : Step → Step → Type 0
Away st s = IsClear (addr_of st) st.size s × (is_pointer_step st ≡ true → IsNoMirror st.ireg s)

abbrev pub Pairwise : List Step → Type 0
Pairwise [] = Unit
Pairwise (st ∷ sts) = All (Away st) sts × Pairwise sts

All_fst : (P Q : Step → Type 0) (sts : List Step) → All (λ s. P s × Q s) sts → All P sts
All_fst P Q [] h = tt
All_fst P Q (s ∷ sts) h = (h.0.0, All_fst P Q sts h.1)

no_mirrors :
    (st : Step) (sts : List Step)
    → is_pointer_step st ≡ true
    → All (Away st) sts
    → All (IsNoMirror st.ireg) sts
no_mirrors st [] e h = tt
no_mirrors st (s ∷ sts) e h = (h.0.1 e, no_mirrors st sts e h.1)

pub Keeps-Spares :
    (f : ℕ → ℕ) (m m' : Frame) (st : Step) (sts : List Step)
    → Keeps f m st
    → All (Away st) sts
    → Spares sts m m'
    → Keeps f m' st
Keeps-Spares f m m' st sts kept away spares = record {
  bytes_kept = λ k h.
      spares.bytes_stay (addr_of st) st.size k
        (All_fst (IsClear (addr_of st) st.size)
          (λ s. is_pointer_step st ≡ true → IsNoMirror st.ireg s) sts away)
        h
      ∙ kept.bytes_kept k h;
  mirrored = λ e. spares.ptrs_stay st.ireg (no_mirrors st sts e away) ∙ kept.mirrored e;
}

pub All-split : (P : Step → Type 0) (a b : List Step) → All P (a ++ b) → All P a × All P b
All-split P [] b h = (tt, h)
All-split P (s ∷ a) b h = let r = All-split P a b h.1 in ((h.0, r.0), r.1)

pub Spares-append :
    (a b : List Step) (m m' m'' : Frame) → Spares a m m' → Spares b m' m'' → Spares (a ++ b) m m''
Spares-append a b m m' m'' s t = record {
  bytes_stay = λ q l k h i.
      let r = All-split (IsClear q l) a b h in t.bytes_stay q l k r.1 i ∙ s.bytes_stay q l k r.0 i;
  ptrs_stay =
      λ r h. let p = All-split (IsNoMirror r) a b h in t.ptrs_stay r p.1 ∙ s.ptrs_stay r p.0;
}

-- Every step of the first list is away from every step of the second.
abbrev pub AllAway : List Step → List Step → Type 0
AllAway [] b = Unit
AllAway (st ∷ a) b = All (Away st) b × AllAway a b

pub Pairwise-split : (a b : List Step) → Pairwise (a ++ b) → Pairwise a × AllAway a b × Pairwise b
Pairwise-split [] b h = (tt, tt, h)
Pairwise-split (st ∷ a) b h =
    let r = Pairwise-split a b h.1 in
    let s = All-split (Away st) a b h.0 in ((s.0, r.0), (s.1, r.1), r.2)

pub All-Keeps-Spares :
    (f : ℕ → ℕ) (m m' : Frame) (a b : List Step)
    → All (Keeps f m) a
    → AllAway a b
    → Spares b m m'
    → All (Keeps f m') a
All-Keeps-Spares f m m' [] b k away s = tt
All-Keeps-Spares f m m' (st ∷ a) b k away s =
    (Keeps-Spares f m m' st b k.0 away.0 s, All-Keeps-Spares f m m' a b k.1 away.1 s)
