-- ===== src/Materialize/Copies.antt =====
-- The last loop of `scatterValue` of materialize.go, on a value with storage of its own.
use go_weave.Prelude.{
  ℕ, ◌+◌, ◌≡◌, refl, ap, ◌∙◌, ◌≢◌, inl, inr, arith, true, some, List, [], ◌∷◌, ltb, if◌then◌else◌,
  All, Bool-cases,
}
use go_weave.Abi.Types.{Arch, GoType}
use go_weave.Abi.Assign.{StepKind, step_stack, step_int_reg, step_pointer, step_float_reg, Step}
use go_weave.Abi.Layout.{is_pointer_step}
use go_weave.Materialize.Memory.{Addr, Frame, put_bytes, set_ptr, set_word}
use go_weave.Materialize.Bytes.{view-put_bytes, view-put_apart}
use go_weave.Materialize.Values.{held, Host}
use go_weave.Materialize.Results.{header_word, copy_step, copy_steps}
use go_weave.Materialize.Effects.{
  addr_of, IsInside, step_addr-inside, Spares, Keeps, Keeps-Spares, Spares-append, Pairwise,
}

abbrev pub slice_of : (ℕ → ℕ) → Step → ℕ → ℕ
slice_of f st k = f (k + st.offset)

abbrev pub with_ptr : ℕ → ℕ → Frame → Frame
with_ptr r w m = record m { ptrs = set_word m.ptrs r w }

-- The frame after one round.
abbrev pub copied : (ℕ → ℕ) → Step → Frame → Frame
copied f st m =
    let m' = put_bytes (addr_of st) st.size (slice_of f st) m in
    if is_pointer_step st then with_ptr st.ireg (header_word f st.offset) m' else m'

pointer_inside :
    (arch : Arch) (st : Step) (k : StepKind)
    → st.kind ≡ k
    → IsInside arch k st
    → is_pointer_step st ≡ true
    → ltb st.ireg arch.int_arg_regs ≡ true
pointer_inside arch st step_stack e h p = ground arith
pointer_inside arch st step_int_reg e h p = ground arith
pointer_inside arch st step_pointer e h p = ground arith
pointer_inside arch st step_float_reg e h p = ground arith

pub copy_step-copied :
    (h : Host) (t : GoType) (f : ℕ → ℕ) (st : Step) (m : Frame)
    → IsInside h.arch st.kind st
    → copy_step h (held t f) st m ≡ some (copied f st m)
unfolding copy_step set_ptr
copy_step-copied h t f st m inside = elim (Bool-cases (is_pointer_step st)) [
  | inl e ↦
      rw (step_addr-inside h.arch st inside, e, pointer_inside h.arch st st.kind refl inside e) refl
  | inr e ↦ rw (step_addr-inside h.arch st inside, e) refl
]

copied_bytes :
    (f : ℕ → ℕ) (st : Step) (m : Frame)
    → (copied f st m).bytes ≡ (put_bytes (addr_of st) st.size (slice_of f st) m).bytes
copied_bytes f st m = elim (Bool-cases (is_pointer_step st)) [
  | inl e ↦ rw e refl
  | inr e ↦ rw e refl
]

put_ptrs : (p : Addr) (n : ℕ) (f : ℕ → ℕ) (m : Frame) → (put_bytes p n f m).ptrs ≡ m.ptrs
unfolding put_bytes
put_ptrs p n f m = refl

pub copied-Keeps : (f : ℕ → ℕ) (st : Step) (m : Frame) → Keeps f (copied f st m) st
copied-Keeps f st m = record {
  bytes_kept = λ k h.
      ap (λ (b : _). b (addr_of st).area ((addr_of st).off + k)) (copied_bytes f st m)
      ∙ view-put_bytes (addr_of st) st.size k (slice_of f st) m h;
  mirrored = λ e. rw e (ground arith);
}

pub copied-Spares : (f : ℕ → ℕ) (st : Step) (m : Frame) → Spares (st ∷ []) m (copied f st m)
copied-Spares f st m = record {
  bytes_stay = λ q l k clear h.
      ap (λ (b : _). b q.area (q.off + k)) (copied_bytes f st m)
      ∙ view-put_apart (addr_of st) q st.size l k (slice_of f st) m clear.0 h;
  ptrs_stay = λ r no. elim (Bool-cases (is_pointer_step st)) [
    | inl e ↦
        let other : st.ireg ≢ r = no.0 e in
        rw e (ground (arith, put_ptrs (addr_of st) st.size (slice_of f st) m))
    | inr e ↦ rw e (ap (λ (b : ℕ → ℕ). b r) (put_ptrs (addr_of st) st.size (slice_of f st) m))
  ];
}

-- The loop over steps that are apart: each of them ends up with its part of the value.
pub copy_steps-Keeps :
    (h : Host) (t : GoType) (f : ℕ → ℕ) (sts : List Step) (m : Frame)
    → All (λ st. IsInside h.arch st.kind st) sts
    → Pairwise sts
    → (m' : Frame) × (copy_steps h (held t f) sts m ≡ some m')
      × All (Keeps f m') sts
      × Spares sts m m'
unfolding copy_steps
copy_steps-Keeps h t f [] m inside apart =
    (m, refl, tt, record { bytes_stay = λ q l k c i. refl; ptrs_stay = λ r c. refl })
copy_steps-Keeps h t f (st ∷ sts) m inside apart =
    let m1 = copied f st m in
    let (m', e, kept, spares) = copy_steps-Keeps h t f sts m1 inside.1 apart.1 in
    (
      m',
      rw (copy_steps, copy_step-copied h t f st m inside.0) e,
      (Keeps-Spares f m1 m' st sts (copied-Keeps f st m) apart.0 spares, kept),
      Spares-append (st ∷ []) sts m m1 m' (copied-Spares f st m) spares,
    )

abbrev pub copied_all : (ℕ → ℕ) → List Step → Frame → Frame
copied_all f [] m = m
copied_all f (st ∷ sts) m = copied_all f sts (copied f st m)

pub copy_steps-copied_all :
    (h : Host) (t : GoType) (f : ℕ → ℕ) (sts : List Step) (m : Frame)
    → All (λ st. IsInside h.arch st.kind st) sts
    → copy_steps h (held t f) sts m ≡ some (copied_all f sts m)
unfolding copy_steps
copy_steps-copied_all h t f [] m inside = refl
copy_steps-copied_all h t f (st ∷ sts) m inside =
    rw (copy_steps, copy_step-copied h t f st m inside.0)
      (copy_steps-copied_all h t f sts (copied f st m) inside.1)
