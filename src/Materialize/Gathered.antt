-- ===== src/Materialize/Gathered.antt =====
-- One argument of a method: the copies of `materializeArgs` of materialize.go and what it describes in
-- place.
use go_weave.Prelude.{
  ℕ, ◌+◌, ◌≤◌, ◌<◌, ◌≡◌, refl, ap, ◌∙◌, ◌⊎◌, inl, inr, arith, false, some, List, [], ◌∷◌, All,
}
use go_weave.Abi.Types.{GoType, size}
use go_weave.Abi.Assign.{StepKind, step_stack, step_int_reg, step_pointer, step_float_reg, Step}
use go_weave.Abi.Sane.{IsSane}
use go_weave.Abi.Spread.{Spread, flatten-Spread}
use go_weave.Abi.Parts.{Part, int_part, ptr_part, float_part}
use go_weave.Abi.Segments.{number, ValueSteps, no_steps, in_registers, on_stack}
use go_weave.Materialize.Memory.{Area, gather_buf, Addr, Frame, same_area, view, put_bytes, memcpy}
use go_weave.Materialize.Bytes.{view-put_bytes, view-put_apart}
use go_weave.Materialize.Values.{Host}
use go_weave.Materialize.Args.{gather_steps}
use go_weave.Materialize.Effects.{addr_of, place_of, IsInside, step_addr-inside}
use go_weave.Materialize.Kept.{size-lt}

-- Nothing changes but the gather buffer from `lo` on.
pub record Grows (lo : ℕ) (m m' : Frame) : Type 0 where
  pub rest_stays :
      (a : Area) (k : ℕ) → (same_area a gather_buf ≡ false) ⊎ (k < lo) → m'.bytes a k ≡ m.bytes a k
  pub ptrs_stay : m'.ptrs ≡ m.ptrs
  pub stack_ptrs_stay : m'.stack_ptrs ≡ m.stack_ptrs

pub Grows-trans :
    (lo lo' : ℕ) (m m' m'' : Frame) → lo ≤ lo' → Grows lo m m' → Grows lo' m' m'' → Grows lo m m''
Grows-trans lo lo' m m' m'' le g g' = record {
  rest_stays = λ a k h.
      g'.rest_stays a k (elim h [ inl e ↦ inl e | inr l ↦ inr (omega arith) ]) ∙ g.rest_stays a k h;
  ptrs_stay = g'.ptrs_stay ∙ g.ptrs_stay;
  stack_ptrs_stay = g'.stack_ptrs_stay ∙ g.stack_ptrs_stay;
}

pub Grows-refl : (lo : ℕ) (m : Frame) → Grows lo m m
Grows-refl lo m = record { rest_stays = λ a k h. refl; ptrs_stay = refl; stack_ptrs_stay = refl }

-- The bytes of the value at `p` are those that the step passed.
abbrev pub Reads : Addr → Frame → Frame → Step → Type 0
Reads p m m' st =
    (k : ℕ) → k < st.size → m'.bytes p.area (p.off + (k + st.offset)) ≡ view (addr_of st) m k

-- The steps move parts that stand in order and apart inside the value.
abbrev pub InOrder : ℕ → List Step → ℕ → Type 0
InOrder from [] to = from ≤ to
InOrder from (st ∷ sts) to = (from ≤ st.offset) × InOrder (st.offset + st.size) sts to

pub InOrder-le : (from to : ℕ) (sts : List Step) → InOrder from sts to → from ≤ to
InOrder-le from to [] h = h
InOrder-le from to (st ∷ sts) h = omega (arith, h.0, InOrder-le (st.offset + st.size) to sts h.1)

number-InOrder :
    (i j from to : ℕ) (ps : List Part) → Spread from ps to → InOrder from (number i j ps) to
number-InOrder i j from to [] h = h
number-InOrder i j from to (int_part o n ∷ ps) h = (h.0, number-InOrder (i + 1) j (o + n) to ps h.2)
number-InOrder i j from to (ptr_part o ∷ ps) h = (h.0, number-InOrder (i + 1) j (o + 8) to ps h.1)
number-InOrder i j from to (float_part o n ∷ ps) h =
    (h.0, number-InOrder i (j + 1) (o + n) to ps h.2)

pub value-InOrder :
    (t : GoType) (steps : List Step) → IsSane t → ValueSteps t steps → InOrder 0 steps (size t)
value-InOrder t steps sane (no_steps z e) = rw e (omega arith)
value-InOrder t steps sane (in_registers i j ps z f e) =
    rw e (number-InOrder i j 0 (size t) ps (flatten-Spread t ps sane (size-lt t sane) f))
value-InOrder t steps sane (on_stack st kind off sz e) = rw e (omega arith, omega arith)

place-elsewhere : (k : StepKind) (st : Step) → same_area gather_buf (place_of k st).area ≡ false
place-elsewhere step_stack st = refl
place-elsewhere step_int_reg st = refl
place-elsewhere step_pointer st = refl
place-elsewhere step_float_reg st = refl

pub elsewhere-place : (k : StepKind) (st : Step) → same_area (place_of k st).area gather_buf ≡ false
elsewhere-place step_stack st = refl
elsewhere-place step_int_reg st = refl
elsewhere-place step_pointer st = refl
elsewhere-place step_float_reg st = refl

abbrev pub buffer_at : ℕ → Addr
buffer_at o = record { area = gather_buf; off = o }

put_bytes-Grows : (o n : ℕ) (f : ℕ → ℕ) (m : Frame) → Grows o m (put_bytes (buffer_at o) n f m)
unfolding put_bytes
put_bytes-Grows o n f m = record {
  rest_stays = λ a k h. other a k h;
  ptrs_stay = refl;
  stack_ptrs_stay = refl;
}
  where
    other :
        (a : Area) (k : ℕ)
        → (same_area a gather_buf ≡ false) ⊎ (k < o)
        → (put_bytes (buffer_at o) n f m).bytes a k ≡ m.bytes a k
    other Area.int_file k h = refl
    other Area.float_file k h = refl
    other Area.stack_copy k h = refl
    other Area.gather_buf k (inl e) = cc
    other Area.gather_buf k (inr l) = ground arith

Reads-later :
    (p : Addr) (st : Step) (sts : List Step) (m m0 m1 : Frame)
    → ((s : Step) (k : ℕ) → view (addr_of s) m0 k ≡ view (addr_of s) m k)
    → All (Reads p m0 m1) sts
    → All (Reads p m m1) sts
Reads-later p st [] m m0 m1 same h = tt
Reads-later p st (s ∷ sts) m m0 m1 same h =
    ((λ k l. h.0 k l ∙ same s k), Reads-later p st sts m m0 m1 same h.1)

-- The copies of one argument.
pub gather_steps-Reads :
    (h : Host) (at from to : ℕ) (sts : List Step) (m : Frame)
    → All (λ st. IsInside h.arch st.kind st) sts
    → InOrder from sts to
    → (m1 : Frame) × (gather_steps h at sts m ≡ some m1)
      × All (Reads (buffer_at at) m m1) sts
      × Grows (at + from) m m1
unfolding gather_steps
gather_steps-Reads h at from to [] m ins ord = (m, refl, tt, Grows-refl (at + from) m)
gather_steps-Reads h at from to (st ∷ sts) m ins ord =
    let dst = buffer_at (at + st.offset) in
    let m0 = memcpy dst (addr_of st) st.size m in
    let (m1, e, reads, grows) =
      gather_steps-Reads h at (st.offset + st.size) to sts m0 ins.1 ord.1 in
    let untouched = λ (s : Step) (k : ℕ).
      (view-put_apart dst (addr_of s) st.size (k + 1) k (view (addr_of st) m) m
        (inl (place-elsewhere s.kind s)) (omega arith)) in
    let here : Reads (buffer_at at) m m1 st = λ k l.
      (let re : at + (k + st.offset) ≡ at + st.offset + k = omega arith in
        grows.rest_stays gather_buf (at + (k + st.offset)) (inr (omega arith))
        ∙ ap (m0.bytes gather_buf) re
        ∙ view-put_bytes dst st.size k (view (addr_of st) m) m l) in
    (
      m1,
      rw (gather_steps, step_addr-inside h.arch st ins.0) e,
      (here, Reads-later (buffer_at at) st sts m m0 m1 untouched reads),
      Grows-trans (at + from) (at + (st.offset + st.size)) m m0 m1 (omega arith)
          (Grows-trans (at + from) (at + st.offset) m m m0 (omega arith) (Grows-refl (at + from) m)
            (put_bytes-Grows (at + st.offset) st.size (view (addr_of st) m) m))
          grows,
    )
