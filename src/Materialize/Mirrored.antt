-- ===== src/Materialize/Mirrored.antt =====
-- The collector's mirror of the stack area: `mirrorStackPtrs` and `scatterIface` of materialize.go on a
-- stack-assigned result.
use go_weave.Prelude.{
  ℕ, zero, suc, ◌+◌, ◌*◌, ◌/◌, ◌^◌, ◌≤◌, ◌<◌, ◌≡◌, refl, ap, ◌∙◌, ◌⊎◌, inl, inr, arith, true, false,
  some, List, [], ◌∷◌, ◌++◌, ltb, All,
}
use go_weave.Abi.Types.{
  Kind, chan, func, go_map, pointer, unsafe_pointer, string, interface, slice, GoType, basic, array,
  struct, Fields, no_fields, field, size, u64,
}
use go_weave.Abi.Assign.{step_stack, Step}
use go_weave.Abi.Layout.{ptr_offsets, ptr_offsets_fields, ptr_offsets_basic, each_element}
use go_weave.Abi.Sane.{IsSane, AreSane, kind_size}
use go_weave.Materialize.Memory.{
  Addr, stack_copy, Frame, offset_by, view, put_bytes, set_stack_ptr, set_word, word_at, step_addr,
}
use go_weave.Materialize.Bytes.{le_num-eq, view-put_bytes}
use go_weave.Materialize.Values.{GoValue, Host, bytes_of}
use go_weave.Materialize.Results.{
  is_iface, scatter_value, scatter_steps, scatter_single, mirror_stack_ptrs, mirror_offsets,
  header_word,
}

-- Words one behind the other between `from` and `to`.
abbrev pub Spaced : ℕ → List ℕ → ℕ → Type 0
Spaced from [] to = from ≤ to
Spaced from (o ∷ os) to = (from ≤ o) × Spaced (o + 8) os to

Spaced-append :
    (from mid to : ℕ) (a b : List ℕ) → Spaced from a mid → Spaced mid b to → Spaced from (a ++ b) to
Spaced-append from mid to [] [] h k = omega arith
Spaced-append from mid to [] (o ∷ b) h k = (omega arith, k.1)
Spaced-append from mid to (o ∷ a) b h k = (h.0, Spaced-append (o + 8) mid to a b h.1 k)

Spaced-wider :
    (from from' to to' : ℕ) (l : List ℕ)
    → Spaced from l to
    → from' ≤ from
    → to ≤ to'
    → Spaced from' l to'
Spaced-wider from from' to to' [] h a b = omega arith
Spaced-wider from from' to to' (o ∷ l) h a b =
    (omega arith, Spaced-wider (o + 8) (o + 8) to to' l h.1 (omega arith) b)

basic-Spaced :
    (k : Kind) (off : ℕ)
    → off + kind_size k < 2 ^ 64
    → Spaced off (ptr_offsets_basic k off) (off + kind_size k)
unfolding ptr_offsets_basic
basic-Spaced interface off h = omega arith
basic-Spaced pointer off h = omega arith
basic-Spaced slice off h = omega arith
basic-Spaced string off h = omega arith
basic-Spaced chan off h = omega arith
basic-Spaced go_map off h = omega arith
basic-Spaced func off h = omega arith
basic-Spaced unsafe_pointer off h = omega arith
basic-Spaced _ off h = omega arith

elements-Spaced :
    (f : ℕ → List ℕ) (off s i n : ℕ)
    → ((j : ℕ) → i ≤ j → j < i + n → Spaced (off + j * s) (f j) (off + j * s + s))
    → Spaced (off + i * s) (each_element i n f) (off + (i + n) * s)
elements-Spaced f off s i zero h = omega arith
elements-Spaced f off s i (suc n) h =
    Spaced-append (off + i * s) (off + (i + 1) * s) (off + (i + suc n) * s) (f i) _
      (Spaced-wider _ _ _ _ (f i) (h i (omega arith) (omega arith)) (omega arith) (grind arith))
      (Spaced-wider _ _ _ _ _
        (elements-Spaced f off s (i + 1) n (λ j a b. h j (omega arith) (omega arith))) (omega arith)
        (grind arith))

element-Spaced :
    (e : GoType) (off l j : ℕ)
    → j < l
    → off + l * size e < 2 ^ 64
    → ((o : ℕ) → o + size e < 2 ^ 64 → Spaced o (ptr_offsets e o) (o + size e))
    → Spaced
        (off + j * size e)
        (ptr_offsets e (u64 (off + u64 (j * size e))))
        (off + j * size e + size e)
element-Spaced e off l j lt h ih =
    let below : j * size e + size e ≤ l * size e = grind arith in
    let at : u64 (off + u64 (j * size e)) ≡ off + j * size e = omega arith in
    rw at (ih (off + j * size e) (omega arith))

mutual
  unfolding ptr_offsets

  offsets-Spaced :
      (t : GoType) (off : ℕ)
      → IsSane t
      → off + size t < 2 ^ 64
      → Spaced off (ptr_offsets t off) (off + size t)
  offsets-Spaced (basic k n a) off sane h = rw (sane.0) (basic-Spaced k off (omega arith))
  offsets-Spaced (array l e n a) off sane h =
      Spaced-wider (off + 0 * size e) off (off + (0 + l) * size e) (off + n) _
        (elements-Spaced _ off (size e) 0 l (λ j a b.
          element-Spaced e off l j (omega arith) (omega arith) (λ o. offsets-Spaced e o sane.0)))
        (omega arith) (omega arith)
  offsets-Spaced (struct fs n a) off sane h =
      Spaced-wider (off + 0) off (off + n) (off + n) _ (fields-Spaced fs 0 n a off sane.0 h)
        (omega arith) (omega arith)

  fields-Spaced :
      (fs : Fields) (from n a off : ℕ)
      → AreSane fs from n a
      → off + n < 2 ^ 64
      → Spaced (off + from) (ptr_offsets_fields fs off) (off + n)
  fields-Spaced no_fields from n a off sane h = omega arith
  fields-Spaced (field o t fs) from n a off sane h =
      let at : u64 (off + o) ≡ off + o = omega arith in
      rw at (
        Spaced-append (off + from) (off + (o + size t)) (off + n) (ptr_offsets t (off + o)) _
          (Spaced-wider (off + o) (off + from) (off + o + size t) (off + (o + size t)) _
            (offsets-Spaced t (off + o) sane.0 (omega arith)) (omega arith) (omega arith))
          (fields-Spaced fs (o + size t) n a off sane.5 h))

-- The mirror holds the word at each offset of a value that starts at `stk`.
abbrev pub MirroredAt : ℕ → (ℕ → ℕ) → Frame → ℕ → Type 0
MirroredAt stk f m o = m.stack_ptrs ((stk + o) / 8) ≡ header_word f o

-- Mirrors of the words that end before `from` or begin at `to` or later stay.
abbrev pub StaysOutside : ℕ → ℕ → Frame → Frame → Type 0
StaysOutside from to m m' =
    (i : ℕ) → (8 * i + 8 ≤ from) ⊎ (to ≤ 8 * i) → m'.stack_ptrs i ≡ m.stack_ptrs i

Spaced-le : (from to : ℕ) (l : List ℕ) → Spaced from l to → from ≤ to
Spaced-le from to [] h = h
Spaced-le from to (o ∷ l) h = omega (arith, h.0, Spaced-le (o + 8) to l h.1)

pub set_here : (f : ℕ → ℕ) (i w : ℕ) → set_word f i w i ≡ w
set_here f i w = ground arith

pub set_other : (f : ℕ → ℕ) (i w j : ℕ) → (j < i) ⊎ (i < j) → set_word f i w j ≡ f j
set_other f i w j (inl h) = ground arith
set_other f i w j (inr h) = ground arith

still_outside :
    (at from to next i : ℕ)
    → from ≤ at
    → next ≡ at + 8
    → (8 * i + 8 ≤ from) ⊎ (to ≤ 8 * i)
    → (8 * i + 8 ≤ next) ⊎ (to ≤ 8 * i)
still_outside at from to next i a b (inl h) = inl (omega arith)
still_outside at from to next i a b (inr h) = inr h

from_start :
    (from to i : ℕ) → (8 * i + 8 ≤ from) ⊎ (to ≤ 8 * i) → (8 * i + 8 ≤ from + 0) ⊎ (to ≤ 8 * i)
from_start from to i (inl h) = inl (omega arith)
from_start from to i (inr h) = inr h

not_here :
    (at from to i : ℕ)
    → from ≤ at
    → at + 8 ≤ to
    → (8 * i + 8 ≤ from) ⊎ (to ≤ 8 * i)
    → (i < at / 8) ⊎ (at / 8 < i)
not_here at from to i a b (inl h) = inl (omega arith)
not_here at from to i a b (inr h) = inr (omega arith)

word_byte :
    (base : Addr) (m : Frame) (f : ℕ → ℕ) (o k to : ℕ)
    → ((k : ℕ) → k < to → view base m k ≡ f k)
    → k + o < to
    → view (offset_by base o) m k ≡ f (k + o)
word_byte base m f o k to same h =
    let e : base.off + o + k ≡ base.off + (k + o) = omega arith in
    ap (m.bytes base.area) e ∙ same (k + o) h

mirror_offsets-MirroredAt :
    (h : Host) (stk from to : ℕ) (offs : List ℕ) (base : Addr) (f : ℕ → ℕ) (m : Frame)
    → stk + to ≤ h.arch.stack_window
    → Spaced from offs to
    → ((k : ℕ) → k < to → view base m k ≡ f k)
    → (m' : Frame) × (mirror_offsets h stk offs base m ≡ some m')
      × All (MirroredAt stk f m') offs
      × StaysOutside (stk + from) (stk + to) m m'
unfolding mirror_offsets set_stack_ptr
mirror_offsets-MirroredAt h stk from to [] base f m w sp same = (m, refl, tt, λ i x. refl)
mirror_offsets-MirroredAt h stk from to (o ∷ offs) base f m w sp same =
    let fit = Spaced-le (o + 8) to offs sp.1 in
    let inside : ltb ((stk + o) / 8) (h.arch.stack_window / 8) ≡ true = ground (arith, fit) in
    let word = word_at (offset_by base o) m in
    let m1 : Frame = record m { stack_ptrs = set_word m.stack_ptrs ((stk + o) / 8) word } in
    let (m', e, all, stays) =
      mirror_offsets-MirroredAt h stk (o + 8) to offs base f m1 w sp.1 same in
    let here : word ≡ header_word f o =
      le_num-eq 8 _ _ (λ k l. word_byte base m f o k to same (omega (arith, fit))) in
    (
      m',
      rw (mirror_offsets, inside) e,
      (
        stays ((stk + o) / 8) (inl (omega arith))
            ∙ set_here m.stack_ptrs ((stk + o) / 8) word
            ∙ here,
        all,
      ),
      λ i x.
          stays i (
            still_outside (stk + o) (stk + from) (stk + to) (stk + (o + 8)) i (omega arith)
              (omega arith) x)
          ∙ set_other m.stack_ptrs ((stk + o) / 8) word i
              (not_here (stk + o) (stk + from) (stk + to) i (omega arith) (omega (arith, fit)) x),
    )

-- A value that is not an interface, in a stack step: `scatterValue` does not panic when the type is
-- as reflection reports it and the step holds all of it inside the window. Then the mirror holds, for
-- every pointer word of the type, the word that the value has there, and no word of the mirror that
-- lies before the value or behind it changes.
pub scatter_value-MirroredAt :
    (h : Host) (v : GoValue) (t : GoType) (st : Step) (m : Frame)
    → IsSane t
    → size t < 2 ^ 64
    → is_iface t ≡ false
    → st.kind ≡ step_stack
    → st.size ≡ size t
    → st.stk_off + st.size ≤ h.arch.stack_window
    → (m' : Frame) × (scatter_value h v t (st ∷ []) m ≡ some m')
      × All (MirroredAt st.stk_off (bytes_of m v) m') (ptr_offsets t 0)
      × StaysOutside st.stk_off (st.stk_off + size t) m m'
unfolding scatter_value scatter_steps scatter_single mirror_stack_ptrs step_addr put_bytes
scatter_value-MirroredAt h v t st m sane small plain kind whole window =
    let dst : Addr = record { area = stack_copy; off = st.stk_off } in
    let (m', e, all, stays) =
      mirror_offsets-MirroredAt h st.stk_off 0 (size t) (ptr_offsets t 0) dst (bytes_of m v)
        (put_bytes dst st.size (bytes_of m v) m) (omega arith)
        (Spaced-wider 0 0 (0 + size t) (size t) (ptr_offsets t 0)
          (offsets-Spaced t 0 sane (omega arith)) (omega arith) (omega arith))
        (λ k l. view-put_bytes dst st.size k (bytes_of m v) m (omega arith)) in
    (m', rw (plain, kind) e, all, λ i x. stays i (from_start st.stk_off _ i x))
