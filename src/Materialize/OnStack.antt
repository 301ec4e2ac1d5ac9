-- ===== src/Materialize/OnStack.antt =====
-- A value that the ABI passes in the stack area: the stack cases of `scatterValue` and `scatterIface`
-- of materialize.go with `mirrorStackPtrs`.
use go_weave.Prelude.{
  ℕ, zero, suc, ◌+◌, ◌*◌, ◌/◌, ◌^◌, ◌≤◌, ◌<◌, ◌≡◌, refl, arith, true, some, List, [], ◌∷◌, ltb, All,
  All-append,
}
use go_weave.Abi.Types.{
  Kind, chan, func, go_map, pointer, unsafe_pointer, string, interface, slice, GoType, basic, array,
  struct, Fields, no_fields, field, size, u64,
}
use go_weave.Abi.Assign.{Step}
use go_weave.Abi.Layout.{ptr_offsets, ptr_offsets_fields, ptr_offsets_basic, each_element}
use go_weave.Abi.Sane.{IsSane, AreSane, kind_size}
use go_weave.Materialize.Memory.{Addr, Frame, offset_by, set_stack_ptr, set_word, word_at}
use go_weave.Materialize.Values.{Host}
use go_weave.Materialize.Results.{mirror_offsets, mirror_stack_ptrs}

-- A word at the offset lies between `from` and `to`.
abbrev pub IsWithin : ℕ → ℕ → ℕ → Type 0
IsWithin from to o = (from ≤ o) × (o + 8 ≤ to)

pub IsWithin-wider :
    (from from' to to' : ℕ) (l : List ℕ)
    → from' ≤ from
    → to ≤ to'
    → All (IsWithin from to) l
    → All (IsWithin from' to') l
IsWithin-wider from from' to to' [] a b h = tt
IsWithin-wider from from' to to' (o ∷ l) a b h =
    ((omega arith, omega arith), IsWithin-wider from from' to to' l a b h.1)

basic-IsWithin :
    (k : Kind) (off : ℕ)
    → off + kind_size k < 2 ^ 64
    → All (IsWithin off (off + kind_size k)) (ptr_offsets_basic k off)
unfolding ptr_offsets_basic
basic-IsWithin interface off h = omega arith
basic-IsWithin pointer off h = omega arith
basic-IsWithin slice off h = omega arith
basic-IsWithin string off h = omega arith
basic-IsWithin chan off h = omega arith
basic-IsWithin go_map off h = omega arith
basic-IsWithin func off h = omega arith
basic-IsWithin unsafe_pointer off h = omega arith
basic-IsWithin _ off h = tt

elements-IsWithin :
    (f : ℕ → List ℕ) (off s i n : ℕ)
    → ((j : ℕ) → i ≤ j → j < i + n → All (IsWithin (off + j * s) (off + j * s + s)) (f j))
    → All (IsWithin (off + i * s) (off + (i + n) * s)) (each_element i n f)
elements-IsWithin f off s i zero h = tt
elements-IsWithin f off s i (suc n) h =
    All-append _ (f i) _
      (IsWithin-wider _ _ _ _ (f i) (omega arith) (grind arith) (h i (omega arith) (omega arith)))
      (IsWithin-wider _ _ _ _ _ (grind arith) (grind arith)
        (elements-IsWithin f off s (i + 1) n (λ j a b. h j (omega arith) (omega arith))))

-- The offset of one element does not wrap.
element :
    (e : GoType) (off l j : ℕ)
    → j < l
    → off + l * size e < 2 ^ 64
    → ((o : ℕ) → o + size e < 2 ^ 64 → All (IsWithin o (o + size e)) (ptr_offsets e o))
    → All
        (IsWithin (off + j * size e) (off + j * size e + size e))
        (ptr_offsets e (u64 (off + u64 (j * size e))))
element e off l j lt h ih =
    let below : j * size e + size e ≤ l * size e = grind arith in
    let at : u64 (off + u64 (j * size e)) ≡ off + j * size e = omega arith in
    rw at (ih (off + j * size e) (omega arith))

mutual
  unfolding ptr_offsets

  pub ptr_offsets-IsWithin :
      (t : GoType) (off : ℕ)
      → IsSane t
      → off + size t < 2 ^ 64
      → All (IsWithin off (off + size t)) (ptr_offsets t off)
  ptr_offsets-IsWithin (basic k n a) off sane h = rw (sane.0) (basic-IsWithin k off (omega arith))
  ptr_offsets-IsWithin (array l e n a) off sane h =
      IsWithin-wider (off + 0 * size e) off (off + (0 + l) * size e) (off + n) _ (omega arith)
        (omega arith)
        (elements-IsWithin _ off (size e) 0 l (λ j a b.
          element e off l j (omega arith) (omega arith) (λ o. ptr_offsets-IsWithin e o sane.0)))
  ptr_offsets-IsWithin (struct fs n a) off sane h = fields-IsWithin fs 0 n a off sane.0 h

  fields-IsWithin :
      (fs : Fields) (from n a off : ℕ)
      → AreSane fs from n a
      → off + n < 2 ^ 64
      → All (IsWithin off (off + n)) (ptr_offsets_fields fs off)
  fields-IsWithin no_fields from n a off sane h = tt
  fields-IsWithin (field o t fs) from n a off sane h =
      let at : u64 (off + o) ≡ off + o = omega arith in
      rw at (
        All-append _ (ptr_offsets t (off + o)) _
          (IsWithin-wider (off + o) off (off + o + size t) (off + n) _ (omega arith) (omega arith)
            (ptr_offsets-IsWithin t (off + o) sane.0 (omega arith)))
          (fields-IsWithin fs (o + size t) n a off sane.5 h))

-- What the collector's mirror of the stack area does not touch.
pub record SameCore (m m' : Frame) : Type 0 where
  pub same_bytes : m'.bytes ≡ m.bytes
  pub same_ptrs : m'.ptrs ≡ m.ptrs

mirror_offsets-SameCore :
    (h : Host) (stk n : ℕ) (offs : List ℕ) (base : Addr) (m : Frame)
    → stk + n ≤ h.arch.stack_window
    → All (IsWithin 0 n) offs
    → (m' : Frame) × (mirror_offsets h stk offs base m ≡ some m') × SameCore m m'
unfolding mirror_offsets set_stack_ptr
mirror_offsets-SameCore h stk n [] base m w all =
    (m, refl, record { same_bytes = refl; same_ptrs = refl })
mirror_offsets-SameCore h stk n (off ∷ offs) base m w all =
    let fits : ltb ((stk + off) / 8) (h.arch.stack_window / 8) ≡ true = ground arith in
    let m1 : Frame = record m {
      stack_ptrs = set_word m.stack_ptrs ((stk + off) / 8) (word_at (offset_by base off) m);
    } in
    let (m', e, c) = mirror_offsets-SameCore h stk n offs base m1 w all.1 in
    (m', rw (mirror_offsets, fits) e, record { same_bytes = c.same_bytes; same_ptrs = c.same_ptrs })

-- The mirror of a stack-assigned value stays inside the array.
pub mirror_stack_ptrs-SameCore :
    (h : Host) (t : GoType) (st : Step) (base : Addr) (m : Frame)
    → IsSane t
    → size t < 2 ^ 64
    → st.size ≡ size t
    → st.stk_off + st.size ≤ h.arch.stack_window
    → (m' : Frame) × (mirror_stack_ptrs h st.stk_off t base m ≡ some m') × SameCore m m'
unfolding mirror_stack_ptrs
mirror_stack_ptrs-SameCore h t st base m sane small e w =
    mirror_offsets-SameCore h st.stk_off (size t) (ptr_offsets t 0) base m (omega arith) (
      IsWithin-wider 0 0 (0 + size t) (size t) _ (omega arith) (omega arith)
        (ptr_offsets-IsWithin t 0 sane (omega arith)))
