-- ===== src/Materialize/Panics.antt =====
-- Results that `writeScalar` of materialize.go cannot write.
use go_weave.Prelude.{
  ℕ, zero, suc, ◌+◌, ◌≡◌, refl, ◌⊎◌, inl, inr, arith, Bool, true, false, Option, none, some,
  some_eq, List, [], ◌∷◌, get_elem?, Option-cases,
}
use go_weave.Abi.Types.{
  Kind, string, uint, uint8, uint16, uint32, uint64, uintptr, interface, GoType, basic, array,
  struct,
}
use go_weave.Abi.Assign.{StepKind, step_int_reg, step_pointer, Step, Seq, steps_for_value}
use go_weave.Materialize.Memory.{Addr, Frame, step_addr, and_then}
use go_weave.Materialize.Values.{GoValue, held, Host, scalar_of}
use go_weave.Materialize.Results.{
  is_iface, write_scalar, scatter_single, scatter_steps, scatter_value, store_loop, store_results,
  choose,
}

-- An unsigned integer, a struct or an array.
abbrev pub IsUnsigned : Kind → Type 0
IsUnsigned uint = Unit
IsUnsigned uint8 = Unit
IsUnsigned uint16 = Unit
IsUnsigned uint32 = Unit
IsUnsigned uint64 = Unit
IsUnsigned uintptr = Unit
IsUnsigned _ = ⊥

abbrev pub IsUnwritable : GoType → Type 0
IsUnwritable (basic k n a) = IsUnsigned k
IsUnwritable (array l e n a) = Unit
IsUnwritable (struct fs n a) = Unit

-- The value takes a single integer register.
abbrev pub IsIntRegister : List Step → Type 0
IsIntRegister [] = ⊥
IsIntRegister (st ∷ []) = (st.kind ≡ step_int_reg) ⊎ (st.kind ≡ step_pointer)
IsIntRegister (st ∷ st' ∷ sts) = ⊥

unwritable :
    (h : Host) (dst : Addr) (t : GoType) (f : ℕ → ℕ) (n : ℕ) (m : Frame)
    → IsUnwritable t
    → write_scalar h dst (held t f) n m ≡ none
unfolding write_scalar scalar_of
unwritable h dst (basic uint s a) f n m u = refl
unwritable h dst (basic uint8 s a) f n m u = refl
unwritable h dst (basic uint16 s a) f n m u = refl
unwritable h dst (basic uint32 s a) f n m u = refl
unwritable h dst (basic uint64 s a) f n m u = refl
unwritable h dst (basic uintptr s a) f n m u = refl
unwritable h dst (basic string s a) f n m u = absurd u
unwritable h dst (basic _ s a) f n m u = absurd u
unwritable h dst (array l e s a) f n m u = refl
unwritable h dst (struct fs s a) f n m u = refl

unwritable_iface : (t : GoType) → IsUnwritable t → is_iface t ≡ false
unwritable_iface (basic interface s a) u = absurd u
unwritable_iface (basic _ s a) u = refl
unwritable_iface (array l e s a) u = refl
unwritable_iface (struct fs s a) u = refl

single_none :
    (h : Host) (t : GoType) (f : ℕ → ℕ) (st : Step) (k : StepKind) (dst : Addr) (m : Frame)
    → (k ≡ step_int_reg) ⊎ (k ≡ step_pointer)
    → IsUnwritable t
    → scatter_single h (held t f) t st k dst m ≡ none
unfolding scatter_single
single_none h t f st k dst m (inl e) u = rw (e, unwritable h dst t f st.size m u) refl
single_none h t f st k dst m (inr e) u = rw (e, unwritable h dst t f st.size m u) refl

scatter_none :
    (h : Host) (t : GoType) (f : ℕ → ℕ) (steps : List Step) (m : Frame)
    → IsIntRegister steps
    → IsUnwritable t
    → scatter_value h (held t f) t steps m ≡ none
unfolding scatter_value scatter_steps
scatter_none h t f [] m reg u = absurd reg
scatter_none h t f (st ∷ st' ∷ sts) m reg u = absurd reg
scatter_none h t f (st ∷ []) m reg u =
    rw (unwritable_iface t u) (elim (Option-cases (step_addr h.arch st)) [
      | inl e ↦ rw e refl
      | inr (p, e) ↦ rw (e, single_none h t f st st.kind p m reg u) refl
    ])

and_then-none :
    {A B : Type 0} (o : Option A) (k : A → Option B) → ((a : A) → k a ≡ none) → and_then o k ≡ none
and_then-none none k h = refl
and_then-none (some a) k h = h a

store_loop-none :
    (h : Host) (ret : Seq) (i j : ℕ) (ts : List GoType) (zeros rets : List GoValue) (m : Frame)
    (t : GoType) (f : ℕ → ℕ)
    → get_elem? ts j ≡ some t
    → IsUnwritable t
    → IsIntRegister (steps_for_value ret (i + j))
    → get_elem? rets (i + j) ≡ some (held t f)
    → h.assignable t t ≡ true
    → store_loop h ret i ts zeros rets m ≡ none
unfolding store_loop
store_loop-none h ret i j [] zeros rets m t f e u reg r ok = cc
store_loop-none h ret i zero (t' ∷ ts) zeros rets m t f e u reg r ok =
    let same : t' ≡ t = some_eq t' t e in
    let z : i + 0 ≡ i = omega arith in
    let r' = rw z at r in
    let reg' = rw z at reg in
    and_then-none (get_elem? zeros i) _
      (λ v. rw (same, r', ok, scatter_none h t f (steps_for_value ret i) m reg' u) refl)
store_loop-none h ret i (suc j) (t' ∷ ts) zeros rets m t f e u reg r ok =
    let n : i + suc j ≡ i + 1 + j = omega arith in
    and_then-none (get_elem? zeros i) _ (λ v.
      and_then-none
        (scatter_value h (choose h t' (get_elem? rets i) v) t' (steps_for_value ret i) m) _
        (λ m1.
          store_loop-none h ret (i + 1) j ts zeros rets m1 t f e u (rw n at reg) (rw n at r) ok))

-- When a result that was returned is an unsigned integer, a struct or an array of that very type and its
-- type takes a single integer register, `storeResults` panics, whatever the other results are and
-- whatever the memory holds.
pub store_results-none :
    (h : Host) (ret : Seq) (outs : List GoType) (zeros : List GoValue) (direct : Bool)
    (rets : List GoValue) (m : Frame) (i : ℕ) (t : GoType) (f : ℕ → ℕ)
    → get_elem? outs i ≡ some t
    → IsUnwritable t
    → IsIntRegister (steps_for_value ret i)
    → get_elem? rets i ≡ some (held t f)
    → h.assignable t t ≡ true
    → store_results h ret outs zeros direct (some rets) m ≡ none
unfolding store_results
store_results-none h ret outs zeros direct rets m i t f e u reg r ok =
    let z : 0 + i ≡ i = omega arith in
    store_loop-none h ret 0 i outs zeros rets m t f e u (rw z reg) (rw z r) ok
