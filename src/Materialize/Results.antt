-- ===== src/Materialize/Results.antt =====
-- Results on their way back: `writeScalar`, `scatterIface`, `mirrorStackPtrs`, `scatterValue` and
-- `storeResults` of materialize.go. `none` is a panic.
use go_weave.Prelude.{
  ℕ, ◌+◌, ◌/◌, Bool, true, false, Option, none, some, List, [], ◌∷◌, ◌==◌, if◌then◌else◌, get_elem?,
}
use go_weave.Abi.Types.{
  Kind, string, slice, complex64, complex128, interface, GoType, basic, array, struct, ptr_size,
}
use go_weave.Abi.Assign.{
  StepKind, step_stack, step_int_reg, step_pointer, step_float_reg, Step, Seq, steps_for_value,
}
use go_weave.Abi.Layout.{ptr_offsets, is_stack_step, is_pointer_step}
use go_weave.Materialize.Memory.{
  Addr, Frame, offset_by, put_bytes, step_addr, le_num, byte_of, word_at, write_word, and_then,
  set_ptr, set_stack_ptr, mirror_step_ptr,
}
use go_weave.Materialize.Values.{
  GoValue, Host, kind_of, type_of, bytes_of, float_of, complex_of, scalar_of, kind_of_value,
  size_of_value,
}

unfoldable pub write_scalar : Host → Addr → GoValue → ℕ → Frame → Option Frame
write_scalar h dst v n m =
    and_then (scalar_of h (kind_of_value (type_of v)) (size_of_value (type_of v)) (bytes_of m v))
      (λ x. write_word dst x n m)

-- The loop over the offsets that `ptrOffsets` gives.
unfoldable pub mirror_offsets : Host → ℕ → List ℕ → Addr → Frame → Option Frame
mirror_offsets h stk [] base m = some m
mirror_offsets h stk (off ∷ offs) base m =
    and_then (set_stack_ptr h.arch ((stk + off) / ptr_size) (word_at (offset_by base off) m) m)
      (mirror_offsets h stk offs base)

unfoldable pub mirror_stack_ptrs : Host → ℕ → GoType → Addr → Frame → Option Frame
mirror_stack_ptrs h stk t base m = mirror_offsets h stk (ptr_offsets t 0) base m

-- `i.tab` and `i.data` are the words of `slot`, once `v` is set.
unfoldable pub scatter_iface : Host → GoValue → GoType → List Step → Frame → Option Frame
scatter_iface h v t [] m = none
scatter_iface h v t (st ∷ []) m =
    let (tab, word) = h.box t v in
    and_then (step_addr h.arch st) (λ p.
      set_stack_ptr h.arch (st.stk_off / ptr_size + 1) word
        (put_bytes (offset_by p ptr_size) 8 (byte_of word) (put_bytes p 8 (byte_of tab) m)))
scatter_iface h v t (st ∷ st' ∷ sts) m =
    let (tab, word) = h.box t v in
    and_then (step_addr h.arch st) (λ p. and_then (step_addr h.arch st') (λ q.
      set_ptr h.arch st'.ireg word (put_bytes q 8 (byte_of word) (put_bytes p 8 (byte_of tab) m))))

-- A single float register.
abbrev pub scatter_float : Host → GoValue → Step → Addr → Frame → Option Frame
scatter_float h v st dst m = and_then (float_of h (kind_of_value (type_of v)) (bytes_of m v)) (λ x.
    if st.size == 8
    then some (put_bytes dst 8 (byte_of x) m)
    else some (put_bytes dst 4 (byte_of (h.narrow x)) m))

-- A value with a single step, by the kind of the step.
unfoldable pub scatter_single :
    Host → GoValue → GoType → Step → StepKind → Addr → Frame → Option Frame
scatter_single h v t st step_float_reg dst m = scatter_float h v st dst m
scatter_single h v t st step_int_reg dst m = write_scalar h dst v st.size m
scatter_single h v t st step_pointer dst m =
    and_then (write_scalar h dst v st.size m) (λ m'. set_ptr h.arch st.ireg (word_at dst m') m')
scatter_single h v t st step_stack dst m =
    mirror_stack_ptrs h st.stk_off t dst (put_bytes dst st.size (bytes_of m v) m)

-- `writeWord` for each step, with the words of a header.
unfoldable pub write_words : Host → List Step → List ℕ → Frame → Option Frame
write_words h [] ws m = some m
write_words h (st ∷ sts) [] m = none
write_words h (st ∷ sts) (w ∷ ws) m =
    and_then (step_addr h.arch st) (λ p. and_then (write_word p w st.size m) (write_words h sts ws))

abbrev pub scatter_header : Host → Step → List Step → List ℕ → Frame → Option Frame
scatter_header h st sts ws m = and_then (write_words h (st ∷ sts) ws m) (mirror_step_ptr h.arch st)

-- The word at an offset inside a value.
abbrev pub header_word : (ℕ → ℕ) → ℕ → ℕ
header_word f o = le_num 8 (λ k. f (k + o))

abbrev pub scatter_complex : Host → GoValue → Kind → Step → Step → Frame → Option Frame
scatter_complex h v k st st' m = and_then (complex_of h k (bytes_of m v)) (λ x.
    and_then (step_addr h.arch st) (λ p.
      and_then (step_addr h.arch st')
        (λ q. some (put_bytes q 8 (byte_of x.1) (put_bytes p 8 (byte_of x.0) m)))))

-- One round of the last loop: the copy, and for a pointer its mirror.
unfoldable pub copy_step : Host → GoValue → Step → Frame → Option Frame
copy_step h v st m = and_then (step_addr h.arch st) (λ p.
    let m' = put_bytes p st.size (λ k. bytes_of m v (k + st.offset)) m in
    if is_pointer_step st
    then set_ptr h.arch st.ireg (header_word (bytes_of m' v) st.offset) m'
    else some m')

unfoldable pub copy_steps : Host → GoValue → List Step → Frame → Option Frame
copy_steps h v [] m = some m
copy_steps h v (st ∷ sts) m = and_then (copy_step h v st m) (copy_steps h v sts)

-- Two or more steps, the first of them in a register.
unfoldable pub scatter_several :
    Host → GoValue → Option Kind → Step → Step → List Step → Frame → Option Frame
scatter_several h v (some string) st st' sts m =
    let f = bytes_of m v in
    scatter_header h st (st' ∷ []) (header_word f 0 ∷ header_word f 8 ∷ []) m
scatter_several h v (some slice) st st' sts m =
    let f = bytes_of m v in
    scatter_header h st (st' ∷ sts) (header_word f 0 ∷ header_word f 8 ∷ header_word f 16 ∷ []) m
scatter_several h v (some complex64) st st' sts m = scatter_complex h v complex64 st st' m
scatter_several h v (some complex128) st st' sts m = scatter_complex h v complex128 st st' m
scatter_several h v k st st' sts m = copy_steps h v (st ∷ st' ∷ sts) m

unfoldable pub scatter_steps : Host → GoValue → GoType → List Step → Frame → Option Frame
scatter_steps h v t [] m = some m
scatter_steps h v t (st ∷ []) m =
    and_then (step_addr h.arch st) (λ dst. scatter_single h v t st st.kind dst m)
scatter_steps h v t (st ∷ st' ∷ sts) m =
    if is_stack_step st
    then copy_steps h v (st ∷ st' ∷ sts) m
    else scatter_several h v (kind_of t) st st' sts m

abbrev pub is_iface : GoType → Bool
is_iface (basic interface n a) = true
is_iface (basic k n a) = false
is_iface (array l e n a) = false
is_iface (struct fs n a) = false

unfoldable pub scatter_value : Host → GoValue → GoType → List Step → Frame → Option Frame
scatter_value h v t steps m =
    if is_iface t then scatter_iface h v t steps m else scatter_steps h v t steps m

-- `rets[i]` if it is there, valid and assignable, else the zero.
abbrev pub is_accepted : Host → GoType → Option GoType → Bool
is_accepted h t none = false
is_accepted h t (some d) = h.assignable d t

abbrev pub choose : Host → GoType → Option GoValue → GoValue → GoValue
choose h t none z = z
choose h t (some v) z = if is_accepted h t (type_of v) then v else z

-- The loop over the results, from result `i`.
unfoldable pub store_loop :
    Host → Seq → ℕ → List GoType → List GoValue → List GoValue → Frame → Option Frame
store_loop h ret i [] zeros rets m = some m
store_loop h ret i (t ∷ ts) zeros rets m = and_then (get_elem? zeros i) (λ z.
    and_then (scatter_value h (choose h t (get_elem? rets i) z) t (steps_for_value ret i) m)
      (store_loop h ret (i + 1) ts zeros rets))

abbrev pub returned : Option (List GoValue) → List GoValue
returned none = []
returned (some rets) = rets

-- `direct`: the target's results are in the registers, and nil leaves them there.
abbrev pub passes_through : Bool → Option (List GoValue) → Bool
passes_through direct none = direct
passes_through direct (some rets) = false

unfoldable pub store_results :
    Host → Seq → List GoType → List GoValue → Bool → Option (List GoValue) → Frame → Option Frame
store_results h ret outs zeros direct rets m =
    if passes_through direct rets then some m else store_loop h ret 0 outs zeros (returned rets) m
