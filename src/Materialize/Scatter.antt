-- ===== src/Materialize/Scatter.antt =====
-- `scatterValue` of materialize.go: every case leaves in the steps of the value what the plain copy
-- would.
use go_weave.Prelude.{
  ℕ, ◌+◌, ◌≡◌, refl, sym, ap, ◌∙◌, ◌≢◌, inl, inr, arith, false, none, some, List, [], ◌∷◌, All,
  Bool-cases,
}
use go_weave.Abi.Types.{
  Kind, bool, int, int8, int16, int32, int64, float32, float64, complex128, chan, go_map, pointer,
  unsafe_pointer, string, interface, slice, GoType, basic, array, struct,
}
use go_weave.Abi.Assign.{step_float_reg, Step}
use go_weave.Abi.Layout.{is_stack_step}
use go_weave.Abi.Sane.{IsSane, kind_size}
use go_weave.Abi.Parts.{Part, int_part, ptr_part, float_part, basic_parts, flatten, float_step}
use go_weave.Abi.Segments.{number}
use go_weave.Materialize.Memory.{Addr, Frame, put_bytes, le_num, byte_of}
use go_weave.Materialize.Bytes.{AreBytes, put_bytes-eq, byte_of-le_num}
use go_weave.Materialize.Values.{GoValue, held, Host, kind_of}
use go_weave.Materialize.Results.{
  is_iface, scatter_value, scatter_steps, scatter_single, scatter_several, copy_steps,
}
use go_weave.Materialize.Effects.{addr_of, IsInside, step_addr-inside}
use go_weave.Materialize.Copies.{copied, copied_all, copy_steps-copied_all}
use go_weave.Materialize.Scalars.{IsScalar, int_register, pointer_register}
use go_weave.Materialize.Headers.{string_registers, slice_registers, complex_registers}

-- What the code can take apart into registers: not an unsigned integer, a func or a `complex64`, nor a
-- struct or an array that is a single part. A bool is 0 or 1, and a `float32` survives `float64`.
abbrev pub KindCanScatter : Host → Kind → (ℕ → ℕ) → Type 0
KindCanScatter h float32 f = h.narrow (h.widen (le_num 4 f)) ≡ le_num 4 f
KindCanScatter h float64 f = Unit
KindCanScatter h complex128 f = Unit
KindCanScatter h string f = Unit
KindCanScatter h slice f = Unit
KindCanScatter h interface f = Unit
KindCanScatter h k f = IsScalar k f

abbrev pub CanScatter : Host → GoType → (ℕ → ℕ) → Type 0
CanScatter h (basic k n a) f = KindCanScatter h k f
CanScatter h (array l e n a) f = (p : Part) → flatten (array l e n a) 0 ≢ some (p ∷ [])
CanScatter h (struct fs n a) f = (p : Part) → flatten (struct fs n a) 0 ≢ some (p ∷ [])

single :
    (h : Host) (v : GoValue) (t : GoType) (st : Step) (m : Frame)
    → IsInside h.arch st.kind st
    → scatter_steps h v t (st ∷ []) m ≡ scatter_single h v t st st.kind (addr_of st) m
unfolding scatter_steps
single h v t st m inside = rw (step_addr-inside h.arch st inside) refl

float_put :
    (n : ℕ) (dst : Addr) (f : ℕ → ℕ) (x : ℕ) (m : Frame)
    → AreBytes f
    → x ≡ le_num n f
    → put_bytes dst n (byte_of x) m ≡ put_bytes dst n (λ k. f (k + 0)) m
float_put n dst f x m b e =
    put_bytes-eq dst n _ _ m (λ k l. rw e (byte_of-le_num n k f b l ∙ shift k))
  where
    shift : (k : ℕ) → f k ≡ f (k + 0)
    shift k = let z : k ≡ k + 0 = omega arith in ap f z

float64_register :
    (h : Host) (a j : ℕ) (f : ℕ → ℕ) (m : Frame)
    → AreBytes f
    → scatter_single h
        (held (basic float64 8 a) f)
        (basic float64 8 a)
        (float_step 0 8 j)
        step_float_reg
        (addr_of (float_step 0 8 j))
        m
      ≡ some (copied f (float_step 0 8 j) m)
unfolding scatter_single
float64_register h a j f m b = ap some (float_put 8 _ f (le_num 8 f) m b refl)

float32_register :
    (h : Host) (a j : ℕ) (f : ℕ → ℕ) (m : Frame)
    → AreBytes f
    → h.narrow (h.widen (le_num 4 f)) ≡ le_num 4 f
    → scatter_single h
        (held (basic float32 4 a) f)
        (basic float32 4 a)
        (float_step 0 4 j)
        step_float_reg
        (addr_of (float_step 0 4 j))
        m
      ≡ some (copied f (float_step 0 4 j) m)
unfolding scatter_single
float32_register h a j f m b e = ap some (float_put 4 _ f _ m b e)

-- A value of a kind with no parts, in registers from `i` and `j` on.
basic_scatter :
    (h : Host) (k : Kind) (a i j : ℕ) (f : ℕ → ℕ) (m : Frame)
    → k ≢ interface
    → KindCanScatter h k f
    → AreBytes f
    → All (λ st. IsInside h.arch st.kind st) (number i j (basic_parts k (kind_size k) 0))
    → scatter_steps h
        (held (basic k (kind_size k) a) f)
        (basic k (kind_size k) a)
        (number i j (basic_parts k (kind_size k) 0))
        m
      ≡ some (copied_all f (number i j (basic_parts k (kind_size k) 0)) m)
unfolding scatter_steps
basic_scatter h float32 a i j f m ni s b ins =
    single h _ _ _ m ins.0 ∙ float32_register h a j f m b s
basic_scatter h float64 a i j f m ni s b ins = single h _ _ _ m ins.0 ∙ float64_register h a j f m b
basic_scatter h complex128 a i j f m ni s b ins = complex_registers h f m b a j (ins.1.0.0)
basic_scatter h string a i j f m ni s b ins = string_registers h f m b a i (ins.1.0.0)
basic_scatter h slice a i j f m ni s b ins = slice_registers h f m b a i (omega arith)
basic_scatter h interface a i j f m ni s b ins = absurd (ni refl)
basic_scatter h pointer a i j f m ni s b ins =
    single h _ _ _ m ins.0 ∙ pointer_register h pointer a i f m s b refl ins.0.0
basic_scatter h unsafe_pointer a i j f m ni s b ins =
    single h _ _ _ m ins.0 ∙ pointer_register h unsafe_pointer a i f m s b refl ins.0.0
basic_scatter h chan a i j f m ni s b ins =
    single h _ _ _ m ins.0 ∙ pointer_register h chan a i f m s b refl ins.0.0
basic_scatter h go_map a i j f m ni s b ins =
    single h _ _ _ m ins.0 ∙ pointer_register h go_map a i f m s b refl ins.0.0
basic_scatter h bool a i j f m ni s b ins = single h _ _ _ m ins.0 ∙ int_register h bool a i f m s b
basic_scatter h int a i j f m ni s b ins = single h _ _ _ m ins.0 ∙ int_register h int a i f m s b
basic_scatter h int8 a i j f m ni s b ins = single h _ _ _ m ins.0 ∙ int_register h int8 a i f m s b
basic_scatter h int16 a i j f m ni s b ins =
    single h _ _ _ m ins.0 ∙ int_register h int16 a i f m s b
basic_scatter h int32 a i j f m ni s b ins =
    single h _ _ _ m ins.0 ∙ int_register h int32 a i f m s b
basic_scatter h int64 a i j f m ni s b ins =
    single h _ _ _ m ins.0 ∙ int_register h int64 a i f m s b
basic_scatter h _ a i j f m ni s b ins = absurd s

pub number_cons :
    (i j : ℕ) (p : Part) (ps : List Part)
    → (st : Step) × (i' : ℕ) × (j' : ℕ) × (number i j (p ∷ ps) ≡ st ∷ number i' j' ps)
number_cons i j (int_part o n) ps = (_, i + 1, j, refl)
number_cons i j (ptr_part o) ps = (_, i + 1, j, refl)
number_cons i j (float_part o n) ps = (_, i, j + 1, refl)

several_copy :
    (h : Host) (v : GoValue) (t : GoType) (st st' : Step) (sts : List Step) (m : Frame)
    → kind_of t ≡ none
    → scatter_steps h v t (st ∷ st' ∷ sts) m ≡ copy_steps h v (st ∷ st' ∷ sts) m
unfolding scatter_steps scatter_several
several_copy h v t st st' sts m e = elim (Bool-cases (is_stack_step st)) [
  | inl y ↦ rw y refl
  | inr y ↦ rw (y, e) refl
]

-- A struct or an array is one part for each step.
composite_scatter :
    (h : Host) (t : GoType) (i j : ℕ) (ps : List Part) (f : ℕ → ℕ) (m : Frame)
    → kind_of t ≡ none
    → ((p : Part) → ps ≢ p ∷ [])
    → All (λ st. IsInside h.arch st.kind st) (number i j ps)
    → scatter_steps h (held t f) t (number i j ps) m ≡ some (copied_all f (number i j ps) m)
unfolding scatter_steps
composite_scatter h t i j [] f m e many ins = refl
composite_scatter h t i j (p ∷ []) f m e many ins = absurd (many p refl)
composite_scatter h t i j (p ∷ q ∷ ps) f m e many ins =
    let (st, i', j', a) = number_cons i j p (q ∷ ps) in
    let (st', i'', j'', b) = number_cons i' j' q ps in
    let whole : number i j (p ∷ q ∷ ps) ≡ st ∷ st' ∷ number i'' j'' ps = a ∙ ap (λ l. st ∷ l) b in
    let ins' = rw whole at ins in
    rw whole (
      several_copy h (held t f) t st st' (number i'' j'' ps) m e
      ∙ copy_steps-copied_all h t f (st ∷ st' ∷ number i'' j'' ps) m ins')

not_iface : (k : Kind) (n a : ℕ) → is_iface (basic k n a) ≡ false → k ≢ interface
not_iface interface n a h = cc
not_iface _ n a h = λ e. cc

-- In registers, every case of `scatterValue` does what the plain copy of the bytes would.
pub scatter_value-copy_steps :
    (h : Host) (t : GoType) (i j : ℕ) (ps : List Part) (f : ℕ → ℕ) (m : Frame)
    → IsSane t
    → is_iface t ≡ false
    → flatten t 0 ≡ some ps
    → AreBytes f
    → CanScatter h t f
    → All (λ st. IsInside h.arch st.kind st) (number i j ps)
    → scatter_value h (held t f) t (number i j ps) m ≡ copy_steps h (held t f) (number i j ps) m
unfolding scatter_value flatten
scatter_value-copy_steps h (basic k n a) i j ps f m sane plain e b can ins =
    let same : basic_parts k n 0 ≡ ps = cc in
    let ins' : All (λ st. IsInside h.arch st.kind st) (number i j (basic_parts k (kind_size k) 0)) =
      rw (← sane.0, same) ins in
    rw (plain, ← same, sane.0)
      (basic_scatter h k a i j f m (not_iface k n a plain) can b ins'
        ∙ sym (copy_steps-copied_all h _ f _ m ins'))
scatter_value-copy_steps h (array l e' n a) i j ps f m sane plain e b can ins =
    composite_scatter h (array l e' n a) i j ps f m refl (λ p q. can p (e ∙ ap some q)) ins
    ∙ sym (copy_steps-copied_all h _ f _ m ins)
scatter_value-copy_steps h (struct fs n a) i j ps f m sane plain e b can ins =
    composite_scatter h (struct fs n a) i j ps f m refl (λ p q. can p (e ∙ ap some q)) ins
    ∙ sym (copy_steps-copied_all h _ f _ m ins)
