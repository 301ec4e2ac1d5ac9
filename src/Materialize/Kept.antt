-- ===== src/Materialize/Kept.antt =====
-- One result of a method, wherever the ABI puts it: `scatterValue` of materialize.go.
use mathlib.Core.Path.{fun_ext}
use go_weave.Prelude.{
  ℕ, ◌+◌, ◌-◌, ◌/◌, ◌^◌, ◌≤◌, ◌<◌, ◌≡◌, refl, sym, ap, ◌∙◌, ◌⊎◌, inl, inr, arith, true, false, ◌&&◌,
  some, List, [], ◌∷◌, ltb, leb, if◌then◌else◌, All,
}
use go_weave.Abi.Types.{interface, complex128, string, slice, GoType, basic, array, struct, size}
use go_weave.Abi.Assign.{step_stack, Step}
use go_weave.Abi.Sane.{IsSane}
use go_weave.Abi.Parts.{Part, int_part, ptr_part, float_part, basic_parts, flatten}
use go_weave.Abi.Segments.{number, ValueSteps, no_steps, in_registers, on_stack}
use go_weave.Materialize.Memory.{
  Addr, Area, Frame, put_bytes, byte_of, same_area, set_stack_ptr, set_word, offset_by,
}
use go_weave.Materialize.Bytes.{AreBytes, view-put_bytes, view-put_apart}
use go_weave.Materialize.Values.{GoValue, held, Host}
use go_weave.Materialize.Results.{
  is_iface, scatter_value, scatter_steps, scatter_single, scatter_iface,
}
use go_weave.Materialize.Effects.{addr_of, IsInside, step_addr-inside, Keeps, Spares, Pairwise}
use go_weave.Materialize.Copies.{copy_steps-Keeps, copied_all, copy_steps-copied_all}
use go_weave.Materialize.Headers.{iface_registers, iface_bytes}
use go_weave.Materialize.OnStack.{SameCore, mirror_stack_ptrs-SameCore}
use go_weave.Materialize.Scatter.{CanScatter, scatter_value-copy_steps}

abbrev pub own_bytes : GoValue → ℕ → ℕ
own_bytes (held t f) = f
own_bytes _ = λ k. 0

-- What the caller is to find: the words of an interface, or the bytes of the value.
abbrev pub content : Host → GoType → GoValue → ℕ → ℕ
content h t v = if is_iface t then iface_bytes (h.box t v) else own_bytes v

-- The single step is in the stack area.
abbrev pub IsOnStack : List Step → Type 0
IsOnStack [] = ⊥
IsOnStack (st ∷ []) = st.kind ≡ step_stack
IsOnStack (st ∷ st' ∷ sts) = ⊥

-- A value that can be stored as a result of type `t`: of an interface, any whose data word is a word;
-- of another type, a value with storage of its own, of that very type, that registers can take.
pub data IsReady (h : Host) (t : GoType) (v : GoValue) (steps : List Step) : Type 0 where
  boxed : is_iface t ≡ true → (h.box t v).1 < 2 ^ 64 → IsReady h t v steps
  plain :
      (f : ℕ → ℕ)
      → is_iface t ≡ false
      → v ≡ held t f
      → AreBytes f
      → CanScatter h t f ⊎ IsOnStack steps
      → IsReady h t v steps

-- The memory after a value is stored.
abbrev pub StoresValue : Host → GoType → GoValue → List Step → Frame → Frame → Type 0
StoresValue h t v steps m m' = All (Keeps (content h t v) m') steps × Spares steps m m'

stack_put :
    (f g : ℕ → ℕ) (t : GoType) (st : Step) (m m1 m' : Frame)
    → st.kind ≡ step_stack
    → st.offset ≡ 0
    → m1 ≡ put_bytes (addr_of st) st.size f m
    → ((k : ℕ) → k < st.size → f k ≡ g k)
    → SameCore m1 m'
    → All (Keeps g m') (st ∷ []) × Spares (st ∷ []) m m'
unfolding put_bytes
stack_put f g t st m m1 m' kind zero_off e same core =
    let bytes : m'.bytes ≡ (put_bytes (addr_of st) st.size f m).bytes =
      core.same_bytes ∙ ap (λ (x : Frame). x.bytes) e in
    (
      (
        record {
          bytes_kept = λ k l.
              ap (λ (b : Area → ℕ → ℕ). b (addr_of st).area ((addr_of st).off + k)) bytes
              ∙ view-put_bytes (addr_of st) st.size k f m l
              ∙ same k l
              ∙ (let z : k ≡ k + st.offset = omega arith in ap g z);
          mirrored = λ p. ground arith;
        },
        tt,
      ),
      record {
        bytes_stay = λ q l k clear lt.
            ap (λ (b : Area → ℕ → ℕ). b q.area (q.off + k)) bytes
            ∙ view-put_apart (addr_of st) q st.size l k f m clear.0 lt;
        ptrs_stay = λ r n. ap (λ (b : ℕ → ℕ). b r) (core.same_ptrs ∙ ap (λ (x : Frame). x.ptrs) e);
      },
    )

-- A value that is no interface, on the stack.
stack_value :
    (h : Host) (t : GoType) (f : ℕ → ℕ) (st : Step) (m : Frame)
    → IsSane t
    → size t < 2 ^ 64
    → is_iface t ≡ false
    → st.kind ≡ step_stack
    → st.offset ≡ 0
    → st.size ≡ size t
    → IsInside h.arch st.kind st
    → (m' : Frame) × (scatter_value h (held t f) t (st ∷ []) m ≡ some m')
      × All (Keeps f m') (st ∷ [])
      × Spares (st ∷ []) m m'
unfolding scatter_value scatter_steps scatter_single
stack_value h t f st m sane small ni kind off sz ins =
    let window : IsInside h.arch step_stack st = rw kind at ins in
    let m1 = put_bytes (addr_of st) st.size f m in
    let (m', e, core) = mirror_stack_ptrs-SameCore h t st (addr_of st) m1 sane small sz window in
    let (kept, spares) = stack_put f f t st m m1 m' kind off refl (λ k l. refl) core in
    (
      m',
      rw (ni, step_addr-inside h.arch st ins)
          (ap (λ k. scatter_single h (held t f) t st k (addr_of st) m) kind ∙ e),
      kept,
      spares,
    )

iface_join :
    (p : Addr) (ws : ℕ × ℕ) (m : Frame)
    → put_bytes (offset_by p 8) 8 (byte_of ws.1) (put_bytes p 8 (byte_of ws.0) m)
      ≡ put_bytes p 16 (iface_bytes ws) m
unfolding put_bytes
iface_join p ws m =
    ap (λ (b : Area → ℕ → ℕ). record m { bytes = b }) (fun_ext (λ a. fun_ext (λ k. each a k)))
  where
    each :
        (a : Area) (k : ℕ)
        → (if same_area p.area a && (leb (p.off + 8) k && ltb k (p.off + 8 + 8))
            then byte_of ws.1 (k - (p.off + 8))
            else if same_area p.area a && (leb p.off k && ltb k (p.off + 8))
            then byte_of ws.0 (k - p.off)
            else m.bytes a k)
          ≡ (if same_area p.area a && (leb p.off k && ltb k (p.off + 16))
              then iface_bytes ws (k - p.off)
              else m.bytes a k)
    each a k =
        let shift : p.off ≤ k → k - (p.off + 8) ≡ k - p.off - 8 = λ l. omega arith in
        ground (arith, shift)

-- An interface on the stack.
stack_iface :
    (h : Host) (v : GoValue) (t : GoType) (st : Step) (m : Frame)
    → is_iface t ≡ true
    → st.kind ≡ step_stack
    → st.offset ≡ 0
    → st.size ≡ 16
    → IsInside h.arch st.kind st
    → (m' : Frame) × (scatter_value h v t (st ∷ []) m ≡ some m')
      × All (Keeps (iface_bytes (h.box t v)) m') (st ∷ [])
      × Spares (st ∷ []) m m'
unfolding scatter_value scatter_iface set_stack_ptr
stack_iface h v t st m is kind off sz ins =
    let window : IsInside h.arch step_stack st = rw kind at ins in
    let ws = h.box t v in
    let fits : ltb (st.stk_off / 8 + 1) (h.arch.stack_window / 8) ≡ true = ground arith in
    let m1 =
      put_bytes (offset_by (addr_of st) 8) 8 (byte_of ws.1)
        (put_bytes (addr_of st) 8 (byte_of ws.0) m) in
    let m' : Frame = record m1 { stack_ptrs = set_word m1.stack_ptrs (st.stk_off / 8 + 1) ws.1 } in
    let (kept, spares) =
      stack_put (iface_bytes ws) (iface_bytes ws) t st m m1 m' kind off
        (iface_join (addr_of st) ws m
          ∙ ap (λ n. put_bytes (addr_of st) n (iface_bytes ws) m) (sym sz))
        (λ k l. refl) (record { same_bytes = refl; same_ptrs = refl }) in
    (m', rw (is, step_addr-inside h.arch st ins, fits) refl, kept, spares)

pub iface_in_registers :
    (h : Host) (v : GoValue) (t : GoType) (i j : ℕ) (ps : List Part) (m : Frame)
    → is_iface t ≡ true
    → flatten t 0 ≡ some ps
    → (h.box t v).1 < 2 ^ 64
    → All (λ st. IsInside h.arch st.kind st) (number i j ps)
    → scatter_value h v t (number i j ps) m
      ≡ some (copied_all (iface_bytes (h.box t v)) (number i j ps) m)
unfolding scatter_value flatten
iface_in_registers h v (basic interface n a) i j ps m is e small ins =
    let same : basic_parts interface n 0 ≡ ps = cc in
    let ins' : All (λ st. IsInside h.arch st.kind st) (number i j (basic_parts interface n 0)) =
      rw (← same) at ins in
    rw (← same) (iface_registers h v (basic interface n a) i m ins'.1.0.0 small)
iface_in_registers h v (basic string n a) i j ps m is e small ins = cc
iface_in_registers h v (basic _ n a) i j ps m is e small ins = cc
iface_in_registers h v (array l x n a) i j ps m is e small ins = cc
iface_in_registers h v (struct fs n a) i j ps m is e small ins = cc

pub iface_size : (t : GoType) → IsSane t → is_iface t ≡ true → size t ≡ 16
iface_size (basic interface n a) sane is = sane.0
iface_size (basic string n a) sane is = cc
iface_size (basic _ n a) sane is = cc
iface_size (array l x n a) sane is = cc
iface_size (struct fs n a) sane is = cc

pub size-lt : (t : GoType) → IsSane t → size t < 2 ^ 64
size-lt (basic complex128 n a) sane = omega arith
size-lt (basic string n a) sane = omega arith
size-lt (basic slice n a) sane = omega arith
size-lt (basic _ n a) sane = omega arith
size-lt (array l x n a) sane = omega arith
size-lt (struct fs n a) sane = omega arith

-- A type of size 0 has no steps.
kept_nothing : (g : ℕ → ℕ) (m : Frame) → All (Keeps g m) [] × Spares [] m m
kept_nothing g m = (tt, record { bytes_stay = λ q l k c i. refl; ptrs_stay = λ r c. refl })

pub number-IsOnStack : (i j : ℕ) (ps : List Part) → IsOnStack (number i j ps) → ⊥
number-IsOnStack i j [] on = on
number-IsOnStack i j (int_part o n ∷ []) on = cc
number-IsOnStack i j (ptr_part o ∷ []) on = cc
number-IsOnStack i j (float_part o n ∷ []) on = cc
number-IsOnStack i j (int_part o n ∷ int_part o' n' ∷ ps) on = on
number-IsOnStack i j (int_part o n ∷ ptr_part o' ∷ ps) on = on
number-IsOnStack i j (int_part o n ∷ float_part o' n' ∷ ps) on = on
number-IsOnStack i j (ptr_part o ∷ int_part o' n' ∷ ps) on = on
number-IsOnStack i j (ptr_part o ∷ ptr_part o' ∷ ps) on = on
number-IsOnStack i j (ptr_part o ∷ float_part o' n' ∷ ps) on = on
number-IsOnStack i j (float_part o n ∷ int_part o' n' ∷ ps) on = on
number-IsOnStack i j (float_part o n ∷ ptr_part o' ∷ ps) on = on
number-IsOnStack i j (float_part o n ∷ float_part o' n' ∷ ps) on = on

pub scatter_nothing :
    (h : Host) (v : GoValue) (t : GoType) (m : Frame)
    → is_iface t ≡ false
    → scatter_value h v t [] m ≡ some m
unfolding scatter_value scatter_steps
scatter_nothing h v t m ni = rw ni refl

-- A ready value is stored without a panic: the steps of its type hold its bytes, each pointer register
-- is mirrored for the collector, and nothing else of the registers and of the stack area changes.
pub scatter_value-StoresValue :
    (h : Host) (t : GoType) (v : GoValue) (steps : List Step) (m : Frame)
    → IsSane t
    → ValueSteps t steps
    → All (λ st. IsInside h.arch st.kind st) steps
    → Pairwise steps
    → IsReady h t v steps
    → (m' : Frame) × (scatter_value h v t steps m ≡ some m') × StoresValue h t v steps m m'
scatter_value-StoresValue h t v steps m sane (no_steps z e) ins apart (boxed is small) =
    absurd (omega (arith, iface_size t sane is))
scatter_value-StoresValue h t v steps m sane (in_registers i j ps z f e) ins apart
      (boxed is small) =
    let ins' = rw e at ins in
    let apart' = rw e at apart in
    let (m', c, k, sp) =
      copy_steps-Keeps h t (iface_bytes (h.box t v)) (number i j ps) m ins' apart' in
    rw (e, is)
      (
        m',
        iface_in_registers h v t i j ps m is f small ins'
            ∙ sym (copy_steps-copied_all h t (iface_bytes (h.box t v)) (number i j ps) m ins')
            ∙ c,
        (k, sp),
      )
scatter_value-StoresValue h t v steps m sane (on_stack st kind off sz e) ins apart
      (boxed is small) =
    let ins' = rw e at ins in
    let (m', c, k, sp) = stack_iface h v t st m is kind off (sz ∙ iface_size t sane is) ins'.0 in
    rw (e, is) (m', c, (k, sp))
scatter_value-StoresValue h t v steps m sane (no_steps z e) ins apart (plain f ni ev b can) =
    rw e (m, scatter_nothing h v t m ni, kept_nothing (own_bytes v) m)
scatter_value-StoresValue h t v steps m sane (in_registers i j ps z fl e) ins apart
      (plain f ni ev b (inl can)) =
    let ins' = rw e at ins in
    let apart' = rw e at apart in
    let (m', c, k, sp) = copy_steps-Keeps h t f (number i j ps) m ins' apart' in
    rw (e, ni, ev) (m', scatter_value-copy_steps h t i j ps f m sane ni fl b can ins' ∙ c, (k, sp))
scatter_value-StoresValue h t v steps m sane (in_registers i j ps z fl e) ins apart
      (plain f ni ev b (inr on)) =
    absurd (number-IsOnStack i j ps (rw e at on))
scatter_value-StoresValue h t v steps m sane (on_stack st kind off sz e) ins apart
      (plain f ni ev b can) =
    let ins' = rw e at ins in
    let (m', c, k, sp) = stack_value h t f st m sane (size-lt t sane) ni kind off sz ins'.0 in
    rw (e, ni, ev) (m', c, (k, sp))
