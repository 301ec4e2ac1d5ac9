-- ===== src/Materialize/ReadArg.antt =====
-- One argument of a method, wherever the ABI passed it: the loop body of `materializeArgs` of
-- materialize.go.
use go_weave.Prelude.{
  ℕ, ◌+◌, ◌≤◌, ◌<◌, ◌≡◌, refl, sym, ap, ◌∙◌, ◌⊎◌, ◌≢◌, inl, inr, arith, true, false, Option, some,
  List, [], ◌∷◌, ◌==◌, ltb, if◌then◌else◌, All, Bool-cases,
}
use go_weave.Abi.Types.{GoType, basic, interface, string, array, struct, size}
use go_weave.Abi.Assign.{Step}
use go_weave.Abi.Layout.{needs_gather}
use go_weave.Abi.Sane.{IsSane}
use go_weave.Abi.Parts.{Part, int_part, ptr_part, float_part, basic_parts, flatten}
use go_weave.Abi.Segments.{number, ValueSteps, no_steps, in_registers, on_stack}
use go_weave.Materialize.Memory.{gather_buf, Addr, Frame, same_area, offset_by, view, word_at}
use go_weave.Materialize.Bytes.{le_num-eq}
use go_weave.Materialize.Values.{GoValue, located, dynamic, Host}
use go_weave.Materialize.Results.{is_iface}
use go_weave.Materialize.Args.{zero_value, materialize_iface, materialize_value, materialize_arg}
use go_weave.Materialize.Effects.{addr_of, IsInside, step_addr-inside}
use go_weave.Materialize.Gathered.{
  Grows, Grows-refl, Reads, InOrder, InOrder-le, value-InOrder, elsewhere-place, buffer_at,
  gather_steps-Reads,
}

-- The interface value of two words: nil, or the dynamic type of the itab with the data word.
abbrev pub iface_of : Host → GoType → ℕ → ℕ → GoValue
iface_of h t tab word = if tab == 0 then zero_value t else dynamic t (h.itab_type tab) word

-- The words stand in two registers, or behind each other on the stack.
abbrev pub found_iface : Host → GoType → List Step → Frame → GoValue
found_iface h t [] m = zero_value t
found_iface h t (st ∷ []) m =
    iface_of h t (word_at (addr_of st) m) (word_at (offset_by (addr_of st) 8) m)
found_iface h t (st ∷ st' ∷ sts) m = iface_of h t (word_at (addr_of st) m) (word_at (addr_of st') m)

-- The first word of an interface is nil or an itab, with a type that the interface can hold. The first
-- word of an `any` is a type, and none.
abbrev pub IsItab : Host → GoType → ℕ → Type 0
IsItab h t tab = (tab ≡ 0) ⊎ (h.can_set t (h.itab_type tab) ≡ true)

abbrev pub HasItab : Host → GoType → List Step → Frame → Type 0
HasItab h t [] m = Unit
HasItab h t (st ∷ sts) m = IsItab h t (word_at (addr_of st) m)

-- What an interceptor sees of an argument whose steps hold what they hold in `m`: the zero value of a
-- type of size 0, an interface value, or a value at an address from which, in the memory `m'` that
-- materialising leaves, exactly the bytes that the steps passed are read. An address in the gather
-- buffer leaves room for the value below `hi`.
pub data IsRead (h : Host) (t : GoType) (steps : List Step) (m m' : Frame) (v : GoValue) (hi : ℕ)
    : Type 0 where
  empty : size t ≡ 0 → v ≡ zero_value t → IsRead h t steps m m' v hi
  an_iface : is_iface t ≡ true → v ≡ found_iface h t steps m → IsRead h t steps m m' v hi
  stands_at :
      (p : Addr)
      → v ≡ located t p
      → All (Reads p m m') steps
      → (same_area p.area gather_buf ≡ false) ⊎ (p.off + size t ≤ hi)
      → IsRead h t steps m m' v hi

-- The first part of a value stands at its start, as in every Go type that has a size.
abbrev pub StartsAtZero : List Part → Type 0
StartsAtZero [] = ⊥
StartsAtZero (int_part o n ∷ ps) = o ≡ 0
StartsAtZero (ptr_part o ∷ ps) = o ≡ 0
StartsAtZero (float_part o n ∷ ps) = o ≡ 0

abbrev pub HasStart : GoType → Type 0
HasStart t = (ps : List Part) → size t ≢ 0 → flatten t 0 ≡ some ps → StartsAtZero ps

settable :
    (h : Host) (t : GoType) (tab : ℕ)
    → IsItab h t tab
    → (tab == 0) ≡ false
    → h.can_set t (h.itab_type tab) ≡ true
settable h t tab (inl z) e = absurd (ground arith)
settable h t tab (inr c) e = c

iface_one :
    (h : Host) (t : GoType) (st : Step) (m : Frame)
    → IsInside h.arch st.kind st
    → IsItab h t (word_at (addr_of st) m)
    → materialize_iface h t (st ∷ []) m ≡ some (found_iface h t (st ∷ []) m)
unfolding materialize_iface
iface_one h t st m ins itab = elim (Bool-cases (word_at (addr_of st) m == 0)) [
  | inl e ↦ rw (step_addr-inside h.arch st ins, e) refl
  | inr e ↦
      rw (step_addr-inside h.arch st ins, e, settable h t (word_at (addr_of st) m) itab e) refl
]

iface_two :
    (h : Host) (t : GoType) (st st' : Step) (sts : List Step) (m : Frame)
    → IsInside h.arch st.kind st
    → IsInside h.arch st'.kind st'
    → IsItab h t (word_at (addr_of st) m)
    → materialize_iface h t (st ∷ st' ∷ sts) m ≡ some (found_iface h t (st ∷ st' ∷ sts) m)
unfolding materialize_iface
iface_two h t st st' sts m ins ins' itab = elim (Bool-cases (word_at (addr_of st) m == 0)) [
  | inl e ↦ rw (step_addr-inside h.arch st ins, e) refl
  | inr e ↦
      rw
        (
          step_addr-inside h.arch st ins,
          step_addr-inside h.arch st' ins',
          e,
          settable h t (word_at (addr_of st) m) itab e,
        )
        refl
]

iface_parts :
    (t : GoType) (ps : List Part)
    → is_iface t ≡ true
    → flatten t 0 ≡ some ps
    → basic_parts interface 16 0 ≡ ps
unfolding flatten
iface_parts (basic interface n a) ps is f = cc
iface_parts (basic string n a) ps is f = cc
iface_parts (basic _ n a) ps is f = cc
iface_parts (array l x n a) ps is f = cc
iface_parts (struct fs n a) ps is f = cc

iface_read :
    (h : Host) (t : GoType) (steps : List Step) (m : Frame)
    → is_iface t ≡ true
    → size t ≢ 0
    → ValueSteps t steps
    → All (λ st. IsInside h.arch st.kind st) steps
    → HasItab h t steps m
    → materialize_iface h t steps m ≡ some (found_iface h t steps m)
iface_read h t steps m is some_size (no_steps z e) ins itab = absurd (some_size z)
iface_read h t steps m is some_size (in_registers i j ps z f e) ins itab =
    let e' = e ∙ ap (number i j) (sym (iface_parts t ps is f)) in
    let ins' = rw e' at ins in
    let itab' = rw e' at itab in rw e' (iface_two h t _ _ [] m ins'.0 ins'.1.0 itab')
iface_read h t steps m is some_size (on_stack st kind off sz e) ins itab =
    let ins' = rw e at ins in let itab' = rw e at itab in rw e (iface_one h t st m ins'.0 itab')

-- The conditions on one argument and its slot.
pub record IsArg (h : Host) (total at hi : ℕ) (t : GoType) (slot : Option ℕ) (steps : List Step)
    : Type 0 where
  pub sane : IsSane t
  pub value : ValueSteps t steps
  pub start : HasStart t
  pub inside : All (λ st. IsInside h.arch st.kind st) steps
  pub slot_is : needs_gather t steps ≡ true → slot ≡ some at
  pub room : needs_gather t steps ≡ true → (at + size t ≤ hi) × (at + size t ≤ total)

-- One step, at the start of the value.
single-IsRead :
    (h : Host) (total : ℕ) (t : GoType) (slot : Option ℕ) (st : Step) (m : Frame) (hi : ℕ)
    → IsInside h.arch st.kind st
    → st.offset ≡ 0
    → (materialize_value h total t slot (st ∷ []) m ≡ some (m, located t (addr_of st)))
      × IsRead h t (st ∷ []) m m (located t (addr_of st)) hi
single-IsRead h total t slot st m hi ins off = (
  rw (step_addr-inside h.arch st ins) refl,
  stands_at (addr_of st) refl ((λ k l. let z : k + st.offset ≡ k = omega arith in rw z refl), tt)
      (inl (elsewhere-place st.kind st)),
)

-- Two steps or more.
several-IsRead :
    (h : Host) (total at hi : ℕ) (t : GoType) (slot : Option ℕ) (st st' : Step) (sts : List Step)
    (m : Frame)
    → slot ≡ some at
    → at < total
    → at + size t ≤ hi
    → All (λ st. IsInside h.arch st.kind st) (st ∷ st' ∷ sts)
    → InOrder 0 (st ∷ st' ∷ sts) (size t)
    → (m1 : Frame) × (materialize_value h total t slot (st ∷ st' ∷ sts) m
        ≡ some (m1, located t (buffer_at at)))
      × IsRead h t (st ∷ st' ∷ sts) m m1 (located t (buffer_at at)) hi
      × Grows at m m1
several-IsRead h total at hi t slot st st' sts m is lt room ins ord =
    let (m1, e, reads, grows) = gather_steps-Reads h at 0 (size t) (st ∷ st' ∷ sts) m ins ord in
    let fits : ltb at total ≡ true = ground arith in
    let zero_on : at + 0 ≡ at = omega arith in
    (m1, rw (is, fits, e) refl, stands_at (buffer_at at) refl reads (inr room), rw zero_on at grows)

abbrev pub ArgRead :
    Host → ℕ → ℕ → ℕ → GoType → Option ℕ → List Step → Frame → Frame → GoValue → Type 0
ArgRead h total at hi t slot steps m m1 v =
    (materialize_value h total t slot steps m ≡ some (m1, v))
    × IsRead h t steps m m1 v hi
    × Grows at m m1

abbrev FirstAtZero : List Step → Type 0
FirstAtZero [] = ⊥
FirstAtZero (st ∷ sts) = st.offset ≡ 0

number-FirstAtZero : (i j : ℕ) (ps : List Part) → StartsAtZero ps → FirstAtZero (number i j ps)
number-FirstAtZero i j [] h = h
number-FirstAtZero i j (int_part o n ∷ ps) h = h
number-FirstAtZero i j (ptr_part o ∷ ps) h = h
number-FirstAtZero i j (float_part o n ∷ ps) h = h

value-FirstAtZero :
    (t : GoType) (steps : List Step)
    → ValueSteps t steps
    → HasStart t
    → size t ≢ 0
    → FirstAtZero steps
value-FirstAtZero t steps (no_steps z e) start some_size = absurd (some_size z)
value-FirstAtZero t steps (in_registers i j ps z f e) start some_size =
    rw e (number-FirstAtZero i j ps (start ps some_size f))
value-FirstAtZero t steps (on_stack st kind off sz e) start some_size = rw e off

plain-IsRead :
    (h : Host) (total at hi : ℕ) (t : GoType) (slot : Option ℕ) (steps : List Step) (m : Frame)
    → IsArg h total at hi t slot steps
    → size t ≢ 0
    → (m1 : Frame) × (v : GoValue) × ArgRead h total at hi t slot steps m m1 v
plain-IsRead h total at hi t slot [] m a some_size =
    absurd (value-FirstAtZero t [] a.value a.start some_size)
plain-IsRead h total at hi t slot (st ∷ []) m a some_size =
    let (e, r) =
      single-IsRead h total t slot st m hi a.inside.0
        (value-FirstAtZero t (st ∷ []) a.value a.start some_size) in
    (m, located t (addr_of st), (e, r, Grows-refl at m))
plain-IsRead h total at hi t slot (st ∷ st' ∷ sts) m a some_size =
    let needs : needs_gather t (st ∷ st' ∷ sts) ≡ true = ground arith in
    let (m1, e, r, g) =
      several-IsRead h total at hi t slot st st' sts m (a.slot_is needs)
        (omega (arith, (a.room needs).1)) (a.room needs).0 a.inside
        (value-InOrder t (st ∷ st' ∷ sts) a.sane a.value) in
    (m1, located t (buffer_at at), (e, r, g))

pub materialize_arg-IsRead :
    (h : Host) (total at hi : ℕ) (t : GoType) (slot : Option ℕ) (steps : List Step) (m : Frame)
    → IsArg h total at hi t slot steps
    → (is_iface t ≡ true → HasItab h t steps m)
    → (m1 : Frame) × (v : GoValue) × (materialize_arg h total t slot steps m ≡ some (m1, v))
      × IsRead h t steps m m1 v hi
      × Grows at m m1
unfolding materialize_arg
materialize_arg-IsRead h total at hi t slot steps m a itab = elim (Bool-cases (size t == 0)) [
  | inl z ↦ (m, zero_value t, rw z refl, empty (ground arith) refl, Grows-refl at m)
  | inr z ↦
      let some_size : size t ≢ 0 = ground arith in
      elim (Bool-cases (is_iface t)) [
        | inl is ↦ (
          m,
          found_iface h t steps m,
          rw (z, is, iface_read h t steps m is some_size a.value a.inside (itab is)) refl,
          an_iface is refl,
          Grows-refl at m,
        )
        | inr ni ↦
            let (m1, v, r) = plain-IsRead h total at hi t slot steps m a some_size in
            (m1, v, rw (z, ni) r.0, r.1, r.2)
      ]
]

-- A view of the memory outside the gather buffer, before and after something was gathered.
same_view :
    (lo : ℕ) (m0 m : Frame) (p : Addr) (k : ℕ)
    → Grows lo m0 m
    → same_area p.area gather_buf ≡ false
    → view p m k ≡ view p m0 k
same_view lo m0 m p k g e = g.rest_stays p.area (p.off + k) (inl e)

same_word :
    (lo : ℕ) (m0 m : Frame) (p : Addr)
    → Grows lo m0 m
    → same_area p.area gather_buf ≡ false
    → word_at p m ≡ word_at p m0
same_word lo m0 m p g e = le_num-eq 8 _ _ (λ k l. same_view lo m0 m p k g e)

same_iface :
    (h : Host) (t : GoType) (steps : List Step) (lo : ℕ) (m0 m : Frame)
    → Grows lo m0 m
    → found_iface h t steps m ≡ found_iface h t steps m0
same_iface h t [] lo m0 m g = refl
same_iface h t (st ∷ []) lo m0 m g =
    rw
      (
        same_word lo m0 m (addr_of st) g (elsewhere-place st.kind st),
        same_word lo m0 m (offset_by (addr_of st) 8) g (elsewhere-place st.kind st),
      )
      refl
same_iface h t (st ∷ st' ∷ sts) lo m0 m g =
    rw
      (
        same_word lo m0 m (addr_of st) g (elsewhere-place st.kind st),
        same_word lo m0 m (addr_of st') g (elsewhere-place st'.kind st'),
      )
      refl

-- What was passed is the same before an earlier argument was gathered.
Reads-from :
    (p : Addr) (lo : ℕ) (m0 m m' : Frame) (steps : List Step)
    → Grows lo m0 m
    → All (Reads p m m') steps
    → All (Reads p m0 m') steps
Reads-from p lo m0 m m' [] g h = tt
Reads-from p lo m0 m m' (st ∷ sts) g h = (
  (λ k l. h.0 k l ∙ same_view lo m0 m (addr_of st) k g (elsewhere-place st.kind st)),
  Reads-from p lo m0 m m' sts g h.1,
)

-- An itab that was passed is still there.
pub HasItab-later :
    (h : Host) (t : GoType) (steps : List Step) (lo : ℕ) (m0 m : Frame)
    → Grows lo m0 m
    → HasItab h t steps m0
    → HasItab h t steps m
HasItab-later h t [] lo m0 m g i = tt
HasItab-later h t (st ∷ sts) lo m0 m g i =
    rw (same_word lo m0 m (addr_of st) g (elsewhere-place st.kind st)) i

pub IsRead-from :
    (h : Host) (t : GoType) (steps : List Step) (lo : ℕ) (m0 m m' : Frame) (v : GoValue) (hi : ℕ)
    → Grows lo m0 m
    → IsRead h t steps m m' v hi
    → IsRead h t steps m0 m' v hi
IsRead-from h t steps lo m0 m m' v hi g (empty z e) = empty z e
IsRead-from h t steps lo m0 m m' v hi g (an_iface is e) =
    an_iface is (e ∙ same_iface h t steps lo m0 m g)
IsRead-from h t steps lo m0 m m' v hi g (stands_at p e r b) =
    stands_at p e (Reads-from p lo m0 m m' steps g r) b

Reads-until :
    (p : Addr) (lo from n : ℕ) (m m' m'' : Frame) (steps : List Step)
    → (same_area p.area gather_buf ≡ false) ⊎ (p.off + n ≤ lo)
    → InOrder from steps n
    → Grows lo m' m''
    → All (Reads p m m') steps
    → All (Reads p m m'') steps
Reads-until p lo from n m m' m'' [] b ord g h = tt
Reads-until p lo from n m m' m'' (st ∷ sts) b ord g h =
    let end = InOrder-le (st.offset + st.size) n sts ord.1 in
    (
      (λ k l.
          g.rest_stays p.area (p.off + (k + st.offset))
            (elim b [ inl e ↦ inl e | inr le ↦ inr (omega (arith, end)) ])
          ∙ h.0 k l),
      Reads-until p lo (st.offset + st.size) n m m' m'' sts b ord.1 g h.1,
    )

-- What was gathered is not overwritten by later arguments.
pub IsRead-until :
    (h : Host) (t : GoType) (steps : List Step) (m m' m'' : Frame) (v : GoValue) (hi hi' : ℕ)
    → IsSane t
    → ValueSteps t steps
    → hi ≤ hi'
    → Grows hi m' m''
    → IsRead h t steps m m' v hi
    → IsRead h t steps m m'' v hi'
IsRead-until h t steps m m' m'' v hi hi' sane value le g (empty z e) = empty z e
IsRead-until h t steps m m' m'' v hi hi' sane value le g (an_iface is e) = an_iface is e
IsRead-until h t steps m m' m'' v hi hi' sane value le g (stands_at p e r b) =
    stands_at p e
      (Reads-until p hi 0 (size t) m m' m'' steps b (value-InOrder t steps sane value) g r)
      (elim b [ inl x ↦ inl x | inr x ↦ inr (omega arith) ])
