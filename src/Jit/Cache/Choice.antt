-- ===== src/Jit/Cache/Choice.antt =====
-- `newTrampoline`: the code pointer for each method of an interface.
use go_weave.Prelude.{
  ℕ, zero, suc, ◌+◌, ◌-◌, ◌/◌, ◌^◌, ◌<◌, ◌≤◌, ◌≡◌, ◌⊎◌, refl, ap, arith, true, false, ◌||◌, sym,
  ◌∙◌, some_eq, Option-cases, Option, none, ◌↔◌, some, List, [], ◌∷◌, ltb, leb, Bool-cases, inl,
  inr, length,
}
use go_weave.Abi.Types.{Arch, ptr_size}
use go_weave.Abi.Layout.{
  AbiLayout, StubShape, shape, stack_pointers, sub_u64, stub_max_words, mark_words,
}
use go_weave.Jit.Cache.{
  jit_trampoline, lookup, Target, Os, Jit, generic_shape, stub_made, new_trampoline, slot_count,
  nth,
}
use go_weave.Jit.Module.Reading.{build_jit_module-IsDescribed}
use go_weave.Jit.Cache.Serves.{Serves, WellFormed, Extends}
use go_weave.Jit.Cache.Startup.{IsSmall, IsTarget, AlwaysMaps, IsReady}
use go_weave.Jit.Cache.Preserved.{jit_trampoline-IsGood}

nth-some : (ps : List ℕ) (i : ℕ) → i < length ps → (p : ℕ) × (nth ps i ≡ some p)
nth-some [] i h = absurd (omega arith)
nth-some (p ∷ ps) zero h = (p, refl)
nth-some (p ∷ ps) (suc i) h = nth-some ps i (omega arith)

module _ (arch : Arch) (window : arch.stack_window ≤ 512) where
  shape-some :
      (l : AbiLayout) (i : ℕ)
      → l.ret_offset ≤ l.stack_bytes
      → l.stack_bytes ≤ 512
      → i < 2 ^ 31
      → (sh : StubShape) × (shape l i ≡ some sh) × IsSmall sh
  unfolding shape
  shape-some l i inside small low =
      let results : sub_u64 l.stack_bytes l.ret_offset ≡ l.stack_bytes - l.ret_offset =
        omega arith in
      let fits : (ltb stub_max_words (l.ret_offset / ptr_size)
            || ltb stub_max_words (sub_u64 l.stack_bytes l.ret_offset / ptr_size))
          ≡ false =
        ground arith in
      let sh : StubShape = record {
        index = i;
        arg_words = l.ret_offset / ptr_size;
        ret_words = sub_u64 l.stack_bytes l.ret_offset / ptr_size;
        arg_ptrs = mark_words 0 l.stack_ptr_offs 0;
        ret_ptrs = mark_words l.ret_offset l.ret_stack_ptr_offs 0;
      } in
      (sh, rw (shape, fits) refl, (omega arith, omega arith, omega (arith, results)))

module _ {Space : Type 0} (target : Target) (os : Os Space) (arch : Arch) where
  zero_first : (i : ℕ) → 0 + i ≡ i
  zero_first i = omega arith

  -- The shape that a method's trampoline must have.
  abbrev pub Wanted : AbiLayout → ℕ → StubShape → Type 0
  Wanted l i sh =
      ((stack_pointers l ≡ false) × (sh ≡ generic_shape target os arch i))
      ⊎ ((stack_pointers l ≡ true) × (shape l i ≡ some sh))

  -- What `newTrampoline` promises: the generic stub of the slot for a method without pointers in its
  -- stack area, and the trampoline of the method's shape for any other.
  abbrev pub RightCode : AbiLayout → ℕ → ℕ → Jit Space → Type 0
  RightCode l i p j =
      (sh : StubShape) × Wanted l i sh × (lookup sh j.by_shape ≡ some p) × Serves target os sh p j

  -- It stays the right code as the cache grows.
  pub RightCode-later :
      (l : AbiLayout) (i p : ℕ) (j j' : Jit Space)
      → WellFormed target os j'
      → Extends target os j j'
      → RightCode l i p j
      → RightCode l i p j'
  RightCode-later l i p j j' wf more (sh, wanted, known, serves) =
      (sh, wanted, more sh p known, wf.cache sh p (more sh p known))

  generic_code :
      (ps : List ℕ) (l : AbiLayout) (i : ℕ) (j : Jit Space)
      → IsReady target os arch ps j
      → i < slot_count
      → l.stack_bytes ≤ arch.stack_window
      → stack_pointers l ≡ false
      → (p : ℕ) × (new_trampoline target os arch ps l i j ≡ some (p, j)) × RightCode l i p j
  unfolding new_trampoline
  generic_code ps l i j ready low fits plain =
      let (p, e) = nth-some ps i (omega (arith, ready.all_slots, low)) in
      let inside : ltb arch.stack_window l.stack_bytes ≡ false = ground arith in
      let slot : leb slot_count i ≡ false = ground arith in
      let known = rw (zero_first i) at (ready.stubs_known i p e) in
      let sh = generic_shape target os arch i in
      (
        p,
        rw (new_trampoline, inside, plain, slot, e) refl,
        (sh, inl (plain, refl), known, ready.in_order.cache sh p known),
      )

-- No trampoline for the shape: none is cached, and the assembler refuses the shape or `mmap` fails.
abbrev pub IsUncompiled : {Space : Type 0} → Target → Os Space → StubShape → Jit Space → Type 0
IsUncompiled target os sh j =
    (lookup sh j.by_shape ≡ none)
    × ((target.stub_code sh ≡ none)
        ⊎ ((code : List ℕ) × (pcsp : List ℕ) × (target.stub_code sh ≡ some (code, pcsp))
            × (os.mmap j.space (length code) ≡ none)))

module _ {Space : Type 0} (target : Target) (os : Os Space) where
  IsUncompiled-none :
      (sh : StubShape) (j : Jit Space)
      → IsUncompiled target os sh j
      → stub_made target os (jit_trampoline target os sh j) ≡ none
  unfolding jit_trampoline
  IsUncompiled-none sh j (new, inl refused) = rw (new, refused) refl
  IsUncompiled-none sh j (new, inr (code, pcsp, made, full)) = rw (new, made, full) refl

  no_code_by :
      (sh : StubShape) (j : Jit Space) (known : Option ℕ) (made : Option (List ℕ × List ℕ))
      → sh.arg_words + sh.ret_words < 2 ^ 28
      → lookup sh j.by_shape ≡ known
      → target.stub_code sh ≡ made
      → stub_made target os (jit_trampoline target os sh j) ≡ none
      → IsUncompiled target os sh j
  unfolding jit_trampoline
  no_code_by sh j (some p) made small e m h = absurd (let x = rw e at h in cc)
  no_code_by sh j none none small e m h = (e, inl m)
  no_code_by sh j none (some (code, pcsp)) small e m h =
      (e, inr (code, pcsp, m, unmapped (os.mmap j.space (length code)) refl))
    where
      unmapped :
          (page : Option (ℕ × Space))
          → os.mmap j.space (length code) ≡ page
          → os.mmap j.space (length code) ≡ none
      unmapped none full = full
      unmapped (some (a, s)) mapped =
          let (md, built, described) =
            build_jit_module-IsDescribed target.quantum target.func_size a (length code) pcsp
              sh.arg_words sh.ret_words sh.arg_ptrs sh.ret_ptrs small in
          absurd (let x = rw (e, m, mapped, built) at h in cc)

  module _ (arch : Arch) (window : arch.stack_window ≤ 512) where
    -- When a method cannot have a trampoline.
    abbrev pub IsRefused : AbiLayout → ℕ → Jit Space → Type 0
    IsRefused l i j =
        (arch.stack_window < l.stack_bytes)
        ⊎ (((stack_pointers l ≡ false) × (slot_count ≤ i))
            ⊎ ((stack_pointers l ≡ true)
                × (sh : StubShape) × (shape l i ≡ some sh)
                × IsUncompiled target os sh j))

    refused_none :
        (ps : List ℕ) (l : AbiLayout) (i : ℕ) (j : Jit Space)
        → IsRefused l i j
        → new_trampoline target os arch ps l i j ≡ none
    unfolding new_trampoline
    refused_none ps l i j (inl wide) =
        let outside : ltb arch.stack_window l.stack_bytes ≡ true = ground arith in
        rw (new_trampoline, outside) refl
    refused_none ps l i j (inr refused) = elim (Bool-cases (ltb arch.stack_window l.stack_bytes)) [
      | inl wide ↦ rw (new_trampoline, wide) refl
      | inr fits ↦ elim refused [
        | inl (plain, high) ↦
            let no_slot : leb slot_count i ≡ true = ground arith in
            rw (new_trampoline, fits, plain, no_slot) refl
        | inr (pointers, sh, shaped, unmade) ↦
            rw (new_trampoline, fits, pointers, shaped) (IsUncompiled-none sh j unmade)
      ]
    ]

    none-IsRefused :
        (ps : List ℕ) (l : AbiLayout) (i : ℕ) (j : Jit Space)
        → slot_count ≤ length ps
        → i < 2 ^ 31
        → l.ret_offset ≤ l.stack_bytes
        → new_trampoline target os arch ps l i j ≡ none
        → IsRefused l i j
    unfolding new_trampoline
    none-IsRefused ps l i j filled low inside panics =
        elim (Bool-cases (ltb arch.stack_window l.stack_bytes)) [
          | inl wide ↦ inl (ground arith)
          | inr fits ↦ elim (Bool-cases (stack_pointers l)) [
            | inl e ↦
                let (sh, shaped, small) = shape-some arch window l i inside (ground arith) low in
                let unmade = rw (new_trampoline, fits, e, shaped) at panics in
                inr (
                  inr (
                    e,
                    sh,
                    shaped,
                    no_code_by sh j (lookup sh j.by_shape) (target.stub_code sh)
                        (omega (arith, small)) refl refl unmade,
                  ))
            | inr e ↦ elim (Bool-cases (leb slot_count i)) [
              | inl late ↦ inr (inl (e, ground arith))
              | inr slot ↦
                  let (p, at) = nth-some ps i (ground arith) in
                  absurd (let x = rw (new_trampoline, fits, e, slot, at) at panics in cc)
            ]
          ]
        ]

    -- With the slots that `init` fills, `newTrampoline` panics exactly in three cases: the stack area
    -- of the method is wider than the window, or it has no pointers in its stack area and no slot for
    -- its index, or it has such pointers, no trampoline of its shape is cached, and the assembler
    -- refuses the shape or `mmap` gives no memory for the code. It holds for an index below 2 ^ 31, a
    -- window of at most 512 bytes and a layout whose results start within the stack area.
    pub new_trampoline-IsRefused :
        (ps : List ℕ) (l : AbiLayout) (i : ℕ) (j : Jit Space)
        → slot_count ≤ length ps
        → i < 2 ^ 31
        → l.ret_offset ≤ l.stack_bytes
        → (new_trampoline target os arch ps l i j ≡ none) ↔ IsRefused l i j
    new_trampoline-IsRefused ps l i j filled low inside =
        (none-IsRefused ps l i j filled low inside, refused_none ps l i j)

    stub_made-some :
        (o : Option (Option ℕ × Jit Space)) (p : ℕ) (j : Jit Space)
        → stub_made target os o ≡ some (p, j)
        → o ≡ some (some p, j)
    stub_made-some none p j h = cc
    stub_made-some (some (none, k)) p j h = cc
    stub_made-some (some (some q, k)) p j h =
        ap (λ (x : ℕ × Jit Space). some (some x.0, x.1)) (some_eq (q, k) (p, j) h)

    -- The code that `newTrampoline` gives, and the state behind it.
    abbrev Chosen : List ℕ → AbiLayout → ℕ → Jit Space → Type 0
    Chosen ps l i j =
        (p : ℕ) × (j' : Jit Space) × (new_trampoline target os arch ps l i j ≡ some (p, j'))
        × RightCode target os arch l i p j'
        × IsReady target os arch ps j'
        × Extends target os j j'

    precise_code :
        (ps : List ℕ) (l : AbiLayout) (i : ℕ) (j : Jit Space) (sh : StubShape)
        → IsReady target os arch ps j
        → (ltb arch.stack_window l.stack_bytes ≡ false)
        → (stack_pointers l ≡ true)
        → (shape l i ≡ some sh)
        → sh.arg_words + sh.ret_words < 2 ^ 28
        → ¬ IsUncompiled target os sh j
        → Chosen ps l i j
    unfolding new_trampoline
    precise_code ps l i j sh ready fits pointers shaped words made =
        elim (Option-cases (stub_made target os (jit_trampoline target os sh j))) [
          | inl e ↦ absurd (
              made (no_code_by sh j (lookup sh j.by_shape) (target.stub_code sh) words refl refl e))
          | inr ((p, j'), e) ↦
              let (wf, more, (serves, known)) =
                rw (stub_made-some _ p j' e) at
                  (jit_trampoline-IsGood target os sh j words ready.in_order) in
              (
                p,
                j',
                rw (new_trampoline, fits, pointers, shaped) e,
                (sh, inr (pointers, shaped), known, serves),
                record {
                  in_order = wf;
                  stubs_known = λ k q h.
                      more (generic_shape target os arch (0 + k)) q (ready.stubs_known k q h);
                  all_slots = ready.all_slots;
                },
                more,
              )
        ]

    -- Behind `init`, `newTrampoline` gives code for every method that is not refused, with an index below
    -- the number of slots, results that start within the stack area and a window of at most 512 bytes.
    -- Refused is a method whose stack area is wider than the window, and one with pointers in its stack
    -- area whose shape is not cached and cannot be made now, as the assembler refuses it or `mmap`
    -- fails. The code is that of the method's shape, or the generic stub of its slot when no pointers
    -- cross the stack area, and at every address of the code the runtime finds the module data that
    -- describes it. The program is then ready for the next method, and nothing that was cached is lost.
    pub new_trampoline-IsReady :
        (ps : List ℕ) (l : AbiLayout) (i : ℕ) (j : Jit Space)
        → IsReady target os arch ps j
        → i < slot_count
        → l.ret_offset ≤ l.stack_bytes
        → ¬ IsRefused l i j
        → (p : ℕ) × (j' : Jit Space) × (new_trampoline target os arch ps l i j ≡ some (p, j'))
          × RightCode target os arch l i p j'
          × IsReady target os arch ps j'
          × Extends target os j j'
    new_trampoline-IsReady ps l i j ready low inside accepted =
        elim (Bool-cases (ltb arch.stack_window l.stack_bytes)) [
          | inl wide ↦ absurd (accepted (inl (ground arith)))
          | inr fits ↦ elim (Bool-cases (stack_pointers l)) [
            | inl e ↦
                let (sh, shaped, small) =
                  shape-some arch window l i inside (ground arith) (omega (arith, low)) in
                precise_code ps l i j sh ready fits e shaped (omega (arith, small))
                  (λ u. accepted (inr (inr (e, sh, shaped, u))))
            | inr e ↦
                let (p, made, right) =
                  generic_code target os arch ps l i j ready low (ground arith) e in
                (p, j, made, right, ready, (λ sh q h. h))
          ]
        ]

    -- Where the assembler takes small shapes and the system maps every page, a method within the window
    -- is not refused.
    pub IsRefused-not :
        (l : AbiLayout) (i : ℕ) (j : Jit Space)
        → IsTarget target
        → AlwaysMaps os
        → i < slot_count
        → l.ret_offset ≤ l.stack_bytes
        → l.stack_bytes ≤ arch.stack_window
        → ¬ IsRefused l i j
    IsRefused-not l i j ok maps low inside fits (inl wide) = omega arith
    IsRefused-not l i j ok maps low inside fits (inr (inl (plain, high))) = omega arith
    IsRefused-not l i j ok maps low inside fits (inr (inr (pointers, sh, shaped, (new, unmade)))) =
        let (sh', shaped', small) =
          shape-some arch window l i inside (omega arith) (omega (arith, low)) in
        let same : sh' ≡ sh = some_eq sh' sh (sym shaped' ∙ shaped) in
        let (code, pcsp, made) = ok.makes sh (rw same at small) in
        elim unmade [
          | inl refused ↦ absurd (let x = sym refused ∙ made in cc)
          | inr (code', pcsp', made', full) ↦
              let (a, s, mapped) = maps j.space (length code') in
              absurd (let x = sym full ∙ mapped in cc)
        ]
