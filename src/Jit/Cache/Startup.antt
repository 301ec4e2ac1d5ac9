-- ===== src/Jit/Cache/Startup.antt =====
-- Trampolines are there when they are asked for: at startup one for each slot, and at the construction
-- of a proxy one for each method.
use go_weave.Prelude.{
  ℕ, zero, suc, ◌+◌, ◌^◌, ◌<◌, ◌≤◌, ◌≡◌, refl, ap, ◌∙◌, arith, Option, none, some, List, [], ◌∷◌,
  ◌++◌, Option-cases, inl, inr, length,
}
use go_weave.Abi.Types.{Arch}
use go_weave.Abi.Layout.{StubShape}
use go_weave.Jit.Module.Reading.{build_jit_module-IsDescribed}
use go_weave.Jit.Cache.{
  Target, Os, Jit, lookup, jit_trampoline, generic_shape, stub_made, first_stub, make_stubs,
  slot_count, nth,
}
use go_weave.Jit.Cache.Serves.{Serves, WellFormed, Extends}
use go_weave.Jit.Cache.Preserved.{jit_trampoline-IsGood}

-- The shapes that a method index and a stack area within the window can have.
abbrev pub IsSmall : StubShape → Type 0
IsSmall sh = (sh.index < 2 ^ 31) × (sh.arg_words ≤ 64) × (sh.ret_words ≤ 64)

-- The processor's assembler makes code for every such shape.
pub record IsTarget (target : Target) : Type 0 where
  pub makes :
      (sh : StubShape)
      → IsSmall sh
      → (code : List ℕ) × (pcsp : List ℕ) × (target.stub_code sh ≡ some (code, pcsp))

-- The system maps every page that it is asked for.
abbrev pub AlwaysMaps : {Space : Type 0} → Os Space → Type 0
AlwaysMaps {Space} os = (s : Space) (n : ℕ) → (a : ℕ) × (s' : Space) × (os.mmap s n ≡ some (a, s'))

module _ {Space : Type 0} (target : Target) (os : Os Space) (arch : Arch) where
  -- The cache knows each stub as the generic one of its slot.
  abbrev pub Knows : ℕ → List ℕ → Jit Space → Type 0
  Knows i ps j =
      (k p : ℕ)
      → nth ps k ≡ some p
      → lookup (generic_shape target os arch (i + k)) j.by_shape ≡ some p

  -- The state of the program behind `init`, at any time: `ps` are the stubs.
  pub record IsReady (ps : List ℕ) (j : Jit Space) : Type 0 where
    pub in_order : WellFormed target os j
    pub stubs_known : Knows 0 ps j
    pub all_slots : length ps ≡ slot_count

module _ {Space : Type 0} (target : Target) (os : Os Space) (ok : IsTarget target)
    (maps : AlwaysMaps os) where
  -- A state in which `p` is the trampoline of the shape, reached from `j`, and found again.
  abbrev pub Reached : StubShape → Jit Space → ℕ → Jit Space → Type 0
  Reached sh j p j' =
      WellFormed target os j'
      × Extends target os j j'
      × Serves target os sh p j'
      × (jit_trampoline target os sh j' ≡ some (some p, j'))
      × (lookup sh j'.by_shape ≡ some p)

  compiles :
      (sh : StubShape) (j : Jit Space)
      → IsSmall sh
      → lookup sh j.by_shape ≡ none
      → (p : ℕ) × (j' : Jit Space) × (jit_trampoline target os sh j ≡ some (some p, j'))
  unfolding jit_trampoline
  compiles sh j small missed =
      let (code, pcsp, made) = ok.makes sh small in
      let (a, s, mapped) = maps j.space (length code) in
      let (md, built, desc) =
        build_jit_module-IsDescribed target.quantum target.func_size a (length code) pcsp
          sh.arg_words sh.ret_words sh.arg_ptrs sh.ret_ptrs (omega (arith, small)) in
      let j' : Jit Space = record {
        space = s;
        by_shape = (sh, a) ∷ j.by_shape;
        modules = j.modules ++ (md ∷ []);
        pages = (a, code) ∷ j.pages;
      } in
      (a, j', rw (jit_trampoline, missed, made, mapped, built) refl)

  jit_trampoline-some :
      (sh : StubShape) (j : Jit Space)
      → IsSmall sh
      → (p : ℕ) × (j' : Jit Space) × (jit_trampoline target os sh j ≡ some (some p, j'))
  unfolding jit_trampoline
  jit_trampoline-some sh j small = elim (Option-cases (lookup sh j.by_shape)) [
    | inl e ↦ compiles sh j small e
    | inr (p, e) ↦ (p, j, rw (jit_trampoline, e) refl)
  ]

  found_again :
      (sh : StubShape) (p : ℕ) (j : Jit Space)
      → lookup sh j.by_shape ≡ some p
      → jit_trampoline target os sh j ≡ some (some p, j)
  unfolding jit_trampoline
  found_again sh p j known = rw (jit_trampoline, known) refl

  -- For a shape with an index below 2 ^ 31 and at most 64 words of arguments and of results,
  -- `jitTrampoline` gives a code pointer. Its page holds the code of the shape, and at every address
  -- of it the runtime finds module data that describes the shape. The cache and the modules stay in
  -- order, nothing that was cached is lost, and a second call gives the same pointer and changes
  -- nothing. It takes an assembler that makes code for such shapes and a system that maps every page.
  pub jit_trampoline-Reached :
      (sh : StubShape) (j : Jit Space)
      → IsSmall sh
      → WellFormed target os j
      → (p : ℕ) × (j' : Jit Space) × (jit_trampoline target os sh j ≡ some (some p, j'))
        × Reached sh j p j'
  jit_trampoline-Reached sh j small wf =
      let (p, j', e) = jit_trampoline-some sh j small in
      let (wf', more, (serves, known)) =
        rw e at (jit_trampoline-IsGood target os sh j (omega (arith, small)) wf) in
      (p, j', e, (wf', more, serves, found_again sh p j' known, known))

  module _ (arch : Arch) (window : arch.stack_window ≤ 512) where
    generic-IsSmall : (i : ℕ) → i < 2 ^ 31 → IsSmall (generic_shape target os arch i)
    generic-IsSmall i h = (h, omega (arith, window), omega arith)

    stub_first :
        (i p : ℕ) (ps : List ℕ) (j : Jit Space)
        → lookup (generic_shape target os arch i) j.by_shape ≡ some p
        → Knows target os arch (i + 1) ps j
        → Knows target os arch i (p ∷ ps) j
    stub_first i p ps j first rest zero q e =
        let same : p ≡ q = cc in
        ap (λ n. lookup (generic_shape target os arch n) j.by_shape) (omega arith) ∙ first ∙ e
    stub_first i p ps j first rest (suc k) q e =
        ap (λ n. lookup (generic_shape target os arch n) j.by_shape) (omega arith) ∙ rest k q e

    make_stubs-some :
        (i n : ℕ) (j : Jit Space)
        → i + n < 2 ^ 31
        → WellFormed target os j
        → (ps : List ℕ) × (j' : Jit Space) × (make_stubs target os arch i n j ≡ some (ps, j'))
          × WellFormed target os j'
          × Extends target os j j'
          × (length ps ≡ n)
          × Knows target os arch i ps j'
    unfolding make_stubs
    make_stubs-some i zero j small wf =
        ([], j, refl, wf, (λ sh p h. h), refl, (λ k p e. absurd (cc)))
    make_stubs-some i (suc n) j small wf =
        let (p, j', e, (wf', more, serves, again, known)) =
          jit_trampoline-Reached (generic_shape target os arch i) j
            (generic-IsSmall i (omega arith)) wf in
        let (ps, j'', f, wf'', more', count, knows) =
          make_stubs-some (i + 1) n j' (omega arith) wf' in
        let first = more' (generic_shape target os arch i) p known in
        let made : make_stubs target os arch i (suc n) j ≡ some (p ∷ ps, j'') =
          ap
            (λ o. elim (stub_made target os o) as (λ x. Option (List ℕ × Jit Space)) [
              | none ↦ none
              | some q ↦ first_stub target os q.0 (make_stubs target os arch (i + 1) n q.1)
            ])
            e
          ∙ ap (λ o. first_stub target os p o) f in
        (
          p ∷ ps,
          j'',
          made,
          wf'',
          (λ sh q h. more' sh q (more sh q h)),
          omega (arith, count),
          stub_first i p ps j'' first knows,
        )

    -- `init` succeeds and fills all slots, when the processor's assembler makes code for small shapes,
    -- the system maps every page, and the modules that are there at the start do not overlap fresh
    -- pages.
    pub make_stubs-IsReady :
        (j : Jit Space)
        → WellFormed target os j
        → (ps : List ℕ) × (j' : Jit Space) × (make_stubs target os arch 0 slot_count j
            ≡ some (ps, j'))
          × IsReady target os arch ps j'
    make_stubs-IsReady j wf =
        let (ps, j', e, wf', more, count, knows) =
          make_stubs-some 0 slot_count j (omega arith) wf in
        (ps, j', e, record { in_order = wf'; stubs_known = knows; all_slots = count })
