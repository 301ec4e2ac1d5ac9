-- ===== src/Jit/Cache/Preserved.antt =====
-- `jitTrampoline` keeps the trampoline cache and the runtime's modules in order.
use go_weave.Prelude.{
  ℕ, ◌+◌, ◌-◌, ◌^◌, ◌<◌, ◌≤◌, ◌≡◌, refl, sym, ap, ◌∙◌, arith, true, none, some, List, [], ◌∷◌, ◌++◌,
  Bool-cases, Option-cases, inl, inr, length, All, All-append,
}
use go_weave.Abi.Layout.{StubShape}
use go_weave.Jit.Module.{ModuleData}
use go_weave.Jit.Module.Reading.{IsDescribed, build_jit_module-IsDescribed}
use go_weave.Jit.Cache.{Target, Os, Jit, shape_eq, lookup, compile, jit_trampoline}
use go_weave.Jit.Cache.Serves.{
  find_module-append, find_module-fresh, Covered, Serves, WellFormed, Extends, IsGood,
  Covered-weaken,
}

-- `&&` of the five tests.
shape_eq_lem : (a b : StubShape) → shape_eq a b ≡ true → a ≡ b
shape_eq_lem a b h =
    let e1 : a.index ≡ b.index = ground arith in
    let e2 : a.arg_words ≡ b.arg_words = ground arith in
    let e3 : a.ret_words ≡ b.ret_words = ground arith in
    let e4 : a.arg_ptrs ≡ b.arg_ptrs = ground arith in
    let e5 : a.ret_ptrs ≡ b.ret_ptrs = ground arith in
    ap (λ n. record a { index = n }) e1
    ∙ ap (λ n. record a { index = b.index; arg_words = n }) e2
    ∙ ap (λ n. record b { ret_words = n; arg_ptrs = a.arg_ptrs; ret_ptrs = a.ret_ptrs }) e3
    ∙ ap (λ n. record b { arg_ptrs = n; ret_ptrs = a.ret_ptrs }) e4
    ∙ ap (λ n. record b { ret_ptrs = n }) e5

shape_eq_same : (a : StubShape) → shape_eq a a ≡ true
shape_eq_same a = ground arith

lookup-hit :
    (sh : StubShape) (p : ℕ) (es : List (StubShape × ℕ)) → lookup sh ((sh, p) ∷ es) ≡ some p
unfolding lookup
lookup-hit sh p es = rw (shape_eq_same sh) refl

module _ {Space : Type 0} (target : Target) (os : Os Space) where
  -- A new trampoline at `a`: the state before, the mapping and the module data.
  module _ (sh : StubShape) (j : Jit Space) (code pcsp : List ℕ) (a : ℕ) (s : Space)
      (md : ModuleData) (wf : WellFormed target os j)
      (made : target.stub_code sh ≡ some (code, pcsp))
      (mapped : os.mmap j.space (length code) ≡ some (a, s))
      (desc : IsDescribed a (length code) pcsp sh.arg_words sh.ret_words sh.arg_ptrs sh.ret_ptrs md)
      (missed : lookup sh j.by_shape ≡ none) where
    abbrev grown : Jit Space
    grown = record {
      space = s;
      by_shape = (sh, a) ∷ j.by_shape;
      modules = j.modules ++ (md ∷ []);
      pages = (a, code) ∷ j.pages;
    }

    used_here : (x : ℕ) → md.text ≤ x → x < md.etext → os.IsUsed s x
    used_here x low high =
        let at : a + (x - a) ≡ x = omega (arith, low, desc.range.0) in
        rw at at (
          os.mmap_used j.space s (length code) a mapped (x - a)
            (omega (arith, low, high, desc.range.0, desc.range.1)))

    grown-Covered : All (Covered target os s) grown.modules
    grown-Covered =
        All-append (Covered target os s) j.modules (md ∷ [])
          (Covered-weaken target os j.space s j.modules
            (os.mmap_keeps j.space s (length code) a mapped) wf.covered)
          (used_here, tt)

    new-Serves : Serves target os sh a grown
    new-Serves = record {
      code = code;
      pcsp = pcsp;
      md = md;
      made = made;
      paged = ([], j.pages, refl);
      found = λ k h.
          find_module-fresh target os j.space j.modules md (a + k) wf.covered
            (os.mmap_fresh j.space s (length code) a mapped k h) (omega (arith, desc.range.0))
            (omega (arith, desc.range.0, desc.range.1, h));
      described = desc;
    }

    old-Serves : (sh' : StubShape) (p : ℕ) → Serves target os sh' p j → Serves target os sh' p grown
    old-Serves sh' p v = record {
      code = v.code;
      pcsp = v.pcsp;
      md = v.md;
      made = v.made;
      paged = ((a, code) ∷ v.paged.0, v.paged.1, ap (λ ps. (a, code) ∷ ps) v.paged.2);
      found = λ k h. find_module-append j.modules (md ∷ []) (p + k) v.md (v.found k h);
      described = v.described;
    }

    grown-cache :
        (sh' : StubShape) (p : ℕ)
        → lookup sh' grown.by_shape ≡ some p
        → Serves target os sh' p grown
    unfolding lookup
    grown-cache sh' p e = elim (Bool-cases (shape_eq sh' sh)) [
      | inl same ↦
          let there : some a ≡ some p = rw (lookup, same) at e in
          let here : p ≡ a = cc in rw (shape_eq_lem sh' sh same, here) new-Serves
      | inr other ↦ old-Serves sh' p (wf.cache sh' p (rw (lookup, other) at e))
    ]

    grown-Extends : Extends target os j grown
    unfolding lookup
    grown-Extends sh' p e = elim (Bool-cases (shape_eq sh' sh)) [
      | inl same ↦
          let hit : lookup sh j.by_shape ≡ some p =
            ap (λ t. lookup t j.by_shape) (sym (shape_eq_lem sh' sh same)) ∙ e in
          absurd (cc)
      | inr other ↦ rw (lookup, other) e
    ]

    grown-IsGood : IsGood target os sh j (some (some a, grown))
    grown-IsGood = (
      record { covered = grown-Covered; cache = grown-cache },
      grown-Extends,
      (new-Serves, lookup-hit sh a j.by_shape),
    )

  compile-IsGood :
      (sh : StubShape) (j : Jit Space)
      → sh.arg_words + sh.ret_words < 2 ^ 28
      → WellFormed target os j
      → lookup sh j.by_shape ≡ none
      → IsGood target os sh j (compile target os sh j (target.stub_code sh))
  compile-IsGood sh j small wf missed = elim (Option-cases (target.stub_code sh)) [
    | inl e ↦ rw e tt
    | inr ((code, pcsp), e) ↦ elim (Option-cases (os.mmap j.space (length code))) [
      | inl f ↦ rw (e, f) (wf, (λ sh' p h. h), tt)
      | inr ((a, s), f) ↦
          let (md, built, desc) =
            build_jit_module-IsDescribed target.quantum target.func_size a (length code) pcsp
              sh.arg_words sh.ret_words sh.arg_ptrs sh.ret_ptrs small in
          rw (e, f, built) (grown-IsGood sh j code pcsp a s md wf e f desc missed)
    ]
  ]

  pub jit_trampoline-IsGood :
      (sh : StubShape) (j : Jit Space)
      → sh.arg_words + sh.ret_words < 2 ^ 28
      → WellFormed target os j
      → IsGood target os sh j (jit_trampoline target os sh j)
  unfolding jit_trampoline
  jit_trampoline-IsGood sh j small wf = elim (Option-cases (lookup sh j.by_shape)) [
    | inl e ↦ rw (jit_trampoline, e) (compile-IsGood sh j small wf e)
    | inr (p, e) ↦ rw (jit_trampoline, e) (wf, (λ sh' p h. h), (wf.cache sh p e, e))
  ]
