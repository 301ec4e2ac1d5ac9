-- ===== src/Jit/Cache/Serves.antt =====
-- What the trampoline cache keeps: every cached code pointer leads to the code of its shape, and the
-- runtime finds the module data of that shape at every address of the code.
use go_weave.Prelude.{
  ℕ, ◌+◌, ◌<◌, ◌≤◌, ◌≡◌, arith, ◌&&◌, Option, none, some, List, [], ◌∷◌, ◌++◌, ltb, leb,
  if◌then◌else◌, Bool-cases, inl, inr, length, All,
}
use go_weave.Abi.Layout.{StubShape}
use go_weave.Jit.Module.{ModuleData}
use go_weave.Jit.Module.Reading.{IsDescribed}
use go_weave.Jit.Cache.{Target, Os, Jit, lookup}

-- `findmoduledatap` of the runtime: the first module whose range has the address.
unfoldable pub find_module : List ModuleData → ℕ → Option ModuleData
find_module [] pc = none
find_module (md ∷ mds) pc =
    if leb md.text pc && ltb pc md.etext then some md else find_module mds pc

pub find_module-append :
    (ms ns : List ModuleData) (pc : ℕ) (md : ModuleData)
    → find_module ms pc ≡ some md
    → find_module (ms ++ ns) pc ≡ some md
unfolding find_module
find_module-append [] ns pc md e = absurd (cc)
find_module-append (m ∷ ms) ns pc md e = elim (Bool-cases (leb m.text pc && ltb pc m.etext)) [
  | inl h ↦ rw (find_module, h) (rw (find_module, h) at e)
  | inr h ↦ rw (find_module, h) (find_module-append ms ns pc md (rw (find_module, h) at e))
]

module _ {Space : Type 0} (target : Target) (os : Os Space) where
  -- The addresses of the module's code are mapped.
  abbrev pub Covered : Space → ModuleData → Type 0
  Covered s md = (x : ℕ) → md.text ≤ x → x < md.etext → os.IsUsed s x

  pub find_module-fresh :
      (s : Space) (ms : List ModuleData) (md : ModuleData) (pc : ℕ)
      → All (Covered s) ms
      → ¬ os.IsUsed s pc
      → md.text ≤ pc
      → pc < md.etext
      → find_module (ms ++ (md ∷ [])) pc ≡ some md
  unfolding find_module
  find_module-fresh s [] md pc h free low high = ground arith
  find_module-fresh s (m ∷ ms) md pc h free low high =
      elim (Bool-cases (leb m.text pc && ltb pc m.etext)) [
        | inl e ↦ absurd (free (h.0 pc (ground arith) (ground arith)))
        | inr e ↦ rw (find_module, e) (find_module-fresh s ms md pc h.1 free low high)
      ]

  -- The code pointer `p` serves the shape: the page at `p` holds the code of the shape, and at every
  -- address of it the runtime finds module data that describes the shape.
  pub record Serves (sh : StubShape) (p : ℕ) (j : Jit Space) : Type 0 where
    pub code : List ℕ
    pub pcsp : List ℕ
    pub md : ModuleData
    pub made : target.stub_code sh ≡ some (code, pcsp)
    pub paged :
        (xs : List (ℕ × List ℕ)) × (ys : List (ℕ × List ℕ)) × (j.pages ≡ xs ++ ((p, code) ∷ ys))
    pub found : (k : ℕ) → k < length code → find_module j.modules (p + k) ≡ some md
    pub described :
        IsDescribed p (length code) pcsp sh.arg_words sh.ret_words sh.arg_ptrs sh.ret_ptrs md

  pub record WellFormed (j : Jit Space) : Type 0 where
    pub covered : All (Covered j.space) j.modules
    pub cache : (sh : StubShape) (p : ℕ) → lookup sh j.by_shape ≡ some p → Serves sh p j

  -- Whatever the cache knows, it still knows.
  abbrev pub Extends : Jit Space → Jit Space → Type 0
  Extends j j' =
      (sh : StubShape) (p : ℕ) → lookup sh j.by_shape ≡ some p → lookup sh j'.by_shape ≡ some p

  abbrev pub Answer : StubShape → Option ℕ → Jit Space → Type 0
  Answer sh none j = Unit
  Answer sh (some p) j = Serves sh p j × (lookup sh j.by_shape ≡ some p)

  abbrev pub IsGood : StubShape → Jit Space → Option (Option ℕ × Jit Space) → Type 0
  IsGood sh j none = Unit
  IsGood sh j (some (r, j')) = WellFormed j' × Extends j j' × Answer sh r j'

  pub Covered-weaken :
      (s s' : Space) (ms : List ModuleData)
      → ((x : ℕ) → os.IsUsed s x → os.IsUsed s' x)
      → All (Covered s) ms
      → All (Covered s') ms
  Covered-weaken s s' [] keep h = tt
  Covered-weaken s s' (m ∷ ms) keep h =
      ((λ x a b. keep x (h.0 x a b)), Covered-weaken s s' ms keep h.1)
