-- ===== src/Jit/Cache.antt =====
-- The trampolines of jit.go, jit_other.go, tramp.go and dispatch_amd64.go: the cache by shape, the
-- modules that the runtime knows, the stubs that are made at startup and the choice for a method.
-- A panic is `none`, a nil code pointer `some none`.
pub mod Serves
pub mod Preserved
pub mod Startup
pub mod Choice
pub mod Targets
use go_weave.Prelude.{
  ℕ, zero, suc, ◌+◌, ◌/◌, ◌<◌, ◌≡◌, Bool, true, false, not, ◌&&◌, Option, none, some, List, [], ◌∷◌,
  ◌++◌, ltb, leb, ◌==◌, if◌then◌else◌, length,
}
use go_weave.Abi.Types.{Arch, ptr_size}
use go_weave.Abi.Layout.{AbiLayout, StubShape, shape, stack_pointers}
use go_weave.Jit.Module.{ModuleData, build_jit_module}

-- What a processor's jitcode_*.go gives: `pcQuantum` and `jitStubCode` for the address of `Dispatch`,
-- with the size of `rfunc`.
pub record Target : Type 0 where
  pub quantum : ℕ
  pub func_size : ℕ
  pub stub_code : StubShape → Option (List ℕ × List ℕ)

-- The operating system: `syscall.Mmap` of so many bytes, and which addresses are mapped.
pub record Os (Space : Type 0) : Type 1 where
  pub mmap : Space → ℕ → Option (ℕ × Space)
  pub IsUsed : Space → ℕ → Type 0
  pub mmap_fresh :
      (s s' : Space) (n a : ℕ) → mmap s n ≡ some (a, s') → (k : ℕ) → k < n → ¬ IsUsed s (a + k)
  pub mmap_used :
      (s s' : Space) (n a : ℕ) → mmap s n ≡ some (a, s') → (k : ℕ) → k < n → IsUsed s' (a + k)
  pub mmap_keeps :
      (s s' : Space) (n a : ℕ) → mmap s n ≡ some (a, s') → (x : ℕ) → IsUsed s x → IsUsed s' x

abbrev pub shape_eq : StubShape → StubShape → Bool
shape_eq a b =
    a.index == b.index
    && a.arg_words == b.arg_words
    && a.ret_words == b.ret_words
    && a.arg_ptrs == b.arg_ptrs
    && a.ret_ptrs == b.ret_ptrs

-- `jitBySh`, the list of modules from the first to `lastmoduledatap`, and the pages that `jitRoots`
-- keeps, with the code in them.
pub record Jit (Space : Type 0) : Type 0 where
  pub space : Space
  pub by_shape : List (StubShape × ℕ)
  pub modules : List ModuleData
  pub pages : List (ℕ × List ℕ)

unfoldable pub lookup : StubShape → List (StubShape × ℕ) → Option ℕ
lookup sh [] = none
lookup sh ((sh', p) ∷ es) = if shape_eq sh sh' then some p else lookup sh es

abbrev pub slot_count : ℕ
slot_count = 128

abbrev pub nth : List ℕ → ℕ → Option ℕ
nth [] i = none
nth (p ∷ ps) zero = some p
nth (p ∷ ps) (suc i) = nth ps i

-- `slotCode`.
abbrev pub slot_code : List ℕ → ℕ → Option ℕ
slot_code stubs i = if leb slot_count i then none else nth stubs i

module _ {Space : Type 0} (target : Target) (os : Os Space) where
  -- `jitExecAlloc`: the page holds the code.
  abbrev pub page_for : List ℕ → Jit Space → Option (ℕ × Space) → Option (ℕ × Jit Space)
  page_for code j none = none
  page_for code j (some (a, s)) = some (a, record j { space = s; pages = (a, code) ∷ j.pages })

  abbrev pub exec_alloc : List ℕ → Jit Space → Option (ℕ × Jit Space)
  exec_alloc code j = page_for code j (os.mmap j.space (length code))

  -- `registerModule`.
  abbrev pub register_module : ModuleData → Jit Space → Jit Space
  register_module md j = record j { modules = j.modules ++ (md ∷ []) }

  abbrev pub remember : StubShape → ℕ → Jit Space → Jit Space
  remember sh p j = record j { by_shape = (sh, p) ∷ j.by_shape }

  abbrev pub add_module :
      StubShape → ℕ → Option ModuleData → Jit Space → Option (Option ℕ × Jit Space)
  add_module sh a none j = none
  add_module sh a (some md) j = some (some a, remember sh a (register_module md j))

  abbrev pub place_code :
      StubShape
      → List ℕ
      → List ℕ
      → Jit Space
      → Option (ℕ × Jit Space)
      → Option (Option ℕ × Jit Space)
  place_code sh code pcsp j none = some (none, j)
  place_code sh code pcsp j (some (a, j')) =
      add_module sh a
        (build_jit_module target.quantum target.func_size a (length code) pcsp sh.arg_words
          sh.ret_words sh.arg_ptrs sh.ret_ptrs)
        j'

  abbrev pub compile :
      StubShape → Jit Space → Option (List ℕ × List ℕ) → Option (Option ℕ × Jit Space)
  compile sh j none = none
  compile sh j (some (code, pcsp)) = place_code sh code pcsp j (exec_alloc code j)

  abbrev pub cached : StubShape → Jit Space → Option ℕ → Option (Option ℕ × Jit Space)
  cached sh j (some p) = some (some p, j)
  cached sh j none = compile sh j (target.stub_code sh)

  unfoldable pub jit_trampoline : StubShape → Jit Space → Option (Option ℕ × Jit Space)
  jit_trampoline sh j = cached sh j (lookup sh j.by_shape)

  -- The shape of the generic stub of method `i`, with no pointers in its stack area.
  abbrev pub generic_shape : Arch → ℕ → StubShape
  generic_shape arch i = record {
    index = i;
    arg_words = arch.stack_window / ptr_size;
    ret_words = 0;
    arg_ptrs = 0;
    ret_ptrs = 0;
  }

  -- The loop of `init`, from slot `i` with `n` left; the stubs in order. A nil pointer panics.
  abbrev pub stub_made : Option (Option ℕ × Jit Space) → Option (ℕ × Jit Space)
  stub_made none = none
  stub_made (some (none, j)) = none
  stub_made (some (some p, j)) = some (p, j)

  abbrev pub first_stub : ℕ → Option (List ℕ × Jit Space) → Option (List ℕ × Jit Space)
  first_stub p none = none
  first_stub p (some (ps, j)) = some (p ∷ ps, j)

  unfoldable pub make_stubs : Arch → ℕ → ℕ → Jit Space → Option (List ℕ × Jit Space)
  make_stubs arch i zero j = some ([], j)
  make_stubs arch i (suc n) j = elim (stub_made (jit_trampoline (generic_shape arch i) j)) [
    | none ↦ none
    | some (p, j') ↦ first_stub p (make_stubs arch (i + 1) n j')
  ]

  -- `newTrampoline`, from what `shape` gives.
  abbrev pub precise : Option StubShape → Jit Space → Option (ℕ × Jit Space)
  precise none j = none
  precise (some sh) j = stub_made (jit_trampoline sh j)

  abbrev pub keep_state : Jit Space → Option ℕ → Option (ℕ × Jit Space)
  keep_state j none = none
  keep_state j (some p) = some (p, j)

  -- `newTrampoline` of the method with index `i`; `stubs` is `jitStubs`.
  unfoldable pub new_trampoline : Arch → List ℕ → AbiLayout → ℕ → Jit Space → Option (ℕ × Jit Space)
  new_trampoline arch stubs l i j =
      if ltb arch.stack_window l.stack_bytes
      then none
      else if not (stack_pointers l)
      then keep_state j (slot_code stubs i)
      else precise (shape l i) j
