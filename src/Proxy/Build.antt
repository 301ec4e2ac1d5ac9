-- ===== src/Proxy/Build.antt =====
-- The construction of a proxy: `NewOf` and `newMethod` of proxy.go, `forgeITab` and `itabFun` of rt.go.
-- A panic is `none`. What reflection tells of the target is the record Object.
pub mod Slots
pub mod Calls
use go_weave.Prelude.{
  ℕ, zero, suc, ◌+◌, ◌≡◌, Bool, true, false, not, Option, none, some, List, [], ◌∷◌, String, ◌==◌,
  if◌then◌else◌, length, map,
}
use go_weave.Abi.Types.{Arch, FuncType, GoType}
use go_weave.Abi.Layout.{AbiLayout, new_abi_layout}
use go_weave.Jit.Cache.{Target, Os, Jit, new_trampoline, nth}

pub record IfaceMethod : Type 0 where
  pub method_name : String
  pub func_type : FuncType

-- An interface type, or a type that is none; its address and the hash of `*Proxy` and their words.
pub record Iface : Type 0 where
  pub is_interface : Bool
  pub iface_methods : List IfaceMethod
  pub inter_word : ℕ
  pub proxy_word : ℕ
  pub hash_word : ℕ

-- A target: `MethodByName`, and its itab's `Fun` with the data word, when its type implements the
-- interface.
pub record Object : Type 0 where
  pub method_by_name : String → Option ℕ
  pub target_itab : Option (List ℕ × ℕ)

-- `Method` of invocation.go. `zeros` are the types of the zero results.
pub record MethodInfo : Type 0 where
  pub name : String
  pub type : FuncType
  pub index : ℕ
  pub layout : AbiLayout
  pub target_fn : Option ℕ
  pub target_fun : Option (Option ℕ × ℕ)
  pub zeros : List GoType
  pub code : ℕ

pub record ProxyInfo : Type 0 where
  pub target : Option Object
  pub methods : List MethodInfo
  pub itab : List ℕ

-- `target.MethodByName(m.Name)` of a valid target.
abbrev pub target_method : Option Object → String → Option ℕ
target_method none name = none
target_method (some o) name = o.method_by_name name

abbrev pub itab_of : Option Object → Option (List ℕ × ℕ)
itab_of none = none
itab_of (some o) = o.target_itab

-- `targetFun` and `targetData`: `itabFun` of slot `i`.
abbrev pub fast_target : Option (List ℕ × ℕ) → Option ℕ → ℕ → Option (Option ℕ × ℕ)
fast_target none fn i = none
fast_target (some t) none i = none
fast_target (some (funs, word)) (some fn) i = some (nth funs i, word)

-- `forgeITab`: the interface, the type and the hash, then the code pointers.
abbrev pub forge_itab : Iface → List ℕ → Option (List ℕ)
forge_itab t funs =
    if length t.iface_methods == length funs
    then some (t.inter_word ∷ t.proxy_word ∷ t.hash_word ∷ funs)
    else none

module _ {Space : Type 0} (target : Target) (os : Os Space) (arch : Arch) (stubs : List ℕ) where
  abbrev pub with_code :
      IfaceMethod
      → ℕ
      → Option Object
      → AbiLayout
      → Option (ℕ × Jit Space)
      → Option (MethodInfo × Jit Space)
  with_code m i o l none = none
  with_code m i o l (some (p, j)) =
      let fn = target_method o m.method_name in
      some (
        record {
          name = m.method_name;
          type = m.func_type;
          index = i;
          layout = l;
          target_fn = fn;
          target_fun = fast_target (itab_of o) fn i;
          zeros = m.func_type.outs;
          code = p;
        },
        j,
      )

  abbrev pub with_layout :
      IfaceMethod
      → ℕ
      → Option Object
      → Jit Space
      → Option AbiLayout
      → Option (MethodInfo × Jit Space)
  with_layout m i o j none = none
  with_layout m i o j (some l) = with_code m i o l (new_trampoline target os arch stubs l i j)

  unfoldable pub new_method :
      IfaceMethod → ℕ → Option Object → Jit Space → Option (MethodInfo × Jit Space)
  new_method m i o j = with_layout m i o j (new_abi_layout arch m.func_type)

  abbrev pub first_method :
      MethodInfo → Option (List MethodInfo × Jit Space) → Option (List MethodInfo × Jit Space)
  first_method d none = none
  first_method d (some (ds, j)) = some (d ∷ ds, j)

  -- The loop of `NewOf`, from method `i` on.
  unfoldable pub new_methods :
      ℕ → List IfaceMethod → Option Object → Jit Space → Option (List MethodInfo × Jit Space)
  new_methods i [] o j = some ([], j)
  new_methods i (m ∷ ms) o j = elim (new_method m i o j) [
    | none ↦ none
    | some (d, j') ↦ first_method d (new_methods (i + 1) ms o j')
  ]

  abbrev pub with_itab :
      Option Object → List MethodInfo → Jit Space → Option (List ℕ) → Option (ProxyInfo × Jit Space)
  with_itab o ds j none = none
  with_itab o ds j (some tab) = some (record { target = o; methods = ds; itab = tab }, j)

  abbrev pub with_methods :
      Iface → Option Object → Option (List MethodInfo × Jit Space) → Option (ProxyInfo × Jit Space)
  with_methods t o none = none
  with_methods t o (some (ds, j)) = with_itab o ds j (forge_itab t (map (λ d. d.code) ds))

  -- `NewOf`.
  unfoldable pub new_of : Iface → Option Object → Jit Space → Option (ProxyInfo × Jit Space)
  new_of t o j =
      if not t.is_interface then none else with_methods t o (new_methods 0 t.iface_methods o j)
