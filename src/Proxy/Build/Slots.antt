-- ===== src/Proxy/Build/Slots.antt =====
-- The slots of a forged itab lead to the right trampolines.
use go_weave.Prelude.{
  ℕ, suc, ◌+◌, ◌<◌, ◌≤◌, ◌≡◌, refl, ap, ◌∙◌, arith, true, Option, none, some, List, [], ◌∷◌, ◌==◌,
  length, map, drop, All, ◌^◌,
}
use go_weave.Abi.Types.{Arch}
use go_weave.Abi.Layout.{new_abi_layout}
use go_weave.Abi.Values.{IsMethod}
use go_weave.Abi.StackArea.{layout_area, Apart, demand}
use go_weave.Jit.Cache.{Target, Os, Jit, slot_count}
use go_weave.Jit.Cache.Serves.{Extends}
use go_weave.Jit.Cache.Startup.{IsTarget, AlwaysMaps, IsReady}
use go_weave.Jit.Cache.Choice.{RightCode, RightCode-later, IsRefused-not, new_trampoline-IsReady}
use go_weave.Proxy.Build.{
  IfaceMethod, Iface, Object, MethodInfo, ProxyInfo, with_code, with_layout, new_method,
  first_method, new_methods, forge_itab, with_itab, with_methods, new_of,
}

Apart-bound : (from to : ℕ) (l : List (ℕ × ℕ)) → Apart from l to → from ≤ to
Apart-bound from to [] h = h
Apart-bound from to ((o, n) ∷ l) h = omega (arith, h.0, Apart-bound (o + n) to l h.1)

-- A method that the proxy can be built for: types as reflection reports them, and a stack area within
-- the window.
pub record IsSupported (arch : Arch) (m : IfaceMethod) : Type 0 where
  pub method : IsMethod arch m.func_type
  pub fits_space : demand m.func_type.ins + demand m.func_type.outs + 64 < 2 ^ 64
  pub fits_window : demand m.func_type.ins + demand m.func_type.outs + 14 ≤ arch.stack_window

module _ {Space : Type 0} (target : Target) (os : Os Space) (ok : IsTarget target)
    (maps : AlwaysMaps os) where
  module _ (arch : Arch) (window : arch.stack_window ≤ 512) (ps : List ℕ) where
    abbrev Ready : Jit Space → Type 0
    Ready j = IsReady target os arch ps j

    -- Descriptor `d` is the one of method `m` in slot `i`.
    pub record IsSlot (i : ℕ) (m : IfaceMethod) (d : MethodInfo) (j : Jit Space) : Type 0 where
      pub slot_index : d.index ≡ i
      pub laid_out : new_abi_layout arch m.func_type ≡ some d.layout
      pub right_code : RightCode target os arch d.layout i d.code j

    abbrev pub AreSlots : ℕ → List IfaceMethod → List MethodInfo → Jit Space → Type 0
    AreSlots i [] [] j = Unit
    AreSlots i [] (d ∷ ds) j = ⊥
    AreSlots i (m ∷ ms) [] j = ⊥
    AreSlots i (m ∷ ms) (d ∷ ds) j = IsSlot i m d j × AreSlots (i + 1) ms ds j

    pub new_method-IsSlot :
        (m : IfaceMethod) (i : ℕ) (o : Option Object) (j : Jit Space)
        → IsSupported arch m
        → i < slot_count
        → Ready j
        → (d : MethodInfo) × (j' : Jit Space) × (new_method target os arch ps m i o j
            ≡ some (d, j'))
          × IsSlot i m d j'
          × Ready j'
          × Extends target os j j'
    unfolding new_method
    new_method-IsSlot m i o j good low ready =
        let (l, laid, area) = layout_area arch m.func_type good.method good.fits_space in
        let inside = Apart-bound l.ret_offset l.stack_bytes _ area.results_apart in
        let (p, j', made, right, ready', more) =
          new_trampoline-IsReady target os arch window ps l i j ready low inside (
            IsRefused-not target os arch window l i j ok maps low inside
              (omega (arith, area.bounded, good.fits_window))) in
        (
          _,
          j',
          ap (λ q. with_layout target os arch ps m i o j q) laid
              ∙ ap (λ q. with_code target os arch ps m i o l q) made,
          record { slot_index = refl; laid_out = laid; right_code = right },
          ready',
          more,
        )

    IsSlot-later :
        (i : ℕ) (m : IfaceMethod) (d : MethodInfo) (j j' : Jit Space)
        → Ready j'
        → Extends target os j j'
        → IsSlot i m d j
        → IsSlot i m d j'
    IsSlot-later i m d j j' ready more s = record {
      slot_index = s.slot_index;
      laid_out = s.laid_out;
      right_code =
          RightCode-later target os arch d.layout i d.code j j' ready.in_order more s.right_code;
    }

    new_methods-AreSlots :
        (i : ℕ) (ms : List IfaceMethod) (o : Option Object) (j : Jit Space)
        → All (IsSupported arch) ms
        → i + length ms ≤ slot_count
        → Ready j
        → (ds : List MethodInfo) × (j' : Jit Space) × (new_methods target os arch ps i ms o j
            ≡ some (ds, j'))
          × AreSlots i ms ds j'
          × (length ds ≡ length ms)
          × Ready j'
          × Extends target os j j'
    unfolding new_methods
    new_methods-AreSlots i [] o j good fits ready = ([], j, refl, tt, refl, ready, (λ sh p h. h))
    new_methods-AreSlots i (m ∷ ms) o j good fits ready =
        let (d, j1, e, slot, ready1, more1) =
          new_method-IsSlot m i o j good.0 (omega (arith, fits)) ready in
        let (ds, j2, f, slots, count, ready2, more2) =
          new_methods-AreSlots (i + 1) ms o j1 good.1 (omega (arith, fits)) ready1 in
        let made : new_methods target os arch ps i (m ∷ ms) o j ≡ some (d ∷ ds, j2) =
          ap
            (λ q. elim q as (λ x. Option (List MethodInfo × Jit Space)) [
              | none ↦ none
              | some r ↦
                  first_method target os arch ps r.0
                    (new_methods target os arch ps (i + 1) ms o r.1)
            ])
            e
          ∙ ap (λ q. first_method target os arch ps d q) f in
        (
          d ∷ ds,
          j2,
          made,
          (IsSlot-later i m d j1 j2 ready2 more2 slot, slots),
          omega (arith, count),
          ready2,
          (λ sh p h. more2 sh p (more1 sh p h)),
        )

    codes_length : (ds : List MethodInfo) → length (map (λ d. d.code) ds) ≡ length ds
    codes_length [] = refl
    codes_length (d ∷ ds) = ap suc (codes_length ds)

    -- `NewOf` succeeds for an interface with at most as many methods as there are slots, whose types
    -- are as reflection reports them and fit the stack window. Behind the three leading words of the
    -- itab stand the code pointers of the methods in slot order; each method has its slot's index and
    -- the layout of its type, and its code pointer is the right one for that layout and index. It
    -- takes the state behind `init`, an assembler that makes code for such shapes and a system that
    -- maps every page; the state stays good for the next proxy.
    pub new_of-AreSlots :
        (t : Iface) (o : Option Object) (j : Jit Space)
        → t.is_interface ≡ true
        → All (IsSupported arch) t.iface_methods
        → length t.iface_methods ≤ slot_count
        → IsReady target os arch ps j
        → (x : ProxyInfo) × (j' : Jit Space) × (new_of target os arch ps t o j ≡ some (x, j'))
          × AreSlots 0 t.iface_methods x.methods j'
          × (drop 3 x.itab ≡ map (λ d. d.code) x.methods)
          × IsReady target os arch ps j'
          × Extends target os j j'
    unfolding new_of
    new_of-AreSlots t o j is good few ready =
        let (ds, j', e, slots, count, ready', more) =
          new_methods-AreSlots 0 t.iface_methods o j good (omega (arith, few)) ready in
        let codes = map (λ d. d.code) ds in
        let same : (length t.iface_methods == length codes) ≡ true =
          ground (arith, count, codes_length ds) in
        let tab : forge_itab t codes ≡ some (t.inter_word ∷ t.proxy_word ∷ t.hash_word ∷ codes) =
          rw same refl in
        let x : ProxyInfo = record {
          target = o;
          methods = ds;
          itab = t.inter_word ∷ t.proxy_word ∷ t.hash_word ∷ codes;
        } in
        let made : new_of target os arch ps t o j ≡ some (x, j') =
          rw (new_of, is)
            (ap (λ q. with_methods target os arch ps t o q) e
              ∙ ap (λ q. with_itab target os arch ps o ds j' q) tab) in
        (x, j', made, slots, refl, ready', more)
