-- ===== src/Chaos/Switch.antt =====
-- The kill switch, `Disable` of chaos/chaos.go: it takes effect on the next call.
use go_weave.Prelude.{
  ℕ, zero, suc, ◌<◌, ◌≤◌, ◌≡◌, refl, ap, ◌∙◌, arith, none, some, List, [], ◌∷◌, String, get_elem?,
  length, map, inl, inr,
}
use go_weave.Chaos.Plan.{match, build_plan, empty_plan, get}
use go_weave.Chaos.Intercept.{
  Method, Bound, Binding, Binder, Injector, untouched, bind_method, fresh_binding, resolve, rebuild,
  disable, intercept, owned_by,
}
use go_weave.Chaos.Calls.{kept_or_fresh, bound_rule, intercept-found, outs_at, after}

module _ {E V : Type 0} where
  -- What a binder keeps comes from a plan that the injector has published.
  abbrev pub IsPast : Injector E V → Binder E V → Type 0
  IsPast j b = (bd : Binding E V) → b.cur ≡ some bd → bd.generation ≤ j.generation

  resolve-disable :
      (j : Injector E V) (b : Binder E V)
      → IsPast j b
      → resolve (disable j) b ≡ fresh_binding (disable j) b
  unfolding disable rebuild
  resolve-disable j b past = elim (kept_or_fresh (disable j) b) [
    | inl (bd, cur, g, e) ↦ let old = past bd cur in absurd (omega arith)
    | inr e ↦ e
  ]

  unmatched : (iface method : String) → match {E = E} {V = V} empty_plan iface method ≡ none
  unfolding match get
  unmatched iface method = refl

  -- The entry of a method in a table that is resolved against the plan without rules.
  idle_entry :
      (iface : String) (ms : List Method) (i : ℕ)
      → i < length ms
      → (e : Bound E V) × (get_elem? (map (bind_method empty_plan iface) ms) i ≡ some e)
        × (e.rule ≡ none)
  idle_entry iface [] i lt = absurd (omega arith)
  idle_entry iface (m ∷ ms) zero lt =
      (bind_method empty_plan iface m, refl, bound_rule empty_plan iface m ∙ unmatched iface m.name)
  idle_entry iface (m ∷ ms) (suc i) lt = idle_entry iface ms i (omega arith)

  idle_at :
      (j : Injector E V) (b : Binder E V) (i : ℕ)
      → i < length b.methods
      → (e : Bound E V) × (get_elem? (fresh_binding (disable j) b).table i ≡ some e)
        × (e.rule ≡ none)
  unfolding disable rebuild build_plan
  idle_at j b i lt = idle_entry b.iface_name b.methods i lt

  -- After `disable`, the next call of each method goes on to the target: no fault, no wait, and no
  -- budget changes. The binder may keep the table of any plan published before.
  pub intercept-disable :
      (j : Injector E V) (b : Binder E V) (i now : ℕ)
      → IsPast j b
      → i < length b.methods
      → ((intercept i now (disable j) b).2 ≡ untouched)
        × ((intercept i now (disable j) b).0 ≡ disable j)
  unfolding disable rebuild
  intercept-disable j b i now past lt =
      let (e, at, idle) = idle_at j b i lt in
      let found =
        intercept-found (disable j) b i now e
          (ap (λ bd. get_elem? bd.table i) (resolve-disable j b past) ∙ at) in
      let stays = ap (λ o. owned_by o e (outs_at b i) now (disable j).budgets) idle in
      let after_idle = found ∙ ap (after (disable j) b i) stays in
      (ap (λ res. res.2) after_idle, ap (λ res. res.0) after_idle)
