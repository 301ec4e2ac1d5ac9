-- ===== src/Proxy/Fuel.antt =====
-- The chain of interceptors, `Proceed` of invocation.go: no fuel beyond the links that are left matters.
use go_weave.Prelude.{
  ℕ, zero, suc, ◌+◌, ◌≤◌, ◌≡◌, refl, ap, ◌∙◌, arith, Bool, ◌&&◌, Option, none, some, List, [], ◌∷◌,
  ◌==◌, get_elem?, length, Bool-cases, inl, inr,
}
use go_weave.Proxy.Invocation.{
  RegBuf, Interceptor, finish, args, set_arg, proceed, Invocation, args_by, args_of, write_arg,
  take_snapshot, fast_call, is_unread, reflect_call, call_bound, call_by, call_target, run, start,
  proceed_by, proceed_on,
}

past_end {ℓ} : {B : Type ℓ} (l : List B) (i : ℕ) → length l ≤ i → get_elem? l i ≡ none
past_end [] i le = refl
past_end (x ∷ l) zero le = absurd (omega arith)
past_end (x ∷ l) (suc i) le = past_end l i (omega arith)

Grows-trans :
    {B : Type 0} {a b c : List B} {i j k : ℕ}
    → (b ≡ a) × (i ≤ j)
    → (c ≡ b) × (j ≤ k)
    → (c ≡ a) × (i ≤ k)
Grows-trans h k = (k.0 ∙ h.0, omega (arith, h.1, k.1))

module _ {V : Type 0} where
  -- The chain stays and its cursor does not go back.
  abbrev pub Grows : Invocation V → Invocation V → Type 0
  Grows c c' = (c'.chain ≡ c.chain) × (c.next ≤ c'.next)

  fast_call-Grows : (f : RegBuf → RegBuf) (c : Invocation V) → Grows c (fast_call f c)
  unfolding fast_call take_snapshot
  fast_call-Grows f c = elim (Bool-cases c.has_snap) [
    | inl e ↦ rw e (refl, omega arith)
    | inr e ↦ rw e (refl, omega arith)
  ]

module _ {V : Type 0} (materialize : RegBuf → List V) where
  args_by-Grows : (o : Option (List V)) (c : Invocation V) → Grows c (args_by materialize o c).0
  args_by-Grows none c = (refl, omega arith)
  args_by-Grows (some vs) c = (refl, omega arith)

  args_of-Grows : (c : Invocation V) → Grows c (args_of materialize c).0
  unfolding args_of
  args_of-Grows c = args_by-Grows c.args c

  write_arg-Grows : (i : ℕ) (v : V) (c : Invocation V) → Grows c (write_arg materialize i v c)
  unfolding write_arg
  write_arg-Grows i v c = args_of-Grows c

  reflect_call-Grows :
      (fn : Option (Bool → List V → List V)) (c : Invocation V)
      → Grows c (reflect_call materialize fn c).0
  reflect_call-Grows none c = (refl, omega arith)
  reflect_call-Grows (some fn) c = args_of-Grows c

  call_bound-Grows :
      (fn : Option (Bool → List V → List V)) (c : Invocation V)
      → Grows c (call_bound materialize fn c).0
  call_bound-Grows none c = (refl, omega arith)
  call_bound-Grows (some fn) c = args_of-Grows c

  call_by-Grows :
      (f : Option (RegBuf → RegBuf)) (c : Invocation V) → Grows c (call_by materialize f c).0
  call_by-Grows none c = call_bound-Grows c.method.target_fn c
  call_by-Grows (some f) c = elim (Bool-cases (is_unread c.args && c.method.stack_bytes == 0)) [
    | inl e ↦ rw e (fast_call-Grows f c)
    | inr e ↦ rw e (reflect_call-Grows c.method.target_fn c)
  ]

  call_target-Grows : (c : Invocation V) → Grows c (call_target materialize c).0
  unfolding call_target
  call_target-Grows c = call_by-Grows c.method.target_fun c

  run-Grows :
      (step : Invocation V → Invocation V × Option (List V))
      → ((c : Invocation V) → Grows c (step c).0)
      → (p : Interceptor V) (c : Invocation V) → Grows c (run materialize step p c).0
  unfolding run
  run-Grows step grows (finish out) c = (refl, omega arith)
  run-Grows step grows (args k) c =
      Grows-trans (args_of-Grows c)
        (run-Grows step grows (k (args_of materialize c).1) (args_of materialize c).0)
  run-Grows step grows (set_arg i v k) c =
      Grows-trans (write_arg-Grows i v c) (run-Grows step grows k (write_arg materialize i v c))
  run-Grows step grows (proceed k) c =
      Grows-trans (grows c) (run-Grows step grows (k (step c).1) (step c).0)

  proceed_by-Grows :
      (step : Invocation V → Invocation V × Option (List V))
      → ((c : Invocation V) → Grows c (step c).0)
      → (o : Option (Interceptor V)) (c : Invocation V)
      → Grows c (proceed_by materialize step o c).0
  proceed_by-Grows step grows none c = call_target-Grows c
  proceed_by-Grows step grows (some p) c =
      Grows-trans (refl, omega arith) (run-Grows step grows p (start c))

  proceed_on-Grows : (n : ℕ) (c : Invocation V) → Grows c (proceed_on materialize n c).0
  unfolding proceed_on
  proceed_on-Grows zero c = call_target-Grows c
  proceed_on-Grows (suc n) c =
      proceed_by-Grows (proceed_on materialize n) (proceed_on-Grows n) (get_elem? c.chain c.next) c

  -- Two ways to go on that agree from `first` on run an interceptor alike.
  run-agree :
      (f g : Invocation V → Invocation V × Option (List V)) (first : Invocation V)
      → ((c : Invocation V) → Grows first c → f c ≡ g c)
      → ((c : Invocation V) → Grows c (g c).0)
      → (p : Interceptor V) (c : Invocation V) → Grows first c
      → run materialize f p c ≡ run materialize g p c
  unfolding run
  run-agree f g first agree grows (finish out) c h = refl
  run-agree f g first agree grows (args k) c h =
      run-agree f g first agree grows (k (args_of materialize c).1) (args_of materialize c).0
        (Grows-trans h (args_of-Grows c))
  run-agree f g first agree grows (set_arg i v k) c h =
      run-agree f g first agree grows k (write_arg materialize i v c)
        (Grows-trans h (write_arg-Grows i v c))
  run-agree f g first agree grows (proceed k) c h =
      ap (λ res. run materialize f (k res.1) res.0) (agree c h)
      ∙ run-agree f g first agree grows (k (g c).1) (g c).0 (Grows-trans h (grows c))

  same_link :
      (f g : Invocation V → Invocation V × Option (List V)) (c : Invocation V)
      → ((c' : Invocation V) → Grows (start c) c' → f c' ≡ g c')
      → ((c' : Invocation V) → Grows c' (g c').0)
      → (o : Option (Interceptor V)) → proceed_by materialize f o c ≡ proceed_by materialize g o c
  same_link f g c agree grows none = refl
  same_link f g c agree grows (some p) =
      run-agree f g (start c) agree grows p (start c) (refl, omega arith)

  -- With fuel for the interceptors that are left, more fuel changes nothing: `Proceed` never runs out.
  pub proceed_on-fuel :
      (n n' : ℕ) (c : Invocation V)
      → length c.chain ≤ c.next + n
      → n ≤ n'
      → proceed_on materialize n' c ≡ proceed_on materialize n c
  unfolding proceed_on
  proceed_on-fuel zero zero c enough le = refl
  proceed_on-fuel zero (suc n') c enough le =
      ap (λ o. proceed_by materialize (proceed_on materialize n') o c)
        (past_end c.chain c.next (omega arith))
  proceed_on-fuel (suc n) zero c enough le = absurd (omega arith)
  proceed_on-fuel (suc n) (suc n') c enough le =
      same_link (proceed_on materialize n') (proceed_on materialize n) c
        (λ c' h. proceed_on-fuel n n' c' (omega (arith, ap length h.0, h.1)) (omega arith))
        (proceed_on-Grows n) (get_elem? c.chain c.next)
