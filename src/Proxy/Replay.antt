-- ===== src/Proxy/Replay.antt =====
-- The snapshot of the argument registers, invocation.go: what the target's code is entered with when
-- interceptors call `Proceed` any number of times.
use go_weave.Prelude.{
  ℕ, zero, suc, ◌≡◌, refl, sym, ap, ◌∙◌, Bool, true, false, ◌&&◌, Option, none, some, List, [],
  ◌==◌, if◌then◌else◌, get_elem?, length, set, All, All-append, Bool-cases, inl, inr,
}
use mathlib.Core.Path.{ap₂, subst}
use go_weave.Proxy.Invocation.{
  RegBuf, Method, Interceptor, finish, args, set_arg, proceed, Invocation, arg_regs, args_of,
  write_arg, take_snapshot, rebind, fast_call, is_unread, reflect_call, call_target, args_by,
  call_bound, call_by, proceed_by, proceed_call, run, start, proceed_on,
}

module _ {V : Type 0} (m : Method V) (original : RegBuf) where
  -- The registers that the call arrived with, the receiver bound to the target's.
  abbrev pub IsReplay : RegBuf → Type 0
  IsReplay r = (r.ints ≡ set original.ints 0 m.target_data) × (r.floats ≡ original.floats)

  -- The arguments can still be read, and each entry of the target so far had them.
  pub record Replays (c : Invocation V) : Type 0 where
    pub method : c.method ≡ m
    pub readable : arg_regs c ≡ original
    pub entered : All IsReplay c.seen

  first_call :
      (f : RegBuf → RegBuf) (c : Invocation V)
      → c.has_snap ≡ false
      → Replays c
      → Replays (fast_call f c)
  unfolding fast_call take_snapshot rebind arg_regs
  first_call f c e h =
      let readable : c.regs ≡ original =
        sym (ap (λ b. if b then c.snap else c.regs) e) ∙ h.readable in
      rw e (record {
        method = h.method;
        readable = readable;
        entered = All-append IsReplay c.seen _ h.entered (
          (
            ap₂ (λ m r. set (RegBuf.ints r) 0 (Method.target_data m)) h.method readable,
            ap (λ r. r.floats) readable,
          ),
          tt,
        );
      })

  next_call :
      (f : RegBuf → RegBuf) (c : Invocation V)
      → c.has_snap ≡ true
      → Replays c
      → Replays (fast_call f c)
  unfolding fast_call take_snapshot rebind arg_regs
  next_call f c e h =
      let readable : c.snap ≡ original =
        sym (ap (λ b. if b then c.snap else c.regs) e) ∙ h.readable in
      rw e (record {
        method = h.method;
        readable = readable;
        entered = All-append IsReplay c.seen _ h.entered (
          (
            ap₂ (λ m r. set (RegBuf.ints r) 0 (Method.target_data m)) h.method readable,
            ap (λ r. r.floats) readable,
          ),
          tt,
        );
      })

  fast_call-Replays : (f : RegBuf → RegBuf) (c : Invocation V) → Replays c → Replays (fast_call f c)
  fast_call-Replays f c h = elim (Bool-cases c.has_snap) [
    | inl e ↦ next_call f c e h
    | inr e ↦ first_call f c e h
  ]

module _ {V : Type 0} (materialize : RegBuf → List V) (m : Method V) (original : RegBuf) where
  args_by-Replays :
      (o : Option (List V)) (c : Invocation V)
      → Replays m original c
      → Replays m original (args_by materialize o c).0
  unfolding arg_regs
  args_by-Replays none c h = record {
    method = h.method;
    readable = h.readable;
    entered = h.entered;
  }
  args_by-Replays (some vs) c h = h

  args_of-Replays :
      (c : Invocation V) → Replays m original c → Replays m original (args_of materialize c).0
  unfolding args_of
  args_of-Replays c h = args_by-Replays c.args c h

  write_arg-Replays :
      (i : ℕ) (v : V) (c : Invocation V)
      → Replays m original c
      → Replays m original (write_arg materialize i v c)
  unfolding write_arg arg_regs
  write_arg-Replays i v c h =
      let k = args_of-Replays c h in
      record { method = k.method; readable = k.readable; entered = k.entered }

  reflect_call-Replays :
      (fn : Option (Bool → List V → List V)) (c : Invocation V)
      → Replays m original c
      → Replays m original (reflect_call materialize fn c).0
  reflect_call-Replays none c h = h
  reflect_call-Replays (some fn) c h = args_of-Replays c h

  call_bound-Replays :
      (fn : Option (Bool → List V → List V)) (c : Invocation V)
      → Replays m original c
      → Replays m original (call_bound materialize fn c).0
  call_bound-Replays none c h = h
  call_bound-Replays (some fn) c h = args_of-Replays c h

  call_by-Replays :
      (f : Option (RegBuf → RegBuf)) (c : Invocation V)
      → Replays m original c
      → Replays m original (call_by materialize f c).0
  call_by-Replays none c h = call_bound-Replays c.method.target_fn c h
  call_by-Replays (some f) c h = elim (Bool-cases (is_unread c.args && c.method.stack_bytes == 0)) [
    | inl e ↦ rw e (fast_call-Replays m original f c h)
    | inr e ↦ rw e (reflect_call-Replays c.method.target_fn c h)
  ]

  call_target-Replays :
      (c : Invocation V) → Replays m original c → Replays m original (call_target materialize c).0
  unfolding call_target
  call_target-Replays c h = call_by-Replays c.method.target_fun c h

  run-Replays :
      (step : Invocation V → Invocation V × Option (List V))
      → ((c : Invocation V) → Replays m original c → Replays m original (step c).0)
      → (p : Interceptor V) (c : Invocation V) → Replays m original c
      → Replays m original (run materialize step p c).0
  unfolding run
  run-Replays step keeps (finish out) c h = h
  run-Replays step keeps (args k) c h =
      run-Replays step keeps (k (args_of materialize c).1) (args_of materialize c).0
        (args_of-Replays c h)
  run-Replays step keeps (set_arg i v k) c h =
      run-Replays step keeps k (write_arg materialize i v c) (write_arg-Replays i v c h)
  run-Replays step keeps (proceed k) c h =
      run-Replays step keeps (k (step c).1) (step c).0 (keeps c h)

  start-Replays : (c : Invocation V) → Replays m original c → Replays m original (start c)
  unfolding arg_regs
  start-Replays c h = record { method = h.method; readable = h.readable; entered = h.entered }

  proceed_by-Replays :
      (step : Invocation V → Invocation V × Option (List V))
      → ((c : Invocation V) → Replays m original c → Replays m original (step c).0)
      → (o : Option (Interceptor V)) (c : Invocation V) → Replays m original c
      → Replays m original (proceed_by materialize step o c).0
  proceed_by-Replays step keeps none c h = call_target-Replays c h
  proceed_by-Replays step keeps (some p) c h =
      run-Replays step keeps p (start c) (start-Replays c h)

  proceed_on-Replays :
      (n : ℕ) (c : Invocation V)
      → Replays m original c
      → Replays m original (proceed_on materialize n c).0
  unfolding proceed_on
  proceed_on-Replays zero c h = call_target-Replays c h
  proceed_on-Replays (suc n) c h =
      proceed_by-Replays (proceed_on materialize n) (proceed_on-Replays n)
        (get_elem? c.chain c.next) c h

-- Whatever the interceptors of a new call do, and however often they call `Proceed`, each time the
-- target's own code is entered by the fast path its integer and floating point registers are those that
-- the call arrived with, with the target's receiver in the first one; and afterwards the argument
-- registers can still be read as they arrived, although results have been written over the live ones.
pub proceed_call-Replays :
    {V : Type 0} (materialize : RegBuf → List V) (c : Invocation V)
    → c.has_snap ≡ false
    → c.seen ≡ []
    → Replays c.method c.regs (proceed_call materialize c).0
unfolding proceed_call arg_regs
proceed_call-Replays materialize c e new =
    proceed_on-Replays materialize c.method c.regs (length c.chain) c (record {
      method = refl;
      readable = ap (λ b. if b then c.snap else c.regs) e;
      entered = subst (All (IsReplay c.method c.regs)) (sym new) tt;
    })
