-- ===== src/Proxy/Invocation.antt =====
-- One proxied call: `Invocation` of invocation.go, its interceptor chain and its target.
-- Values of type `V` are `reflect.Value`s. An interceptor is any code that uses the invocation: a
-- program of its calls of `Args`, `SetArg` and `Proceed`, each going on from what was returned.
-- Reading the arguments out of the registers (materialize.go) is the parameter `materialize`; the
-- dispatcher always sets the registers.
use go_weave.Prelude.{
  ℕ, zero, suc, ◌+◌, Bool, true, false, ◌&&◌, Option, none, some, List, [], ◌∷◌, ◌++◌, ◌==◌,
  if◌then◌else◌, length, get_elem?, set,
}

pub record RegBuf : Type 0 where
  pub ints : List ℕ
  pub floats : List ℕ
  pub ptrs : List ℕ

-- A method with its target: `fun` is the code that the register fast path enters, `fn` the bound method
-- value; either may be missing.
pub record Method (V : Type 0) : Type 0 where
  pub is_variadic : Bool
  pub stack_bytes : ℕ
  pub zeros : List V
  pub target_fn : Option (Bool → List V → List V)
  pub target_fun : Option (RegBuf → RegBuf)
  pub target_data : ℕ

pub data Interceptor (V : Type 0) : Type 0 where
  finish : Option (List V) → Interceptor V
  args : (List V → Interceptor V) → Interceptor V
  set_arg : ℕ → V → Interceptor V → Interceptor V
  proceed : (Option (List V) → Interceptor V) → Interceptor V

-- `seen` is no field of the source: the registers that the target's code was entered with and the
-- places of the interceptors that were started, both oldest first.
pub record Invocation (V : Type 0) : Type 0 where
  pub method : Method V
  pub chain : List (Interceptor V)
  pub next : ℕ
  pub args : Option (List V)
  pub regs : RegBuf
  pub snap : RegBuf
  pub has_snap : Bool
  pub direct : Bool
  pub seen : List RegBuf
  pub started : List ℕ

unfoldable pub rebind : ℕ → RegBuf → RegBuf
rebind receiver r = record r { ints = set r.ints 0 receiver; ptrs = set r.ptrs 0 receiver }

module _ {V : Type 0} where
  unfoldable pub arg_regs : Invocation V → RegBuf
  arg_regs c = if c.has_snap then c.snap else c.regs

  -- The registers before the receiver is rebound: the snapshot is taken, or put back.
  unfoldable pub take_snapshot : Invocation V → Invocation V
  take_snapshot c =
      if c.has_snap
      then record c { regs = record c.regs { ints = c.snap.ints; floats = c.snap.floats } }
      else record c { snap = c.regs; has_snap = true }

  unfoldable pub fast_call : (RegBuf → RegBuf) → Invocation V → Invocation V
  fast_call redial c =
      let c' = take_snapshot c in
      let entered = rebind c.method.target_data c'.regs in
      record c' { regs = redial entered; direct = true; seen = c.seen ++ (entered ∷ []) }

  abbrev pub is_unread : Option (List V) → Bool
  is_unread none = true
  is_unread (some vs) = false

  abbrev pub start : Invocation V → Invocation V
  start c = record c { next = c.next + 1; started = c.started ++ (c.next ∷ []) }

module _ {V : Type 0} (materialize : RegBuf → List V) where
  abbrev pub args_by : Option (List V) → Invocation V → Invocation V × List V
  args_by (some vs) c = (c, vs)
  args_by none c = let vs = materialize (arg_regs c) in (record c { args = some vs }, vs)

  unfoldable pub args_of : Invocation V → Invocation V × List V
  args_of c = args_by c.args c

  -- Out of range is a panic in the source; here it changes nothing.
  unfoldable pub write_arg : ℕ → V → Invocation V → Invocation V
  write_arg i v c = let (c', vs) = args_of c in record c' { args = some (set vs i v) }

  abbrev pub slow_call : (Bool → List V → List V) → Invocation V → Invocation V × Option (List V)
  slow_call fn c = let (c', vs) = args_of c in (c', some (fn c.method.is_variadic vs))

  -- The bound method value is there when the code of the fast path is; without it nothing is returned.
  abbrev pub reflect_call :
      Option (Bool → List V → List V) → Invocation V → Invocation V × Option (List V)
  reflect_call none c = (c, none)
  reflect_call (some fn) c = slow_call fn c

  -- A method that the target does not have returns zeros.
  abbrev pub call_bound :
      Option (Bool → List V → List V) → Invocation V → Invocation V × Option (List V)
  call_bound none c = (c, some c.method.zeros)
  call_bound (some fn) c = slow_call fn c

  abbrev pub call_by : Option (RegBuf → RegBuf) → Invocation V → Invocation V × Option (List V)
  call_by none c = call_bound c.method.target_fn c
  call_by (some redial) c =
      if is_unread c.args && c.method.stack_bytes == 0
      then (fast_call redial c, none)
      else reflect_call c.method.target_fn c

  unfoldable pub call_target : Invocation V → Invocation V × Option (List V)
  call_target c = call_by c.method.target_fun c

  -- An interceptor, given what `Proceed` does.
  unfoldable pub run :
      (Invocation V → Invocation V × Option (List V))
      → Interceptor V
      → Invocation V
      → Invocation V × Option (List V)
  run step (finish out) c = (c, out)
  run step (args k) c = let (c', vs) = args_of c in run step (k vs) c'
  run step (set_arg i v k) c = run step k (write_arg i v c)
  run step (proceed k) c = let (c', out) = step c in run step (k out) c'

  abbrev pub proceed_by :
      (Invocation V → Invocation V × Option (List V))
      → Option (Interceptor V)
      → Invocation V
      → Invocation V × Option (List V)
  proceed_by step none c = call_target c
  proceed_by step (some h) c = run step h (start c)

  -- `Proceed`, with fuel for the interceptors that are left.
  unfoldable pub proceed_on : ℕ → Invocation V → Invocation V × Option (List V)
  proceed_on zero c = call_target c
  proceed_on (suc n) c = proceed_by (proceed_on n) (get_elem? c.chain c.next) c

  -- A chain of `n` interceptors has at most `n` left.
  unfoldable pub proceed_call : Invocation V → Invocation V × Option (List V)
  proceed_call c = proceed_on (length c.chain) c
