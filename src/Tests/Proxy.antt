-- ===== src/Tests/Proxy.antt =====
-- A call with two interceptors: one retries, the other reads the arguments after the first try.
use go_weave.Prelude.{ℕ, ◌≡◌, refl, false, none, some, List, [], ◌∷◌, map}
use go_weave.Proxy.Invocation.{
  RegBuf, Method, Interceptor, finish, args, proceed, Invocation, arg_regs, args_of, rebind,
  take_snapshot, fast_call, call_target, run, proceed_on, proceed_call,
}
use native.Mathlib.Omega.{arith}
use go_weave.Proxy.Fuel.{proceed_on-fuel}
use go_weave.Proxy.Replay.{Replays, proceed_call-Replays}

abbrev ints_of : RegBuf → List ℕ
ints_of r = r.ints

abbrev double : Method ℕ
double = record {
  is_variadic = false;
  stack_bytes = 0;
  zeros = 0 ∷ [];
  target_fn = none;
  target_fun = some (λ r. record { ints = 99 ∷ 98 ∷ []; floats = []; ptrs = [] });
  target_data = 500;
}

abbrev retry : Interceptor ℕ
retry = proceed (λ out. proceed (λ out. finish out))

abbrev look : Interceptor ℕ
look = proceed (λ out. args (λ vs. finish (some vs)))

abbrev two_links : Invocation ℕ
two_links = record {
  method = double;
  chain = retry ∷ look ∷ [];
  next = 0;
  args = none;
  regs = record { ints = 400 ∷ 7 ∷ []; floats = 3 ∷ []; ptrs = 400 ∷ 0 ∷ [] };
  snap = record { ints = []; floats = []; ptrs = [] };
  has_snap = false;
  direct = false;
  seen = [];
  started = [];
}

proceed_call-Replays_example :
    Replays two_links.method two_links.regs (proceed_call (λ r. r.ints) two_links).0
proceed_call-Replays_example = proceed_call-Replays (λ r. r.ints) two_links refl refl

abbrev two_retries : Invocation ℕ
two_retries = record two_links { chain = retry ∷ [] }

both_tries :
    map ints_of (proceed_call (λ r. r.ints) two_retries).0.seen
    ≡ (500 ∷ 7 ∷ []) ∷ (500 ∷ 7 ∷ []) ∷ []
unfolding proceed_call proceed_on run call_target fast_call take_snapshot rebind
both_tries = refl

second_link_once : (proceed_call (λ r. r.ints) two_links).0.started ≡ 0 ∷ 1 ∷ []
unfolding proceed_call proceed_on run call_target fast_call take_snapshot rebind args_of arg_regs
second_link_once = refl

proceed_on-fuel_example :
    proceed_on (λ r. r.ints) 5 two_links ≡ proceed_on (λ r. r.ints) 2 two_links
proceed_on-fuel_example = proceed_on-fuel (λ r. r.ints) 2 5 two_links (omega arith) (omega arith)
