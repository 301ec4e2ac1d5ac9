-- ===== src/Tests/Cache.antt =====
-- Trampolines on amd64, on a system that hands out pages from the bottom up.
use go_weave.Prelude.{
  ◌++◌, ◌↔◌, ◌==◌, if◌then◌else◌, map, drop, true, ℕ, ◌+◌, ◌<◌, ◌≡◌, refl, arith, Option, none,
  some, List, [], ◌∷◌,
}
use go_weave.Abi.Types.{amd64, basic, array, string, pointer}
use go_weave.Jit.Amd64.Ins.{Cpu, run_code}
use go_weave.Jit.Amd64.Running.{HandsOver, Returned}
use go_weave.Proxy.Build.Calls.{slot-HandsOver}
use go_weave.Proxy.Build.{MethodInfo, IfaceMethod, Iface, ProxyInfo, new_of}
use go_weave.Proxy.Build.Slots.{IsSlot, new_method-IsSlot, IsSupported, AreSlots, new_of-AreSlots}
use go_weave.Abi.Assign.{empty_seq}
use go_weave.Abi.Layout.{AbiLayout, StubShape}
use go_weave.Jit.Module.{ModuleData, build_jit_module}
use go_weave.Jit.Module.Reading.{IsDescribed, build_jit_module-IsDescribed}
use go_weave.Jit.Cache.{Target, Os, Jit, jit_trampoline, make_stubs, new_trampoline, slot_count}
use go_weave.Jit.Cache.Serves.{WellFormed, Extends}
use go_weave.Jit.Cache.Startup.{
  IsTarget, AlwaysMaps, Reached, IsReady, jit_trampoline-Reached, make_stubs-IsReady,
}
use go_weave.Jit.Cache.Choice.{
  RightCode, IsRefused, IsRefused-not, new_trampoline-IsReady, new_trampoline-IsRefused,
}
use go_weave.Jit.Cache.Targets.{amd64_target, amd64_target-IsTarget}

abbrev next_page : ℕ → ℕ → Option (ℕ × ℕ)
next_page s n = some (s, s + n)

page_parts : (s n a s' : ℕ) → next_page s n ≡ some (a, s') → (s ≡ a) × (s + n ≡ s')
page_parts s n a s' e = (cc, cc)

abbrev system : Os ℕ
system = record {
  mmap = next_page;
  IsUsed = λ s x. x < s;
  mmap_fresh = λ s s' n a e k h used. omega (arith, page_parts s n a s' e, used);
  mmap_used = λ s s' n a e k h. omega (arith, page_parts s n a s' e, h);
  mmap_keeps = λ s s' n a e x used. omega (arith, page_parts s n a s' e, used);
}

abbrev processor : Target
processor = amd64_target 44 4198400

processor-IsTarget : IsTarget processor
processor-IsTarget = amd64_target-IsTarget 44 4198400 (omega arith)

system-AlwaysMaps : AlwaysMaps system
system-AlwaysMaps s n = (s, s + n, refl)

abbrev fresh : Jit ℕ
fresh = record { space = 65536; by_shape = []; modules = []; pages = [] }

fresh-WellFormed : WellFormed processor system fresh
unfolding go_weave.Jit.Cache.lookup
fresh-WellFormed = record { covered = tt; cache = λ sh p e. absurd (cc) }

abbrev method : StubShape
method = record { index = 3; arg_words = 1; ret_words = 2; arg_ptrs = 1; ret_ptrs = 2 }

abbrev layout : AbiLayout
layout = record {
  call = empty_seq;
  ret = empty_seq;
  stack_call_args_size = 8;
  ret_offset = 8;
  stack_bytes = 24;
  arg_gather = [];
  gather_bytes = 0;
  stack_ptr_offs = 0 ∷ [];
  ret_stack_ptr_offs = 16 ∷ [];
  ptr_mask = 0;
}

build_jit_module-IsDescribed_example :
    (md : ModuleData) × (build_jit_module 1 44 65536 90 (2 ∷ 1 ∷ []) 1 2 1 2 ≡ some md)
    × IsDescribed 65536 90 (2 ∷ 1 ∷ []) 1 2 1 2 md
build_jit_module-IsDescribed_example =
    build_jit_module-IsDescribed 1 44 65536 90 (2 ∷ 1 ∷ []) 1 2 1 2 (omega arith)

jit_trampoline-Reached_example :
    (p : ℕ) × (j' : Jit ℕ) × (jit_trampoline processor system method fresh ≡ some (some p, j'))
    × Reached processor system processor-IsTarget system-AlwaysMaps method fresh p j'
jit_trampoline-Reached_example =
    jit_trampoline-Reached processor system processor-IsTarget system-AlwaysMaps method fresh
      (omega arith, omega arith, omega arith) fresh-WellFormed

abbrev Ready : List ℕ → Jit ℕ → Type 0
Ready ps j = IsReady processor system amd64 ps j

make_stubs-IsReady_example :
    (ps : List ℕ) × (j' : Jit ℕ) × (make_stubs processor system amd64 0 slot_count fresh
      ≡ some (ps, j'))
    × Ready ps j'
make_stubs-IsReady_example =
    make_stubs-IsReady processor system processor-IsTarget system-AlwaysMaps amd64 (omega arith)
      fresh fresh-WellFormed

-- The state behind `init`.
stubs : List ℕ
stubs =
    (make_stubs-IsReady processor system processor-IsTarget system-AlwaysMaps amd64 (omega arith)
      fresh fresh-WellFormed).0

started : Jit ℕ
started =
    (make_stubs-IsReady processor system processor-IsTarget system-AlwaysMaps amd64 (omega arith)
      fresh fresh-WellFormed).1

started-IsReady : Ready stubs started
unfolding stubs started
started-IsReady =
    (make_stubs-IsReady processor system processor-IsTarget system-AlwaysMaps amd64 (omega arith)
      fresh fresh-WellFormed).3

new_trampoline-IsReady_example :
    (p : ℕ) × (j' : Jit ℕ) × (new_trampoline processor system amd64 stubs layout 3 started
      ≡ some (p, j'))
    × RightCode processor system amd64 layout 3 p j'
    × Ready stubs j'
    × Extends processor system started j'
new_trampoline-IsReady_example =
    new_trampoline-IsReady processor system amd64 (omega arith) stubs layout 3 started
      started-IsReady (omega arith) (omega arith)
      (IsRefused-not processor system amd64 (omega arith) layout 3 started processor-IsTarget
        system-AlwaysMaps (omega arith) (omega arith) (omega arith))

new_trampoline-IsRefused_example :
    (new_trampoline processor system amd64 stubs layout 200 started ≡ none)
    ↔ IsRefused processor system amd64 (omega arith) layout 200 started
new_trampoline-IsRefused_example =
    new_trampoline-IsRefused processor system amd64 (omega arith) stubs layout 200 started
      (omega (arith, started-IsReady.all_slots)) (omega arith) (omega arith)

-- An interface with a method that returns pointers on the stack.
abbrev get_pair : IfaceMethod
get_pair = record {
  method_name = "Pair";
  func_type = record { ins = basic string 16 8 ∷ []; outs = array 2 (basic pointer 8 8) 16 8 ∷ [] };
}

abbrev get_name : IfaceMethod
get_name = record {
  method_name = "Name";
  func_type = record { ins = []; outs = basic string 16 8 ∷ [] };
}

abbrev repo : Iface
repo = record {
  is_interface = true;
  iface_methods = get_name ∷ get_pair ∷ [];
  inter_word = 11;
  proxy_word = 12;
  hash_word = 13;
}

get_name-IsSupported : IsSupported amd64 get_name
get_name-IsSupported = record {
  method = omega arith;
  fits_space = omega arith;
  fits_window = omega arith;
}

get_pair-IsSupported : IsSupported amd64 get_pair
get_pair-IsSupported = record {
  method = omega arith;
  fits_space = omega arith;
  fits_window = omega arith;
}

new_of-AreSlots_example :
    (x : ProxyInfo) × (j' : Jit ℕ) × (new_of processor system amd64 stubs repo none started
      ≡ some (x, j'))
    × AreSlots processor system processor-IsTarget system-AlwaysMaps amd64
        (omega arith)
        stubs
        0
        (get_name ∷ get_pair ∷ [])
        x.methods
        j'
    × (drop 3 x.itab ≡ map (λ d. d.code) x.methods)
    × Ready stubs j'
    × Extends processor system started j'
new_of-AreSlots_example =
    new_of-AreSlots processor system processor-IsTarget system-AlwaysMaps amd64 (omega arith) stubs
      repo none started refl (get_name-IsSupported, (get_pair-IsSupported, tt)) (omega arith)
      started-IsReady

-- The second method, built on its own.
pair_method : MethodInfo
pair_method =
    (new_method-IsSlot processor system processor-IsTarget system-AlwaysMaps amd64 (omega arith)
      stubs get_pair 1 none started get_pair-IsSupported (omega arith) started-IsReady).0

pair_state : Jit ℕ
pair_state =
    (new_method-IsSlot processor system processor-IsTarget system-AlwaysMaps amd64 (omega arith)
      stubs get_pair 1 none started get_pair-IsSupported (omega arith) started-IsReady).1

pair-IsSlot :
    IsSlot processor system processor-IsTarget system-AlwaysMaps amd64
      (omega arith)
      stubs
      1
      get_pair
      pair_method
      pair_state
unfolding pair_method pair_state
pair-IsSlot =
    (new_method-IsSlot processor system processor-IsTarget system-AlwaysMaps amd64 (omega arith)
      stubs get_pair 1 none started get_pair-IsSupported (omega arith) started-IsReady).3

abbrev entered : Cpu
entered = record { regs = λ r. 65536 + r; mem = λ a. a }

-- Only the function at the address of `dispatch` keeps its registers.
abbrev back : ℕ → Cpu → Cpu
back a b = if a == 4198400 then b else record b { regs = λ r. 0 }

slot-HandsOver_example :
    (sh : StubShape) × (code : List ℕ) × (b : Cpu) × (e : Cpu) × ((xs : List (ℕ × List ℕ))
      × (ys : List (ℕ × List ℕ)) × (pair_state.pages ≡ xs ++ ((pair_method.code, code) ∷ ys)))
    × (run_code back code entered ≡ some e)
    × (b.regs 0 ≡ 1)
    × HandsOver sh 4198400 entered b
    × Returned entered (back 4198400 b) e
slot-HandsOver_example =
    slot-HandsOver 44 4198400 system processor-IsTarget system-AlwaysMaps amd64 (omega arith) stubs
      1 get_pair pair_method pair_state back entered pair-IsSlot (omega arith) (omega arith)
      (omega arith) (omega arith) (λ b s m. (s, m))
