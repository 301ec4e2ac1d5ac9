-- ===== src/Lib.antt =====
-- go-weave builds dynamic proxies for Go interfaces at run time: a value of an interface type whose
-- methods are small machine code stubs, made while the program runs, which lead every call to one
-- dispatcher. The dispatcher runs a chain of interceptors and then the target. Two packages stand on
-- top of the proxies: chaos injects faults by rules, and mockito is a mocking framework.
--
-- How the parts interact. For each method of an interface, abi.go computes where Go's calling
-- convention puts its arguments and results: in integer registers, in floating point registers or in
-- slots of the stack area. The stubs (jit.go, jitcode_*.go, precise.go) and the code that copies values
-- between registers and reflection (materialize.go) are driven by that layout, and the garbage
-- collector reads the pointer words that it records. jit.go also writes the tables by which the
-- runtime's unwinder finds the frame of a stub, among them the pcsp table. chaos and mockito see only
-- an invocation: the method, its arguments, and a way to go on to the target.
--
-- Which file models which part.
--   Prelude and its children: Boolean tests, lists over native numbers, bits, alignment groups.
--   Abi/Types, Abi/Assign, Abi/Layout: abi.go, abi_amd64.go, abi_arm64.go and the stub shape of
--     precise.go. A `reflect.Type` is the data type GoType with the sizes and offsets that reflection
--     reports; `regAssign` is reg_assign, `stackAssign` stack_assign, `newABILayout` new_abi_layout.
--     A panic of the code is `none`. Machine words are native numbers; `uint32` and `uint64` results
--     keep their wrap-around.
--   Abi/Sane, Abi/Parts and the other children of Abi: what holds of a type that reflection reports,
--     the description of a type by its parts, and the proofs.
--   Jit/Pcsp and its children: `encodePCSP` of jit.go, against a reader that is written from
--     docs/en/04-pclntab.md. The varint loops have the fuel varint_fuel, 5: a `uint32` has at most five
--     groups of seven bits.
--   Jit/Text and its children: the text handling that both assemblers use, `fmt.Sprintf` with `%d`,
--     `strings.FieldsFunc` and `parseImm`. A printed number has the fuel 20, the digits of a `uint64`.
--   Jit/Amd64/Asm, Jit/Amd64: jitcode_amd64.go, `asm` and `jitStubCode`. Jit/Amd64/Ins is the machine
--     that reads the bytes back, written from the processor's manual for the instructions that a
--     trampoline uses: `disassemble` with a fuel of one step per byte, a state of registers and words
--     of memory by their address, and what the function at an address does as a parameter. The other children are
--     proofs. Displacements are natural numbers, where the code has an `int32`: `Fits` bounds them.
--   Jit/Arm64/Asm, Jit/Arm64: jitcode_arm64.go, likewise; the buffer of 512 bytes is modelled with its bound.
--   Jit/Module: `buildJITModule` of jit.go. A byte slice is a buffer with its size, and a store outside
--     it is `none`. The func record is a record, not bytes, since its layout depends on the version of
--     Go; the stack maps are bytes. Jit/Module/Reading is the runtime's view.
--   Jit/Cache: `jitTrampoline`, `registerModule` and `init` of jit.go, `jitExecAlloc` of jitmem.go,
--     `slotCode` and `newTrampoline`. The state is the cache, the runtime's list of modules and the
--     pages. `syscall.Mmap` is a parameter, the record Os, with the laws that a new page is disjoint
--     from what is mapped and that mapped memory stays mapped. A processor is the record Target;
--     Jit/Cache/Targets has the two that there are. The other children are proofs.
--   Proxy/Build: `NewOf` and `newMethod` of proxy.go and `forgeITab` of rt.go. What reflection tells of
--     the interface and of the target are the records Iface and Object; an itab is its words. Its
--     children are proofs; Proxy/Build/Calls runs the code of a slot on the machine of Jit/Amd64/Ins.
--   Proxy/Invocation: invocation.go. `Invocation` is a record with two trace fields for what has run;
--     `Args`, `SetArg`, `argRegs`, `callTarget` and `Proceed` are args_of, write_arg, arg_regs,
--     call_target and proceed_on. An interceptor is a program of those calls, with any computation
--     between them. The fuel of proceed_on is the length of the chain, since each `Proceed` that starts
--     an interceptor moves the index of the next one on. Proxy/Replay and
--     Proxy/Fuel are proofs.
--   Materialize/Memory, Materialize/Values, Materialize/Args, Materialize/Results: materialize.go. The
--     register spill area, the copy of the stack area and the gather buffer are areas of bytes, Frame
--     with the two mirrors; `stepAddr`, `materializeArgs`, `scatterValue` and `storeResults` are
--     step_addr, materialize_args, scatter_value and store_results. A `reflect.Value` is GoValue: bytes
--     of its own, an address in that memory, or an interface value. What lies outside is the record
--     Host: itabs, what `Set` takes, boxing, the conversions between `float32` and `float64`, and `AssignableTo`.
--   Materialize/Dispatch: `Dispatch` of dispatch_amd64.go and dispatch_arm64.go, before and after
--     `Proceed`: enter_call and leave_call. `Proceed` is any function on the memory of the call; its own
--     model is Proxy/Invocation. The other children of Materialize are proofs.
--   Chaos/Spec: chaos/spec.go. `SpecAction.action` and `Spec.Rule` are action and spec_rule;
--     `time.ParseDuration`, `time.Parse` and the error around `ErrInjected` are parameters.
--   Chaos/Rules, Chaos/Plan, Chaos/Intercept: chaos/chaos.go and chaos/inject.go. `check` and
--     `validateSet` are check and validate_set, with a constructor for each error; `rebuild` is
--     build_plan and rebuild; `plan.match` is match; `binder.resolve` and `binder.intercept` are
--     resolve and intercept. A `float64` is an exact multiple of 2 ^ -1074; durations and counts are
--     64-bit patterns; times are nanoseconds since the zero time. A map is an association list. The
--     address of a plan is its generation, and the budgets of the compiled rules stand beside the plan,
--     by the number of their rule, since every interface shares them. The other children of Chaos are
--     proofs; Chaos/Calls has the sequences of calls through several wrapped interfaces.
--   Mockito/State, Mockito/Record, Mockito/Verify, Mockito/InOrder: mockito/mock.go, gls.go, matcher.go,
--     stub.go, verify.go and inorder.go. `intercept`, `findStub`, `values`, `rollback`, `whenRecorded`,
--     `countLocked` and `Times` have their names in snake case. `reflect.DeepEqual` is a parameter,
--     deep_equal, of which nothing is assumed. A failed verification is `false` or `none`. The other
--     children of Mockito are proofs.
--   Tests and its children: the theorems at concrete inputs.
--
-- What is not modelled. The rest of rt.go, rfunc_*.go, moduledata_*.go, jit_*.go,
-- jitmem_darwin_arm64.go, internal/ and the assembly files reach into the
-- Go runtime and the operating system and are left out. Calls come one after another: neither
-- concurrent calls nor the waiting on a context are modelled, and mockito has one mock and one
-- goroutine. The texts of error messages are left out.
--
pub mod Prelude
pub mod Abi
pub mod Jit
pub mod Proxy
pub mod Materialize
pub mod Chaos
pub mod Mockito
mod Tests
