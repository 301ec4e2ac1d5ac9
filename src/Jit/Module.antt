-- ===== src/Jit/Module.antt =====
-- `buildJITModule` of jit.go: the module data that describes a trampoline to the runtime. A `[]byte` is a
-- buffer with its size; a store outside it, which is a panic or an overrun, is `none`.
pub mod Bitmap
pub mod Reading
use go_weave.Prelude.{
  ℕ, zero, suc, ◌+◌, ◌-◌, ◌*◌, ◌/◌, ◌%◌, ◌^◌, bit_or, Bool, true, false, Option, none, some, List,
  [], ◌∷◌, ◌++◌, ltb, ◌==◌, if◌then◌else◌, length,
}
use go_weave.Prelude.Bits.{has_bit, one_shl}
use go_weave.Abi.Types.{align_up}

pub record Buf : Type 0 where
  pub size : ℕ
  pub byte_at : ℕ → ℕ

-- `make([]byte, n)`.
abbrev pub make : ℕ → Buf
make n = record { size = n; byte_at = λ k. 0 }

abbrev pub set_at : (ℕ → ℕ) → ℕ → ℕ → ℕ → ℕ
set_at f i v j = if i == j then v else f j

unfoldable pub store_byte : ℕ → ℕ → Buf → Option Buf
store_byte k v b = if ltb k b.size then some (record b { byte_at = set_at b.byte_at k v }) else none

abbrev pub bind : Option Buf → (Buf → Option Buf) → Option Buf
bind none f = none
bind (some b) f = f b

-- `n` bytes of `v` at `off`, the lowest first.
unfoldable pub store_le : ℕ → ℕ → ℕ → Buf → Option Buf
store_le zero off v b = some b
store_le (suc n) off v b = bind (store_byte off (v % 256) b) (λ b. store_le n (off + 1) (v / 256) b)

-- `unsafe.Offsetof(stackmap{}.bytedata)`, `unsafe.Sizeof(stackmap{})`: two `int32` and a byte, to a
-- multiple of four.
abbrev pub bytedata_offset : ℕ
bytedata_offset = 8

abbrev pub stackmap_size : ℕ
stackmap_size = 12

-- Is word `i` of the stack area a pointer?
unfoldable pub is_ptr : ℕ → ℕ → ℕ → ℕ → Bool
is_ptr arg_words arg_ptrs ret_ptrs i =
    if ltb i arg_words then has_bit 64 arg_ptrs i else has_bit 64 ret_ptrs (i - arg_words)

-- The loop that sets the bits, from word `i` with `n` left.
unfoldable pub mark_bits : (ℕ → Bool) → ℕ → ℕ → Buf → Option Buf
mark_bits ptr i zero b = some b
mark_bits ptr i (suc n) b = elim (ptr i) [
  | true ↦
      bind
        (store_byte (bytedata_offset + i / 8)
          (bit_or (b.byte_at (bytedata_offset + i / 8)) (one_shl 8 (i % 8))) b)
        (λ b. mark_bits ptr (i + 1) n b)
  | false ↦ mark_bits ptr (i + 1) n b
]

-- `localsOff`.
abbrev pub locals_offset : ℕ → ℕ
locals_offset total = align_up (bytedata_offset + (total + 7) / 8) 4

-- The `n` and `nbit` of a stack map at `off`.
abbrev pub store_header : ℕ → ℕ → Buf → Option Buf
store_header off nbit b = bind (store_le 4 off 1 b) (λ b. store_le 4 (off + 4) nbit b)

-- The `gofunc` block: the map of the stack area, then the empty map of the locals.
unfoldable pub gofunc_block : ℕ → ℕ → ℕ → ℕ → Option Buf
gofunc_block arg_words ret_words arg_ptrs ret_ptrs =
    let total = arg_words + ret_words in
    bind
      (bind (store_header 0 total (make (locals_offset total + stackmap_size)))
        (λ b. mark_bits (is_ptr arg_words arg_ptrs ret_ptrs) 0 total b))
      (λ b. store_header (locals_offset total) 0 b)

-- `rfunc`, with the tables behind it. An `int32` is its bit pattern.
pub record Func : Type 0 where
  pub entry_off : ℕ
  pub name_off : ℕ
  pub frame_args : ℕ
  pub pcsp_off : ℕ
  pub npcdata : ℕ
  pub func_id : ℕ
  pub flag : ℕ
  pub nfuncdata : ℕ
  pub pcdata : List ℕ
  pub funcdata : List ℕ

pub record FuncTab : Type 0 where
  pub entryoff : ℕ
  pub funcoff : ℕ

-- `pcHeader`, the fields that are set.
pub record PcHeader : Type 0 where
  pub magic : ℕ
  pub min_lc : ℕ
  pub ptr_size : ℕ
  pub nfunc : ℕ
  pub nfiles : ℕ
  pub text_start : ℕ

-- `findfuncbucket`: an index and the offsets of its sub-buckets, all of them 0 as allocated.
pub record FindFuncBucket : Type 0 where
  pub idx : ℕ
  pub subbuckets : List ℕ

-- The fields of `jitModuledata` that are set, each with what its pointer or slice leads to.
pub record ModuleData : Type 0 where
  pub pc_header : PcHeader
  pub find_func_tab : List FindFuncBucket
  pub minpc : ℕ
  pub maxpc : ℕ
  pub text : ℕ
  pub etext : ℕ
  pub funcnametab : List ℕ
  pub pctab : List ℕ
  pub func_info : Func
  pub ftab : List FuncTab
  pub gofunc : Buf

abbrev zeros : ℕ → List ℕ
zeros zero = []
zeros (suc n) = 0 ∷ zeros n

-- `"weave.jitstub"`, behind the empty name.
abbrev pub name_table : List ℕ
name_table = 0 ∷ 119 ∷ 101 ∷ 97 ∷ 118 ∷ 101 ∷ 46 ∷ 106 ∷ 105 ∷ 116 ∷ 115 ∷ 116 ∷ 117 ∷ 98 ∷ 0 ∷ []

abbrev pub with_gofunc : ℕ → ℕ → ℕ → ℕ → List ℕ → ℕ → Option Buf → Option ModuleData
with_gofunc quantum func_size text size pcsp total none = none
with_gofunc quantum func_size text size pcsp total (some g) = some (record {
  pc_header = record {
    magic = 0xfffffff1;
    min_lc = quantum;
    ptr_size = 8;
    nfunc = 1;
    nfiles = 0;
    text_start = text;
  };
  find_func_tab = record { idx = 0; subbuckets = zeros 16 } ∷ [];
  minpc = text;
  maxpc = text + size;
  text = text;
  etext = text + size;
  funcnametab = name_table;
  pctab = 0 ∷ pcsp;
  func_info = record {
    entry_off = 0;
    name_off = 1;
    frame_args = total * 8 % 2 ^ 32;
    pcsp_off = 1;
    npcdata = 4;
    func_id = 0;
    flag = 0;
    nfuncdata = 2;
    pcdata = 0 ∷ 0 ∷ 0 ∷ 0 ∷ [];
    funcdata = 0 ∷ locals_offset total % 2 ^ 32 ∷ [];
  };
  ftab =
      record { entryoff = 0; funcoff = 0 }
      ∷ record { entryoff = size % 2 ^ 32; funcoff = (func_size + 4 * 4 + 2 * 4) % 2 ^ 32 }
      ∷ [];
  gofunc = g;
})

-- `text` is the address of the code and `size` its length. `quantum` is `pcQuantum` of the processor,
-- and `func_size` the size of `rfunc`, which depends on the version of Go.
unfoldable pub build_jit_module : ℕ → ℕ → ℕ → ℕ → List ℕ → ℕ → ℕ → ℕ → ℕ → Option ModuleData
build_jit_module quantum func_size text size pcsp arg_words ret_words arg_ptrs ret_ptrs =
    with_gofunc quantum func_size text size pcsp (arg_words + ret_words)
      (gofunc_block arg_words ret_words arg_ptrs ret_ptrs)
