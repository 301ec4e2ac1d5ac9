-- ===== src/Jit/Module/Reading.antt =====
-- What the runtime reads out of a generated module: its stack maps and its pcsp table.
use native.Mathlib.Nat.{pow-suc}
use go_weave.Prelude.{
  ℕ, zero, suc, ◌+◌, ◌-◌, ◌*◌, ◌/◌, ◌%◌, ◌^◌, ◌<◌, ◌≤◌, ◌≡◌, refl, ap, ◌∙◌, arith, Bool, false,
  ◌||◌, some, List, ltb, inl, inr, drop, get_or,
}
use go_weave.Prelude.Bits.{has_bit, has_bit-zero}
use go_weave.Abi.StackArea.{align_up_lem}
use go_weave.Jit.Module.{
  Buf, make, set_at, store_le, is_ptr, mark_bits, bind, locals_offset, store_header, gofunc_block,
  ModuleData, with_gofunc, build_jit_module,
}
use go_weave.Jit.Module.Bitmap.{
  with_bytes, put_le, store_le-fits, marks, mark_bits-fits, put_le-apart, marks-apart, bit_at,
  marks-bit, in_range,
}

abbrev pub read_le : ℕ → ℕ → (ℕ → ℕ) → ℕ
read_le zero off f = 0
read_le (suc n) off f = f off + 256 * read_le n (off + 1) f

read_le-put_le : (n off v : ℕ) (f : ℕ → ℕ) → v < 256 ^ n → read_le n off (put_le n off v f) ≡ v
unfolding put_le
read_le-put_le zero off v f h = omega arith
read_le-put_le (suc n) off v f h =
    let first : put_le n (off + 1) (v / 256) (set_at f off (v % 256)) off ≡ v % 256 =
      put_le-apart n (off + 1) (v / 256) (set_at f off (v % 256)) off (inl (omega arith))
      ∙ ground arith in
    omega (
      arith,
      first,
      read_le-put_le n (off + 1) (v / 256) (set_at f off (v % 256)) (omega (arith, pow-suc 256 n)),
    )

read_le-same :
    (n off : ℕ) (f g : ℕ → ℕ)
    → ((k : ℕ) → off ≤ k → k < off + n → f k ≡ g k)
    → read_le n off f ≡ read_le n off g
read_le-same zero off f g h = refl
read_le-same (suc n) off f g h = omega (
  arith,
  h off (omega arith) (omega arith),
  read_le-same n (off + 1) f g (λ k a b. h k (omega arith) (omega arith)),
)

-- The bytes of the block.
abbrev head : ℕ → ℕ → ℕ
head total = put_le 4 4 total (put_le 4 0 1 (λ k. 0))

abbrev all : (ℕ → Bool) → ℕ → ℕ → ℕ
all ptr total =
    let off = locals_offset total in
    put_le 4 (off + 4) 0 (put_le 4 off 1 (marks ptr 0 total (head total)))

locals_room : (total : ℕ) → total < 2 ^ 31 → 8 + (total + 7) / 8 ≤ locals_offset total
locals_room total small =
    (align_up_lem (8 + (total + 7) / 8) 4 (inr (inr (inl refl))) (omega arith)).0

header-fits :
    (off nbit : ℕ) (b : Buf)
    → off + 8 ≤ b.size
    → store_header off nbit b
      ≡ some (with_bytes b (put_le 4 (off + 4) nbit (put_le 4 off 1 b.byte_at)))
header-fits off nbit b h =
    ap (λ o. bind o (λ b. store_le 4 (off + 4) nbit b)) (store_le-fits 4 off 1 b (omega arith))
    ∙ store_le-fits 4 (off + 4) nbit (with_bytes b (put_le 4 off 1 b.byte_at)) (omega arith)

gofunc_block-fits :
    (arg_words ret_words arg_ptrs ret_ptrs : ℕ)
    → arg_words + ret_words < 2 ^ 31
    → gofunc_block arg_words ret_words arg_ptrs ret_ptrs
      ≡ some (
          with_bytes
            (make (locals_offset (arg_words + ret_words) + 12))
            (all (is_ptr arg_words arg_ptrs ret_ptrs) (arg_words + ret_words)))
unfolding gofunc_block
gofunc_block-fits arg_words ret_words arg_ptrs ret_ptrs small =
    let total = arg_words + ret_words in
    let off = locals_offset total in
    let ptr = is_ptr arg_words arg_ptrs ret_ptrs in
    let room = locals_room total small in
    let empty = make (off + 12) in
    ap (λ o. bind (bind o (λ b. mark_bits ptr 0 total b)) (λ b. store_header off 0 b))
      (header-fits 0 total empty (omega arith))
    ∙ ap (λ o. bind o (λ b. store_header off 0 b))
        (mark_bits-fits ptr 0 total (with_bytes empty (head total)) (omega (arith, room)))
    ∙ header-fits off 0 (with_bytes empty (marks ptr 0 total (head total))) (omega arith)

-- A stack map at `off`: one bitmap, of `nbit` bits.
abbrev pub MapAt : (ℕ → ℕ) → ℕ → ℕ → Type 0
MapAt f off nbit = (read_le 4 off f ≡ 1) × (read_le 4 (off + 4) f ≡ nbit)

header-MapAt :
    (off nbit : ℕ) (f : ℕ → ℕ)
    → nbit < 2 ^ 31
    → MapAt (put_le 4 (off + 4) nbit (put_le 4 off 1 f)) off nbit
header-MapAt off nbit f small = (
  read_le-same 4 off _ (put_le 4 off 1 f)
        (λ k a b. put_le-apart 4 (off + 4) nbit (put_le 4 off 1 f) k (inl (omega arith)))
      ∙ read_le-put_le 4 off 1 f (omega arith),
  read_le-put_le 4 (off + 4) nbit (put_le 4 off 1 f) (omega arith),
)

-- Behind the marks, bytes of the locals' map leave everything as it was.
all-below :
    (ptr : ℕ → Bool) (total k : ℕ)
    → k < locals_offset total
    → all ptr total k ≡ marks ptr 0 total (head total) k
all-below ptr total k h =
    put_le-apart 4 (locals_offset total + 4) 0 _ k (inl (omega arith))
    ∙ put_le-apart 4 (locals_offset total) 1 _ k (inl (omega arith))

all-MapAt : (ptr : ℕ → Bool) (total : ℕ) → total < 2 ^ 31 → MapAt (all ptr total) 0 total
all-MapAt ptr total small =
    let room = locals_room total small in
    let base = header-MapAt 0 total (λ k. 0) small in
    let same : (k : ℕ) → k < 8 → all ptr total k ≡ head total k = λ k h.
      all-below ptr total k (omega (arith, room))
      ∙ marks-apart ptr 0 total (head total) k (inl h) in
    (
      read_le-same 4 0 _ (head total) (λ k a b. same k (omega arith)) ∙ base.0,
      read_le-same 4 4 _ (head total) (λ k a b. same k (omega arith)) ∙ base.1,
    )

all-bit :
    (ptr : ℕ → Bool) (total j : ℕ) → total < 2 ^ 31 → j < total → bit_at (all ptr total) j ≡ ptr j
all-bit ptr total j small h =
    let room = locals_room total small in
    let clear : head total (8 + j / 8) ≡ 0 =
      put_le-apart 4 4 total (put_le 4 0 1 (λ k. 0)) (8 + j / 8) (inr (omega arith))
      ∙ put_le-apart 4 0 1 (λ k. 0) (8 + j / 8) (inr (omega arith)) in
    let unset : bit_at (head total) j ≡ false =
      ap (λ v. has_bit 8 v (j % 8)) clear ∙ has_bit-zero 8 (j % 8) (omega arith) in
    ap (λ v. has_bit 8 v (j % 8)) (all-below ptr total (8 + j / 8) (omega (arith, room)))
    ∙ marks-bit ptr 0 total (head total) j
    ∙ ap (λ b. in_range ptr 0 total j || b) unset
    ∙ ground arith

is_ptr_arg :
    (arg_words arg_ptrs ret_ptrs j : ℕ)
    → j < arg_words
    → is_ptr arg_words arg_ptrs ret_ptrs j ≡ has_bit 64 arg_ptrs j
unfolding is_ptr
is_ptr_arg arg_words arg_ptrs ret_ptrs j h = ground arith

is_ptr_ret :
    (arg_words arg_ptrs ret_ptrs j : ℕ)
    → is_ptr arg_words arg_ptrs ret_ptrs (arg_words + j) ≡ has_bit 64 ret_ptrs j
unfolding is_ptr
is_ptr_ret arg_words arg_ptrs ret_ptrs j =
    let behind : ltb (arg_words + j) arg_words ≡ false = ground arith in
    let word : arg_words + j - arg_words ≡ j = omega arith in rw (behind, word) refl

-- The offset of the locals' map fits the `uint32` that holds it.
locals_word : (total : ℕ) → total < 2 ^ 28 → locals_offset total % 2 ^ 32 ≡ locals_offset total
locals_word total small =
    omega (arith, align_up_lem (8 + (total + 7) / 8) 4 (inr (inr (inl refl))) (omega arith))

-- The runtime's view of module data for a trampoline at `text`, of `size` bytes: it finds the table
-- of depths, and by the offsets in `funcdata` a map with a bit per word of the stack area and an
-- empty map of the locals, which do not overlap.
pub record IsDescribed (text size : ℕ) (pcsp : List ℕ) (arg_words ret_words arg_ptrs ret_ptrs : ℕ)
    (md : ModuleData) : Type 0 where
  pub range : (md.text ≡ text) × (md.etext ≡ text + size)
  pub searched : (md.minpc ≡ text) × (md.maxpc ≡ text + size) × (md.pc_header.text_start ≡ text)
  pub depths : drop md.func_info.pcsp_off md.pctab ≡ pcsp
  pub area_size : md.func_info.frame_args ≡ (arg_words + ret_words) * 8
  pub area_map : MapAt md.gofunc.byte_at (get_or md.func_info.funcdata 0 0) (arg_words + ret_words)
  pub arg_bits : (j : ℕ) → j < arg_words → bit_at md.gofunc.byte_at j ≡ has_bit 64 arg_ptrs j
  pub ret_bits :
      (j : ℕ) → j < ret_words → bit_at md.gofunc.byte_at (arg_words + j) ≡ has_bit 64 ret_ptrs j
  pub locals_map : MapAt md.gofunc.byte_at (get_or md.func_info.funcdata 1 0) 0
  pub maps_apart : 8 + (arg_words + ret_words + 7) / 8 ≤ get_or md.func_info.funcdata 1 0
  pub maps_inside : get_or md.func_info.funcdata 1 0 + 8 ≤ md.gofunc.size

-- For a stack area of fewer than 2 ^ 28 words, `buildJITModule` writes inside its buffers, and the
-- runtime finds in the result what `IsDescribed` says: the code range, under `text` and `etext` as well as
-- under `minpc` and `maxpc`, the pcsp table, one bit for
-- each argument and result word, set exactly where the shape marks a pointer, and no pointers in the
-- frame of the trampoline.
pub build_jit_module-IsDescribed :
    (quantum func_size text size : ℕ) (pcsp : List ℕ) (arg_words ret_words arg_ptrs ret_ptrs : ℕ)
    → arg_words + ret_words < 2 ^ 28
    → (md : ModuleData) × (build_jit_module quantum func_size text size pcsp arg_words ret_words
          arg_ptrs ret_ptrs
        ≡ some md)
      × IsDescribed text size pcsp arg_words ret_words arg_ptrs ret_ptrs md
unfolding build_jit_module
build_jit_module-IsDescribed quantum func_size text size pcsp arg_words ret_words arg_ptrs ret_ptrs
      small =
    let total = arg_words + ret_words in
    let ptr = is_ptr arg_words arg_ptrs ret_ptrs in
    let few : total < 2 ^ 31 = omega arith in
    let room = locals_room total few in
    let locals = locals_word total small in
    (
      _,
      ap (λ o. with_gofunc quantum func_size text size pcsp total o)
          (gofunc_block-fits arg_words ret_words arg_ptrs ret_ptrs few),
      record {
        range = (refl, refl);
        searched = (refl, refl, refl);
        depths = refl;
        area_size = omega arith;
        area_map = all-MapAt ptr total few;
        arg_bits = λ j h.
            all-bit ptr total j few (omega arith) ∙ is_ptr_arg arg_words arg_ptrs ret_ptrs j h;
        ret_bits = λ j h.
            all-bit ptr total (arg_words + j) few (omega arith)
            ∙ is_ptr_ret arg_words arg_ptrs ret_ptrs j;
        locals_map =
            rw locals
              (header-MapAt (locals_offset total) 0 (marks ptr 0 total (head total)) (omega arith));
        maps_apart = omega (arith, locals, room);
        maps_inside = omega (arith, locals);
      },
    )
