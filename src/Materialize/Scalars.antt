-- ===== src/Materialize/Scalars.antt =====
-- `writeScalar` and the single register cases of `scatterValue` of materialize.go, against the plain
-- copy of the value's bytes.
use go_weave.Prelude.{
  ℕ, ◌+◌, ◌<◌, ◌≡◌, refl, ap, ◌∙◌, ◌⊎◌, inl, inr, arith, true, some, ◌==◌, ltb, if◌then◌else◌,
}
use go_weave.Abi.Types.{
  Kind, bool, int, int8, int16, int32, int64, chan, go_map, pointer, unsafe_pointer, string, basic,
}
use go_weave.Abi.Assign.{step_int_reg, step_pointer}
use go_weave.Abi.Sane.{kind_size}
use go_weave.Abi.Spread.{IsWordSize}
use go_weave.Abi.Parts.{int_step}
use go_weave.Materialize.Memory.{
  Addr, Frame, put_bytes, le_num, byte_of, word_at, write_word, set_ptr,
}
use go_weave.Materialize.Bytes.{
  AreBytes, put_bytes-eq, le_num-eq, view-put_bytes, byte_of-le_num, byte_of-sign_extend,
}
use go_weave.Materialize.Values.{held, Host, scalar_of, sign_extend}
use go_weave.Materialize.Results.{write_scalar, scatter_single, header_word}
use go_weave.Materialize.Effects.{addr_of}
use go_weave.Materialize.Copies.{copied}

-- The kinds whose values a single integer register takes, and what is asked of a bool's byte.
abbrev pub IsScalar : Kind → (ℕ → ℕ) → Type 0
IsScalar bool f = (f 0 ≡ 0) ⊎ (f 0 ≡ 1)
IsScalar int f = Unit
IsScalar int8 f = Unit
IsScalar int16 f = Unit
IsScalar int32 f = Unit
IsScalar int64 f = Unit
IsScalar chan f = Unit
IsScalar go_map f = Unit
IsScalar pointer f = Unit
IsScalar unsafe_pointer f = Unit
IsScalar _ f = ⊥

shifted : (f : ℕ → ℕ) (k : ℕ) → f k ≡ f (k + 0)
shifted f k = let e : k ≡ k + 0 = omega arith in ap f e

number_put :
    (n : ℕ) (dst : Addr) (f : ℕ → ℕ) (m : Frame)
    → AreBytes f
    → put_bytes dst n (byte_of (le_num n f)) m ≡ put_bytes dst n (λ k. f (k + 0)) m
number_put n dst f m b = put_bytes-eq dst n _ _ m (λ k l. byte_of-le_num n k f b l ∙ shifted f k)

signed_put :
    (n : ℕ) (dst : Addr) (f : ℕ → ℕ) (m : Frame)
    → IsWordSize n
    → AreBytes f
    → put_bytes dst n (byte_of (sign_extend n (le_num n f))) m ≡ put_bytes dst n (λ k. f (k + 0)) m
signed_put n dst f m w b =
    put_bytes-eq dst n _ _ m
      (λ k l. byte_of-sign_extend n k (le_num n f) w l ∙ byte_of-le_num n k f b l ∙ shifted f k)

bool_put :
    (dst : Addr) (f : ℕ → ℕ) (m : Frame)
    → (f 0 ≡ 0) ⊎ (f 0 ≡ 1)
    → put_bytes dst 1 (byte_of (if f 0 == 0 then 0 else 1)) m ≡ put_bytes dst 1 (λ k. f (k + 0)) m
unfolding byte_of
bool_put dst f m h = put_bytes-eq dst 1 _ _ m (λ k l. bit f k h l)
  where
    bit :
        (f : ℕ → ℕ) (k : ℕ)
        → (f 0 ≡ 0) ⊎ (f 0 ≡ 1)
        → k < 1
        → byte_of (if f 0 == 0 then 0 else 1) k ≡ f (k + 0)
    bit f k (inl e) l = let z : k ≡ 0 = omega arith in rw (z, e) refl
    bit f k (inr e) l = let z : k ≡ 0 = omega arith in rw (z, e) refl

-- `writeScalar` writes the bytes of the value, whichever way it reads it.
pub write_scalar-put_bytes :
    (h : Host) (k : Kind) (a : ℕ) (dst : Addr) (f : ℕ → ℕ) (m : Frame)
    → IsScalar k f
    → AreBytes f
    → write_scalar h dst (held (basic k (kind_size k) a) f) (kind_size k) m
      ≡ some (put_bytes dst (kind_size k) (λ k. f (k + 0)) m)
unfolding write_scalar scalar_of write_word
write_scalar-put_bytes h bool a dst f m s b = ap some (bool_put dst f m s)
write_scalar-put_bytes h int a dst f m s b = ap some (signed_put 8 dst f m (inr (inr (inr refl))) b)
write_scalar-put_bytes h int8 a dst f m s b = ap some (signed_put 1 dst f m (inl refl) b)
write_scalar-put_bytes h int16 a dst f m s b = ap some (signed_put 2 dst f m (inr (inl refl)) b)
write_scalar-put_bytes h int32 a dst f m s b =
    ap some (signed_put 4 dst f m (inr (inr (inl refl))) b)
write_scalar-put_bytes h int64 a dst f m s b =
    ap some (signed_put 8 dst f m (inr (inr (inr refl))) b)
write_scalar-put_bytes h chan a dst f m s b = ap some (number_put 8 dst f m b)
write_scalar-put_bytes h go_map a dst f m s b = ap some (number_put 8 dst f m b)
write_scalar-put_bytes h pointer a dst f m s b = ap some (number_put 8 dst f m b)
write_scalar-put_bytes h unsafe_pointer a dst f m s b = ap some (number_put 8 dst f m b)
write_scalar-put_bytes h string a dst f m s b = absurd s
write_scalar-put_bytes h _ a dst f m s b = absurd s

-- An integer register.
pub int_register :
    (h : Host) (k : Kind) (a i : ℕ) (f : ℕ → ℕ) (m : Frame)
    → IsScalar k f
    → AreBytes f
    → let st = int_step step_int_reg 0 (kind_size k) i in
      let t = basic k (kind_size k) a in
      scatter_single h (held t f) t st step_int_reg (addr_of st) m ≡ some (copied f st m)
unfolding scatter_single
int_register h k a i f m s b = write_scalar-put_bytes h k a _ f m s b

word-put_bytes :
    (dst : Addr) (f : ℕ → ℕ) (m : Frame)
    → word_at dst (put_bytes dst 8 (λ k. f (k + 0)) m) ≡ header_word f 0
word-put_bytes dst f m = le_num-eq 8 _ _ (λ k l. view-put_bytes dst 8 k (λ k. f (k + 0)) m l)

-- A pointer register, with its mirror.
pub pointer_register :
    (h : Host) (k : Kind) (a i : ℕ) (f : ℕ → ℕ) (m : Frame)
    → IsScalar k f
    → AreBytes f
    → kind_size k ≡ 8
    → i < h.arch.int_arg_regs
    → let st = int_step step_pointer 0 8 i in
      let t = basic k 8 a in
      scatter_single h (held t f) t st step_pointer (addr_of st) m ≡ some (copied f st m)
unfolding scatter_single set_ptr
pointer_register h k a i f m s b e lt =
    let st = int_step step_pointer 0 8 i in
    let wrote = write_scalar-put_bytes h k a (addr_of st) f m s b in
    let wrote' : write_scalar h (addr_of st) (held (basic k 8 a) f) 8 m
        ≡ some (put_bytes (addr_of st) 8 (λ k. f (k + 0)) m) =
      rw e at wrote in
    let in_file : ltb i h.arch.int_arg_regs ≡ true = ground arith in
    rw (wrote', in_file, word-put_bytes (addr_of st) f m) refl
