-- ===== src/Jit/Module/Bitmap.antt =====
-- The stack maps that the runtime finds in a generated module.
use go_weave.Prelude.{
  ℕ, zero, suc, ◌+◌, ◌/◌, ◌%◌, ◌<◌, ◌≤◌, ◌≡◌, ◌≢◌, ◌⊎◌, refl, sym, ap, ◌∙◌, arith, bit_or, Bool,
  true, false, ◌||◌, some, ltb, leb, ◌&&◌, ◌==◌, if◌then◌else◌, Bool-cases, inl, inr,
}
use go_weave.Prelude.Bits.{has_bit, one_shl, has_bit-set}
use go_weave.Jit.Module.{Buf, set_at, store_byte, store_le, mark_bits, bind}

abbrev pub with_bytes : Buf → (ℕ → ℕ) → Buf
with_bytes b f = record b { byte_at = f }

store_byte-fits :
    (k v : ℕ) (b : Buf) → k < b.size → store_byte k v b ≡ some (with_bytes b (set_at b.byte_at k v))
unfolding store_byte
store_byte-fits k v b h =
    let fits : ltb k b.size ≡ true = ground arith in rw (store_byte, fits) refl

-- The bytes after the stores.
unfoldable pub put_le : ℕ → ℕ → ℕ → (ℕ → ℕ) → ℕ → ℕ
put_le zero off v f = f
put_le (suc n) off v f = put_le n (off + 1) (v / 256) (set_at f off (v % 256))

pub store_le-fits :
    (n off v : ℕ) (b : Buf)
    → off + n ≤ b.size
    → store_le n off v b ≡ some (with_bytes b (put_le n off v b.byte_at))
unfolding store_le put_le
store_le-fits zero off v b h = refl
store_le-fits (suc n) off v b h =
    ap (λ o. bind o (λ b. store_le n (off + 1) (v / 256) b))
      (store_byte-fits off (v % 256) b (omega arith))
    ∙ store_le-fits n (off + 1) (v / 256) (with_bytes b (set_at b.byte_at off (v % 256)))
        (omega arith)

unfoldable pub marks : (ℕ → Bool) → ℕ → ℕ → (ℕ → ℕ) → ℕ → ℕ
marks ptr i zero f = f
marks ptr i (suc n) f =
    marks ptr (i + 1) n
      (if ptr i then set_at f (8 + i / 8) (bit_or (f (8 + i / 8)) (one_shl 8 (i % 8))) else f)

pub mark_bits-fits :
    (ptr : ℕ → Bool) (i n : ℕ) (b : Buf)
    → 8 + (i + n + 7) / 8 ≤ b.size
    → mark_bits ptr i n b ≡ some (with_bytes b (marks ptr i n b.byte_at))
unfolding mark_bits marks
mark_bits-fits ptr i zero b h = refl
mark_bits-fits ptr i (suc n) b h = elim (Bool-cases (ptr i)) [
  | inl e ↦
      rw (mark_bits, marks, e)
        (ap (λ o. bind o (λ b. mark_bits ptr (i + 1) n b))
            (store_byte-fits (8 + i / 8) (bit_or (b.byte_at (8 + i / 8)) (one_shl 8 (i % 8))) b
              (omega arith))
          ∙ mark_bits-fits ptr (i + 1) n _ (omega arith))
  | inr e ↦ rw (mark_bits, marks, e) (mark_bits-fits ptr (i + 1) n b (omega arith))
]

-- Bytes that are not in the range stay.
pub put_le-apart :
    (n off v : ℕ) (f : ℕ → ℕ) (k : ℕ) → (k < off) ⊎ (off + n ≤ k) → put_le n off v f k ≡ f k
unfolding put_le
put_le-apart zero off v f k h = refl
put_le-apart (suc n) off v f k h =
    put_le-apart n (off + 1) (v / 256) (set_at f off (v % 256)) k
      (elim h [ inl a ↦ inl (omega arith) | inr a ↦ inr (omega arith) ])
    ∙ ground arith

pub marks-apart :
    (ptr : ℕ → Bool) (i n : ℕ) (f : ℕ → ℕ) (k : ℕ)
    → (k < 8) ⊎ (8 + (i + n + 7) / 8 ≤ k)
    → marks ptr i n f k ≡ f k
unfolding marks
marks-apart ptr i zero f k h = refl
marks-apart ptr i (suc n) f k h =
    let away : k ≢ 8 + i / 8 = (λ e. elim h [ inl a ↦ omega arith | inr a ↦ omega arith ]) in
    marks-apart ptr (i + 1) n _ k (elim h [ inl a ↦ inl a | inr a ↦ inr (omega arith) ])
    ∙ ground arith

-- The bit of word `j`, as `stackmapdata` and the collector read it.
abbrev pub bit_at : (ℕ → ℕ) → ℕ → Bool
bit_at f j = has_bit 8 (f (8 + j / 8)) (j % 8)

set_same : (f : ℕ → ℕ) (a v : ℕ) → set_at f a v a ≡ v
set_same f a v = ground arith

set_bit :
    (f : ℕ → ℕ) (i j : ℕ)
    → bit_at (set_at f (8 + i / 8) (bit_or (f (8 + i / 8)) (one_shl 8 (i % 8)))) j
      ≡ ((i == j) || bit_at f j)
set_bit f i j = elim (Bool-cases (i / 8 == j / 8)) [
  | inl e ↦
      let q : j / 8 ≡ i / 8 = ground arith in
      let here : set_at f (8 + i / 8) (bit_or (f (8 + i / 8)) (one_shl 8 (i % 8))) (8 + j / 8)
          ≡ bit_or (f (8 + j / 8)) (one_shl 8 (i % 8)) =
        rw q (set_same f (8 + i / 8) (bit_or (f (8 + i / 8)) (one_shl 8 (i % 8)))) in
      let test : (i % 8 == j % 8) ≡ (i == j) = ground arith in
      ap (λ v. has_bit 8 v (j % 8)) here
      ∙ has_bit-set 8 (f (8 + j / 8)) (i % 8) (j % 8) (omega arith) (omega arith)
      ∙ ap (λ b. b || bit_at f j) test
  | inr e ↦
      let away : set_at f (8 + i / 8) (bit_or (f (8 + i / 8)) (one_shl 8 (i % 8))) (8 + j / 8)
          ≡ f (8 + j / 8) =
        ground arith in
      let test : (i == j) ≡ false = ground arith in
      ap (λ v. has_bit 8 v (j % 8)) away ∙ ap (λ b. b || bit_at f j) (sym test)
]

abbrev pub in_range : (ℕ → Bool) → ℕ → ℕ → ℕ → Bool
in_range ptr i n j = leb i j && ltb j (i + n) && ptr j

abbrev once : (ℕ → Bool) → ℕ → (ℕ → ℕ) → ℕ → ℕ
once ptr i f =
    if ptr i then set_at f (8 + i / 8) (bit_or (f (8 + i / 8)) (one_shl 8 (i % 8))) else f

once-bit :
    (ptr : ℕ → Bool) (i : ℕ) (f : ℕ → ℕ) (j : ℕ)
    → bit_at (once ptr i f) j ≡ (((i == j) && ptr i) || bit_at f j)
once-bit ptr i f j = elim (Bool-cases (ptr i)) [
  | inl e ↦ rw e (set_bit f i j ∙ ground arith)
  | inr e ↦ rw e (ground arith)
]

pub marks-bit :
    (ptr : ℕ → Bool) (i n : ℕ) (f : ℕ → ℕ) (j : ℕ)
    → bit_at (marks ptr i n f) j ≡ (in_range ptr i n j || bit_at f j)
unfolding marks
marks-bit ptr i zero f j = ground arith
marks-bit ptr i (suc n) f j =
    marks-bit ptr (i + 1) n (once ptr i f) j
    ∙ ap (λ b. in_range ptr (i + 1) n j || b) (once-bit ptr i f j)
    ∙ elim (Bool-cases (i == j)) [
      | inl e ↦ let here : i ≡ j = ground arith in rw here (ground arith)
      | inr e ↦ ground arith
    ]
