-- ===== src/Materialize/Bytes.antt =====
-- The memory of a call: what a read finds after a write, and the bytes of a word.
use mathlib.Core.Path.{fun_ext}
use go_weave.Prelude.{
  ℕ, zero, suc, ◌+◌, ◌-◌, ◌*◌, ◌/◌, ◌^◌, ◌≤◌, ◌<◌, ◌≡◌, refl, ap, ◌∙◌, ◌⊎◌, inl, inr, arith, true,
  false, ◌&&◌, ltb, leb, if◌then◌else◌, Bool-cases,
}
use go_weave.Abi.Spread.{IsWordSize}
use go_weave.Materialize.Memory.{
  Area, int_file, float_file, stack_copy, gather_buf, Addr, Frame, same_area, view, put_bytes,
  le_num, byte_of, is_word_size,
}
use go_weave.Materialize.Values.{sign_extend}

pub same_area_self : (a : Area) → same_area a a ≡ true
same_area_self int_file = refl
same_area_self float_file = refl
same_area_self stack_copy = refl
same_area_self gather_buf = refl

-- The two ranges share no byte.
abbrev pub AreApart : Addr → ℕ → Addr → ℕ → Type 0
AreApart p n q l = (same_area p.area q.area ≡ false) ⊎ ((p.off + n ≤ q.off) ⊎ (q.off + l ≤ p.off))

pub view-put_bytes :
    (p : Addr) (n k : ℕ) (f : ℕ → ℕ) (m : Frame) → k < n → view p (put_bytes p n f m) k ≡ f k
unfolding put_bytes
view-put_bytes p n k f m h =
    let back : p.off + k - p.off ≡ k = omega arith in
    rw (same_area_self p.area) (ground (arith, ap f back))

pub view-put_apart :
    (p q : Addr) (n l k : ℕ) (f : ℕ → ℕ) (m : Frame)
    → AreApart p n q l
    → k < l
    → view q (put_bytes p n f m) k ≡ view q m k
unfolding put_bytes
view-put_apart p q n l k f m (inl e) h = rw e refl
view-put_apart p q n l k f m (inr (inl e)) h = ground arith
view-put_apart p q n l k f m (inr (inr e)) h = ground arith

-- Only the bytes below `n` count.
pub put_bytes-eq :
    (p : Addr) (n : ℕ) (f g : ℕ → ℕ) (m : Frame)
    → ((k : ℕ) → k < n → f k ≡ g k)
    → put_bytes p n f m ≡ put_bytes p n g m
unfolding put_bytes
put_bytes-eq p n f g m h =
    ap (λ (b : Area → ℕ → ℕ). record m { bytes = b }) (fun_ext (λ a. fun_ext (λ k. each a k)))
  where
    each :
        (a : Area) (k : ℕ)
        → (if same_area p.area a && (leb p.off k && ltb k (p.off + n))
            then f (k - p.off)
            else m.bytes a k)
          ≡ (if same_area p.area a && (leb p.off k && ltb k (p.off + n))
              then g (k - p.off)
              else m.bytes a k)
    each a k = ground (arith, λ (l : k - p.off < n). h (k - p.off) l)

pub le_num-eq : (n : ℕ) (f g : ℕ → ℕ) → ((k : ℕ) → k < n → f k ≡ g k) → le_num n f ≡ le_num n g
unfolding le_num
le_num-eq zero f g h = refl
le_num-eq (suc n) f g h =
    let a = h 0 (omega arith) in
    let b = le_num-eq n (λ k. f (k + 1)) (λ k. g (k + 1)) (λ k l. h (k + 1) (omega arith)) in
    omega arith

-- The bytes of a value are bytes.
abbrev pub AreBytes : (ℕ → ℕ) → Type 0
AreBytes f = (k : ℕ) → f k < 256

pub byte_of-le_num : (n k : ℕ) (f : ℕ → ℕ) → AreBytes f → k < n → byte_of (le_num n f) k ≡ f k
unfolding byte_of le_num
byte_of-le_num zero k f b h = elim h [ ]
byte_of-le_num (suc n) zero f b h = omega (arith, b 0)
byte_of-le_num (suc n) (suc k) f b h =
    let q : (f 0 + 256 * le_num n (λ k. f (k + 1))) / 256 ≡ le_num n (λ k. f (k + 1)) =
      omega (arith, b 0) in
    let s : k + 1 ≡ suc k = omega arith in
    rw q (byte_of-le_num n k (λ k. f (k + 1)) (λ k. b (k + 1)) (omega arith) ∙ ap f s)

-- `256 ^ n * c`.
unfoldable scaled : ℕ → ℕ → ℕ
scaled zero c = c
scaled (suc n) c = 256 * scaled n c

byte_of-scaled : (n k x c : ℕ) → k < n → byte_of (x + scaled n c) k ≡ byte_of x k
unfolding byte_of scaled
byte_of-scaled zero k x c h = elim h [ ]
byte_of-scaled (suc n) zero x c h = omega arith
byte_of-scaled (suc n) (suc k) x c h =
    let q : (x + 256 * scaled n c) / 256 ≡ x / 256 + scaled n c = omega arith in
    rw q (byte_of-scaled n k (x / 256) c (omega arith))

abbrev extension : ℕ → ℕ → ℕ
extension n c = 2 ^ 64 - 2 ^ (8 * n)

extended : (n : ℕ) → IsWordSize n → (c : ℕ) × (2 ^ 64 - 2 ^ (8 * n) ≡ scaled n c)
unfolding scaled
extended n (inl e) = (2 ^ 56 - 1, rw e refl)
extended n (inr (inl e)) = (2 ^ 48 - 1, rw e refl)
extended n (inr (inr (inl e))) = (2 ^ 32 - 1, rw e refl)
extended n (inr (inr (inr e))) = (0, rw e refl)

-- Sign extension leaves the low bytes.
pub byte_of-sign_extend :
    (n k x : ℕ) → IsWordSize n → k < n → byte_of (sign_extend n x) k ≡ byte_of x k
byte_of-sign_extend n k x s h =
    let (c, e) = extended n s in
    elim (Bool-cases (ltb x (2 ^ (8 * n - 1)))) [
      | inl y ↦ rw y refl
      | inr y ↦ rw (y, e) (byte_of-scaled n k x c h)
    ]

pub IsWordSize-is_word_size : (n : ℕ) → IsWordSize n → is_word_size n ≡ true
IsWordSize-is_word_size n (inl e) = rw e
IsWordSize-is_word_size n (inr (inl e)) = rw e
IsWordSize-is_word_size n (inr (inr (inl e))) = rw e
IsWordSize-is_word_size n (inr (inr (inr e))) = rw e
