-- ===== src/Materialize/Headers.antt =====
-- The cases of `scatterValue` and `scatterIface` of materialize.go that take a value apart by its
-- words, against the plain copy of the value's bytes.
use go_weave.Prelude.{
  ℕ, ◌+◌, ◌-◌, ◌*◌, ◌^◌, ◌<◌, ◌≡◌, refl, sym, ap, ◌∙◌, ◌⊎◌, inl, inr, arith, true, false, Option,
  some, List, [], ◌∷◌, ltb, if◌then◌else◌,
}
use go_weave.Abi.Types.{Arch, complex128, string, slice, GoType, basic}
use go_weave.Abi.Assign.{StepKind, step_int_reg, step_pointer, Step}
use go_weave.Abi.Parts.{int_step, float_step}
use go_weave.Materialize.Memory.{
  Addr, int_file, float_file, Frame, put_bytes, step_addr, le_num, byte_of, word_at, write_word,
  set_ptr, and_then, mirror_step_ptr,
}
use go_weave.Materialize.Bytes.{
  AreBytes, AreApart, put_bytes-eq, le_num-eq, view-put_bytes, view-put_apart, byte_of-le_num,
}
use go_weave.Materialize.Values.{GoValue, held, Host}
use go_weave.Materialize.Results.{scatter_several, write_words, header_word, scatter_iface}
use go_weave.Materialize.Copies.{with_ptr, copied_all}

-- The word at offset `o` of the value, written as a word and as bytes.
header_put :
    (p : Addr) (f : ℕ → ℕ) (o : ℕ) (m : Frame)
    → AreBytes f
    → put_bytes p 8 (byte_of (header_word f o)) m ≡ put_bytes p 8 (λ k. f (k + o)) m
header_put p f o m b =
    put_bytes-eq p 8 _ _ m (λ k l. byte_of-le_num 8 k (λ k. f (k + o)) (λ k. b (k + o)) l)

abbrev int_at : ℕ → Addr
int_at i = record { area = int_file; off = 8 * i }

abbrev float_at : ℕ → Addr
float_at i = record { area = float_file; off = 8 * i }

word-put_bytes :
    (p : Addr) (f : ℕ → ℕ) (o : ℕ) (m : Frame)
    → word_at p (put_bytes p 8 (λ k. f (k + o)) m) ≡ header_word f o
word-put_bytes p f o m = le_num-eq 8 _ _ (λ k l. view-put_bytes p 8 k (λ k. f (k + o)) m l)

word-put_apart :
    (p q : Addr) (g : ℕ → ℕ) (m : Frame)
    → AreApart q 8 p 8
    → word_at p (put_bytes q 8 g m) ≡ word_at p m
word-put_apart p q g m h = le_num-eq 8 _ _ (λ k l. view-put_apart q p 8 8 k g m h l)

-- The registers of a header, from integer register `i` on.
abbrev first_word : ℕ → Step
first_word i = int_step step_pointer 0 8 i

abbrev second_word : ℕ → Step
second_word i = int_step step_int_reg 8 8 (i + 1)

abbrev third_word : ℕ → Step
third_word i = int_step step_int_reg 16 8 (i + 1 + 1)

in_file : (i n : ℕ) → i < n → ltb i n ≡ true
in_file i n h = ground arith

int_addr :
    (arch : Arch) (k : StepKind) (o i : ℕ)
    → i < arch.int_arg_regs
    → (k ≡ step_int_reg) ⊎ (k ≡ step_pointer)
    → step_addr arch (int_step k o 8 i) ≡ some (int_at i)
unfolding step_addr
int_addr arch k o i h (inl e) = rw (e, in_file i arch.int_arg_regs h) refl
int_addr arch k o i h (inr e) = rw (e, in_file i arch.int_arg_regs h) refl

float_addr :
    (arch : Arch) (o n i : ℕ)
    → i < arch.float_arg_regs
    → step_addr arch (float_step o n i) ≡ some (float_at i)
unfolding step_addr
float_addr arch o n i h = rw (in_file i arch.float_arg_regs h) refl

write_words_step :
    (h : Host) (st : Step) (sts : List Step) (w : ℕ) (ws : List ℕ) (p : Addr) (m : Frame)
    → st.size ≡ 8
    → step_addr h.arch st ≡ some p
    → write_words h (st ∷ sts) (w ∷ ws) m ≡ write_words h sts ws (put_bytes p 8 (byte_of w) m)
unfolding write_words write_word
write_words_step h st sts w ws p m e at = rw (at, e) refl

mirror-first :
    (arch : Arch) (i : ℕ) (m : Frame)
    → i < arch.int_arg_regs
    → mirror_step_ptr arch (first_word i) m ≡ some (with_ptr i (word_at (int_at i) m) m)
unfolding mirror_step_ptr set_ptr
mirror-first arch i m lt =
    rw (int_addr arch step_pointer 0 i lt (inr refl), in_file i arch.int_arg_regs lt) refl

put_bytes-with_ptr :
    (q : Addr) (n : ℕ) (g : ℕ → ℕ) (r w : ℕ) (m : Frame)
    → put_bytes q n g (with_ptr r w m) ≡ with_ptr r w (put_bytes q n g m)
unfolding put_bytes
put_bytes-with_ptr q n g r w m = refl

next_apart : (i : ℕ) → AreApart (int_at (i + 1)) 8 (int_at i) 8
next_apart i = inr (inr (omega arith))

third_apart : (i : ℕ) → AreApart (int_at (i + 1 + 1)) 8 (int_at i) 8
third_apart i = inr (inr (omega arith))

module _ (h : Host) (f : ℕ → ℕ) (m : Frame) (b : AreBytes f) where
  abbrev words_from : ℕ → Frame → Frame
  words_from i m =
      put_bytes (int_at (i + 1)) 8 (λ k. f (k + 8)) (put_bytes (int_at i) 8 (λ k. f (k + 0)) m)

  two_words :
      (i : ℕ) (sts : List Step) (ws : List ℕ)
      → i + 1 < h.arch.int_arg_regs
      → write_words h
          (first_word i ∷ second_word i ∷ sts)
          (header_word f 0 ∷ header_word f 8 ∷ ws)
          m
        ≡ write_words h sts ws (words_from i m)
  two_words i sts ws lt =
      write_words_step h (first_word i) _ _ _ (int_at i) m refl
        (int_addr h.arch step_pointer 0 i (omega arith) (inr refl))
      ∙ write_words_step h (second_word i) _ _ _ (int_at (i + 1)) _ refl
          (int_addr h.arch step_int_reg 8 (i + 1) lt (inl refl))
      ∙ ap (write_words h sts ws) (
          header_put (int_at (i + 1)) f 8 _ b
          ∙ ap (put_bytes (int_at (i + 1)) 8 (λ k. f (k + 8))) (header_put (int_at i) f 0 m b))

  first_word_kept : (i : ℕ) → word_at (int_at i) (words_from i m) ≡ header_word f 0
  first_word_kept i =
      word-put_apart (int_at i) (int_at (i + 1)) _ _ (next_apart i)
      ∙ word-put_bytes (int_at i) f 0 m

  pub string_registers :
      (a i : ℕ)
      → i + 1 < h.arch.int_arg_regs
      → scatter_several h
          (held (basic string 16 a) f)
          (some string)
          (first_word i)
          (second_word i)
          []
          m
        ≡ some (copied_all f (first_word i ∷ second_word i ∷ []) m)
  unfolding scatter_several write_words
  string_registers a i lt =
      ap (λ (o : Option Frame). and_then o (mirror_step_ptr h.arch (first_word i)))
        (two_words i [] [] lt)
      ∙ mirror-first h.arch i (words_from i m) (omega arith)
      ∙ ap (λ w. some (with_ptr i w (words_from i m))) (first_word_kept i)
      ∙ ap some (sym (put_bytes-with_ptr (int_at (i + 1)) 8 _ i (header_word f 0) _))

  abbrev slice_words : ℕ → Frame
  slice_words i = put_bytes (int_at (i + 1 + 1)) 8 (λ k. f (k + 16)) (words_from i m)

  pub slice_registers :
      (a i : ℕ)
      → i + 2 < h.arch.int_arg_regs
      → scatter_several h
          (held (basic slice 24 a) f)
          (some slice)
          (first_word i)
          (second_word i)
          (third_word i ∷ [])
          m
        ≡ some (copied_all f (first_word i ∷ second_word i ∷ third_word i ∷ []) m)
  unfolding scatter_several write_words
  slice_registers a i lt =
      ap (λ (o : Option Frame). and_then o (mirror_step_ptr h.arch (first_word i)))
        (two_words i (third_word i ∷ []) (header_word f 16 ∷ []) (omega arith)
          ∙ write_words_step h (third_word i) [] _ [] (int_at (i + 1 + 1)) _ refl
              (int_addr h.arch step_int_reg 16 (i + 1 + 1) (omega arith) (inl refl))
          ∙ ap some (header_put (int_at (i + 1 + 1)) f 16 _ b))
      ∙ mirror-first h.arch i (slice_words i) (omega arith)
      ∙ ap (λ w. some (with_ptr i w (slice_words i)))
          (word-put_apart (int_at i) (int_at (i + 1 + 1)) _ _ (third_apart i) ∙ first_word_kept i)
      ∙ ap some (
          sym (
            ap (put_bytes (int_at (i + 1 + 1)) 8 (λ k. f (k + 16)))
              (put_bytes-with_ptr (int_at (i + 1)) 8 _ i (header_word f 0) _)
            ∙ put_bytes-with_ptr (int_at (i + 1 + 1)) 8 _ i (header_word f 0) _))

  pub complex_registers :
      (a j : ℕ)
      → j + 1 < h.arch.float_arg_regs
      → scatter_several h
          (held (basic complex128 16 a) f)
          (some complex128)
          (float_step 0 8 j)
          (float_step 8 8 (j + 1))
          []
          m
        ≡ some (copied_all f (float_step 0 8 j ∷ float_step 8 8 (j + 1) ∷ []) m)
  unfolding scatter_several
  complex_registers a j lt =
      rw (float_addr h.arch 0 8 j (omega arith), float_addr h.arch 8 8 (j + 1) lt)
        (ap some (
          header_put (float_at (j + 1)) f 8 _ b
          ∙ ap (put_bytes (float_at (j + 1)) 8 (λ k. f (k + 8)))
              (put_bytes-eq (float_at j) 8 _ _ m (λ k l. low k l))))
    where
      low : (k : ℕ) → k < 8 → byte_of (le_num 8 f) k ≡ f (k + 0)
      low k l = let e : k ≡ k + 0 = omega arith in byte_of-le_num 8 k f b l ∙ ap f e

-- The two words of an interface as bytes.
abbrev pub iface_bytes : ℕ × ℕ → ℕ → ℕ
iface_bytes ws k = if ltb k 8 then byte_of ws.0 k else byte_of ws.1 (k - 8)

pub le_num-byte_of : (w : ℕ) → w < 2 ^ 64 → le_num 8 (byte_of w) ≡ w
unfolding le_num byte_of
le_num-byte_of w h = omega arith

iface_data : (ws : ℕ × ℕ) (k : ℕ) → byte_of ws.1 k ≡ iface_bytes ws (k + 8)
iface_data ws k =
    let late : ltb (k + 8) 8 ≡ false = ground arith in
    let back : k + 8 - 8 ≡ k = omega arith in rw (late, back) refl

iface_tab : (ws : ℕ × ℕ) (k : ℕ) → k < 8 → byte_of ws.0 k ≡ iface_bytes ws (k + 0)
iface_tab ws k h =
    let e : k + 0 ≡ k = omega arith in
    let early : ltb k 8 ≡ true = ground arith in rw (e, early) refl

pub iface_word : (ws : ℕ × ℕ) → ws.1 < 2 ^ 64 → header_word (iface_bytes ws) 8 ≡ ws.1
iface_word ws small = sym (le_num-eq 8 _ _ (λ k l. iface_data ws k)) ∙ le_num-byte_of ws.1 small

pub iface_registers :
    (h : Host) (v : GoValue) (t : GoType) (i : ℕ) (m : Frame)
    → i + 1 < h.arch.int_arg_regs
    → (h.box t v).1 < 2 ^ 64
    → scatter_iface h v t (int_step step_int_reg 0 8 i ∷ int_step step_pointer 8 8 (i + 1) ∷ []) m
      ≡ some (
          copied_all
            (iface_bytes (h.box t v))
            (int_step step_int_reg 0 8 i ∷ int_step step_pointer 8 8 (i + 1) ∷ [])
            m)
unfolding scatter_iface set_ptr
iface_registers h v t i m lt small =
    let ws = h.box t v in
    let word = iface_word ws small in
    let puts : put_bytes (int_at (i + 1)) 8 (byte_of ws.1) (put_bytes (int_at i) 8 (byte_of ws.0) m)
        ≡ put_bytes (int_at (i + 1)) 8 (λ k. iface_bytes ws (k + 8))
            (put_bytes (int_at i) 8 (λ k. iface_bytes ws (k + 0)) m) =
      put_bytes-eq (int_at (i + 1)) 8 _ _ _ (λ k l. iface_data ws k)
      ∙ ap (put_bytes (int_at (i + 1)) 8 (λ k. iface_bytes ws (k + 8)))
          (put_bytes-eq (int_at i) 8 _ _ m (λ k l. iface_tab ws k l)) in
    rw
      (
        int_addr h.arch step_int_reg 0 i (omega arith) (inl refl),
        int_addr h.arch step_pointer 8 (i + 1) lt (inr refl),
        in_file (i + 1) h.arch.int_arg_regs lt,
      )
      (ap (λ (x : Frame). some (with_ptr (i + 1) ws.1 x)) puts
        ∙ ap
            (λ w. some (
              with_ptr (i + 1) w (
                put_bytes (int_at (i + 1)) 8 (λ k. iface_bytes ws (k + 8))
                  (put_bytes (int_at i) 8 (λ k. iface_bytes ws (k + 0)) m))))
            (sym word))
