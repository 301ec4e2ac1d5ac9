-- ===== src/Jit/Text/Tokens.antt =====
-- Splitting a line that a number has been printed into.
use go_weave.Prelude.{ℕ, ◌≡◌, refl, ap, ◌∙◌, Bool, false, List, [], ◌∷◌, ◌++◌, All}
use mathlib.Core.List.{append_assoc, append-nil}
use go_weave.Jit.Text.{Text, fields, format_uint}
use go_weave.Jit.Text.Decimal.{IsDigit, format-All}

module _ (is_sep : ℕ → Bool) where
  fields-plain :
      (cur ds rest : Text)
      → All (λ b. is_sep b ≡ false) ds
      → fields is_sep cur (ds ++ rest) ≡ fields is_sep (cur ++ ds) rest
  unfolding fields
  fields-plain cur [] rest h = rw append-nil refl
  fields-plain cur (d ∷ ds) rest h =
      rw (fields, h.0)
        (fields-plain (cur ++ (d ∷ [])) ds rest h.1
          ∙ ap (λ c. fields is_sep c rest) (append_assoc cur (d ∷ []) ds))

All-weaken {κ} : (P Q : ℕ → Type κ) (xs : List ℕ) → ((b : ℕ) → P b → Q b) → All P xs → All Q xs
All-weaken P Q [] f h = tt
All-weaken P Q (x ∷ xs) f h = (f x h.0, All-weaken P Q xs f h.1)

-- A printed number goes into the field that has begun, whole.
pub fields-format :
    (is_sep : ℕ → Bool) (cur : Text) (n : ℕ) (rest : Text)
    → ((b : ℕ) → IsDigit b → is_sep b ≡ false)
    → fields is_sep cur (format_uint n ++ rest) ≡ fields is_sep (cur ++ format_uint n) rest
fields-format is_sep cur n rest apart =
    fields-plain is_sep cur (format_uint n) rest
      (All-weaken IsDigit _ (format_uint n) apart (format-All n))
