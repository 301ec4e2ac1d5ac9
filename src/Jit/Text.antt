-- ===== src/Jit/Text.antt =====
-- The text side of the two assemblers, jitcode_amd64.go and jitcode_arm64.go: `fmt.Sprintf` with `%d`,
-- `strings.FieldsFunc` and `strconv.ParseInt`, as far as the assemblers use them. A text is the list of
-- its bytes. A panic is `none`.
pub mod Decimal
pub mod Tokens
use Prim.Native.Char.{code}
use go_weave.Prelude.{
  ℕ, zero, suc, ◌+◌, ◌-◌, ◌*◌, ◌/◌, ◌%◌, ◌^◌, Bool, true, false, not, ◌&&◌, ◌||◌, Option, none,
  some, List, [], ◌∷◌, ◌++◌, String, ltb, leb, ◌==◌, if◌then◌else◌, length,
}

abbrev pub Text : Type 0
Text = List ℕ

-- The bytes of an ASCII literal.
abbrev pub bytes : String → Text
bytes String.[] = []
bytes (String.◌∷◌ c s) = code c ∷ bytes s

abbrev pub text_eq : Text → Text → Bool
text_eq [] [] = true
text_eq [] (b ∷ bs) = false
text_eq (a ∷ as') [] = false
text_eq (a ∷ as') (b ∷ bs) = a == b && text_eq as' bs

abbrev pub is : Text → String → Bool
is t s = text_eq t (bytes s)

-- An `int64`; `negsuc n` is -(n + 1).
pub data ℤ : Type 0 where
  pos negsuc : ℕ → ℤ

-- The decimal digits of an unsigned number, at most `fuel` of them.
unfoldable pub format_digits : ℕ → ℕ → Text
format_digits zero n = []
format_digits (suc fuel) n = elim (ltb n 10) [
  | true ↦ (48 + n) ∷ []
  | false ↦ format_digits fuel (n / 10) ++ ((48 + n % 10) ∷ [])
]

-- A number below 2 ^ 64 has at most twenty digits.
abbrev pub format_uint : ℕ → Text
format_uint n = format_digits 20 n

-- `fmt.Sprintf`, for the verb `%d` and arguments that are not negative.
unfoldable pub sprintf : Text → List ℕ → Text
sprintf [] vs = []
sprintf (a ∷ []) vs = a ∷ []
sprintf (a ∷ b ∷ rest) [] = a ∷ b ∷ rest
sprintf (a ∷ b ∷ rest) (v ∷ vs) = elim (a == b'%' && b == b'd') [
  | true ↦ format_uint v ++ sprintf rest vs
  | false ↦ a ∷ sprintf (b ∷ rest) (v ∷ vs)
]

abbrev pub flush : Text → List Text
flush [] = []
flush (b ∷ bs) = (b ∷ bs) ∷ []

-- `strings.FieldsFunc`, with the field that has been read so far.
unfoldable pub fields : (ℕ → Bool) → Text → Text → List Text
fields is_sep cur [] = flush cur
fields is_sep cur (b ∷ bs) = elim (is_sep b) [
  | true ↦ flush cur ++ fields is_sep [] bs
  | false ↦ fields is_sep (cur ++ (b ∷ [])) bs
]

abbrev pub is_digit : ℕ → Bool
is_digit b = leb 48 b && leb b 57

unfoldable pub parse_digits : ℕ → Text → Option ℕ
parse_digits acc [] = some acc
parse_digits acc (b ∷ bs) = elim (is_digit b) [
  | true ↦ parse_digits (acc * 10 + (b - 48)) bs
  | false ↦ none
]

abbrev pub parse_uint : Text → Option ℕ
parse_uint [] = none
parse_uint (b ∷ bs) = parse_digits 0 (b ∷ bs)

abbrev pub in_range : Option ℕ → Option ℤ
in_range none = none
in_range (some n) = if ltb n (2 ^ 63) then some (pos n) else none

abbrev pub negated : Option ℕ → Option ℤ
negated none = none
negated (some n) =
    if n == 0 then some (pos 0) else if leb n (2 ^ 63) then some (negsuc (n - 1)) else none

-- `strconv.ParseInt(s, 10, 64)`.
unfoldable pub parse_int : Text → Option ℤ
parse_int [] = none
parse_int (b ∷ bs) =
    if b == b'-'
    then negated (parse_uint bs)
    else if b == b'+'
    then in_range (parse_uint bs)
    else in_range (parse_uint (b ∷ bs))

abbrev pub is_mark : ℕ → Bool
is_mark b = b == b'$' || b == b'#'

-- `parseImm`.
unfoldable pub parse_imm : Text → Option ℤ
parse_imm [] = none
parse_imm (m ∷ []) = none
parse_imm (m ∷ b ∷ bs) = if is_mark m then parse_int (b ∷ bs) else none

-- `uint32(v)`, `uint64(v)`.
abbrev pub to_u32 : ℤ → ℕ
to_u32 (pos n) = n % 2 ^ 32
to_u32 (negsuc n) = 2 ^ 32 - 1 - n % 2 ^ 32

abbrev pub to_u64 : ℤ → ℕ
to_u64 (pos n) = n % 2 ^ 64
to_u64 (negsuc n) = 2 ^ 64 - 1 - n % 2 ^ 64
