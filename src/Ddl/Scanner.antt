-- ===== src/Ddl/Scanner.antt =====
-- internal/ddl/ddl.go: classes of bytes, words and keywords. The text that starts at a position is a
-- list of bytes.
use partforge.Base.{
  Text, ℕ, zero, suc, [], ◌∷◌, Bool, true, false, not, Option, none, some, Result, ok, err, ◌>>=◌,
  if◌then◌else◌, ◌&&◌, ◌||◌, leb, ◌==◌, ◌+◌, ◌-◌, null, length,
}
use partforge.Base.Scan.{starts_with, strip_prefix}

pub data DdlError : Type 0 where
  empty_statement : DdlError
  not_create_table : DdlError
  malformed_if_not_exists : DdlError
  expected_identifier : DdlError
  unterminated_identifier : DdlError
  no_engine : DdlError
  no_equals : DdlError
  no_engine_name : DdlError
  unterminated_arguments : DdlError
  unbalanced_close : DdlError
  unbalanced_open : DdlError
  unterminated_quote : DdlError
  missing_replication_arguments : DdlError
  few_replication_arguments : DdlError
  unsupported_engine : DdlError
  index_out_of_range : DdlError

-- `unicode.IsSpace(rune(b))` of a byte.
unfoldable pub is_space : ℕ → Bool
is_space b = (leb 9 b && leb b 13) || b == 32 || b == 0x85 || b == 0xA0

-- `unicode.IsLetter(rune(b))` of a byte.
unfoldable pub is_letter : ℕ → Bool
is_letter b =
    (leb 65 b && leb b 90)
    || (leb 97 b && leb b 122)
    || b == 0xAA
    || b == 0xB5
    || b == 0xBA
    || (leb 0xC0 b && leb b 0xFF && not (b == 0xD7) && not (b == 0xF7))

-- `unicode.IsDigit(rune(b))` of a byte.
unfoldable pub is_digit : ℕ → Bool
is_digit b = leb 48 b && leb b 57

unfoldable pub is_ident : ℕ → Bool
unfolding is_letter is_digit
is_ident b = b == 95 || is_letter b || is_digit b

unfoldable pub skip_spaces : Text → Text
skip_spaces [] = []
skip_spaces (c ∷ s) = let rest = skip_spaces s in if is_space c then rest else c ∷ s

-- The bytes up to the first that does not satisfy a test, and the rest.
unfoldable pub span : (ℕ → Bool) → Text → Text × Text
span test [] = ([], [])
span test (c ∷ s) =
    let (word, rest) = span test s in if test c then (c ∷ word, rest) else ([], c ∷ s)

unfoldable pub next_word : Text → Text
unfolding skip_spaces span
next_word s = (span is_ident (skip_spaces s)).0

lower : ℕ → ℕ
lower c = if leb 65 c && leb c 90 then c + 32 else c

-- What follows one letter of an ASCII keyword under simple case folding: U+017F folds to s, and
-- U+212A to k.
fold_letter : ℕ → Text → Option Text
unfolding lower
fold_letter k [] = none
fold_letter k (c ∷ s) =
    if lower c == lower k
    then some s
    else if lower k == 115
    then strip_prefix (0xC5 ∷ 0xBF ∷ []) (c ∷ s)
    else if lower k == 107
    then strip_prefix (0xE2 ∷ 0x84 ∷ 0xAA ∷ []) (c ∷ s)
    else none

folds : Text → Option Text → Bool
unfolding fold_letter
folds keyword none = false
folds [] (some s) = null s
folds (k ∷ keyword) (some s) = folds keyword (fold_letter k s)

-- `strings.EqualFold(s, keyword)` for an ASCII keyword.
unfoldable pub equal_fold : Text → Text → Bool
unfolding folds
equal_fold s keyword = folds keyword (some s)

-- Whether the keyword is next, and what is left after it, or after the spaces that were skipped.
unfoldable pub consume_keyword : Text → Text → Bool × Text
unfolding skip_spaces span equal_fold
consume_keyword keyword s =
    let (word, rest) = span is_ident (skip_spaces s) in
    if equal_fold word keyword then (true, rest) else (false, skip_spaces s)

-- The byte at a position of the statement; Go panics outside of it.
unfoldable pub ident_at : Text → ℕ → Result DdlError Bool
ident_at [] i = err index_out_of_range
ident_at (c ∷ s) zero = ok (is_ident c)
ident_at (c ∷ s) (suc i) = ident_at s i

before_ok : Text → ℕ → Result DdlError Bool
before_ok s zero = ok true
before_ok s (suc i) = ident_at s i >>= λ b. ok (not b)

after_ok : Text → ℕ → Result DdlError Bool
after_ok s after = if length s == after then ok true else ident_at s after >>= λ b. ok (not b)

-- The loop of `indexKeyword` at position `i` of the text in upper case, of which `rest` is left; after
-- a keyword inside of a longer word, `skip` bytes are passed over.
index_from : Text → Text → ℕ → ℕ → Text → Result DdlError (Option ℕ)
unfolding before_ok after_ok
index_from s keyword skip i [] = ok none
index_from s keyword (suc skip) i (c ∷ rest) = index_from s keyword skip (suc i) rest
index_from s keyword zero i (c ∷ rest) = elim (starts_with keyword (c ∷ rest)) [
  | false ↦ index_from s keyword zero (suc i) rest
  | true ↦ before_ok s i >>= λ before. after_ok s (i + length keyword) >>= λ after.
      elim (before && after) [
        | true ↦ ok (some i)
        | false ↦ index_from s keyword (length keyword - 1) (suc i) rest
      ]
]

-- The keyword is given in upper case, as every caller does.
unfoldable pub index_keyword : (Text → Text) → Text → Text → Result DdlError (Option ℕ)
unfolding index_from
index_keyword to_upper s keyword = index_from s keyword 0 0 (to_upper s)
