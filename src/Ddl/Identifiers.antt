-- ===== src/Ddl/Identifiers.antt =====
-- internal/ddl/ddl.go: the identifiers of a statement.
pub mod RoundTrip
use partforge.Base.{
  Text, ℕ, zero, suc, List, [], ◌∷◌, ◌++◌, Bool, true, false, not, Result, ok, err, ◌>>=◌,
  >>=-eq-ok, if◌then◌else◌, ◌&&◌, ◌||◌, ◌==◌, null, codes, ◌≡◌, refl, sym, ap, subst, ◌∙◌,
  Bool-cases, inl, inr, arith,
}
use partforge.Ddl.Scanner.{
  DdlError, expected_identifier, unterminated_identifier, is_space, skip_spaces, span,
}
use partforge.Chhttp.Quoting.{backquote, doubled, ident}

unfoldable pub with_byte : ℕ → Result DdlError (Text × Text) → Result DdlError (Text × Text)
with_byte c read = read >>= λ (name, rest). ok (c ∷ name, rest)

-- After the opening quote; `closing` says that the last byte was a quote.
unfoldable pub read_quoted : Bool → Text → Result DdlError (Text × Text)
unfolding with_byte
read_quoted false [] = err unterminated_identifier
read_quoted true [] = ok ([], [])
read_quoted false (c ∷ s) = elim (c == backquote) [
  | true ↦ read_quoted true s
  | false ↦ with_byte c (read_quoted false s)
]
read_quoted true (c ∷ s) = elim (c == backquote) [
  | true ↦ with_byte backquote (read_quoted false s)
  | false ↦ ok ([], c ∷ s)
]

unfoldable pub in_word : ℕ → Bool
in_word c = not (is_space c || c == 46 || c == 40)

named : Text × Text → Result DdlError (Text × Text)
named (name, rest) = if null name then err expected_identifier else ok (name, rest)

unfoldable pub read_name : Text → Result DdlError (Text × Text)
unfolding read_quoted in_word named
read_name [] = err expected_identifier
read_name (c ∷ s) = elim (c == backquote) [
  | true ↦ read_quoted false s
  | false ↦ named (span in_word (c ∷ s))
]

-- The identifier and the rest of the text.
unfoldable pub read_identifier : Text → Result DdlError (Text × Text)
unfolding read_name
read_identifier s = read_name (skip_spaces s)
