-- ===== src/Ddl/Identifiers/RoundTrip.antt =====
-- internal/ddl/ddl.go: `readIdentifier` reads what `chhttp.Ident` has quoted.
use partforge.Base.{
  Text, [], ◌∷◌, ◌++◌, Bool, true, false, ok, ◌==◌, ◌≡◌, refl, sym, ap, ◌∙◌, append_assoc,
  Bool-cases, inl, inr, arith,
}
use partforge.Ddl.Scanner.{skip_spaces, is_space}
use partforge.Ddl.Identifiers.{read_quoted, read_identifier, with_byte}
use partforge.Chhttp.Quoting.{backquote, doubled, ident}

-- Whether the first byte is a backquote.
abbrev pub quote_first : Text → Bool
quote_first [] = false
quote_first (c ∷ s) = c == backquote

read_quoted-end : (rest : Text) → quote_first rest ≡ false → read_quoted true rest ≡ ok ([], rest)
unfolding read_quoted
read_quoted-end [] h = refl
read_quoted-end (c ∷ rest) h = rw (h, read_quoted) refl

read_quoted-doubled :
    (name rest : Text)
    → quote_first rest ≡ false
    → read_quoted false (doubled backquote name ++ backquote ∷ rest) ≡ ok (name, rest)
unfolding read_quoted doubled with_byte
read_quoted-doubled [] rest h = read_quoted-end rest h
read_quoted-doubled (c ∷ name) rest h = elim (Bool-cases (c == backquote)) [
  | inl same ↦
      rw (same, doubled, read_quoted)
        (ap (λ r. with_byte backquote r) (read_quoted-doubled name rest h)
          ∙ ap (λ x. ok (x ∷ name, rest)) (sym (ground (arith, same))))
  | inr other ↦
      rw (other, doubled, read_quoted, other)
        (ap (λ r. with_byte c r) (read_quoted-doubled name rest h))
]

-- A quoted identifier is read back, whatever bytes it has, if no backquote follows it.
pub read_identifier-ident :
    (name rest : Text)
    → quote_first rest ≡ false
    → read_identifier (ident name ++ rest) ≡ ok (name, rest)
unfolding read_identifier ident skip_spaces is_space
read_identifier-ident name rest h =
    ap (λ s. read_quoted false s) (append_assoc (doubled backquote name) (backquote ∷ []) rest)
    ∙ read_quoted-doubled name rest h
