-- ===== src/Ddl/Statements/Names.antt =====
-- internal/ddl/ddl.go: `TableName` reads the name that `ForTable` writes.
use partforge.Base.{
  Text, [], ◌∷◌, ◌++◌, append_assoc, false, some, ok, ◌≡◌, refl, sym, ap, ◌∙◌, Bool-cases, inl, inr,
}
use partforge.Chhttp.Quoting.{ident, table_sql}
use partforge.Ddl.Scanner.{skip_spaces, is_space}
use partforge.Ddl.Identifiers.{read_identifier, read_name}
use partforge.Ddl.Identifiers.RoundTrip.{quote_first, read_identifier-ident}
use partforge.Ddl.Statements.{consume_head, after_dot, second_name, read_table_name}

skip_spaces-twice : (s : Text) → skip_spaces (skip_spaces s) ≡ skip_spaces s
unfolding skip_spaces
skip_spaces-twice [] = refl
skip_spaces-twice (c ∷ s) = elim (Bool-cases (is_space c)) [
  | inl e ↦ rw e (skip_spaces-twice s)
  | inr e ↦ rw (e, skip_spaces, e) refl
]

-- Spaces before an identifier do not matter.
read_identifier-skip_spaces : (s : Text) → read_identifier (skip_spaces s) ≡ read_identifier s
unfolding read_identifier
read_identifier-skip_spaces s = ap read_name (skip_spaces-twice s)

-- After the words of a statement, a quoted name of a database and a table is read back, whatever
-- bytes both have, if no backquote follows it.
pub read_table_name-table_sql :
    (q s database table after : Text)
    → consume_head q ≡ ok s
    → skip_spaces s ≡ table_sql database table ++ after
    → quote_first after ≡ false
    → read_table_name q ≡ ok (some database, table)
unfolding read_table_name after_dot second_name skip_spaces is_space table_sql
read_table_name-table_sql q s database table after head named unquoted =
    let dotted : Text = 46 ∷ ident table ++ after in
    let first : read_identifier s ≡ ok (database, dotted) =
      sym (read_identifier-skip_spaces s)
      ∙ ap read_identifier (named ∙ append_assoc (ident database) (46 ∷ ident table) after)
      ∙ read_identifier-ident database dotted refl in
    let second : read_identifier (ident table ++ after) ≡ ok (table, after) =
      read_identifier-ident table after unquoted in
    rw (head, first, second) refl
