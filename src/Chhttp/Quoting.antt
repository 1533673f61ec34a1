-- ===== src/Chhttp/Quoting.antt =====
-- The quoting of names and strings in internal/chhttp/client.go.
use partforge.Base.{Text, ℕ, [], ◌∷◌, ◌++◌, if◌then◌else◌, ◌==◌, codes, ◌≡◌, refl}

-- `strings.ReplaceAll(s, q, q + q)` for a string `q` of one byte.
unfoldable pub doubled : ℕ → Text → Text
doubled q [] = []
doubled q (c ∷ s) = let rest = doubled q s in if c == q then q ∷ q ∷ rest else c ∷ rest

abbrev pub backquote : ℕ
backquote = 96

unfoldable pub ident : Text → Text
unfolding doubled
ident identifier = backquote ∷ doubled backquote identifier ++ backquote ∷ []

unfoldable pub string_literal : Text → Text
unfolding doubled
string_literal value = 39 ∷ doubled 39 value ++ 39 ∷ []

unfoldable pub table_sql : Text → Text → Text
unfolding ident
table_sql database table = ident database ++ 46 ∷ ident table

quotes : table_sql (codes "a`b") (codes "t") ≡ codes "`a``b`.`t`"
unfolding table_sql
quotes = refl
