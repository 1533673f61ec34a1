-- ===== src/Ddl/Arguments.antt =====
-- internal/ddl/ddl.go: lists of arguments with quotes and parentheses.
pub mod Delimited
use partforge.Base.{
  ◌-◌, not, Text, ℕ, zero, suc, List, [], ◌∷◌, ◌++◌, Bool, true, false, Result, ok, err, ◌>>=◌,
  >>=-eq-ok, if◌then◌else◌, ◌&&◌, ◌||◌, ◌==◌, map, codes, trim_space, ◌≡◌, refl, sym, ap, subst,
  ◌∙◌, Bool-cases, inl, inr, arith,
}
use partforge.Ddl.Scanner.{
  DdlError, unterminated_arguments, unbalanced_close, unbalanced_open, unterminated_quote,
}

-- The variables of both loops: the open quote or 0, whether a backslash has just been passed, and
-- the open parentheses.
pub record Scan : Type 0 where
  pub quote : ℕ
  pub escaped : Bool
  pub depth : ℕ

abbrev pub outside : ℕ → Scan
outside depth = record { quote = 0; escaped = false; depth = depth }

abbrev pub quoted : ℕ → ℕ → Scan
quoted quote depth = record { quote = quote; escaped = false; depth = depth }

unfoldable pub in_quote : ℕ → ℕ → ℕ → Scan
in_quote quote depth c =
    if c == 92
    then record { quote = quote; escaped = true; depth = depth }
    else if c == quote
    then outside depth
    else quoted quote depth

unfoldable pub is_quote : ℕ → Bool
is_quote c = c == 39 || c == 34 || c == 96

-- A byte outside of quotes.
unfoldable pub plain : ℕ → ℕ → Result DdlError Scan
unfolding is_quote
plain depth c =
    if is_quote c
    then ok (quoted c depth)
    else if c == 40
    then ok (outside (suc depth))
    else if c == 41
    then if depth == 0 then err unbalanced_close else ok (outside (depth - 1))
    else ok (outside depth)

unfoldable pub step : Scan → ℕ → Result DdlError Scan
unfolding in_quote plain
step st c =
    if st.escaped
    then ok (quoted st.quote st.depth)
    else if st.quote == 0
    then plain st.depth c
    else ok (in_quote st.quote st.depth c)

-- A comma that separates two arguments.
unfoldable pub cuts : Scan → ℕ → Bool
cuts st c = not st.escaped && st.quote == 0 && st.depth == 0 && c == 44

-- The parenthesis that ends the arguments.
unfoldable pub closes : Scan → ℕ → Bool
closes st c = not st.escaped && st.quote == 0 && st.depth == 0 && c == 41

abbrev pub add_byte : Bool → ℕ → List Text → List Text
add_byte true c args = [] ∷ args
add_byte false c [] = (c ∷ []) ∷ []
add_byte false c (arg ∷ args) = (c ∷ arg) ∷ args

unfoldable pub finish : Scan → Result DdlError (List Text)
finish st =
    if not (st.quote == 0)
    then err unterminated_quote
    else if not (st.depth == 0)
    then err unbalanced_open
    else ok ([] ∷ [])

unfoldable pub split_args : Scan → Text → Result DdlError (List Text)
unfolding step cuts finish
split_args st [] = finish st
split_args st (c ∷ s) =
    step st c >>= λ next. split_args next s >>= λ args. ok (add_byte (cuts st c) c args)

unfoldable pub split_top_level_args : Text → Result DdlError (List Text)
unfolding split_args
split_top_level_args s = split_args (outside 0) s >>= λ args. ok (map trim_space args)

abbrev pub prepend : ℕ → Text × Text → Result DdlError (Text × Text)
prepend c (args, rest) = ok (c ∷ args, rest)

-- The arguments up to the closing parenthesis, and the rest after it; the depth counts the
-- parentheses inside of the outer ones.
unfoldable pub close_parens : Scan → Text → Result DdlError (Text × Text)
unfolding step closes
close_parens st [] = err unterminated_arguments
close_parens st (c ∷ s) = elim (closes st c) [
  | true ↦ ok ([], s)
  | false ↦ step st c >>= λ next. close_parens next s >>= prepend c
]

-- `readParens` at an opening parenthesis, with what stands after it.
unfoldable pub read_parens : Text → Result DdlError (Text × Text)
unfolding close_parens
read_parens s = close_parens (outside 0) s
