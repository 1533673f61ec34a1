-- ===== src/Ddl/Statements.antt =====
-- internal/ddl/ddl.go: the rewriting of CREATE TABLE statements.
pub mod Names
use partforge.Base.{
  Text, ℕ, zero, suc, List, [], ◌∷◌, ◌++◌, not, Option, none, some, Result, ok, err, guard, ◌>>=◌,
  ◌>>◌, if◌then◌else◌, ◌&&◌, ◌==◌, ◌+◌, ◌-◌, null, length, take, codes, trim_space,
}
use partforge.Base.Scan.{strip_prefix, ends_with, join}
use partforge.Chhttp.Quoting.{table_sql}
use partforge.Ddl.Scanner.{
  DdlError, empty_statement, not_create_table, malformed_if_not_exists, no_engine, no_equals,
  no_engine_name, missing_replication_arguments, few_replication_arguments, unsupported_engine,
  is_ident, skip_spaces, span, next_word, equal_fold, consume_keyword, index_keyword,
}
use partforge.Ddl.Arguments.{split_top_level_args, read_parens}
use partforge.Ddl.Identifiers.{read_identifier}

unfoldable pub drop : ℕ → Text → Text
drop zero s = s
drop (suc n) [] = []
drop (suc n) (c ∷ s) = drop n s

-- `strings.TrimSuffix(s, ";")`
unfoldable pub trim_semicolon : Text → Text
trim_semicolon s = if ends_with (codes ";") s then take (length s - 1) s else s

-- The engine of a statement, with the text before and after it.
pub record Engine : Type 0 where
  pub before : Text
  pub name : Text
  pub args : Option Text
  pub after : Text

engine_args : Text → Result DdlError (Option Text × Text)
engine_args s = elim (skip_spaces s) [
  | [] ↦ ok (none, s)
  | c ∷ rest ↦
      if c == 40
      then read_parens rest >>= (λ (args, after). ok (some args, after))
      else ok (none, s)
]

-- At the name of the engine.
engine_at : Text → Text → Result DdlError Engine
unfolding engine_args
engine_at q s =
    let (name, rest) = span is_ident s in
    guard (not (null name)) no_engine_name >> engine_args rest >>= λ (args, after).
    ok (record { before = take (length q - length s) q; name = name; args = args; after = after })

equals_at : Text → Text → Result DdlError Engine
unfolding engine_at
equals_at q [] = err no_equals
equals_at q (c ∷ s) = if c == 61 then engine_at q (skip_spaces s) else err no_equals

found_engine : Text → Option ℕ → Result DdlError Engine
unfolding equals_at
found_engine q none = err no_engine
found_engine q (some idx) = equals_at q (skip_spaces (drop (idx + 6) q))

without_two : Text → List Text → Result DdlError Text
without_two base (_ ∷ _ ∷ []) = ok base
without_two base (_ ∷ _ ∷ arg ∷ args) =
    ok (base ++ codes "(" ++ join (codes ", ") (arg ∷ args) ++ codes ")")
without_two base _ = err few_replication_arguments

replicated_engine : Text → Option Text → Result DdlError Text
unfolding without_two
replicated_engine base none = err missing_replication_arguments
replicated_engine base (some args) = split_top_level_args args >>= without_two base

local_engine : Text → Option Text → Text
local_engine engine none = engine
local_engine engine (some args) = engine ++ codes "(" ++ args ++ codes ")"

by_prefix : Option Text → Text → Option Text → Result DdlError Text
unfolding replicated_engine local_engine
by_prefix (some base) engine args =
    if ends_with (codes "MergeTree") engine
    then replicated_engine (if null base then codes "MergeTree" else base) args
    else err unsupported_engine
by_prefix none engine args =
    if ends_with (codes "MergeTree") engine
    then ok (local_engine engine args)
    else err unsupported_engine

unfoldable pub normalize_engine : Text → Option Text → Result DdlError Text
unfolding by_prefix
normalize_engine engine args = by_prefix (strip_prefix (codes "Replicated") engine) engine args

-- The settings with another name than `name`.
other_settings : Text → List Text → Result DdlError (List Text)
other_settings name [] = ok []
other_settings name (setting ∷ settings) = read_identifier setting >>= λ (setting_name, _).
    other_settings name settings >>= λ kept.
    ok (if equal_fold setting_name name then kept else setting ∷ kept)

-- The statement with the kept ones of its settings.
with_settings : Text → ℕ → ℕ → List Text → Text
with_settings q idx all_settings [] = trim_space (take idx q)
with_settings q idx all_settings (setting ∷ kept) =
    if length (setting ∷ kept) == all_settings
    then q
    else take (idx + 8) q ++ codes " " ++ join (codes ", ") (setting ∷ kept)

strip_at : Text → Text → Option ℕ → Result DdlError Text
unfolding other_settings with_settings
strip_at q name none = ok q
strip_at q name (some idx) = split_top_level_args (drop (idx + 8) q) >>= λ settings.
    other_settings name settings >>= λ kept. ok (with_settings q idx (length settings) kept)

consume_table : Text → Result DdlError Text
consume_table s =
    let (create, s_1) = consume_keyword (codes "CREATE") s in
    let (table, s_2) = consume_keyword (codes "TABLE") s_1 in
    if create && table then ok s_2 else err not_create_table

consume_if_not_exists : Text → Result DdlError Text
consume_if_not_exists s =
    let at_not = (consume_keyword (codes "IF") s).1 in
    let (exists, rest) =
      consume_keyword (codes "EXISTS") (consume_keyword (codes "NOT") at_not).1 in
    if equal_fold (next_word at_not) (codes "NOT")
    then if exists then ok rest else err malformed_if_not_exists
    else ok at_not

-- The words up to the name of the table.
unfoldable pub consume_head : Text → Result DdlError Text
unfolding consume_table consume_if_not_exists
consume_head s = consume_table s >>= consume_if_not_exists

unfoldable pub after_dot : Text → Option Text
after_dot [] = none
after_dot (c ∷ s) = if c == 46 then some s else none

-- `TableName` on a statement without spaces around it: the database, if it is named, and the table.
unfoldable pub second_name : Text → Option Text → Result DdlError (Option Text × Text)
second_name first none = ok (none, first)
second_name first (some s) = read_identifier s >>= λ (second, _). ok (some first, second)

unfoldable pub read_table_name : Text → Result DdlError (Option Text × Text)
unfolding after_dot second_name
read_table_name q = consume_head q >>= λ s.
    read_identifier s >>= λ (first, rest). second_name first (after_dot (skip_spaces rest))

unfoldable pub table_name : Text → Result DdlError (Option Text × Text)
unfolding read_table_name
table_name query =
    if null (trim_space query) then err empty_statement else read_table_name (trim_space query)

-- What follows the name in `tableNameSpan`; spaces after a name without a dot belong to the span.
span_end : Text → Option Text → Result DdlError Text
span_end rest none = ok rest
span_end rest (some s) = read_identifier (skip_spaces s) >>= λ (_, after). ok after

-- The text before the name of the table, and the text after it.
unfoldable pub table_name_span : Text → Result DdlError (Text × Text)
unfolding after_dot span_end
table_name_span q = consume_head q >>= λ s. read_identifier (skip_spaces s) >>= λ (_, rest).
    span_end (skip_spaces rest) (after_dot (skip_spaces rest)) >>= λ after.
    ok (take (length q - length (skip_spaces s)) q, after)

-- `strings.ToUpper` is a parameter, since it maps all of Unicode.
module _ (to_upper : Text → Text) where
  unfoldable pub parse_engine : Text → Result DdlError Engine
  unfolding found_engine
  parse_engine q = index_keyword to_upper q (codes "ENGINE") >>= found_engine q

  unfoldable pub strip_table_setting : Text → Text → Result DdlError Text
  unfolding strip_at
  strip_table_setting q name = index_keyword to_upper q (codes "SETTINGS") >>= strip_at q name

  unfoldable pub normalize_trimmed : Text → Result DdlError Text
  normalize_trimmed q = parse_engine q >>= λ e. normalize_engine e.name e.args >>= λ engine.
      strip_table_setting (e.before ++ engine ++ e.after) (codes "storage_policy")

  unfoldable pub normalize_create_table : Text → Result DdlError Text
  unfolding normalize_trimmed
  normalize_create_table query =
      if null (trim_space query)
      then err empty_statement
      else normalize_trimmed (trim_semicolon (trim_space query))

  unfoldable pub for_table : Text → Text → Text → Result DdlError Text
  for_table query database table = normalize_create_table query >>= λ q.
      table_name_span q >>= λ (before, after). ok (before ++ table_sql database table ++ after)
