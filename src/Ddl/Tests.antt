-- ===== src/Ddl/Tests.antt =====
-- Statements as the tests of internal/ddl/ddl_test.go give them, and the theorems at such statements.
use partforge.Ddl.Statements.Names.{read_table_name-table_sql}
use partforge.Ddl.Identifiers.RoundTrip.{read_identifier-ident}
use partforge.Ddl.Arguments.Delimited.{read_parens-splits}
use partforge.Base.{trim_space}
use partforge.Base.Scan.{join, starts_with, ends_with, strip_prefix}
use partforge.Ddl.Arguments.{
  split_top_level_args, read_parens, close_parens, closes, cuts, finish, in_quote, is_quote, plain,
  split_args, step,
}
use partforge.Ddl.Identifiers.{read_identifier, in_word, read_quoted, with_byte}
use partforge.Ddl.Scanner.{
  equal_fold, is_digit, is_letter, ident_at, index_keyword, is_ident, is_space, skip_spaces, span,
  consume_keyword, next_word,
}
use partforge.Ddl.Statements.{
  normalize_create_table, normalize_trimmed, parse_engine, normalize_engine, strip_table_setting,
  trim_semicolon, drop, for_table, table_name, read_table_name, table_name_span, consume_head,
}
use partforge.Chhttp.Quoting.{table_sql, ident, doubled}
use partforge.Base.{
  Text, ℕ, some, ok, err, codes, map, leb, ◌-◌, if◌then◌else◌, ◌&&◌, ◌≡◌, refl, ◌++◌, ◌∷◌, List,
}
use partforge.Ddl.Scanner.{no_equals}

abbrev upper_byte : ℕ → ℕ
upper_byte c = if leb 97 c && leb c 122 then c - 32 else c

abbrev ascii_upper : Text → Text
ascii_upper s = map upper_byte s

drops_replication :
    normalize_create_table ascii_upper
      (codes "CREATE TABLE t (x A) ENGINE = ReplicatedMergeTree('/p', 'r', v)")
    ≡ ok (codes "CREATE TABLE t (x A) ENGINE = MergeTree(v)")
unfolding trim_space join starts_with ends_with strip_prefix split_top_level_args read_parens
    close_parens closes cuts finish in_quote is_quote plain split_args step read_identifier in_word
    read_quoted with_byte equal_fold is_digit is_letter ident_at index_keyword is_ident is_space
    skip_spaces span consume_keyword next_word normalize_create_table normalize_trimmed parse_engine
    normalize_engine strip_table_setting trim_semicolon drop for_table table_name read_table_name
    table_name_span consume_head table_sql ident doubled
drops_replication = refl

strips_policy :
    normalize_create_table ascii_upper
      (codes "ENGINE = MergeTree SETTINGS a = 8, Storage_policy = 's', b = 0")
    ≡ ok (codes "ENGINE = MergeTree SETTINGS a = 8, b = 0")
unfolding trim_space join starts_with ends_with strip_prefix split_top_level_args read_parens
    close_parens closes cuts finish in_quote is_quote plain split_args step read_identifier in_word
    read_quoted with_byte equal_fold is_digit is_letter ident_at index_keyword is_ident is_space
    skip_spaces span consume_keyword next_word normalize_create_table normalize_trimmed parse_engine
    normalize_engine strip_table_setting trim_semicolon drop for_table table_name read_table_name
    table_name_span consume_head table_sql ident doubled
strips_policy = refl

renames :
    for_table ascii_upper
      (codes "CREATE TABLE `o`.`t` (x A) ENGINE = MergeTree ORDER BY x")
      (codes "n")
      (codes "m")
    ≡ ok (codes "CREATE TABLE `n`.`m` (x A) ENGINE = MergeTree ORDER BY x")
unfolding trim_space join starts_with ends_with strip_prefix split_top_level_args read_parens
    close_parens closes cuts finish in_quote is_quote plain split_args step read_identifier in_word
    read_quoted with_byte equal_fold is_digit is_letter ident_at index_keyword is_ident is_space
    skip_spaces span consume_keyword next_word normalize_create_table normalize_trimmed parse_engine
    normalize_engine strip_table_setting trim_semicolon drop for_table table_name read_table_name
    table_name_span consume_head table_sql ident doubled
renames = refl

names :
    table_name (codes "CREATE TABLE if NOT exists `d``b`.`t` (x A)")
    ≡ ok (some (codes "d`b"), codes "t")
unfolding trim_space join starts_with ends_with strip_prefix split_top_level_args read_parens
    close_parens closes cuts finish in_quote is_quote plain split_args step read_identifier in_word
    read_quoted with_byte equal_fold is_digit is_letter ident_at index_keyword is_ident is_space
    skip_spaces span consume_keyword next_word normalize_create_table normalize_trimmed parse_engine
    normalize_engine strip_table_setting trim_semicolon drop for_table table_name read_table_name
    table_name_span consume_head table_sql ident doubled
names = refl

-- A column that is named engine hides the clause.
engine_column :
    normalize_create_table ascii_upper (codes "CREATE TABLE t (engine A) ENGINE = MergeTree")
    ≡ err no_equals
unfolding trim_space join starts_with ends_with strip_prefix split_top_level_args read_parens
    close_parens closes cuts finish in_quote is_quote plain split_args step read_identifier in_word
    read_quoted with_byte equal_fold is_digit is_letter ident_at index_keyword is_ident is_space
    skip_spaces span consume_keyword next_word normalize_create_table normalize_trimmed parse_engine
    normalize_engine strip_table_setting trim_semicolon drop for_table table_name read_table_name
    table_name_span consume_head table_sql ident doubled
engine_column = refl

-- Without spaces around its sign, a setting is not recognised.
policy_without_spaces :
    normalize_create_table ascii_upper (codes "ENGINE = MergeTree SETTINGS storage_policy='s'")
    ≡ ok (codes "ENGINE = MergeTree SETTINGS storage_policy='s'")
unfolding trim_space join starts_with ends_with strip_prefix split_top_level_args read_parens
    close_parens closes cuts finish in_quote is_quote plain split_args step read_identifier in_word
    read_quoted with_byte equal_fold is_digit is_letter ident_at index_keyword is_ident is_space
    skip_spaces span consume_keyword next_word normalize_create_table normalize_trimmed parse_engine
    normalize_engine strip_table_setting trim_semicolon drop for_table table_name read_table_name
    table_name_span consume_head table_sql ident doubled
policy_without_spaces = refl

read_identifier-ident_example :
    read_identifier (ident (codes "a`b") ++ codes ".t") ≡ ok (codes "a`b", codes ".t")
read_identifier-ident_example = read_identifier-ident (codes "a`b") (codes ".t") refl

reads_arguments :
    read_parens (codes "'a)', f(x), 'it\\'s') ORDER")
    ≡ ok (codes "'a)', f(x), 'it\\'s'", codes " ORDER")
unfolding read_parens close_parens closes step plain is_quote in_quote
reads_arguments = refl

read_parens-splits_example :
    (codes "'a)', f(x), 'it\\'s') ORDER" ≡ codes "'a)', f(x), 'it\\'s'" ++ 41 ∷ codes " ORDER")
    × (parts : List Text) × (split_top_level_args (codes "'a)', f(x), 'it\\'s'") ≡ ok parts)
read_parens-splits_example =
    read_parens-splits (codes "'a)', f(x), 'it\\'s') ORDER") (codes "'a)', f(x), 'it\\'s'")
      (codes " ORDER") reads_arguments

abbrev named : Text
named = codes "`a``b`.`t` (x A)"

reads_head : consume_head (codes "CREATE TABLE " ++ named) ≡ ok named
unfolding trim_space join starts_with ends_with strip_prefix split_top_level_args read_parens
    close_parens closes cuts finish in_quote is_quote plain split_args step read_identifier in_word
    read_quoted with_byte equal_fold is_digit is_letter ident_at index_keyword is_ident is_space
    skip_spaces span consume_keyword next_word normalize_create_table normalize_trimmed parse_engine
    normalize_engine strip_table_setting trim_semicolon drop for_table table_name read_table_name
    table_name_span consume_head table_sql ident doubled
reads_head = refl

skips_to_name : skip_spaces named ≡ table_sql (codes "a`b") (codes "t") ++ codes " (x A)"
unfolding trim_space join starts_with ends_with strip_prefix split_top_level_args read_parens
    close_parens closes cuts finish in_quote is_quote plain split_args step read_identifier in_word
    read_quoted with_byte equal_fold is_digit is_letter ident_at index_keyword is_ident is_space
    skip_spaces span consume_keyword next_word normalize_create_table normalize_trimmed parse_engine
    normalize_engine strip_table_setting trim_semicolon drop for_table table_name read_table_name
    table_name_span consume_head table_sql ident doubled
skips_to_name = refl

read_table_name-table_sql_example :
    read_table_name (codes "CREATE TABLE " ++ named) ≡ ok (some (codes "a`b"), codes "t")
read_table_name-table_sql_example =
    read_table_name-table_sql (codes "CREATE TABLE " ++ named) named (codes "a`b") (codes "t")
      (codes " (x A)") reads_head skips_to_name refl
