-- ===== src/Chhttp/Rows.antt =====
-- The reading of answers in internal/chhttp/client.go.
use partforge.Base.{
  Text, ℕ, List, [], ◌∷◌, Result, ok, err, or_fail, ◌>>=◌, if◌then◌else◌, ◌==◌, null, length, codes,
  trim_space, ◌≡◌, refl,
}
use partforge.Base.Scan.{split_byte}
use partforge.Base.Strconv.{parse_uint}

pub data RowError : Type 0 where
  wrong_columns : RowError
  not_a_number : RowError

tsv_rows : ℕ → List Text → Result RowError (List (List Text))
tsv_rows columns [] = ok []
tsv_rows columns (line ∷ lines) =
    let rest = tsv_rows columns lines in
    if null line
    then rest
    else if length (split_byte 9 line) == columns
    then rest >>= (λ rows. ok (split_byte 9 line ∷ rows))
    else err wrong_columns

unfoldable pub format_tsv_strings : Text → ℕ → Result RowError (List (List Text))
unfolding tsv_rows
format_tsv_strings rows columns = tsv_rows columns (split_byte 10 (trim_space rows))

unfoldable pub parse_u_int : Text → Result RowError ℕ
parse_u_int s = or_fail (parse_uint (trim_space s)) not_a_number

reads_rows :
    format_tsv_strings (codes "a\tb\n\nc\td\n") 2
    ≡ ok ((codes "a" ∷ codes "b" ∷ []) ∷ (codes "c" ∷ codes "d" ∷ []) ∷ [])
unfolding format_tsv_strings split_byte trim_space
reads_rows = refl
