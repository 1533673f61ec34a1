-- ===== src/Artifact/Pax.antt =====
-- internal/artifact/tar.go: the records of extended headers.
use partforge.Base.{
  Text, ℕ, zero, suc, List, [], ◌∷◌, Bool, true, false, not, Option, none, some, Result, ok, guard,
  or_fail, ◌>>=◌, ◌>>◌, if◌then◌else◌, ◌||◌, ltb, leb, ◌==◌, ◌-◌, ◌^◌, take, length, text_eq, ◌≡◌,
  refl, codes,
}
use mathlib.Core.List.{reverse}
use partforge.Base.Strconv.{parse_int}
use partforge.Artifact.Numbers.{
  TarError, malformed_pax_length, invalid_pax_length, pax_without_newline, pax_without_key,
}
use partforge.Artifact.Header.{drop, slice}

-- A map with its newest entries first.
abbrev pub Records : Type 0
Records = List (Text × Text)

-- `records[key]`, which is empty for a missing key.
unfoldable pub value_of : Text → Records → Text
value_of key [] = []
value_of key ((k, value) ∷ records) =
    let rest = value_of key records in if text_eq k key then value else rest

-- `bytes.IndexByte(s, b)`, as far as it is positive.
index_byte : ℕ → Text → Option ℕ
index_byte b [] = none
index_byte b (c ∷ s) = elim (c == b) [
  | true ↦ some 0
  | false ↦ elim (index_byte b s) [ none ↦ none | some i ↦ some (suc i) ]
]

unfoldable pub positive_index : ℕ → Text → Option ℕ
unfolding index_byte
positive_index b s = elim (index_byte b s) [
  | none ↦ none
  | some i ↦ if i == 0 then none else some i
]

ends_line : Text → Bool
ends_line [] = false
ends_line (b ∷ _) = b == 10

key_value : Text → Result TarError (Text × Text)
key_value line = or_fail (positive_index 61 line) pax_without_key >>= λ equals.
    ok (take equals line, drop (suc equals) line)

-- The record whose length ends before the space, and that length.
record_at : Text → ℕ → ℕ → Result TarError ((Text × Text) × ℕ)
unfolding ends_line key_value
record_at payload space record_len =
    let line = slice (suc space) record_len payload in
    guard
      (not
        (leb (2 ^ 63) record_len || leb record_len (suc space) || ltb (length payload) record_len))
      invalid_pax_length
    >> guard (ends_line (reverse line)) pax_without_newline
    >> key_value (take (length line - 1) line)
    >>= λ entry. ok (entry, record_len)

unfoldable pub next_record : Text → Result TarError ((Text × Text) × ℕ)
unfolding record_at
next_record payload = or_fail (positive_index 32 payload) malformed_pax_length >>= λ space.
    or_fail (parse_int (take space payload)) malformed_pax_length >>= record_at payload space

-- The loop of `readPAXRecords`: of the last record, `skip` bytes are still to pass.
unfoldable pub pax_from : ℕ → Records → Text → Result TarError Records
unfolding next_record
pax_from skip records [] = ok records
pax_from (suc skip) records (b ∷ payload) = pax_from skip records payload
pax_from zero records (b ∷ payload) = next_record (b ∷ payload) >>= λ (entry, record_len).
    pax_from (record_len - 1) (entry ∷ records) payload

unfoldable pub read_pax_records : Text → Result TarError Records
unfolding pax_from
read_pax_records payload = pax_from 0 [] payload

reads_records :
    read_pax_records (codes "11 path=ab\n9 size=1\n")
    ≡ ok ((codes "size", codes "1") ∷ (codes "path", codes "ab") ∷ [])
unfolding read_pax_records positive_index parse_int slice
reads_records = refl
