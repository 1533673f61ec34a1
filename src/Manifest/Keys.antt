-- ===== src/Manifest/Keys.antt =====
-- internal/manifest/manifest.go: the ids of jobs and parts, and the keys of their objects. Hashing is a
-- parameter: the package crypto/sha256, with the printing of its sum by encoding/hex.
use partforge.Base.{
  Text, ℕ, List, [], ◌∷◌, ◌++◌, take, codes, filter, not, null, if◌then◌else◌, ◌==◌, true, false,
  all, ◌≡◌, refl, ap, ◌∙◌, arith,
}
use mathlib.Core.List.{reverse}
use partforge.Base.Paths.{slash, path_join}
use partforge.Base.Scan.{split_byte, on_first, contains_byte}
use partforge.Base.Strconv.{format_uint}

trim_left : Text → Text
trim_left [] = []
trim_left (c ∷ s) = let rest = trim_left s in if c == slash then rest else c ∷ s

-- `strings.Trim(e, "/")`
unfoldable pub trim_slashes : Text → Text
unfolding trim_left
trim_slashes s = reverse (trim_left (reverse (trim_left s)))

trimmed : List Text → List Text
unfolding trim_slashes
trimmed [] = []
trimmed (e ∷ elements) = trim_slashes e ∷ trimmed elements

unfoldable pub clean_key : List Text → Text
unfolding trimmed
clean_key elements = path_join (filter (λ e. not (null e)) (trimmed elements))

unfoldable pub source_part_prefix : Text → Text → Text → Text
unfolding clean_key
source_part_prefix prefix job_id part_id =
    clean_key (prefix ∷ codes "jobs" ∷ job_id ∷ codes "source" ∷ part_id ∷ [])

unfoldable pub finished_part_prefix : Text → Text → Text → Text
unfolding clean_key
finished_part_prefix prefix job_id part_id =
    clean_key (prefix ∷ codes "jobs" ∷ job_id ∷ codes "finished" ∷ part_id ∷ [])

unfoldable pub finished_prefix : Text → Text → Text
unfolding clean_key
finished_prefix prefix job_id =
    clean_key (prefix ∷ codes "jobs" ∷ job_id ∷ codes "finished" ∷ []) ++ codes "/"

unfoldable pub imported_marker_key : Text → Text → Text → Text
unfolding clean_key
imported_marker_key prefix job_id part_id =
    clean_key (prefix ∷ codes "jobs" ∷ job_id ∷ codes "imported" ∷ (part_id ++ codes ".json") ∷ [])

-- The bytes that are hashed: every value, with a zero byte behind it.
unfoldable pub hashed_bytes : List Text → Text
hashed_bytes [] = []
hashed_bytes (value ∷ values) = value ++ 0 ∷ hashed_bytes values

split_byte-ended :
    (s t : Text) → contains_byte 0 s ≡ false → split_byte 0 (s ++ 0 ∷ t) ≡ s ∷ split_byte 0 t
unfolding split_byte on_first contains_byte
split_byte-ended [] t h = refl
split_byte-ended (c ∷ s) t h =
    let other : (c == 0) ≡ false = ground arith in
    let rest : split_byte 0 (s ++ 0 ∷ t) ≡ s ∷ split_byte 0 t =
      split_byte-ended s t (ground (arith, h)) in
    rw (other, rest) refl

-- Different lists of values without zero bytes are never hashed as the same bytes: the values are
-- found again between the zero bytes.
pub split_byte-hashed_bytes :
    (values : List Text)
    → all (λ v. not (contains_byte 0 v)) values ≡ true
    → split_byte 0 (hashed_bytes values) ≡ values ++ [] ∷ []
unfolding hashed_bytes split_byte
split_byte-hashed_bytes [] h = refl
split_byte-hashed_bytes (value ∷ values) h =
    split_byte-ended value (hashed_bytes values) (ground (arith, h))
    ∙ ap (λ l. value ∷ l) (split_byte-hashed_bytes values (ground (arith, h)))

module _ (sha_256_hex : Text → Text) where
  unfoldable pub short_hash : List Text → Text
  unfolding hashed_bytes
  short_hash values = take 16 (sha_256_hex (hashed_bytes values))

  unfoldable pub derive_job_id : Text → Text → Text → Text → Text → Text → Text
  unfolding short_hash
  derive_job_id database table freeze source_schema destination_schema insert_select =
      codes "job-"
      ++ short_hash
          (database ∷ table ∷ freeze ∷ source_schema ∷ destination_schema ∷ insert_select ∷ [])

  unfoldable pub derive_part_id : Text → Text → Text → Text → Text → Text → Text
  unfolding short_hash
  derive_part_id disk relative_path name source_schema destination_schema insert_select =
      codes "part-"
      ++ short_hash
          (disk ∷ relative_path ∷ name ∷ source_schema ∷ destination_schema ∷ insert_select ∷ [])

  -- A generation is not negative.
  unfoldable pub derive_compact_part_id : List Text → ℕ → Text
  unfolding short_hash
  derive_compact_part_id input_part_ids generation =
      codes "compact-" ++ short_hash (format_uint generation ∷ input_part_ids)
