-- ===== src/State/Part.antt =====
-- The `Part` record of internal/state/postgres.go, its validation and its field resets.
-- The flat Go struct is cut in three records, at the groups that the code resets together.
-- A `float64` is its 64-bit pattern, an `int` or `uint64` its value, a map a list of pairs.
use partforge.Base.{
  Text, ℕ, ◌≡◌, List, [], true, Bool, false, not, ◌&&◌, ◌||◌, Option, none, some, text_eq, is_blank,
  null, ltb, ◌==◌, Result, ok, err, ◌>>◌, guard,
}
use partforge.Manifest.Build.{BuildError, resolve_click_house_build}

-- The constants of type `Status`; `unset` is the empty string.
pub data Status : Type 0 where
  ready in_progress compact_ready compacting superseded finished importing imported failed : Status
  unset : Status

abbrev pub status_code : Status → ℕ
status_code ready = 0
status_code in_progress = 1
status_code compact_ready = 2
status_code compacting = 3
status_code superseded = 4
status_code finished = 5
status_code importing = 6
status_code imported = 7
status_code failed = 8
status_code unset = 9

abbrev pub is : Status → Status → Bool
is s t = status_code s == status_code t

-- Why an operation of the store fails.
pub data Error : Type 0 where
  -- `conditionalCheckFailedError`
  conditional : Error
  bad_build : BuildError → Error
  missing_fields missing_status unpaired_source self_source : Error
  bad_time missing_compact_time duplicate_key : Error
  worker_required finished_key_required destination_required partitions_required : Error
  cause_required job_required parts_required output_required : Error
  wrong_status mixed_batch too_many_artifacts bad_output bad_progress : Error
  generated_source other_artifact not_original missing_updated_at missing_progress : Error
  referenced duplicate_part missing_ready_time bad_window : Error

abbrev pub Counts : Type 0
Counts = List (Text × ℕ)

-- The fields that `clearCompactProgress` resets.
pub record CompactFields : Type 0 where
  pub output_part_id : Text
  pub progress_at : Text
  pub finalize_requested_at : Text
  pub input_part_count : ℕ
  pub input_rows : ℕ
  pub input_bytes : ℕ
  pub output_part_count : ℕ
  pub output_rows : ℕ
  pub output_bytes : ℕ
  pub stage : Text
  pub active_merges : ℕ
  pub merge_progress : ℕ

-- The fields that `clearRewriteProgress` resets.
pub record RewriteFields : Type 0 where
  pub insert_progress_percent : Option ℕ
  pub progress_updated_at : Text
  pub read_rows : ℕ
  pub read_bytes : ℕ
  pub total_rows_approx : ℕ
  pub written_rows : ℕ
  pub written_bytes : ℕ
  pub source_active_part_count : ℕ
  pub source_active_part_rows : ℕ
  pub source_active_part_bytes : ℕ
  pub active_part_count : ℕ
  pub active_part_rows : ℕ
  pub active_part_bytes : ℕ
  pub partition_counts : Counts
  pub failed_merges : ℕ
  pub stage : Text
  pub stage_started_at : Text
  pub stage_elapsed_ms : ℕ
  pub total_elapsed_ms : ℕ
  pub stage_durations_ms : Counts

pub record Part : Type 0 where
  pub job_id : Text
  pub job_name : Text
  pub part_id : Text
  pub status : Status
  pub bucket : Text
  pub source_key : Text
  pub finished_key : Text
  pub source_job_id : Text
  pub source_part_id : Text
  pub created_at : Text
  pub updated_at : Text
  pub started_at : Text
  pub finished_at : Text
  pub compact_ready_at : Text
  pub compacting_at : Text
  pub superseded_at : Text
  pub importing_at : Text
  pub imported_at : Text
  pub failed_at : Text
  pub worker_id : Text
  pub attempts : ℕ
  pub error : Text
  pub click_house_build : Text
  pub empty_output : Bool
  pub source_artifact_bytes : ℕ
  pub destination_database : Text
  pub destination_table : Text
  pub destination_schema : Text
  pub insert_select : Text
  -- An `int` as its two's complement of 64 bits.
  pub compact_generation : ℕ
  pub compact_input_part_ids : List Text
  pub compact_cooldown_until : Text
  pub superseded_by : Text
  pub compact : CompactFields
  pub rewrite : RewriteFields

abbrev pub no_compact_progress : CompactFields
no_compact_progress = record {
  output_part_id = [];
  progress_at = [];
  finalize_requested_at = [];
  input_part_count = 0;
  input_rows = 0;
  input_bytes = 0;
  output_part_count = 0;
  output_rows = 0;
  output_bytes = 0;
  stage = [];
  active_merges = 0;
  merge_progress = 0;
}

abbrev pub no_rewrite_progress : RewriteFields
no_rewrite_progress = record {
  insert_progress_percent = none;
  progress_updated_at = [];
  read_rows = 0;
  read_bytes = 0;
  total_rows_approx = 0;
  written_rows = 0;
  written_bytes = 0;
  source_active_part_count = 0;
  source_active_part_rows = 0;
  source_active_part_bytes = 0;
  active_part_count = 0;
  active_part_rows = 0;
  active_part_bytes = 0;
  partition_counts = [];
  failed_merges = 0;
  stage = [];
  stage_started_at = [];
  stage_elapsed_ms = 0;
  total_elapsed_ms = 0;
  stage_durations_ms = [];
}

unfoldable pub clear_compact_progress : Part → Part
clear_compact_progress p = record p { compact = no_compact_progress }

unfoldable pub clear_rewrite_progress : Part → Part
clear_rewrite_progress p = record p { rewrite = no_rewrite_progress }

-- `time.Time` is a number of nanoseconds. `format` is `formatTime`, and `parse` is `time.Parse` with
-- the layout `RFC3339Nano`.
pub record Clock : Type 0 where
  pub format : ℕ → Text
  pub parse : Text → Option ℕ

-- What the package `time` documents of the two: a formatted time is not blank and reads back, and a
-- blank text is no time.
pub record IsLawful (c : Clock) : Type 0 where
  pub format_filled : (t : ℕ) → is_blank (c.format t) ≡ false
  pub parse-format : (t : ℕ) → c.parse (c.format t) ≡ some t
  pub parse_blank : (s : Text) → is_blank s ≡ true → c.parse s ≡ none

unfoldable pub set_status : Clock → Part → Status → ℕ → Part
set_status c p s now = record p { status = s; updated_at = c.format now }

check_build : Text → Result Error (Unit {0})
unfolding resolve_click_house_build
check_build build = elim (resolve_click_house_build build) [
  | ok _ ↦ ok tt
  | err e ↦ err (bad_build e)
]

unfoldable pub validate_part : Part → Result Error (Unit {0})
unfolding check_build
validate_part p = do
  check_build p.click_house_build
  guard
      (not (
        null p.job_id
        || null p.part_id
        || null p.bucket
        || null p.source_key
        || null p.finished_key))
      missing_fields
  guard (not (is p.status unset)) missing_status
  guard
      (null p.source_job_id && null p.source_part_id
        || not (null p.source_job_id) && not (null p.source_part_id))
      unpaired_source
  guard (not (text_eq p.source_job_id p.job_id && text_eq p.source_part_id p.part_id)) self_source

unfoldable pub is_generated_compact_part : Part → Bool
is_generated_compact_part p =
    not (null p.compact_input_part_ids)
    || (ltb 0 p.compact_generation && ltb p.compact_generation 9223372036854775808)
