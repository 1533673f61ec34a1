-- ===== src/State/Row.antt =====
-- `partWriteValues` of internal/state/postgres.go: the columns that are written beside the JSON of a
-- part. The column `data` is the part itself: encoding/json is taken to read back what it wrote.
pub mod Laws
use partforge.Base.{
  Text, ℕ, suc, [], ◌∷◌, Bool, true, false, not, ◌&&◌, ◌||◌, Option, none, some, is_blank, ltb,
  ◌==◌, if◌then◌else◌, Result, ok, ◌>>=◌, ◌>>◌, or_fail,
}
use partforge.State.Part.{
  Status, compacting, Part, Counts, Clock, Error, bad_time, missing_compact_time, is, validate_part,
  is_generated_compact_part,
}

pub record Row : Type 0 where
  pub job_id : Text
  pub part_id : Text
  pub status : Status
  pub worker_id : Text
  pub created_at : Text
  pub updated_at : Text
  pub data_part : Part
  pub source_artifact_bytes : ℕ
  pub compact_bytes : ℕ
  pub compact_parts : ℕ
  pub compact_eligible : Bool
  pub compact_normalized : Bool
  -- A column of the type `timestamptz` has whole microseconds: the times in it are taken to be such.
  pub compact_stale_at : Option ℕ
  pub original_compact_ready_at : Option ℕ
  pub source_job_id : Text
  pub source_part_id : Text

-- The variables of the loop over the partition counts.
pub record Tally : Type 0 where
  pub partitions : ℕ
  pub fragmented : Bool
  pub single : Bool

tally_one : Text → ℕ → Tally → Tally
tally_one id count t = if is_blank id || count == 0 then t else record {
  partitions = suc t.partitions;
  fragmented = t.fragmented || ltb 1 count;
  single = t.single && count == 1;
}

tally_from : Tally → Counts → Tally
tally_from t [] = t
tally_from t ((id, count) ∷ counts) = tally_from (tally_one id count t) counts

unfoldable pub tally : Counts → Tally
unfolding tally_from tally_one
tally = tally_from (record { partitions = 0; fragmented = false; single = true })

abbrev pub has_destination : Part → Bool
has_destination p =
    not (is_blank p.destination_database)
    && not (is_blank p.destination_table)
    && not (is_blank p.destination_schema)

unfoldable pub is_eligible : Part → Bool
unfolding tally
is_eligible p =
    has_destination p
    && ltb 0 p.rewrite.active_part_count
    && (tally p.rewrite.partition_counts).fragmented

unfoldable pub is_normalized : Part → Bool
unfolding tally
is_normalized p =
    let t = tally p.rewrite.partition_counts in
    p.rewrite.active_part_count == 1 && t.partitions == 1 && t.single

-- The earlier of two times, the first one optional.
abbrev pub earlier : Option ℕ → ℕ → ℕ
earlier none t = t
earlier (some s) t = if ltb t s then t else s

unfoldable pub sooner : Clock → Option ℕ → Text → Result Error (Option ℕ)
sooner c acc value =
    if is_blank value
    then ok acc
    else or_fail (c.parse value) bad_time >>= (λ t. ok (some (earlier acc t)))

-- The loop over `UpdatedAt` and `CompactingAt`, and the check after it.
earliest : Clock → Part → Result Error ℕ
unfolding sooner
earliest c p = do
  first ← sooner c none p.updated_at
  both ← sooner c first p.compacting_at
  or_fail both missing_compact_time

unfoldable pub stale_time : Clock → Part → Result Error (Option ℕ)
unfolding earliest
stale_time c p = if is p.status compacting then earliest c p >>= (λ t. ok (some t)) else ok none

unfoldable pub original_ready_time : Clock → Part → Result Error (Option ℕ)
original_ready_time c p =
    if is_generated_compact_part p || is_blank p.compact_ready_at
    then ok none
    else or_fail (c.parse p.compact_ready_at) bad_time >>= (λ t. ok (some t))

-- The row with given time columns.
abbrev pub row_at : Part → Option ℕ → Option ℕ → Row
row_at p stale ready_at = record {
  job_id = p.job_id;
  part_id = p.part_id;
  status = p.status;
  worker_id = p.worker_id;
  created_at = p.created_at;
  updated_at = p.updated_at;
  data_part = p;
  source_artifact_bytes = p.source_artifact_bytes;
  compact_bytes = p.rewrite.active_part_bytes;
  compact_parts = p.rewrite.active_part_count;
  compact_eligible = is_eligible p;
  compact_normalized = is_normalized p;
  compact_stale_at = stale;
  original_compact_ready_at = ready_at;
  source_job_id = p.source_job_id;
  source_part_id = p.source_part_id;
}

unfoldable pub part_write_values : Clock → Part → Result Error Row
part_write_values c p = do
  validate_part p
  stale ← stale_time c p
  ready_at ← original_ready_time c p
  ok (row_at p stale ready_at)
