-- ===== src/State/Progress.antt =====
-- `UpdateRewriteProgress` of internal/state/postgres.go, which patches a row in place by one SQL
-- `UPDATE`, and the SQL tests of columns that it shares with the other statements.
pub mod Laws
use Prim.Native.Nat.{min}
use mathlib.Core.List.{reverse}
use partforge.Base.{
  Text, ℕ, suc, List, [], ◌∷◌, Bool, true, false, not, ◌&&◌, ◌||◌, ltb, leb, ◌==◌, if◌then◌else◌,
  text_eq, trim_space, is_blank, null, all, any, filter, length, Option, none, some, Result, ok,
  err, ◌>>=◌, ◌>>◌, guard, or_fail,
}
use partforge.State.Part.{
  Part, Clock, Counts, Error, Status, CompactFields, RewriteFields, is, conditional, bad_time,
  worker_required, job_required, output_required, bad_progress,
}
use partforge.State.Row.{Row, earlier}
use partforge.State.Table.{Table, find, replace}
use partforge.State.Batch.{CompactBatch, validate_compact_batch}
use partforge.State.Rewrite.{PartStats}

-- SQL's `btrim`, which takes off spaces only.
abbrev drop_spaces : Text → Text
drop_spaces [] = []
drop_spaces (a ∷ s) = let rest = drop_spaces s in if a == 32 then rest else a ∷ s

unfoldable pub btrim : Text → Text
btrim s = reverse (drop_spaces (reverse (drop_spaces s)))

abbrev pub sql_filled : Text → Bool
sql_filled s = not (null (btrim s))

-- `EXISTS (… WHERE btrim(key) <> '' AND value > 1)`
unfoldable pub sql_fragmented : Counts → Bool
sql_fragmented [] = false
sql_fragmented ((id, count) ∷ counts) = (sql_filled id && ltb 1 count) || sql_fragmented counts

-- The counts with a filled key and a positive value.
sql_counted : Counts → List ℕ
sql_counted [] = []
sql_counted ((id, count) ∷ counts) =
    let rest = sql_counted counts in if sql_filled id && ltb 0 count then count ∷ rest else rest

unfoldable pub sql_single : Counts → Bool
unfolding sql_counted
sql_single counts = length (sql_counted counts) == 1 && all (λ n. n == 1) (sql_counted counts)

pub record StageProgress : Type 0 where
  pub stage : Text
  pub stage_started_at : ℕ
  pub stage_elapsed_ms : ℕ
  pub total_elapsed_ms : ℕ
  pub durations_ms : Counts

pub record QueryProgress : Type 0 where
  pub read_rows : ℕ
  pub read_bytes : ℕ
  pub total_rows_approx : ℕ
  pub written_rows : ℕ
  pub written_bytes : ℕ

pub record RewriteProgress : Type 0 where
  pub insert_progress_percent : Option ℕ
  pub query_progress : Option QueryProgress
  pub source_stats : Option PartStats
  pub destination_stats : Option PartStats
  pub failed_merges : Option ℕ
  pub stage_progress : Option StageProgress

patch_percent : Option ℕ → RewriteFields → RewriteFields
patch_percent none f = f
patch_percent (some x) f = record f { insert_progress_percent = some x }

patch_query : Option QueryProgress → RewriteFields → RewriteFields
patch_query none f = f
patch_query (some q) f = record f {
  read_rows = q.read_rows;
  read_bytes = q.read_bytes;
  total_rows_approx = q.total_rows_approx;
  written_rows = q.written_rows;
  written_bytes = q.written_bytes;
}

patch_source : Option PartStats → RewriteFields → RewriteFields
patch_source none f = f
patch_source (some s) f = record f {
  source_active_part_count = s.count;
  source_active_part_rows = s.rows;
  source_active_part_bytes = s.bytes;
}

patch_destination : Option PartStats → RewriteFields → RewriteFields
patch_destination none f = f
patch_destination (some s) f = record f {
  active_part_count = s.count;
  active_part_rows = s.rows;
  active_part_bytes = s.bytes;
}

patch_failed : Option ℕ → RewriteFields → RewriteFields
patch_failed none f = f
patch_failed (some n) f = record f { failed_merges = n }

patch_stage : Clock → Option StageProgress → RewriteFields → RewriteFields
patch_stage c none f = f
patch_stage c (some s) f = record f {
  stage = s.stage;
  stage_started_at = c.format s.stage_started_at;
  stage_elapsed_ms = s.stage_elapsed_ms;
  total_elapsed_ms = s.total_elapsed_ms;
  stage_durations_ms = s.durations_ms;
}

-- The JSON object `patch`, as a change of the fields that it names.
unfoldable pub patched_fields : Clock → RewriteProgress → ℕ → RewriteFields → RewriteFields
unfolding patch_percent patch_query patch_source patch_destination patch_failed patch_stage
patched_fields c g now f = patch_stage c g.stage_progress (
    patch_failed g.failed_merges (
      patch_destination g.destination_stats (
        patch_source g.source_stats (
          patch_query g.query_progress (
            patch_percent g.insert_progress_percent
              (record f { progress_updated_at = c.format now }))))))

unfoldable pub patched_part : Clock → RewriteProgress → ℕ → Part → Part
unfolding patched_fields
patched_part c g now p = record p {
  updated_at = c.format now;
  rewrite = patched_fields c g now p.rewrite;
}

-- The scheduling columns that are set with the destination's statistics. They read the old `data`.
unfoldable pub patched_columns : Option PartStats → Row → Row
patched_columns none r = r
patched_columns (some s) r =
    let p = r.data_part in
    let counts = p.rewrite.partition_counts in
    record r {
      compact_bytes = s.bytes;
      compact_parts = s.count;
      compact_eligible =
          ltb 0 s.count
          && sql_filled p.destination_database
          && sql_filled p.destination_table
          && sql_filled p.destination_schema
          && sql_fragmented counts;
      compact_normalized = s.count == 1 && sql_single counts;
    }

unfoldable pub patched_row : Clock → RewriteProgress → ℕ → Row → Row
unfolding patched_part patched_columns
patched_row c g now r = record (patched_columns g.destination_stats r) {
  updated_at = c.format now;
  data_part = patched_part c g now r.data_part;
}

unfoldable pub update_rewrite_progress :
    Clock → Text → Text → Text → RewriteProgress → ℕ → Table → Result Error Table
unfolding patched_row
update_rewrite_progress c job part worker g now t = do
  guard (not (is_blank job) && not (is_blank part)) job_required
  guard (not (is_blank worker)) worker_required
  r ← or_fail (find job part t) conditional
  guard (is r.status Status.in_progress && text_eq r.worker_id worker) conditional
  ok (replace (patched_row c g now r) t)
