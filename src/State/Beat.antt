-- ===== src/State/Beat.antt =====
-- The heartbeats and the progress reports of a compaction in internal/state/postgres.go: one SQL
-- `UPDATE` for each part of the batch.
pub mod Laws
use Prim.Native.Nat.{min}
use mathlib.Core.List.{reverse}
use partforge.Base.{
  Text, ℕ, suc, List, [], ◌∷◌, Bool, true, false, not, ◌&&◌, ◌||◌, ltb, leb, ◌==◌, if◌then◌else◌,
  text_eq, trim_space, is_blank, null, all, any, filter, length, Option, none, some, Result, ok,
  err, ◌>>=◌, ◌>>◌, guard, or_fail,
}
use partforge.State.Part.{
  Part, Clock, Counts, Error, Status, CompactFields, RewriteFields, is, conditional, bad_time,
  worker_required, job_required, output_required, bad_progress,
}
use partforge.State.Row.{Row, earlier}
use partforge.State.Table.{Table, find, replace}
use partforge.State.Batch.{CompactBatch, validate_compact_batch}
use partforge.State.Rewrite.{PartStats}
use partforge.State.Progress.{btrim, sql_filled}

-- The patch of a heartbeat is empty.
pub data CompactPatch : Type 0 where
  heartbeat : CompactPatch
  report : Text → Text → PartStats → PartStats → Text → ℕ → ℕ → CompactPatch

unfoldable pub compact_patched : CompactPatch → CompactFields → CompactFields
compact_patched heartbeat f = f
compact_patched (report progress_at output inputs outputs stage merges progress) f = record f {
  progress_at = progress_at;
  output_part_id = output;
  input_part_count = inputs.count;
  input_rows = inputs.rows;
  input_bytes = inputs.bytes;
  output_part_count = outputs.count;
  output_rows = outputs.rows;
  output_bytes = outputs.bytes;
  stage = trim_space stage;
  active_merges = merges;
  merge_progress = progress;
}

-- The condition of the statement, on the columns of the row.
abbrev pub beats : Text → Row → Bool
beats worker r =
    (is r.status Status.compacting && text_eq r.worker_id worker)
    || (is r.status Status.compact_ready && not (sql_filled r.worker_id))

-- `COALESCE(NULLIF(btrim(compacting_at), ''), now)`
abbrev pub compacting_since : Clock → ℕ → Part → Text
compacting_since c now p =
    if sql_filled p.compacting_at then btrim p.compacting_at else c.format now

unfoldable pub beaten_row : Clock → Text → CompactPatch → ℕ → ℕ → Row → Row
unfolding compact_patched
beaten_row c worker patch now since r =
    let p = r.data_part in
    record r {
      status = Status.compacting;
      worker_id = worker;
      updated_at = c.format now;
      compact_stale_at = some (earlier (some now) since);
      data_part = record p {
        status = Status.compacting;
        worker_id = worker;
        updated_at = c.format now;
        compacting_at = compacting_since c now p;
        error = [];
        compact_cooldown_until = [];
        compact = compact_patched patch p.compact;
      };
    }

-- The result tells whether finalization was requested.
unfoldable pub beat : Clock → Text → CompactPatch → ℕ → Part → Table → Result Error (Table × Bool)
unfolding beaten_row
beat c worker patch now p t = do
  r ← or_fail (find p.job_id p.part_id t) conditional
  guard (beats worker r) conditional
  since ← or_fail (c.parse (compacting_since c now r.data_part)) bad_time
  let r' = beaten_row c worker patch now since r
  ok (replace r' t, sql_filled r'.data_part.compact.finalize_requested_at)

unfoldable pub after_beat :
    (Bool → Table → Table × Result Error Bool)
    → Table
    → Result Error (Table × Bool)
    → Table × Result Error Bool
after_beat next t (err e) = (t, err e)
after_beat next t (ok (t', finalize)) = next finalize t'

-- Each beat is a statement of its own: those before a failing one stay in effect.
unfoldable pub beat_each :
    Clock → Text → CompactPatch → ℕ → List Part → Bool → Table → Table × Result Error Bool
unfolding beat after_beat
beat_each c worker patch now [] requested t = (t, ok requested)
beat_each c worker patch now (p ∷ ps) requested t =
    after_beat (λ finalize t'. beat_each c worker patch now ps (requested || finalize) t') t
      (beat c worker patch now p t)

unfoldable pub heartbeat_compact_batch :
    Clock → CompactBatch → Text → ℕ → Table → Table × Result Error Bool
unfolding beat_each
heartbeat_compact_batch c b worker now t =
    if is_blank worker
    then (t, err worker_required)
    else beat_each c worker heartbeat now b.parts false t

-- The sign of a `float64` that is below zero and no NaN.
abbrev pub negative : ℕ → Bool
negative x = ltb 0x8000000000000000 x && leb x 0xFFF0000000000000

check_report : CompactBatch → Text → Text → ℕ → Result Error (Unit {0})
check_report b output worker progress = do
  guard (not (is_blank worker)) worker_required
  guard (not (is_blank output)) output_required
  validate_compact_batch b
  guard (not (negative progress)) bad_progress

unfoldable pub if_valid :
    Result Error (Unit {0}) → Table → Table × Result Error Bool → Table × Result Error Bool
if_valid (err e) t rest = (t, err e)
if_valid (ok _) t rest = rest

unfoldable pub update_compact_progress :
    Clock
    → CompactBatch
    → Text
    → Text
    → PartStats
    → PartStats
    → Text
    → ℕ
    → ℕ
    → ℕ
    → Table
    → Table × Result Error Bool
unfolding check_report if_valid beat_each
update_compact_progress c b output worker inputs outputs stage merges progress now t =
    if_valid (check_report b output worker progress) t (
      beat_each c worker (report (c.format now) output inputs outputs stage merges progress) now
        b.parts false t)
