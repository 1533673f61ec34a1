-- ===== src/State/Command.antt =====
-- The transactions of the store as one type of commands, and their effect on the table. A command
-- that fails is rolled back, but for the beats, which are statements of their own.
use partforge.Base.{Text, ℕ, List, [], ◌∷◌, Bool, Option, Result, ok, ◌>>=◌}
use partforge.State.Part.{Part, Clock, Error}
use partforge.State.Row.{Row}
use partforge.State.Table.{Table, commit}
use partforge.State.Batch.{CompactBatch}
use partforge.State.Rewrite.{
  Output, PartStats, create_part, claim_next_ready, mark_compact_ready, mark_finished, mark_failed,
  release_in_progress,
}
use partforge.State.Import.{mark_importing, mark_imported, release_import, mark_import_failed}
use partforge.State.Retry.{
  retry_failed_part, retry_in_progress_part, retry_stale_in_progress_part, reset_compact_timer,
}
use partforge.State.Compact.{
  release_compact_batch, mark_compact_batch_failed, request_compact_finalization,
  complete_compaction,
}
use partforge.State.Progress.{RewriteProgress, update_rewrite_progress}
use partforge.State.Beat.{heartbeat_compact_batch, update_compact_progress}
use partforge.State.Claim.{CompactBatching, CompactClaimOptions, claim_next_compact_batch}
use partforge.State.Maintenance.{release_stale_compacting_parts, finalize_compact_ready}

-- What workers, importers and the maintenance do. The function of a claim is the set of the rows
-- that other open transactions have locked.
pub data Command : Type 0 where
  create : Part → Command
  claim_ready : (Row → Bool) → Text → Command
  report_rewrite : Text → Text → Text → RewriteProgress → Command
  finish_rewrite : Part → Text → Output → Command
  finish : Part → Text → Text → Command
  fail : Part → Text → Option Text → Command
  release : Part → Text → Command
  claim_batch : (Row → Bool) → Text → CompactClaimOptions → Command
  beat_batch : CompactBatch → Text → Command
  report_batch : CompactBatch → Text → Text → PartStats → PartStats → Text → ℕ → ℕ → Command
  release_batch : CompactBatch → Text → Bool → Command
  fail_batch : CompactBatch → Text → Option Text → Command
  request_finalization : List Part → Command
  complete_batch : CompactBatch → Part → Text → Command
  release_stale : (Row → Bool) → ℕ → Command
  finalize : (Row → Bool) → Text → ℕ → CompactBatching → Command
  start_import : Part → Command
  finish_import : Part → Command
  undo_import : Part → Command
  fail_import : Part → Option Text → Command
  retry_failed : Part → Command
  retry_in_progress : Part → Command
  retry_stale : Part → Command
  reset_timer : Part → Command

abbrev pub only_table {ℓ} : {A : Type ℓ} → Result Error (Table × A) → Result Error Table
only_table r = r >>= (λ p. ok p.0)

unfoldable pub exec : Clock → ℕ → Command → Table → Table
exec c now (create p) t = commit t (create_part c p t)
exec c now (claim_ready locked w) t = commit t (only_table (claim_next_ready c locked w now t))
exec c now (report_rewrite j p w g) t = commit t (update_rewrite_progress c j p w g now t)
exec c now (finish_rewrite p w o) t = commit t (mark_compact_ready c p w o now t)
exec c now (finish p w key) t = commit t (mark_finished c p w key now t)
exec c now (fail p w cause) t = commit t (mark_failed c p w cause now t)
exec c now (release p w) t = commit t (release_in_progress c p w now t)
exec c now (claim_batch locked w o) t =
    commit t (only_table (claim_next_compact_batch c locked w now o t))
exec c now (beat_batch b w) t = (heartbeat_compact_batch c b w now t).0
exec c now (report_batch b w out ins outs stage merges progress) t =
    (update_compact_progress c b out w ins outs stage merges progress now t).0
exec c now (release_batch b w done) t = commit t (release_compact_batch c b w now done t)
exec c now (fail_batch b w cause) t = commit t (mark_compact_batch_failed c b w cause now t)
exec c now (request_finalization ps) t = commit t (request_compact_finalization c ps now t)
exec c now (complete_batch b out w) t = commit t (complete_compaction c b out w now t)
exec c now (release_stale locked age) t =
    commit t (release_stale_compacting_parts c locked now age t)
exec c now (finalize locked job window b) t =
    commit t (finalize_compact_ready c locked job window b now t)
exec c now (start_import p) t = commit t (mark_importing c p now t)
exec c now (finish_import p) t = commit t (mark_imported c p now t)
exec c now (undo_import p) t = commit t (release_import c p now t)
exec c now (fail_import p cause) t = commit t (mark_import_failed c p cause now t)
exec c now (retry_failed p) t = commit t (retry_failed_part c p now t)
exec c now (retry_in_progress p) t = commit t (retry_in_progress_part c p now t)
exec c now (retry_stale p) t = commit t (retry_stale_in_progress_part c p now t)
exec c now (reset_timer p) t = commit t (reset_compact_timer c p now t)

-- A history, oldest first: each command with the time at which it runs.
unfoldable pub run : Clock → List (ℕ × Command) → Table → Table
run c [] t = t
run c ((now, k) ∷ ks) t = run c ks (exec c now k t)
