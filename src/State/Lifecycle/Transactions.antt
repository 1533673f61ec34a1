-- ===== src/State/Lifecycle/Transactions.antt =====
-- The transactions that change one part, or each part of a batch, are sound.
use partforge.Base.{
  Text, ℕ, ◌≡◌, refl, Bool, true, false, not, List, Option, none, some, Result, ok, err, guard,
  ◌>>◌, arith, is_blank,
}
use partforge.State.Part.{
  worker_required, finished_key_required, destination_required, partitions_required, cause_required,
  wrong_status, missing_progress, validate_part, Part, Clock, Error, Status,
}
use partforge.State.Table.{Table, update_part, commit}
use partforge.State.Rewrite.{
  Output, create_part, mark_compact_ready, mark_finished, mark_failed, release_in_progress,
}
use partforge.State.Import.{
  has_status, mark_importing, mark_imported, release_import, mark_import_failed,
}
use partforge.State.Retry.{
  silent_since, retry_failed_part, retry_in_progress_part, retry_stale_in_progress_part,
  reset_compact_timer,
}
use partforge.State.Batch.{validate_compact_batch, parts_in_lock_order, CompactBatch}
use partforge.State.Compact.{
  each_part, release_compact_batch, mark_compact_batch_failed, request_compact_finalization,
}
use partforge.State.Lifecycle.Sound.{
  Sound, Sound-refl, Good, BarePart, update_part-Sound, insert_part-Sound, each_part-Sound,
}
use partforge.State.Lifecycle.Steps.{
  compact_ready_part-Good, finished_part-Good, failed_part-Good, released_part-Good,
  importing_part-Good, imported_part-Good, unimported_part-Good, import_failed_part-Good,
  retried_part-Good, restarted_part-Good, timer_reset_part-Good, released_input-Good,
  compact_failed_part-Good, finalize_requested_part-Good,
}

-- Whatever table a transaction gives, it is a sound change.
abbrev pub Soundly : Clock → Table → Result Error Table → Type 0
Soundly c t r = (t' : Table) → r ≡ ok t' → Sound c t t'

pub commit-Sound :
    (c : Clock) (t : Table) (r : Result Error Table) → Soundly c t r → Sound c t (commit t r)
commit-Sound c t (ok t') f = f t' refl
commit-Sound c t (err e) f = Sound-refl c t

module _ (c : Clock) (t : Table) where
  failing : (e : Error) → Soundly c t (err e)
  failing e t' h = cc

  guarded :
      (b : Bool) (e : Error) (k : Result Error Table) → Soundly c t k → Soundly c t (guard b e >> k)
  guarded true e k f = f
  guarded false e k f = failing e

  checked :
      (m : Result Error (Unit {0})) (k : Result Error Table) → Soundly c t k → Soundly c t (m >> k)
  checked (ok tt) k f = f
  checked (err e) k f = failing e

  updated :
      (p : Part) {condition : Part → Bool} {mutate : Part → Part}
      → Good condition mutate
      → Soundly c t (update_part c p.job_id p.part_id condition mutate t)
  updated p {condition} {mutate} g t' h =
      update_part-Sound c p.job_id p.part_id condition mutate t t' g h

  looped :
      (body : Part → Table → Result Error Table) (ps : List Part)
      → ((p : Part) (u : Table) → Soundly c u (body p u))
      → Soundly c t (each_part body ps t)
  looped body ps good t' h = each_part-Sound c body (λ p u u'. good p u u') ps t t' h

module _ (c : Clock) (now : ℕ) (t : Table) where
  pub create_part-Sound : (p : Part) → BarePart p → Soundly c t (create_part c p t)
  unfolding create_part
  create_part-Sound p b =
      checked c t (validate_part p) _ (checked c t _ _ (λ t' h. insert_part-Sound c p t t' b h))

  pub mark_compact_ready-Sound :
      (p : Part) (worker : Text) (o : Output) → Soundly c t (mark_compact_ready c p worker o now t)
  unfolding mark_compact_ready
  mark_compact_ready-Sound p worker o = guarded c t (not (is_blank worker)) worker_required _ (
      guarded c t (not (is_blank o.finished_key)) finished_key_required _ (
        guarded c t _ destination_required _ (
          guarded c t _ partitions_required _
            (updated c t p (compact_ready_part-Good c now o worker)))))

  pub mark_finished-Sound :
      (p : Part) (worker key : Text) → Soundly c t (mark_finished c p worker key now t)
  unfolding mark_finished
  mark_finished-Sound p worker key =
      guarded c t _ worker_required _ (
        guarded c t _ finished_key_required _ (updated c t p (finished_part-Good c now key worker)))

  pub mark_failed-Sound :
      (p : Part) (worker : Text) (cause : Option Text)
      → Soundly c t (mark_failed c p worker cause now t)
  unfolding mark_failed
  mark_failed-Sound p worker none = failing c t cause_required
  mark_failed-Sound p worker (some cause) =
      guarded c t _ worker_required _ (updated c t p (failed_part-Good c now cause worker))

  pub release_in_progress-Sound :
      (p : Part) (worker : Text) → Soundly c t (release_in_progress c p worker now t)
  unfolding release_in_progress
  release_in_progress-Sound p worker =
      guarded c t _ worker_required _ (updated c t p (released_part-Good c now worker))

  pub mark_importing-Sound : (p : Part) → Soundly c t (mark_importing c p now t)
  unfolding mark_importing
  mark_importing-Sound p = updated c t p (importing_part-Good c now)

  pub mark_imported-Sound : (p : Part) → Soundly c t (mark_imported c p now t)
  unfolding mark_imported
  mark_imported-Sound p = updated c t p (imported_part-Good c now)

  pub release_import-Sound : (p : Part) → Soundly c t (release_import c p now t)
  unfolding release_import
  release_import-Sound p = updated c t p (unimported_part-Good c now)

  pub mark_import_failed-Sound :
      (p : Part) (cause : Option Text) → Soundly c t (mark_import_failed c p cause now t)
  unfolding mark_import_failed
  mark_import_failed-Sound p none = failing c t cause_required
  mark_import_failed-Sound p (some cause) = updated c t p (import_failed_part-Good c now cause)

  pub retry_failed_part-Sound : (p : Part) → Soundly c t (retry_failed_part c p now t)
  unfolding retry_failed_part
  retry_failed_part-Sound p =
      guarded c t _ wrong_status _ (updated c t p (retried_part-Good c now p))

  pub retry_in_progress_part-Sound : (p : Part) → Soundly c t (retry_in_progress_part c p now t)
  unfolding retry_in_progress_part
  retry_in_progress_part-Sound p =
      guarded c t _ wrong_status _
        (updated c t p (restarted_part-Good c now (has_status Status.in_progress) (λ q h. h)))

  pub retry_stale_in_progress_part-Sound :
      (p : Part) → Soundly c t (retry_stale_in_progress_part c p now t)
  unfolding retry_stale_in_progress_part
  retry_stale_in_progress_part-Sound p = guarded c t _ wrong_status _ (
      guarded c t _ missing_progress _
        (updated c t p (restarted_part-Good c now (silent_since p) (λ q h. ground arith))))

  pub reset_compact_timer-Sound : (p : Part) → Soundly c t (reset_compact_timer c p now t)
  unfolding reset_compact_timer
  reset_compact_timer-Sound p =
      checked c t (validate_part p) _ (updated c t p (timer_reset_part-Good c now))

  pub release_compact_batch-Sound :
      (b : CompactBatch) (worker : Text) (done : Bool)
      → Soundly c t (release_compact_batch c b worker now done t)
  unfolding release_compact_batch
  release_compact_batch-Sound b worker done = guarded c t _ worker_required _ (
      looped c t _ (parts_in_lock_order b.parts)
        (λ p u. updated c u p (released_input-Good c now done worker)))

  pub mark_compact_batch_failed-Sound :
      (b : CompactBatch) (worker : Text) (cause : Option Text)
      → Soundly c t (mark_compact_batch_failed c b worker cause now t)
  unfolding mark_compact_batch_failed
  mark_compact_batch_failed-Sound b worker none =
      guarded c t _ worker_required _ (failing c t cause_required)
  mark_compact_batch_failed-Sound b worker (some cause) = guarded c t _ worker_required _ (
      checked c t (validate_compact_batch b) _ (
        looped c t _ (parts_in_lock_order b.parts)
          (λ p u. updated c u p (compact_failed_part-Good c now cause worker))))

  pub request_compact_finalization-Sound :
      (ps : List Part) → Soundly c t (request_compact_finalization c ps now t)
  unfolding request_compact_finalization
  request_compact_finalization-Sound ps =
      looped c t _ (parts_in_lock_order ps)
        (λ p u. updated c u p (finalize_requested_part-Good c now))
