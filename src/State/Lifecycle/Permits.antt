-- ===== src/State/Lifecycle/Permits.antt =====
-- Which changes of a status each transaction of internal/state/postgres.go and
-- internal/state/maintenance.go may make, and the transactions that change one part.
pub mod Batches
pub mod Statements
pub mod Histories
use partforge.Base.{
  Text, ℕ, ◌≡◌, refl, inl, inr, Bool, true, false, not, ◌&&◌, ◌||◌, ◌==◌, if◌then◌else◌, Option,
  none, some, Result, ok, err, guard, ◌>>◌, arith, is_blank, null, Bool-cases,
}
use partforge.State.Part.{
  Part, Clock, Error, Status, is, worker_required, finished_key_required, destination_required,
  partitions_required, cause_required, wrong_status, missing_progress, validate_part,
}
use partforge.State.Table.{Table, update_part, commit}
use partforge.State.Table.Laws.{WellFormed}
use partforge.State.Rewrite.{
  Output, owned_by, compact_ready_part, finished_part, failed_part, released_part, create_part,
  mark_compact_ready, mark_finished, mark_failed, release_in_progress,
}
use partforge.State.Import.{
  has_status, importing_part, imported_part, unimported_part, import_failed_part, mark_importing,
  mark_imported, release_import, mark_import_failed,
}
use partforge.State.Retry.{
  failed_retry_target, retried_part, restarted_part, anything, timer_reset_part, silent_since,
  retry_failed_part, retry_in_progress_part, retry_stale_in_progress_part, reset_compact_timer,
}
use partforge.State.Command.{Command}
use partforge.State.Lifecycle.{KeepsKey}
use partforge.State.Lifecycle.Changes.{
  Changes, Changes-refl, update_part-Changes, insert_part-Changes,
}

abbrev pub edge : Status → Status → Status → Status → Bool
edge a b s s' = is s a && is s' b

-- From a compaction, or from the wait for one.
abbrev pub awaiting : Status → Bool
awaiting s = is s Status.compacting || is s Status.compact_ready

unfoldable pub permits : Command → Status → Status → Bool
permits (Command.create p) s s' = false
permits (Command.claim_ready locked w) s s' = edge Status.ready Status.in_progress s s'
permits (Command.report_rewrite j p w g) s s' = edge Status.in_progress Status.in_progress s s'
permits (Command.finish_rewrite p w o) s s' =
    edge Status.in_progress (if o.stats.count == 0 then Status.finished else Status.compact_ready) s
      s'
permits (Command.finish p w key) s s' = edge Status.in_progress Status.finished s s'
permits (Command.fail p w cause) s s' = edge Status.in_progress Status.failed s s'
permits (Command.release p w) s s' = edge Status.in_progress Status.ready s s'
permits (Command.claim_batch locked w o) s s' = edge Status.compact_ready Status.compacting s s'
permits (Command.beat_batch b w) s s' = awaiting s && is s' Status.compacting
permits (Command.report_batch b w out ins outs stage merges progress) s s' =
    awaiting s && is s' Status.compacting
permits (Command.release_batch b w done) s s' =
    (awaiting s && is s' Status.finished) || (awaiting s && not done && is s' Status.compact_ready)
permits (Command.fail_batch b w cause) s s' = edge Status.compacting Status.failed s s'
permits (Command.request_finalization ps) s s' =
    edge Status.compact_ready Status.finished s s' || edge Status.compacting Status.compacting s s'
permits (Command.complete_batch b out w) s s' = awaiting s && is s' Status.superseded
permits (Command.release_stale locked age) s s' =
    edge Status.compacting Status.compact_ready s s' || edge Status.compacting Status.finished s s'
permits (Command.finalize locked job window b) s s' = edge Status.compact_ready Status.finished s s'
permits (Command.start_import p) s s' = edge Status.finished Status.importing s s'
permits (Command.finish_import p) s s' = edge Status.importing Status.imported s s'
permits (Command.undo_import p) s s' = edge Status.importing Status.finished s s'
permits (Command.fail_import p cause) s s' = edge Status.importing Status.failed s s'
permits (Command.retry_failed p) s s' =
    is s Status.failed
    && (is s' Status.ready || is s' Status.compact_ready || is s' Status.finished)
permits (Command.retry_in_progress p) s s' = edge Status.in_progress Status.ready s s'
permits (Command.retry_stale p) s s' = edge Status.in_progress Status.ready s s'
permits (Command.reset_timer p) s s' = is s s'

-- Whatever table a transaction gives, it changes the parts as the test admits.
abbrev pub Within : Table → (Status → Status → Bool) → Result Error Table → Type 0
Within t may r = (t' : Table) → r ≡ ok t' → Changes may t t'

is_same : (s : Status) → is s s ≡ true
is_same s = ground arith

module _ (c : Clock) (t : Table) (may : Status → Status → Bool) where
  pub failing : (e : Error) → Within t may (err e)
  failing e t' h = cc

  pub guarded :
      (b : Bool) (e : Error) (k : Result Error Table)
      → Within t may k
      → Within t may (guard b e >> k)
  guarded true e k f = f
  guarded false e k f = failing e

  pub checked :
      (m : Result Error (Unit {0})) (k : Result Error Table)
      → Within t may k
      → Within t may (m >> k)
  checked (ok tt) k f = f
  checked (err e) k f = failing e

  updated :
      WellFormed c t
      → (p : Part) (condition : Part → Bool) (mutate : Part → Part) → KeepsKey mutate
      → ((q : Part) → condition q ≡ true → may q.status (mutate q).status ≡ true)
      → Within t may (update_part c p.job_id p.part_id condition mutate t)
  updated w p condition mutate keep leads t' h =
      update_part-Changes may c p.job_id p.part_id condition mutate t t' w keep leads h

module _ (c : Clock) (now : ℕ) (t : Table) (w : WellFormed c t) where
  pub create_part-Within : (p : Part) → Within t (permits (Command.create p)) (create_part c p t)
  unfolding create_part permits
  create_part-Within p =
      checked c t _ (validate_part p) _
        (checked c t _ _ _ (λ t' h. insert_part-Changes (permits (Command.create p)) c p t t' h))

  pub mark_compact_ready-Within :
      (p : Part) (worker : Text) (o : Output)
      → Within t
          (permits (Command.finish_rewrite p worker o))
          (mark_compact_ready c p worker o now t)
  unfolding mark_compact_ready permits compact_ready_part
  mark_compact_ready-Within p worker o = guarded c t _ (not (is_blank worker)) worker_required _ (
      guarded c t _ (not (is_blank o.finished_key)) finished_key_required _ (
        guarded c t _ _ destination_required _ (
          guarded c t _ _ partitions_required _ (
            updated c t _ w p (owned_by worker) (compact_ready_part c o now) (λ q. (refl, refl))
              (λ q h. ground arith)))))

  pub mark_finished-Within :
      (p : Part) (worker key : Text)
      → Within t (permits (Command.finish p worker key)) (mark_finished c p worker key now t)
  unfolding mark_finished permits finished_part
  mark_finished-Within p worker key = guarded c t _ _ worker_required _ (
      guarded c t _ _ finished_key_required _ (
        updated c t _ w p (owned_by worker) (finished_part c key now) (λ q. (refl, refl))
          (λ q h. ground arith)))

  pub mark_failed-Within :
      (p : Part) (worker : Text) (cause : Option Text)
      → Within t (permits (Command.fail p worker cause)) (mark_failed c p worker cause now t)
  unfolding mark_failed permits failed_part
  mark_failed-Within p worker none = failing c t _ cause_required
  mark_failed-Within p worker (some cause) = guarded c t _ _ worker_required _ (
      updated c t _ w p (owned_by worker) (failed_part c cause now) (λ q. (refl, refl))
        (λ q h. ground arith))

  pub release_in_progress-Within :
      (p : Part) (worker : Text)
      → Within t (permits (Command.release p worker)) (release_in_progress c p worker now t)
  unfolding release_in_progress permits released_part
  release_in_progress-Within p worker = guarded c t _ _ worker_required _ (
      updated c t _ w p (owned_by worker) (released_part c now) (λ q. (refl, refl))
        (λ q h. ground arith))

  pub mark_importing-Within :
      (p : Part) → Within t (permits (Command.start_import p)) (mark_importing c p now t)
  unfolding mark_importing permits importing_part
  mark_importing-Within p =
      updated c t _ w p (has_status Status.finished) (importing_part c now) (λ q. (refl, refl))
        (λ q h. ground arith)

  pub mark_imported-Within :
      (p : Part) → Within t (permits (Command.finish_import p)) (mark_imported c p now t)
  unfolding mark_imported permits imported_part
  mark_imported-Within p =
      updated c t _ w p (has_status Status.importing) (imported_part c now) (λ q. (refl, refl))
        (λ q h. ground arith)

  pub release_import-Within :
      (p : Part) → Within t (permits (Command.undo_import p)) (release_import c p now t)
  unfolding release_import permits unimported_part
  release_import-Within p =
      updated c t _ w p (has_status Status.importing) (unimported_part c now) (λ q. (refl, refl))
        (λ q h. ground arith)

  pub mark_import_failed-Within :
      (p : Part) (cause : Option Text)
      → Within t (permits (Command.fail_import p cause)) (mark_import_failed c p cause now t)
  unfolding mark_import_failed permits import_failed_part
  mark_import_failed-Within p none = failing c t _ cause_required
  mark_import_failed-Within p (some cause) =
      updated c t _ w p (has_status Status.importing) (import_failed_part c cause now)
        (λ q. (refl, refl)) (λ q h. ground arith)

  pub retry_failed_part-Within :
      (p : Part) → Within t (permits (Command.retry_failed p)) (retry_failed_part c p now t)
  unfolding retry_failed_part permits retried_part failed_retry_target
  retry_failed_part-Within p = guarded c t _ _ wrong_status _ (
      updated c t _ w p (has_status Status.failed) (retried_part c (failed_retry_target p) now)
        (λ q. ground arith) (λ q h. ground arith))

  pub retry_in_progress_part-Within :
      (p : Part)
      → Within t (permits (Command.retry_in_progress p)) (retry_in_progress_part c p now t)
  unfolding retry_in_progress_part permits restarted_part
  retry_in_progress_part-Within p = guarded c t _ _ wrong_status _ (
      updated c t _ w p (has_status Status.in_progress) (restarted_part c now) (λ q. (refl, refl))
        (λ q h. ground arith))

  pub retry_stale_in_progress_part-Within :
      (p : Part)
      → Within t (permits (Command.retry_stale p)) (retry_stale_in_progress_part c p now t)
  unfolding retry_stale_in_progress_part permits restarted_part
  retry_stale_in_progress_part-Within p = guarded c t _ _ wrong_status _ (
      guarded c t _ _ missing_progress _ (
        updated c t _ w p (silent_since p) (restarted_part c now) (λ q. (refl, refl))
          (λ q h. ground arith)))

  pub reset_compact_timer-Within :
      (p : Part) → Within t (permits (Command.reset_timer p)) (reset_compact_timer c p now t)
  unfolding reset_compact_timer permits timer_reset_part
  reset_compact_timer-Within p = checked c t _ (validate_part p) _ (
      updated c t _ w p anything (timer_reset_part c now) (λ q. (refl, refl))
        (λ q h. is_same q.status))
