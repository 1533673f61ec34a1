-- ===== src/State/Retry.antt =====
-- The recovery operations of internal/state/postgres.go: retries of failed and stuck parts, and the
-- forced and original resets of an administrator.
use partforge.Base.{
  ℕ, [], Bool, true, not, ◌&&◌, if◌then◌else◌, text_eq, is_blank, null, Result, ok, err, ◌>>=◌,
  ◌>>◌, guard,
}
use partforge.State.Part.{
  Part, Clock, Error, Status, is, wrong_status, missing_updated_at, missing_progress, not_original,
  set_status, validate_part, is_generated_compact_part, clear_rewrite_progress,
  clear_compact_progress,
}
use partforge.State.Table.{Table, update_part}
use partforge.State.Import.{has_status}

unfoldable pub failed_retry_target : Part → Status
failed_retry_target p =
    if not (null p.importing_at)
    then Status.finished
    else if not (null p.compact_ready_at)
    then Status.compact_ready
    else Status.ready

unfoldable pub retried_part : Clock → Status → ℕ → Part → Part
unfolding set_status clear_rewrite_progress
retried_part c target now current =
    let p = set_status c current target now in
    let q = record p {
      error = [];
      failed_at = [];
      importing_at = [];
      imported_at = [];
      worker_id = [];
    } in
    if is target Status.ready
    then clear_rewrite_progress (record q { started_at = []; finished_at = [] })
    else q

-- The target is chosen from the caller's copy of the part.
unfoldable pub retry_failed_part : Clock → Part → ℕ → Table → Result Error Table
unfolding failed_retry_target
retry_failed_part c p now t = do
  guard (is p.status Status.failed) wrong_status
  update_part c p.job_id p.part_id (has_status Status.failed)
      (retried_part c (failed_retry_target p) now) t

unfoldable pub restarted_part : Clock → ℕ → Part → Part
unfolding set_status clear_rewrite_progress
restarted_part c now current =
    let p = set_status c current Status.ready now in
    clear_rewrite_progress (record p { error = []; started_at = []; worker_id = [] })

unfoldable pub retry_in_progress_part : Clock → Part → ℕ → Table → Result Error Table
retry_in_progress_part c p now t = do
  guard (is p.status Status.in_progress) wrong_status
  update_part c p.job_id p.part_id (has_status Status.in_progress) (restarted_part c now) t

-- The part has not reported since the caller read it.
abbrev pub silent_since : Part → Part → Bool
silent_since p current =
    is current.status Status.in_progress
    && text_eq current.rewrite.progress_updated_at p.rewrite.progress_updated_at

unfoldable pub retry_stale_in_progress_part : Clock → Part → ℕ → Table → Result Error Table
retry_stale_in_progress_part c p now t = do
  guard (is p.status Status.in_progress) wrong_status
  guard (not (is_blank p.rewrite.progress_updated_at)) missing_progress
  update_part c p.job_id p.part_id (silent_since p) (restarted_part c now) t

abbrev pub anything : Part → Bool
anything _ = true

unfoldable pub forced_part : Clock → ℕ → Part → Part
unfolding set_status clear_rewrite_progress
forced_part c now current =
    let p = set_status c current Status.ready now in
    clear_rewrite_progress (record p {
      error = [];
      failed_at = [];
      started_at = [];
      finished_at = [];
      importing_at = [];
      imported_at = [];
      worker_id = [];
    })

unfoldable pub force_retry_part : Clock → Part → ℕ → Table → Result Error Table
force_retry_part c p now t = update_part c p.job_id p.part_id anything (forced_part c now) t

-- The statuses that `ForceSetPartStatus` accepts.
pub data Target : Type 0 where
  to_ready to_compact_ready to_finished : Target

abbrev pub target_status : Target → Status
target_status to_ready = Status.ready
target_status to_compact_ready = Status.compact_ready
target_status to_finished = Status.finished

unfoldable pub forced_target : Status → Result Error Target
forced_target Status.ready = ok to_ready
forced_target Status.compact_ready = ok to_compact_ready
forced_target Status.finished = ok to_finished
forced_target _ = err wrong_status

-- The resets that every target shares.
forced_common : Clock → Target → ℕ → Part → Part
unfolding set_status clear_compact_progress
forced_common c to now current =
    let p = set_status c current (target_status to) now in
    clear_compact_progress (record p {
      error = [];
      started_at = [];
      compacting_at = [];
      importing_at = [];
      imported_at = [];
      failed_at = [];
      worker_id = [];
      compact_cooldown_until = [];
    })

unfoldable pub forced_to : Clock → Target → ℕ → Part → Part
unfolding forced_common clear_rewrite_progress
forced_to c to_ready now current =
    let p = clear_rewrite_progress (forced_common c to_ready now current) in
    record p { finished_at = []; compact_ready_at = []; superseded_at = []; superseded_by = [] }
forced_to c to_compact_ready now current =
    let p = forced_common c to_compact_ready now current in
    record p {
      compact_ready_at =
          if is_blank current.compact_ready_at then c.format now else current.compact_ready_at;
      finished_at = [];
      superseded_at = [];
      superseded_by = [];
    }
forced_to c to_finished now current =
    let p = forced_common c to_finished now current in
    record p {
      finished_at = if is_blank current.finished_at then c.format now else current.finished_at;
      superseded_at = [];
      superseded_by = [];
    }

-- The part was not written since the caller read it.
abbrev pub unchanged_since : Part → Part → Bool
unchanged_since p current = text_eq current.updated_at p.updated_at

unfoldable pub force_set_part_status : Clock → Part → Status → ℕ → Table → Result Error Table
unfolding forced_target
force_set_part_status c p to now t = do
  validate_part p
  guard (not (is_blank p.updated_at)) missing_updated_at
  target ← forced_target to
  update_part c p.job_id p.part_id (unchanged_since p) (forced_to c target now) t

unfoldable pub timer_reset_part : Clock → ℕ → Part → Part
timer_reset_part c now current = record current {
  compact_ready_at = c.format now;
  compact_cooldown_until = [];
}

unfoldable pub reset_compact_timer : Clock → Part → ℕ → Table → Result Error Table
reset_compact_timer c p now t = do
  validate_part p
  update_part c p.job_id p.part_id anything (timer_reset_part c now) t

validate_original_reset_part : Part → Result Error (Unit {0})
validate_original_reset_part p = do
  validate_part p
  guard (not (is_generated_compact_part p)) not_original
  guard (not (is_blank p.updated_at)) missing_updated_at

unfoldable pub original_ready_part : Clock → ℕ → Part → Part
unfolding set_status clear_compact_progress clear_rewrite_progress
original_ready_part c now current =
    let p = set_status c current Status.ready now in
    let own = is_blank current.source_job_id in
    clear_rewrite_progress (
      clear_compact_progress (record p {
        error = [];
        failed_at = [];
        started_at = [];
        finished_at = [];
        compact_ready_at = [];
        compacting_at = [];
        superseded_at = [];
        importing_at = [];
        imported_at = [];
        worker_id = [];
        compact_cooldown_until = [];
        superseded_by = [];
        destination_database = if own then [] else current.destination_database;
        destination_table = if own then [] else current.destination_table;
        destination_schema = if own then [] else current.destination_schema;
        insert_select = if own then [] else current.insert_select;
        compact_generation = 0;
        compact_input_part_ids = [];
      }))

unfoldable pub reset_original_part_to_ready : Clock → Part → ℕ → Table → Result Error Table
unfolding validate_original_reset_part
reset_original_part_to_ready c p now t = do
  validate_original_reset_part p
  update_part c p.job_id p.part_id (unchanged_since p) (original_ready_part c now) t

unfoldable pub original_compact_ready_part : Clock → ℕ → Part → Part
unfolding set_status clear_compact_progress
original_compact_ready_part c now current =
    let p = set_status c current Status.compact_ready now in
    clear_compact_progress (record p {
      compact_ready_at = c.format now;
      error = [];
      failed_at = [];
      started_at = [];
      finished_at = [];
      compacting_at = [];
      superseded_at = [];
      importing_at = [];
      imported_at = [];
      worker_id = [];
      compact_cooldown_until = [];
      superseded_by = [];
      compact_input_part_ids = [];
    })

unfoldable pub reset_original_part_to_compact_ready : Clock → Part → ℕ → Table → Result Error Table
unfolding validate_original_reset_part
reset_original_part_to_compact_ready c p now t = do
  validate_original_reset_part p
  update_part c p.job_id p.part_id (unchanged_since p) (original_compact_ready_part c now) t
