-- ===== src/State/Compact.antt =====
-- The compaction stage of internal/state/postgres.go: what the worker that compacts a batch does to
-- its inputs. The clause of each loop body is `readPartTx`, a test, and `savePartTx`.
use partforge.Base.{
  Text, ℕ, List, [], ◌∷◌, Bool, not, ◌&&◌, ◌||◌, ltb, length, if◌then◌else◌, text_eq, is_blank,
  null, Option, Result, ok, ◌>>=◌, ◌>>◌, guard, or_fail,
}
use partforge.State.Part.{
  Part, Clock, Error, Status, is, conditional, worker_required, cause_required, too_many_artifacts,
  wrong_status, set_status, validate_part, clear_compact_progress,
}
use partforge.State.Table.{Table, read_part, save_part, insert_part, update_part}
use partforge.State.Batch.{
  CompactBatch, parts_in_lock_order, validate_compact_batch, validate_compact_output_for_batch,
}

abbrev pub max_compact_batch_parts : ℕ
max_compact_batch_parts = 99

-- A loop whose body fails the whole transaction by its error.
unfoldable pub each_part :
    (Part → Table → Result Error Table) → List Part → Table → Result Error Table
each_part body [] t = ok t
each_part body (p ∷ ps) t = do t' ← body p t; each_part body ps t'

unfoldable pub compact_owned_or_unowned_ready : Text → Part → Bool
compact_owned_or_unowned_ready worker p =
    (is p.status Status.compacting && text_eq p.worker_id worker)
    || (is p.status Status.compact_ready && is_blank p.worker_id)

-- The first time that is set, or now.
unfoldable pub compact_ready_at_for_release : Clock → Part → ℕ → Text
compact_ready_at_for_release c p now =
    if not (is_blank p.compact_ready_at)
    then p.compact_ready_at
    else if not (is_blank p.rewrite.progress_updated_at)
    then p.rewrite.progress_updated_at
    else if not (is_blank p.updated_at)
    then p.updated_at
    else if not (is_blank p.compacting_at)
    then p.compacting_at
    else c.format now

-- `finalize` is the caller's wish; a request stored in the part counts as well.
unfoldable pub released_input : Clock → Bool → ℕ → Part → Part
unfolding set_status clear_compact_progress compact_ready_at_for_release
released_input c finalize now current =
    let done = finalize || not (null current.compact.finalize_requested_at) in
    let p = set_status c current (if done then Status.finished else Status.compact_ready) now in
    clear_compact_progress (record p {
      finished_at = if done then c.format now else current.finished_at;
      compact_ready_at =
          if is_blank current.compact_ready_at
          then compact_ready_at_for_release c p now
          else current.compact_ready_at;
      worker_id = [];
      compacting_at = [];
      error = [];
      compact_cooldown_until = [];
    })

unfoldable pub release_compact_batch :
    Clock → CompactBatch → Text → ℕ → Bool → Table → Result Error Table
unfolding each_part
release_compact_batch c b worker now finalize t = do
  guard (not (is_blank worker)) worker_required
  each_part
      (λ p.
        update_part c p.job_id p.part_id (compact_owned_or_unowned_ready worker)
          (released_input c finalize now))
      (parts_in_lock_order b.parts) t

-- `markCompactPartFailed`
unfoldable pub compact_failed_part : Clock → Text → ℕ → Part → Part
unfolding set_status clear_compact_progress
compact_failed_part c cause now current =
    let p = set_status c current Status.failed now in
    clear_compact_progress (record p {
      failed_at = c.format now;
      worker_id = [];
      compacting_at = [];
      error = cause;
      compact_cooldown_until = [];
    })

abbrev pub compacting_by : Text → Part → Bool
compacting_by worker p = is p.status Status.compacting && text_eq p.worker_id worker

unfoldable pub mark_compact_batch_failed :
    Clock → CompactBatch → Text → Option Text → ℕ → Table → Result Error Table
unfolding each_part
mark_compact_batch_failed c b worker cause now t = do
  guard (not (is_blank worker)) worker_required
  text ← or_fail cause cause_required
  validate_compact_batch b
  each_part
      (λ p.
        update_part c p.job_id p.part_id (compacting_by worker) (compact_failed_part c text now))
      (parts_in_lock_order b.parts) t

unfoldable pub finalize_requested_part : Clock → ℕ → Part → Part
unfolding set_status clear_compact_progress
finalize_requested_part c now current =
    let p = set_status c current Status.finished now in
    let request = record current.compact { finalize_requested_at = c.format now } in
    if is current.status Status.compact_ready
    then clear_compact_progress
        (record p { finished_at = c.format now; error = []; compact_cooldown_until = [] })
    else record current { compact = request; updated_at = c.format now }

abbrev pub awaits_compaction : Part → Bool
awaits_compaction p = is p.status Status.compacting || is p.status Status.compact_ready

-- The updated parts that the caller gets are the stored ones.
unfoldable pub request_compact_finalization : Clock → List Part → ℕ → Table → Result Error Table
unfolding each_part
request_compact_finalization c parts now t =
    each_part
      (λ p. update_part c p.job_id p.part_id awaits_compaction (finalize_requested_part c now))
      (parts_in_lock_order parts) t

unfoldable pub superseded_part : Clock → Text → ℕ → Part → Part
unfolding set_status clear_compact_progress
superseded_part c output now current =
    let p = set_status c current Status.superseded now in
    clear_compact_progress (record p {
      superseded_at = c.format now;
      superseded_by = output;
      worker_id = [];
      compacting_at = [];
      error = [];
      compact_cooldown_until = [];
    })

-- A pending request of an input finishes the output.
unfoldable pub finalized_output : Clock → ℕ → Part → Part → Part
unfolding set_status
finalized_output c now current output =
    let p = set_status c output Status.finished now in
    if null current.compact.finalize_requested_at
    then output
    else record p { finished_at = c.format now }

-- The loop over the inputs, which carries the output along.
unfoldable pub supersede_inputs :
    Clock → Text → ℕ → List Part → Part → Table → Result Error (Table × Part)
unfolding finalized_output
supersede_inputs c worker now [] output t = ok (t, output)
supersede_inputs c worker now (p ∷ ps) output t = do
  current ← read_part p.job_id p.part_id t
  guard (compact_owned_or_unowned_ready worker current) conditional
  t' ← save_part c (superseded_part c output.part_id now current) t
  supersede_inputs c worker now ps (finalized_output c now current output) t'

unfoldable pub complete_compaction :
    Clock → CompactBatch → Part → Text → ℕ → Table → Result Error Table
unfolding supersede_inputs
complete_compaction c b output worker now t = do
  guard (not (is_blank worker)) worker_required
  guard (not (ltb max_compact_batch_parts (length b.parts))) too_many_artifacts
  validate_compact_batch b
  validate_part output
  guard (is output.status Status.compact_ready) wrong_status
  validate_compact_output_for_batch b output
  (t', output') ← supersede_inputs c worker now (parts_in_lock_order b.parts) output t
  insert_part c output' t'
