-- ===== src/State/Maintenance.antt =====
-- internal/state/maintenance.go and the removal of parts: stale compactions are given back, finished
-- jobs leave the compaction stage, and an administrator deletes the parts of a job.
pub mod Deletion
use partforge.Base.{
  Text, ℕ, suc, ◌+◌, List, [], ◌∷◌, Bool, true, false, not, ◌&&◌, ◌||◌, ltb, leb, ◌==◌,
  if◌then◌else◌, text_eq, text_lt, is_blank, null, all, any, filter, length, map, Option, none,
  some, Result, ok, err, ◌>>=◌, ◌>>◌, guard, or_fail,
}
use partforge.Base.Order.{sort_slice}
use partforge.State.Part.{
  Part, Clock, Counts, Error, Status, is, job_required, parts_required, mixed_batch, duplicate_part,
  conditional, referenced, missing_ready_time, set_status, clear_compact_progress, validate_part,
}
use partforge.State.Row.{Row}
use partforge.State.Table.{Table, save_part, affected, replace}
use partforge.State.Compact.{each_part, compact_ready_at_for_release}
use partforge.State.Claim.{
  CompactBatching, enabled, compact_partition_id, mergeable_sibling, deadline_of, read_parts,
}

-- The loop body of `releaseStaleCompactingPartsTx`.
unfoldable pub stale_released_part : Clock → ℕ → Part → Part
unfolding set_status clear_compact_progress compact_ready_at_for_release
stale_released_part c now current =
    let done = not (null current.compact.finalize_requested_at) in
    let p = set_status c current (if done then Status.finished else Status.compact_ready) now in
    clear_compact_progress (record p {
      compact_ready_at =
          if null current.compact_ready_at
          then compact_ready_at_for_release c current now
          else current.compact_ready_at;
      finished_at = if done then c.format now else current.finished_at;
      worker_id = [];
      compacting_at = [];
      error = [];
      compact_cooldown_until = [];
    })

-- `compact_stale_at <= now - stale_after`
abbrev pub overdue : ℕ → ℕ → Option ℕ → Bool
overdue now stale_after none = false
overdue now stale_after (some t) = leb (t + stale_after) now

abbrev pub is_stale : (Row → Bool) → ℕ → ℕ → Row → Bool
is_stale locked now stale_after r =
    is r.status Status.compacting && overdue now stale_after r.compact_stale_at && not (locked r)

unfoldable pub release_stale_compacting_parts :
    Clock → (Row → Bool) → ℕ → ℕ → Table → Result Error Table
unfolding read_parts each_part
release_stale_compacting_parts c locked now stale_after t = do
  parts ← read_parts (filter (is_stale locked now stale_after) t)
  each_part (λ p. save_part c (stale_released_part c now p)) parts t

-- The row of the query that summarises a job.
pub record Summary : Type 0 where
  pub ready_at : Option ℕ
  pub blocked : Bool
  pub rewriting : Bool
  pub eligible : Bool
  pub normalized : Bool

abbrev in_job : Text → (Row → Bool) → Table → Bool
in_job job test t = any (λ r. text_eq r.job_id job && test r) t

abbrev rewrites : Row → Bool
rewrites r = is r.status Status.ready || is r.status Status.in_progress

unfoldable pub summary_of : Text → Table → Summary
unfolding deadline_of
summary_of job t = record {
  ready_at = deadline_of job t;
  blocked =
      in_job job (λ r. rewrites r || is r.status Status.compacting || is r.status Status.failed) t;
  rewriting = in_job job rewrites t;
  eligible = in_job job (λ r. is r.status Status.compact_ready && r.compact_eligible) t;
  normalized = in_job job (λ r. is r.status Status.compact_ready && r.compact_normalized) t;
}

-- The jobs with a COMPACT_READY part, each once.
unfoldable pub jobs_to_finalize : Table → List Text
jobs_to_finalize [] = []
jobs_to_finalize (r ∷ t) =
    let rest = jobs_to_finalize t in
    if is r.status Status.compact_ready && not (any (text_eq r.job_id) rest)
    then r.job_id ∷ rest
    else rest

unfoldable pub window_expired : ℕ → ℕ → Option ℕ → Bool
window_expired window now none = false
window_expired window now (some ready_at) = ltb 0 window && leb (ready_at + window) now

-- Whether all artifacts of the job finish that are not normalized.
unfoldable pub all_finish : ℕ → ℕ → Summary → Result Error Bool
unfolding window_expired
all_finish window now j =
    if j.blocked
    then ok false
    else if window == 0
    then ok (not j.eligible)
    else or_fail j.ready_at missing_ready_time >>= (λ _. ok (window_expired window now j.ready_at))

-- Another artifact that still changes and that has rows in the partition of `p`.
abbrev touches_partition : Row → Row → Bool
touches_partition p s =
    text_eq s.job_id p.job_id
    && not (text_eq s.part_id p.part_id)
    && (is s.status Status.compacting || (is s.status Status.compact_ready && s.compact_eligible))
    && any (λ (id, _). text_eq id (compact_partition_id p)) s.data_part.rewrite.partition_counts

-- The condition of the statement that finishes the parts of one job.
unfoldable pub finalizes :
    (Row → Bool) → CompactBatching → Text → Bool → Bool → Summary → Table → Row → Bool
finalizes locked b job all_done expired j t p =
    text_eq p.job_id job
    && is p.status Status.compact_ready
    && ((not p.compact_normalized && all_done)
        || (p.compact_normalized
            && (expired
                || all_done
                || not (enabled b)
                || not (
                    j.rewriting
                    || any (λ s. mergeable_sibling b.max_bytes p s || touches_partition p s) t))))
    && not (locked p)

-- The columns and the fields that the statement sets.
unfoldable pub finalized_row : Clock → ℕ → Row → Row
finalized_row c now r =
    let p = r.data_part in
    record r {
      status = Status.finished;
      updated_at = c.format now;
      compact_stale_at = none;
      data_part = record p {
        status = Status.finished;
        updated_at = c.format now;
        finished_at = c.format now;
        error = [];
        compact_cooldown_until = [];
      };
    }

abbrev pub finalize_where : (Row → Bool) → Clock → ℕ → Table → Table
finalize_where test c now = map (λ r. if test r then finalized_row c now r else r)

unfoldable pub finalize_job :
    Clock → (Row → Bool) → ℕ → CompactBatching → ℕ → Text → Summary → Table → Result Error Table
unfolding finalizes finalized_row all_finish window_expired
finalize_job c locked window b now job j t = do
  all_done ← all_finish window now j
  ok (
      if not all_done && not j.normalized
      then t
      else finalize_where
          (finalizes locked b job all_done (window_expired window now j.ready_at) j t) c now t)

-- The summaries are all read before the first job is finalized.
unfoldable pub finalize_jobs :
    Clock
    → (Row → Bool)
    → ℕ
    → CompactBatching
    → ℕ
    → List (Text × Summary)
    → Table
    → Result Error Table
finalize_jobs c locked window b now [] t = ok t
finalize_jobs c locked window b now ((job, j) ∷ jobs) t = do
  t' ← finalize_job c locked window b now job j t
  finalize_jobs c locked window b now jobs t'

-- An empty job id stands for all jobs.
unfoldable pub finalize_compact_ready :
    Clock → (Row → Bool) → Text → ℕ → CompactBatching → ℕ → Table → Result Error Table
unfolding finalize_jobs jobs_to_finalize summary_of
finalize_compact_ready c locked job window b now t =
    finalize_jobs c locked window b now
      (map (λ j. (j, summary_of j t))
        (filter (λ j. null job || text_eq j job) (jobs_to_finalize t)))
      t

-- The checks of a delete selection: one job, and no part twice.
check_selection : Text → List Part → Result Error (Unit {0})
check_selection job [] = ok tt
check_selection job (p ∷ ps) = do
  validate_part p
  guard (text_eq p.job_id job) mixed_batch
  check_selection job ps

adjacent_equal : List Text → Bool
adjacent_equal [] = false
adjacent_equal (s ∷ []) = false
adjacent_equal (s ∷ t ∷ l) = text_eq s t || adjacent_equal (t ∷ l)

abbrev pub selected : Text → List Text → Row → Bool
selected job ids r = text_eq r.job_id job && any (text_eq r.part_id) ids

-- `sourceDependentTx`
abbrev pub depends : Text → List Text → Row → Bool
depends job ids r =
    not (null r.source_job_id) && text_eq r.source_job_id job && any (text_eq r.source_part_id) ids

-- `after_lock` is the caller's action under the locks, with its failure.
unfoldable pub delete_job_parts_after_lock :
    List Part → Result Error (Unit {0}) → Table → Result Error Table
unfolding check_selection adjacent_equal
delete_job_parts_after_lock [] after_lock t = err parts_required
delete_job_parts_after_lock (first ∷ ps) after_lock t = do
  guard (not (is_blank first.job_id)) job_required
  check_selection first.job_id (first ∷ ps)
  let ids = sort_slice text_lt (map (λ (p : Part). p.part_id) (first ∷ ps))
  guard (not (adjacent_equal ids)) duplicate_part
  guard (length (filter (selected first.job_id ids) t) == length ids) conditional
  guard (not (any (depends first.job_id ids) t)) referenced
  after_lock
  ok (filter (λ r. not (selected first.job_id ids r)) t)
