-- ===== src/State/Rewrite.antt =====
-- The rewrite stage of internal/state/postgres.go: parts are created, claimed by workers, reported
-- on, and marked done, failed or ready again.

pub mod Claiming
pub mod Ownership
use partforge.Base.{
  Text, ℕ, suc, ◌+◌, List, [], ◌∷◌, Bool, true, false, not, ◌&&◌, ◌||◌, Option, none, some, ◌==◌,
  ltb, if◌then◌else◌, text_eq, text_lt, is_blank, null, filter, Result, ok, err, ◌>>=◌, ◌>>◌, guard,
}
use partforge.Base.Order.{then_by, first_where}
use partforge.State.Part
use partforge.State.Part.{
  Part, Clock, Counts, Error, Status, is, worker_required, finished_key_required,
  destination_required, partitions_required, cause_required, generated_source, other_artifact,
  set_status, validate_part, is_generated_compact_part, clear_rewrite_progress,
}
use partforge.State.Row.{Row}
use partforge.State.Table.{Table, read_part, save_part, insert_part, update_part}

pub record PartStats : Type 0 where
  pub count : ℕ
  pub rows : ℕ
  pub bytes : ℕ

pub new_part : Clock → Text → Text → Text → Text → Text → ℕ → Part
new_part c job part bucket source_key finished_key now = record {
  job_id = job;
  job_name = [];
  part_id = part;
  status = Status.ready;
  bucket = bucket;
  source_key = source_key;
  finished_key = finished_key;
  source_job_id = [];
  source_part_id = [];
  created_at = c.format now;
  updated_at = c.format now;
  started_at = [];
  finished_at = [];
  compact_ready_at = [];
  compacting_at = [];
  superseded_at = [];
  importing_at = [];
  imported_at = [];
  failed_at = [];
  worker_id = [];
  attempts = 0;
  error = [];
  click_house_build = [];
  empty_output = false;
  source_artifact_bytes = 0;
  destination_database = [];
  destination_table = [];
  destination_schema = [];
  insert_select = [];
  compact_generation = 0;
  compact_input_part_ids = [];
  compact_cooldown_until = [];
  superseded_by = [];
  compact = Part.no_compact_progress;
  rewrite = Part.no_rewrite_progress;
}

-- A reference to a source part must name a stored original with the same artifact.
check_source : Part → Table → Result Error (Unit {0})
check_source p t = do
  source ← read_part p.source_job_id p.source_part_id t
  guard (not (is_generated_compact_part source)) generated_source
  guard (text_eq source.bucket p.bucket && text_eq source.source_key p.source_key) other_artifact

unfoldable pub create_part : Clock → Part → Table → Result Error Table
unfolding check_source
create_part c p t = do
  validate_part p
  let checked = check_source p t
  if is_blank p.source_job_id then ok tt else checked
  insert_part c p t

unfoldable pub clone_partition_counts : Counts → Counts
clone_partition_counts [] = []
clone_partition_counts ((id, count) ∷ counts) =
    let rest = clone_partition_counts counts in
    if is_blank id || count == 0 then rest else (id, count) ∷ rest

-- The condition of the operations that a worker makes on the part that it rewrites.
abbrev pub owned_by : Text → Part → Bool
owned_by worker p = is p.status Status.in_progress && text_eq p.worker_id worker

-- What `MarkCompactReady` records about the rewritten output.
pub record Output : Type 0 where
  pub finished_key : Text
  pub database : Text
  pub table : Text
  pub schema : Text
  pub stats : PartStats
  pub counts : Counts

unfoldable pub compact_ready_part : Clock → Output → ℕ → Part → Part
unfolding set_status clone_partition_counts
compact_ready_part c o now current =
    let p = set_status c current Status.compact_ready now in
    let empty = o.stats.count == 0 in
    record p {
      status = if empty then Status.finished else Status.compact_ready;
      finished_key = o.finished_key;
      compact_ready_at = if empty then [] else c.format now;
      finished_at = if empty then c.format now else current.finished_at;
      empty_output = empty;
      destination_database = o.database;
      destination_table = o.table;
      destination_schema = o.schema;
      compact_generation = 0;
      worker_id = [];
      error = [];
      compact_cooldown_until = [];
      rewrite = record current.rewrite {
        active_part_count = o.stats.count;
        active_part_rows = o.stats.rows;
        active_part_bytes = o.stats.bytes;
        partition_counts = clone_partition_counts o.counts;
      };
    }

unfoldable pub mark_compact_ready : Clock → Part → Text → Output → ℕ → Table → Result Error Table
mark_compact_ready c p worker o now t = do
  guard (not (is_blank worker)) worker_required
  guard (not (is_blank o.finished_key)) finished_key_required
  guard (not (is_blank o.database) && not (is_blank o.table) && not (is_blank o.schema))
      destination_required
  guard (not (ltb 0 o.stats.count && null o.counts)) partitions_required
  update_part c p.job_id p.part_id (owned_by worker) (compact_ready_part c o now) t

-- The order of `readyClaimQuery`: large sources first, then old ones. Texts compare by bytes, as in
-- the collation C.
abbrev pub ready_before : Row → Row → Bool
ready_before =
    then_by (λ a b. ltb b.source_artifact_bytes a.source_artifact_bytes)
      (then_by (λ a b. text_lt a.created_at b.created_at)
        (then_by (λ a b. text_lt a.job_id b.job_id) (λ a b. text_lt a.part_id b.part_id)))

-- `FOR UPDATE SKIP LOCKED`: `locked` holds of the rows that other open transactions have locked.
abbrev pub claimable : (Row → Bool) → Row → Bool
claimable locked r = is r.status Status.ready && not (locked r)

-- `claimPartInMemory`
unfoldable pub claim_part : Clock → Text → ℕ → Part → Part
unfolding set_status clear_rewrite_progress
claim_part c worker now p =
    let q = set_status c p Status.in_progress now in
    clear_rewrite_progress (record q {
      started_at = c.format now;
      worker_id = worker;
      attempts = suc p.attempts;
      error = [];
    })

unfoldable pub save_claim :
    Clock → Text → ℕ → Table → Option Row → Result Error (Table × Option Part)
unfolding claim_part
save_claim c worker now t none = ok (t, none)
save_claim c worker now t (some r) = do
  validate_part r.data_part
  t' ← save_part c (claim_part c worker now r.data_part) t
  ok (t', some (claim_part c worker now r.data_part))

unfoldable pub claim_next_ready :
    Clock → (Row → Bool) → Text → ℕ → Table → Result Error (Table × Option Part)
unfolding save_claim
claim_next_ready c locked worker now t = do
  guard (not (is_blank worker)) worker_required
  save_claim c worker now t (first_where ready_before (claimable locked) t)

unfoldable pub finished_part : Clock → Text → ℕ → Part → Part
unfolding set_status
finished_part c finished_key now current =
    let p = set_status c current Status.finished now in
    record p { finished_at = c.format now; finished_key = finished_key; worker_id = []; error = [] }

unfoldable pub mark_finished : Clock → Part → Text → Text → ℕ → Table → Result Error Table
mark_finished c p worker finished_key now t = do
  guard (not (is_blank worker)) worker_required
  guard (not (is_blank finished_key)) finished_key_required
  update_part c p.job_id p.part_id (owned_by worker) (finished_part c finished_key now) t

-- `transitionOwned` to FAILED with `failed_at`, its one use.
unfoldable pub failed_part : Clock → Text → ℕ → Part → Part
unfolding set_status
failed_part c cause now current =
    let p = set_status c current Status.failed now in
    record p { failed_at = c.format now; error = cause; worker_id = [] }

-- The cause is the text of the error, `none` for a nil error.
unfoldable pub mark_failed : Clock → Part → Text → Option Text → ℕ → Table → Result Error Table
mark_failed c p worker none now t = err cause_required
mark_failed c p worker (some cause) now t = do
  guard (not (is_blank worker)) worker_required
  update_part c p.job_id p.part_id (owned_by worker) (failed_part c cause now) t

unfoldable pub released_part : Clock → ℕ → Part → Part
unfolding set_status clear_rewrite_progress
released_part c now current =
    let p = set_status c current Status.ready now in
    clear_rewrite_progress (record p { worker_id = []; started_at = []; error = [] })

unfoldable pub release_in_progress : Clock → Part → Text → ℕ → Table → Result Error Table
release_in_progress c p worker now t = do
  guard (not (is_blank worker)) worker_required
  update_part c p.job_id p.part_id (owned_by worker) (released_part c now) t
