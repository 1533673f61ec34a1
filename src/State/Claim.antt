-- ===== src/State/Claim.antt =====
-- `ClaimNextCompactBatch` of internal/state/postgres.go, with the queries that choose its rows. The
-- rows that other open transactions have locked are skipped.
pub mod Bounds
use partforge.Base.{
  Text, ℕ, suc, ◌+◌, ◌≤◌, List, [], ◌∷◌, Bool, true, false, not, ◌&&◌, ◌||◌, ltb, leb, ◌==◌,
  if◌then◌else◌, text_eq, text_lt, is_blank, null, all, any, filter, take, length, map, Option,
  none, some, Result, ok, err, ◌>>=◌, ◌>>◌, guard, or_fail,
}
use partforge.Base.Order.{then_by, first_where, sort_slice}
use partforge.State.Part.{
  Part, Clock, Counts, Error, Status, is, worker_required, too_many_artifacts, set_status,
  validate_part,
}
use partforge.State.Row.{Row}
use partforge.State.Table.{Table, save_part}
use partforge.State.Batch.{CompactBatch, u64, compact_batch_from_parts}
use partforge.State.Compact.{each_part, max_compact_batch_parts}
use partforge.State.Progress.{sql_filled}

pub record CompactBatching : Type 0 where
  pub max_artifacts : ℕ
  pub max_bytes : ℕ

abbrev pub enabled : CompactBatching → Bool
enabled b = leb 2 b.max_artifacts

-- The window is a number of nanoseconds, 0 for none.
pub record CompactClaimOptions : Type 0 where
  pub batching : CompactBatching
  pub compact_window : ℕ
  pub excluded_job_ids : List Text
  pub job_id : Text
  pub bucket : Text
  pub destination_database : Text
  pub destination_table : Text
  pub destination_schema : Text
  pub required_partition_ids : List Text

-- The generated column `compact_partition_id` of internal/state/migrations.go.
first_partition : Counts → Text
first_partition [] = []
first_partition ((id, count) ∷ counts) =
    if ltb 0 count && not (null id) then id else first_partition counts

unfoldable pub compact_partition_id : Row → Text
unfolding first_partition
compact_partition_id r =
    if r.compact_normalized then first_partition r.data_part.rewrite.partition_counts else []

-- A COMPACT_READY normalized sibling in the same job and partition that fits the byte cap. The sums
-- are of type numeric: they do not wrap.
unfoldable pub mergeable_sibling : ℕ → Row → Row → Bool
unfolding compact_partition_id
mergeable_sibling max_bytes p s =
    text_eq s.job_id p.job_id
    && text_eq (compact_partition_id s) (compact_partition_id p)
    && not (text_eq s.part_id p.part_id)
    && is s.status Status.compact_ready
    && s.compact_normalized
    && (max_bytes == 0 || leb (s.compact_bytes + p.compact_bytes) max_bytes)

-- A filter on a column is left out where the option is empty.
abbrev chosen : Text → Text → Bool
chosen value column = null value || text_eq column value

abbrev has_required : List Text → Counts → Bool
has_required required counts =
    null required
    || any (λ (id, count). sql_filled id && ltb 0 count && any (text_eq id) required) counts

-- The latest time at which an original part of the job became ready to compact.
abbrev pub latest : Option ℕ → Option ℕ → Option ℕ
latest none b = b
latest (some a) none = some a
latest (some a) (some b) = some (if ltb a b then b else a)

unfoldable pub deadline_of : Text → Table → Option ℕ
deadline_of job [] = none
deadline_of job (r ∷ t) =
    let rest = deadline_of job t in
    if text_eq r.job_id job then latest r.original_compact_ready_at rest else rest

-- `COALESCE(deadline > now - window, true)`
abbrev in_window : ℕ → ℕ → Option ℕ → Bool
in_window window now none = true
in_window window now (some ready_at) = window == 0 || ltb now (ready_at + window)

unfoldable pub admitted : CompactClaimOptions → ℕ → Table → Row → Bool
unfolding deadline_of
admitted o now t r =
    is r.status Status.compact_ready
    && chosen o.job_id r.job_id
    && chosen o.bucket r.data_part.bucket
    && chosen o.destination_database r.data_part.destination_database
    && chosen o.destination_table r.data_part.destination_table
    && chosen o.destination_schema r.data_part.destination_schema
    && not (any (text_eq r.job_id) o.excluded_job_ids)
    && has_required o.required_partition_ids r.data_part.rewrite.partition_counts
    && in_window o.compact_window now (deadline_of r.job_id t)

abbrev pub oldest : Row → Row → Bool
oldest =
    then_by (λ a b. text_lt a.created_at b.created_at)
      (then_by (λ a b. text_lt a.job_id b.job_id) (λ a b. text_lt a.part_id b.part_id))

abbrev pub most_fragmented : Row → Row → Bool
most_fragmented = then_by (λ a b. ltb b.compact_parts a.compact_parts) oldest

abbrev pub smallest : Row → Row → Bool
smallest = then_by (λ a b. ltb a.compact_bytes b.compact_bytes) oldest

abbrev pub claims_fragmented : CompactClaimOptions → ℕ → (Row → Bool) → Table → Row → Bool
claims_fragmented o now locked t r = admitted o now t r && r.compact_eligible && not (locked r)

abbrev pub claims_anchor : CompactClaimOptions → ℕ → (Row → Bool) → Table → Row → Bool
claims_anchor o now locked t r =
    admitted o now t r
    && r.compact_normalized
    && any (mergeable_sibling o.batching.max_bytes r) t
    && not (locked r)

-- The candidates of an anchor, the anchor among them.
abbrev pub sibling_of : (Row → Bool) → Row → Row → Bool
sibling_of locked anchor r =
    text_eq r.job_id anchor.job_id
    && text_eq (compact_partition_id r) (compact_partition_id anchor)
    && is r.status Status.compact_ready
    && r.compact_normalized
    && not (locked r)

abbrev pub sibling_before : Row → Row → Bool
sibling_before =
    then_by (λ a b. ltb a.compact_bytes b.compact_bytes)
      (then_by (λ a b. text_lt a.created_at b.created_at) (λ a b. text_lt a.part_id b.part_id))

-- The loop that takes candidates until the byte cap is passed. The sum is a `uint64`.
unfoldable pub within_cap : ℕ → ℕ → List Part → List Part
within_cap max_bytes bytes [] = []
within_cap max_bytes bytes (p ∷ ps) =
    let sum = u64 (bytes + p.rewrite.active_part_bytes) in
    let rest = p ∷ within_cap max_bytes sum ps in
    if ltb 0 max_bytes && ltb max_bytes sum then [] else rest

-- `queryPartsTx` reads the parts of the rows, and validates each.
unfoldable pub read_parts : List Row → Result Error (List Part)
read_parts [] = ok []
read_parts (r ∷ rs) = do validate_part r.data_part; ps ← read_parts rs; ok (r.data_part ∷ ps)

unfoldable pub select_siblings :
    CompactBatching → (Row → Bool) → Table → Row → Result Error (List Part)
unfolding within_cap read_parts
select_siblings b locked t anchor = do
  candidates ←
      read_parts
        (take b.max_artifacts (sort_slice sibling_before (filter (sibling_of locked anchor) t)))
  let selected = within_cap b.max_bytes 0 candidates
  ok (if ltb (length selected) 2 then [] else selected)

unfoldable pub siblings_of_anchor :
    CompactBatching → (Row → Bool) → Table → Option Row → Result Error (List Part)
unfolding select_siblings
siblings_of_anchor b locked t none = ok []
siblings_of_anchor b locked t (some anchor) = do
  validate_part anchor.data_part
  select_siblings b locked t anchor

unfoldable pub claim_normalized_siblings :
    CompactClaimOptions → ℕ → (Row → Bool) → Table → Result Error (List Part)
unfolding siblings_of_anchor
claim_normalized_siblings o now locked t =
    siblings_of_anchor o.batching locked t (first_where smallest (claims_anchor o now locked t) t)

-- Fragmented artifacts first; otherwise normalized siblings of one partition.
unfoldable pub fragmented_or_siblings :
    CompactClaimOptions → ℕ → (Row → Bool) → Table → Option Row → Result Error (List Part)
unfolding claim_normalized_siblings
fragmented_or_siblings o now locked t (some r) = read_parts (r ∷ [])
fragmented_or_siblings o now locked t none =
    let siblings = claim_normalized_siblings o now locked t in
    if enabled o.batching then siblings else ok []

unfoldable pub choose_parts :
    CompactClaimOptions → ℕ → (Row → Bool) → Table → Result Error (List Part)
unfolding fragmented_or_siblings
choose_parts o now locked t =
    fragmented_or_siblings o now locked t
      (first_where most_fragmented (claims_fragmented o now locked t) t)

unfoldable pub compacting_part : Clock → Text → ℕ → Part → Part
unfolding set_status
compacting_part c worker now current =
    let p = set_status c current Status.compacting now in
    record p {
      compacting_at = c.format now;
      worker_id = worker;
      error = [];
      compact_cooldown_until = [];
    }

-- Each claimed part is written back; a part that was not stored would fail the claim.
unfoldable pub save_claimed : Clock → List Part → Table → Result Error (Table × Option CompactBatch)
save_claimed c parts t = do
  batch ← compact_batch_from_parts parts
  t' ← each_part (save_part c) parts t
  ok (t', batch)

unfoldable pub claim_next_compact_batch :
    Clock
    → (Row → Bool)
    → Text
    → ℕ
    → CompactClaimOptions
    → Table
    → Result Error (Table × Option CompactBatch)
unfolding save_claimed
claim_next_compact_batch c locked worker now o t = do
  guard (not (is_blank worker)) worker_required
  guard (not (ltb max_compact_batch_parts o.batching.max_artifacts)) too_many_artifacts
  parts ← choose_parts o now locked t
  save_claimed c (map (compacting_part c worker now) parts) t
