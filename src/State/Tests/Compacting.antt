-- ===== src/State/Tests/Compacting.antt =====
-- The compaction stage, on two artifacts of one partition, and a delete.
use partforge.Base.{
  Text, Bool, ℕ, ◌+◌, ◌≡◌, refl, ◌⊎◌, [], ◌∷◌, ◌<◌, ◌≤◌, true, false, some, none, Result, ok,
  is_blank, text_eq, text_lt, All, codes, arith, length,
}
use partforge.Base.Order.{first_where, sort_slice}
use partforge.Manifest.Build.{resolve_click_house_build}
use partforge.State.Part.{Part, Error, Status, validate_part, is_generated_compact_part}
use partforge.State.Row.{
  Row, row_at, part_write_values, stale_time, original_ready_time, is_eligible, is_normalized,
}
use partforge.State.Table.{
  Table, find, read_part, affected, same_key, save_part, insert_part, replace,
}
use partforge.State.Table.Laws.{WellFormed}
use partforge.State.Batch.{
  CompactBatch, build_of, same_destination, compact_batch_from_parts, parts_in_lock_order,
  validate_compact_batch, validate_compact_batch_parts, validate_compact_batch_part, matches_first,
  validate_compact_output_for_batch,
}
use partforge.State.Batch.Laws.{compact_batch_from_parts-agrees}
use partforge.Base.{any, if◌then◌else◌, ◌&&◌}
use partforge.State.Claim.{
  claims_fragmented, CompactClaimOptions, admitted, mergeable_sibling, within_cap, choose_parts,
}
use partforge.State.Claim.Bounds.{total_bytes, within_cap-fits, choose_parts-size}
use partforge.State.Compact.{
  compact_owned_or_unowned_ready, finalized_output, complete_compaction, supersede_inputs,
  superseded_part,
}
use partforge.State.Maintenance.{delete_job_parts_after_lock, depends}
use partforge.State.Maintenance.Deletion.{ids_of, delete-removes}
use partforge.State.Lifecycle.Sound.{Inv}
use partforge.State.Lifecycle.Completion.{complete_compaction-superseded}
use partforge.State.Lifecycle.Completion.Output.{requested, complete_compaction-output}
use partforge.State.Claim.{CompactBatching}
use partforge.State.Maintenance.{finalized_row, finalize_compact_ready, finalize_job}
use partforge.State.Upkeep.{Store, spacing, maintain_compaction}
use partforge.State.Upkeep.Spacing.{maintain_compaction-spaced}
use partforge.State.Upkeep.Settling.{settles}
use partforge.State.Tests.Samples.{clock, artifact_a, artifact_b, artifact_table, worker, unlocked}

artifact_table-WellFormed : WellFormed clock artifact_table
unfolding part_write_values affected validate_part text_eq stale_time original_ready_time
    is_generated_compact_part is_blank same_key
artifact_table-WellFormed = record { consistent = (refl, (refl, tt)); unique = (refl, (refl, tt)) }

artifact_table-Inv : Inv clock artifact_table
artifact_table-Inv = record {
  well_formed = artifact_table-WellFormed;
  bare = ((λ s. absurd (ground arith)), ((λ s. absurd (ground arith)), tt));
}

abbrev batch : CompactBatch
batch = record {
  job_id = codes "j";
  parts = artifact_a ∷ artifact_b ∷ [];
  input_part_count = 2;
  input_rows = 10;
  input_bytes = 8;
  generation = 1;
}

batches : compact_batch_from_parts (artifact_a ∷ artifact_b ∷ []) ≡ ok (some batch)
unfolding compact_batch_from_parts validate_compact_batch_parts validate_compact_batch_part
    validate_part text_eq is_blank matches_first
batches = refl

compact_batch_from_parts-agrees_example :
    (batch.parts ≡ (artifact_a ∷ artifact_b ∷ []))
    × (batch.job_id ≡ artifact_a.job_id)
    × All
        (λ p.
          (p.job_id ≡ artifact_a.job_id)
          × (p.bucket ≡ artifact_a.bucket)
          × (build_of p ≡ build_of artifact_a)
          × (same_destination p artifact_a ≡ true))
        (artifact_b ∷ [])
    × All (λ (p : Part). p.compact_generation < batch.generation) (artifact_a ∷ artifact_b ∷ [])
compact_batch_from_parts-agrees_example =
    compact_batch_from_parts-agrees artifact_a (artifact_b ∷ []) batch
      (omega arith, (omega arith, tt)) batches

within_cap-fits_example : total_bytes (within_cap 6 0 (artifact_a ∷ artifact_b ∷ [])) ≤ 6
within_cap-fits_example =
    within_cap-fits 6 (artifact_a ∷ artifact_b ∷ []) (omega arith) (omega arith, (omega arith, tt))

abbrev options : CompactClaimOptions
options = record {
  batching = record { max_artifacts = 3; max_bytes = 100 };
  compact_window = 0;
  excluded_job_ids = [];
  job_id = [];
  bucket = [];
  destination_database = [];
  destination_table = [];
  destination_schema = [];
  required_partition_ids = [];
}

chooses : choose_parts options 3 unlocked artifact_table ≡ ok (artifact_a ∷ artifact_b ∷ [])
unfolding choose_parts first_where admitted text_eq is_eligible is_blank is_normalized
    mergeable_sibling text_lt validate_part sort_slice
chooses = refl

choose_parts-size_example :
    ((any (claims_fragmented options 3 unlocked artifact_table) artifact_table ≡ true)
      × (length (artifact_a ∷ artifact_b ∷ []) ≡ 1))
    ⊎ ((any (claims_fragmented options 3 unlocked artifact_table) artifact_table ≡ false)
        × (((artifact_a ∷ artifact_b ∷ []) ≡ [])
            ⊎ ((2 ≤ length (artifact_a ∷ artifact_b ∷ []))
                × (length (artifact_a ∷ artifact_b ∷ []) ≤ options.batching.max_artifacts))))
choose_parts-size_example =
    choose_parts-size options 3 unlocked artifact_table (artifact_a ∷ artifact_b ∷ []) chooses

abbrev merged : Part
merged = record artifact_a {
  part_id = codes "m";
  finished_key = codes "h";
  compact_generation = 1;
  compact_input_part_ids = codes "a" ∷ codes "k" ∷ [];
}

abbrev completed_table : Table
completed_table =
    row_at (superseded_part clock (codes "m") 5 artifact_a) none (some 2)
    ∷ row_at (superseded_part clock (codes "m") 5 artifact_b) none (some 2)
    ∷ row_at merged none none
    ∷ []

completes : complete_compaction clock batch merged worker 5 artifact_table ≡ ok completed_table
unfolding complete_compaction is_blank validate_compact_batch validate_compact_batch_parts
    validate_compact_batch_part validate_part text_eq matches_first
    validate_compact_output_for_batch parts_in_lock_order text_lt read_part find same_key
    compact_owned_or_unowned_ready save_part part_write_values superseded_part sort_slice
    resolve_click_house_build build_of finalized_output supersede_inputs is_generated_compact_part
    original_ready_time stale_time affected insert_part replace
completes = refl

complete_compaction-superseded_example :
    All
      (λ p.
        (r : Row) × (find p.job_id p.part_id completed_table ≡ some r)
        × (r.status ≡ Status.superseded))
      batch.parts
complete_compaction-superseded_example =
    complete_compaction-superseded clock batch merged worker 5 artifact_table completed_table
      artifact_table-Inv completes

-- An input of the same compaction with a pending request.
abbrev pending : Part
pending = record artifact_b {
  compact = record artifact_b.compact { finalize_requested_at = codes "t" };
}

abbrev pending_table : Table
pending_table = row_at artifact_a none (some 2) ∷ row_at pending none (some 2) ∷ []

pending_table-WellFormed : WellFormed clock pending_table
unfolding part_write_values affected validate_part text_eq stale_time original_ready_time
    is_generated_compact_part is_blank same_key
pending_table-WellFormed = record { consistent = (refl, (refl, tt)); unique = (refl, (refl, tt)) }

pending_table-Inv : Inv clock pending_table
pending_table-Inv = record {
  well_formed = pending_table-WellFormed;
  bare = ((λ s. absurd (ground arith)), ((λ s. absurd (ground arith)), tt));
}

abbrev finished_merged : Part
finished_merged = record merged {
  status = Status.finished;
  updated_at = clock.format 5;
  finished_at = clock.format 5;
}

abbrev finalized_table : Table
finalized_table =
    row_at (superseded_part clock (codes "m") 5 artifact_a) none (some 2)
    ∷ row_at (superseded_part clock (codes "m") 5 pending) none (some 2)
    ∷ row_at finished_merged none none
    ∷ []

completes_finished :
    complete_compaction clock batch merged worker 5 pending_table ≡ ok finalized_table
unfolding complete_compaction is_blank validate_compact_batch validate_compact_batch_parts
    validate_compact_batch_part validate_part text_eq matches_first
    validate_compact_output_for_batch parts_in_lock_order text_lt read_part find same_key
    compact_owned_or_unowned_ready save_part part_write_values superseded_part sort_slice
    resolve_click_house_build build_of finalized_output supersede_inputs is_generated_compact_part
    original_ready_time stale_time affected insert_part replace
completes_finished = refl

complete_compaction-output_example :
    (r : Row) × (find merged.job_id merged.part_id finalized_table ≡ some r)
    × (r.data_part ≡ (
        if any (requested pending_table) batch.parts
        then record merged {
          status = Status.finished;
          updated_at = clock.format 5;
          finished_at = clock.format 5;
        }
        else merged))
complete_compaction-output_example =
    complete_compaction-output clock batch merged worker 5 pending_table finalized_table
      pending_table-Inv completes_finished

abbrev no_action : Result Error (Unit {0})
no_action = ok tt

deletes :
    delete_job_parts_after_lock (artifact_a ∷ []) no_action artifact_table
    ≡ ok (row_at artifact_b none (some 2) ∷ [])
unfolding delete_job_parts_after_lock is_blank validate_part text_eq sort_slice
deletes = refl

delete-removes_example :
    WellFormed clock (row_at artifact_b none (some 2) ∷ [])
    × (no_action ≡ ok tt)
    × (length (row_at artifact_b none (some 2) ∷ []) + length (ids_of (artifact_a ∷ []))
        ≡ length artifact_table)
    × ((job part : Text)
        → find job part (row_at artifact_b none (some 2) ∷ []) ≡ (
            if text_eq job artifact_a.job_id && any (text_eq part) (ids_of (artifact_a ∷ []))
            then none
            else find job part artifact_table))
    × All
        (λ r. depends artifact_a.job_id (ids_of (artifact_a ∷ [])) r ≡ false)
        (row_at artifact_b none (some 2) ∷ [])
delete-removes_example =
    delete-removes clock artifact_a [] no_action artifact_table
      (row_at artifact_b none (some 2) ∷ []) artifact_table-WellFormed deletes

abbrev maintained_table : Table
maintained_table =
    finalized_row clock 5 (row_at artifact_a none (some 2))
    ∷ finalized_row clock 5 (row_at artifact_b none (some 2))
    ∷ []

abbrev before : Store
before = record { next_run_at = 0; parts = artifact_table }

abbrev after : Store
after = record { next_run_at = 10000000005; parts = maintained_table }

abbrev single : CompactBatching
single = record { max_artifacts = 0; max_bytes = 0 }

maintains : maintain_compaction clock unlocked false 0 0 single 5 false before ≡ ok after
unfolding maintain_compaction finalize_compact_ready text_eq finalize_job is_eligible is_blank
    is_normalized
maintains = refl

maintain_compaction-spaced_example :
    Inv clock maintained_table
    × ((job part : Text) (r : Row)
        → find job part artifact_table ≡ some r
        → (r' : Row) × (find job part maintained_table ≡ some r')
          × ((r' ≡ r) ⊎ (settles r.status r'.status ≡ true)))
    × ((before ≡ after)
        ⊎ ((locked' : Row → Bool) (busy' : Bool) (window' stale_after' : ℕ) (b' : CompactBatching)
              (later : ℕ)
            → later < 5 + spacing
            → maintain_compaction clock locked' busy' window' stale_after' b' later false after
              ≡ ok after))
maintain_compaction-spaced_example =
    maintain_compaction-spaced clock unlocked false 0 0 single 5 false before after
      artifact_table-Inv maintains
