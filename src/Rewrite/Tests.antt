-- ===== src/Rewrite/Tests.antt =====
-- The wait for merges at concrete rounds.
use partforge.Base.{◌≤◌, ◌<◌, some, none}
use partforge.Rewrite.Deadline.{
  WaitLimits, merge_wait_limits, compact_merge_timeout, compact_merge_max_timeout,
  compact_merge_timeout_until, limits_by, compact_merge_timeouts_for_deadline,
  merge_wait_limits-deadline,
}
use partforge.Base.{Text, ◌+◌, text_eq}
use partforge.Rewrite.Stages.{
  snapshot_locked, start_all, start_stage, start_locked, end_stage, add_duration, new_stage_tracker,
  sum_durations, start_all-accounts,
}
use partforge.Rewrite.Partitions.{compact_partitions_normalized, summarize_part_partitions}
use partforge.Base.{text_eq}
use partforge.Base.{ℕ, List, [], ◌∷◌, true, false, ok, err, codes, ◌≡◌, ◌↔◌, refl, arith}
use partforge.Rewrite.Partitions.{
  PartPartitionStats, CompactInput, compact_input_needs_normalization,
}
use partforge.Rewrite.Normalizing.{
  Round, answered, memory_limited, interrupted, Settles, compact_merge_settle_min_wait,
  normalize_compact_input,
}
use partforge.Rewrite.Normalizing.Settled.{counted, normalize_compact_input-Settles}

abbrev partition : ℕ → PartPartitionStats
partition parts = record { partition_id = codes "202601"; parts = parts; rows = 10; bytes = 100 }

abbrev input : List PartPartitionStats
input = partition 3 ∷ []

abbrev rounds : List Round
rounds =
    answered 1 (partition 3 ∷ []) 5
    ∷ memory_limited
    ∷ answered 0 (partition 2 ∷ []) 8
    ∷ answered 0 (partition 2 ∷ []) 19
    ∷ []

ends_quiet : normalize_compact_input 10 input 0 rounds ≡ ok tt
unfolding normalize_compact_input compact_partitions_normalized summarize_part_partitions
ends_quiet = refl

waits_longer : normalize_compact_input 12 input 0 rounds ≡ err interrupted
unfolding normalize_compact_input compact_partitions_normalized summarize_part_partitions
waits_longer = refl

normalize_compact_input-Settles_example :
    (normalize_compact_input 10 input 0 rounds ≡ ok tt)
    ↔ Settles input (compact_merge_settle_min_wait 10) (counted input) 0 rounds
normalize_compact_input-Settles_example =
    normalize_compact_input-Settles 10 input 0 rounds (omega arith)

abbrev artifact : ℕ → CompactInput
artifact parts = record {
  parts = parts;
  rows = 10;
  bytes = 100;
  partition_counts = (codes "202601", parts) ∷ [];
}

siblings_need : compact_input_needs_normalization (artifact 1 ∷ artifact 1 ∷ []) ≡ true
unfolding compact_input_needs_normalization text_eq
siblings_need = refl

single_does_not : compact_input_needs_normalization (artifact 1 ∷ []) ≡ false
unfolding compact_input_needs_normalization
single_does_not = refl

abbrev calls : List (Text × ℕ)
calls = (codes "insert", 8) ∷ (codes "insert", 12) ∷ (codes "download", 20) ∷ []

tracks : snapshot_locked 25 (start_all calls (new_stage_tracker 3 (codes "download"))) ≡ record {
  stage = codes "download";
  stage_started_at = 20;
  stage_elapsed = 5;
  total_elapsed = 22;
  completed_stage_durations = (codes "download", 5) ∷ (codes "insert", 12) ∷ [];
}
unfolding snapshot_locked start_all start_stage start_locked end_stage add_duration
    new_stage_tracker text_eq
tracks = refl

start_all-accounts_example :
    let s = snapshot_locked 25 (start_all calls (new_stage_tracker 3 (codes "download"))) in
    sum_durations s.completed_stage_durations + s.stage_elapsed ≡ s.total_elapsed
start_all-accounts_example =
    start_all-accounts 3 25 (codes "download") calls (omega arith) refl
      (omega arith, (omega arith, (omega arith, omega arith)))

abbrev wait_limits : WaitLimits
wait_limits = record { merge_timeout = 50; merge_max_timeout = 90 }

capped : merge_wait_limits 50 1000 100 10 ≡ some wait_limits
unfolding merge_wait_limits compact_merge_timeout compact_merge_max_timeout
    compact_merge_timeout_until limits_by compact_merge_timeouts_for_deadline
capped = refl

merge_wait_limits-deadline_example :
    (0 < 50) × (50 ≤ compact_merge_timeout 50) × (50 ≤ 90) × (10 + 90 ≡ 100)
merge_wait_limits-deadline_example =
    merge_wait_limits-deadline 50 1000 100 10 wait_limits (omega arith) capped

no_time_left : merge_wait_limits 50 1000 100 100 ≡ none
unfolding merge_wait_limits compact_merge_timeout compact_merge_max_timeout
    compact_merge_timeout_until limits_by compact_merge_timeouts_for_deadline
no_time_left = refl
