-- ===== src/Rewrite/Partitions.antt =====
-- Counts of parts by partition, in internal/rewrite/processor.go and internal/rewrite/compactor.go. A map
-- of counts is a list of pairs, in the order in which it is ranged over.
use partforge.Base.{
  Text, ℕ, List, [], ◌∷◌, Bool, true, false, if◌then◌else◌, ◌&&◌, ltb, ◌==◌, ◌+◌, ◌%◌, any, all,
  length, text_eq,
}
use partforge.Base.Strconv.{word_size}

pub record PartStats : Type 0 where
  pub count : ℕ
  pub rows : ℕ
  pub bytes : ℕ

pub record PartPartitionStats : Type 0 where
  pub partition_id : Text
  pub parts : ℕ
  pub rows : ℕ
  pub bytes : ℕ

-- The fields of `CompactInput` that the sums read.
pub record CompactInput : Type 0 where
  pub parts : ℕ
  pub rows : ℕ
  pub bytes : ℕ
  pub partition_counts : List (Text × ℕ)

abbrev pub no_parts : PartStats
no_parts = record { count = 0; rows = 0; bytes = 0 }

-- Sums of `uint64`.
unfoldable pub add_part_stats : PartStats → PartStats → PartStats
add_part_stats left right = record {
  count = (left.count + right.count) % word_size;
  rows = (left.rows + right.rows) % word_size;
  bytes = (left.bytes + right.bytes) % word_size;
}

summarize_from : PartStats → List PartPartitionStats → PartStats
unfolding add_part_stats
summarize_from stats [] = stats
summarize_from stats (p ∷ partitions) =
    summarize_from
      (add_part_stats stats (record { count = p.parts; rows = p.rows; bytes = p.bytes })) partitions

unfoldable pub summarize_part_partitions : List PartPartitionStats → PartStats
unfolding summarize_from
summarize_part_partitions partitions = summarize_from no_parts partitions

input_stats_from : PartStats → List CompactInput → PartStats
unfolding add_part_stats
input_stats_from stats [] = stats
input_stats_from stats (i ∷ inputs) =
    input_stats_from
      (add_part_stats stats (record { count = i.parts; rows = i.rows; bytes = i.bytes })) inputs

unfoldable pub compact_input_stats : List CompactInput → PartStats
unfolding input_stats_from
compact_input_stats inputs = input_stats_from no_parts inputs

-- The total of a partition so far.
unfoldable pub total_of : Text → List (Text × ℕ) → ℕ
total_of id [] = 0
total_of id ((k, n) ∷ totals) = let rest = total_of id totals in if text_eq k id then n else rest

-- Whether a partition gets a second part; otherwise the totals, newest first.
unfoldable pub add_counts : List (Text × ℕ) → List (Text × ℕ) → Bool × List (Text × ℕ)
unfolding total_of
add_counts totals [] = (false, totals)
add_counts totals ((id, n) ∷ counts) =
    let total = (total_of id totals + n) % word_size in
    let rest = add_counts ((id, total) ∷ totals) counts in
    if ltb 1 total then (true, totals) else rest

unfoldable pub needs_from : List (Text × ℕ) → List CompactInput → Bool
unfolding add_counts
needs_from totals [] = false
needs_from totals (i ∷ inputs) =
    let (found, next) = add_counts totals i.partition_counts in
    let rest = needs_from next inputs in if found then true else rest

unfoldable pub compact_input_needs_normalization : List CompactInput → Bool
unfolding needs_from
compact_input_needs_normalization inputs = needs_from [] inputs

unfoldable pub compact_partitions_normalized :
    List PartPartitionStats → List PartPartitionStats → Bool
compact_partitions_normalized input output =
    length output == length input
    && all
        (λ (p : PartPartitionStats).
          p.parts == 1
          && any (λ (i : PartPartitionStats). text_eq i.partition_id p.partition_id) input)
        output
