-- ===== src/Rewrite/Normalizing.antt =====
-- `normalizeCompactInput` of internal/rewrite/compactor.go: waiting until ClickHouse has merged the input.
-- What a round of polling sees is a parameter, as is the clock; the list of the rounds ends when the
-- context does. Reports of the progress and the log are left out.
pub mod Settled
use partforge.Base.{
  Text, ℕ, zero, suc, List, [], ◌∷◌, ◌++◌, Bool, true, false, not, Result, ok, err, guard, ◌>>=◌,
  ◌>>◌, >>-eq-ok, if◌then◌else◌, ◌&&◌, ◌||◌, ltb, leb, ◌==◌, ◌+◌, ◌*◌, ◌^◌, ◌≤◌, ◌<◌, All, ◌≡◌, ◌≢◌,
  ◌⊎◌, refl, subst, sym, ap, ◌∙◌, arith, Bool-cases, inl, inr,
}
use mathlib.Core.List.{Memᴰ}
use partforge.Rewrite.Partitions.{
  PartPartitionStats, summarize_part_partitions, compact_partitions_normalized,
}

-- One round: a query failed, by the memory limit or otherwise, or both were answered.
pub data Round : Type 0 where
  memory_limited : Round
  failed : Round
  answered : ℕ → List PartPartitionStats → ℕ → Round

pub data NormalizeError : Type 0 where
  negative_wait : NormalizeError
  query_failed : NormalizeError
  interrupted : NormalizeError

-- Five minutes in nanoseconds for a wait of zero.
unfoldable pub compact_merge_settle_min_wait : ℕ → ℕ
compact_merge_settle_min_wait wait = if wait == 0 then 300000000000 else wait

pub record Progress : Type 0 where
  pub last_parts : ℕ
  pub last_progress_at : ℕ

unfoldable pub observe : ℕ → ℕ → ℕ → Progress → Progress
observe active_merges active_parts now st =
    if not (active_parts == st.last_parts) || ltb 0 active_merges
    then record { last_parts = active_parts; last_progress_at = now }
    else st

-- `now.Sub(lastProgressAt) >= timeout`
unfoldable pub is_quiet : ℕ → ℕ → Progress → Bool
is_quiet timeout now st = leb (st.last_progress_at + timeout) now

-- The two returns at the end of a round.
unfoldable pub return_or :
    Bool → Bool → Result NormalizeError (Unit {0}) → Result NormalizeError (Unit {0})
return_or normalized quiet rest = if normalized then ok tt else if quiet then ok tt else rest

unfoldable pub poll :
    List PartPartitionStats → ℕ → Progress → List Round → Result NormalizeError (Unit {0})
unfolding observe is_quiet return_or
poll input timeout st [] = err interrupted
poll input timeout st (memory_limited ∷ rounds) = poll input timeout st rounds
poll input timeout st (failed ∷ rounds) = err query_failed
poll input timeout st (answered active_merges partitions now ∷ rounds) =
    let seen = observe active_merges (summarize_part_partitions partitions).count now st in
    let rest = poll input timeout seen rounds in
    return_or (active_merges == 0 && compact_partitions_normalized input partitions)
      (active_merges == 0 && is_quiet timeout now seen) rest

-- The wait is a signed word.
unfoldable pub normalize_compact_input :
    ℕ → List PartPartitionStats → ℕ → List Round → Result NormalizeError (Unit {0})
unfolding poll compact_merge_settle_min_wait
normalize_compact_input wait input started_at rounds =
    guard (not (leb (2 ^ 63) (compact_merge_settle_min_wait wait))) negative_wait
    >> poll input (compact_merge_settle_min_wait wait)
        (record {
          last_parts = (summarize_part_partitions input).count;
          last_progress_at = started_at;
        })
        rounds

-- When the rounds end the wait, by the number of parts last seen and the time since which neither it
-- changed nor merges ran: a round without merges finds the parts normalized, or the time is enough.
pub data Settles (input : List PartPartitionStats) (timeout : ℕ) : ℕ → ℕ → List Round → Type 0 where
  normalized :
      (parts since : ℕ) (partitions : List PartPartitionStats) (now : ℕ) (rounds : List Round)
      → compact_partitions_normalized input partitions ≡ true
      → Settles input timeout parts since (answered 0 partitions now ∷ rounds)
  quiet :
      (parts since : ℕ) (partitions : List PartPartitionStats) (now : ℕ) (rounds : List Round)
      → (summarize_part_partitions partitions).count ≡ parts
      → since + timeout ≤ now
      → Settles input timeout parts since (answered 0 partitions now ∷ rounds)
  limited :
      (parts since : ℕ) (rounds : List Round)
      → Settles input timeout parts since rounds
      → Settles input timeout parts since (memory_limited ∷ rounds)
  still :
      (parts since : ℕ) (partitions : List PartPartitionStats) (now : ℕ) (rounds : List Round)
      → (summarize_part_partitions partitions).count ≡ parts
      → Settles input timeout parts since rounds
      → Settles input timeout parts since (answered 0 partitions now ∷ rounds)
  moving :
      (parts since merges : ℕ) (partitions : List PartPartitionStats) (now : ℕ)
      (rounds : List Round)
      → (0 < merges) ⊎ ((summarize_part_partitions partitions).count ≢ parts)
      → Settles input timeout (summarize_part_partitions partitions).count now rounds
      → Settles input timeout parts since (answered merges partitions now ∷ rounds)
