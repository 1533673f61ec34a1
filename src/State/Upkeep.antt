-- ===== src/State/Upkeep.antt =====
-- The entry points of internal/state/maintenance.go and of `ReleaseStaleCompactingParts`: the pass that
-- workers share, with its reservation, and the calls that an administrator makes for one job.
pub mod Spacing
pub mod Settling
use partforge.Base.{
  Text, ℕ, ◌+◌, List, [], Bool, true, false, not, ◌&&◌, ◌||◌, ltb, leb, ◌==◌, if◌then◌else◌, null,
  Option, none, some, Result, ok, err, ◌>>=◌, ◌>>◌, guard, or_fail,
}
use partforge.State.Part.{Clock, Error, job_required, missing_ready_time, bad_window}
use partforge.State.Row.{Row}
use partforge.State.Table.{Table}
use partforge.State.Claim.{CompactBatching, deadline_of}
use partforge.State.Maintenance.{release_stale_compacting_parts, finalize_compact_ready}

-- `ReleaseStaleCompactingParts`
unfoldable pub release_stale : Clock → (Row → Bool) → ℕ → ℕ → Table → Result Error Table
release_stale c locked now stale_after t = do
  guard (ltb 0 stale_after) bad_window
  release_stale_compacting_parts c locked now stale_after t

-- `FinalizeCompactReadyJob`
unfoldable pub finalize_compact_ready_job :
    Clock → (Row → Bool) → Text → ℕ → CompactBatching → ℕ → Table → Result Error Table
finalize_compact_ready_job c locked job window b now t = do
  guard (not (null job)) job_required
  finalize_compact_ready c locked job window b now t

-- `CompactDeadline`; no deadline is the zero time.
unfoldable pub compact_deadline : Text → ℕ → Table → Result Error (Option ℕ)
compact_deadline job window t =
    if window == 0
    then ok none
    else or_fail (deadline_of job t) missing_ready_time
      >>= (λ ready_at. ok (some (ready_at + window)))

-- The one row of the maintenance table, beside the table of parts.
pub record Store : Type 0 where
  pub next_run_at : ℕ
  pub parts : Table

-- Ten seconds.
abbrev pub spacing : ℕ
spacing = 10000000000

abbrev pub release_if_timed : Clock → (Row → Bool) → ℕ → ℕ → Table → Result Error Table
release_if_timed c locked now stale_after t =
    if ltb 0 stale_after then release_stale_compacting_parts c locked now stale_after t else ok t

abbrev pub reserves : Bool → Bool → ℕ → Store → Bool
reserves busy once now s = not busy && (leb s.next_run_at now || once)

-- The work of a pass that has the reservation.
unfoldable pub maintain_parts :
    Clock → (Row → Bool) → ℕ → ℕ → CompactBatching → ℕ → Table → Result Error Table
maintain_parts c locked window stale_after b now t = do
  t' ← release_if_timed c locked now stale_after t
  finalize_compact_ready c locked [] window b now t'

-- `MaintainCompaction`. The row of the reservation is passed over while another transaction, `busy`,
-- has it locked. The reservation and the work are one transaction.
unfoldable pub maintain_compaction :
    Clock → (Row → Bool) → Bool → ℕ → ℕ → CompactBatching → ℕ → Bool → Store → Result Error Store
unfolding maintain_parts
maintain_compaction c locked busy window stale_after b now once s =
    let work =
      maintain_parts c locked window stale_after b now s.parts
      >>= (λ t. ok (record { next_run_at = now + spacing; parts = t })) in
    if reserves busy once now s then work else ok s
