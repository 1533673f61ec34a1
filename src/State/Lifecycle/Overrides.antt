-- ===== src/State/Lifecycle/Overrides.antt =====
-- The two changes of internal/state/postgres.go by which an administrator moves a part outside its
-- lifecycle, as long as the part is still the one that the caller has read.
use partforge.Base.{Text, ◌≡◌, [], some, ok}
use partforge.State.Part.{Part, Clock, no_compact_progress}
use partforge.State.Row.{Row}
use partforge.State.Table.{Table, find, read_part}
use partforge.State.Lifecycle.Sound.{Inv}

-- Of a part nothing is left that tells of a worker, a failure, an import, a compaction in progress or
-- a replacement.
abbrev pub IsReset : Part → Type 0
IsReset q =
    (q.worker_id ≡ [])
    × (q.started_at ≡ [])
    × (q.error ≡ [])
    × (q.failed_at ≡ [])
    × (q.importing_at ≡ [])
    × (q.imported_at ≡ [])
    × (q.compacting_at ≡ [])
    × (q.compact_cooldown_until ≡ [])
    × (q.superseded_by ≡ [])
    × (q.superseded_at ≡ [])
    × (q.compact ≡ no_compact_progress)

-- The part was stored as the caller read it, and is now another, which is read back; the rows of other
-- keys are as they were, and the invariant of the table holds.
abbrev pub Swapped : Clock → Part → (Part → Part) → Table → Table → Type 0
Swapped c p mutate t t' =
    (r : Row) × (find p.job_id p.part_id t ≡ some r)
    × (r.data_part.updated_at ≡ p.updated_at)
    × (read_part p.job_id p.part_id t' ≡ ok (mutate r.data_part))
    × ((job part : Text)
        → ((p.job_id ≡ job) × (p.part_id ≡ part) → ⊥)
        → find job part t' ≡ find job part t)
    × Inv c t'
