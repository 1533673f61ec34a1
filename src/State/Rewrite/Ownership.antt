-- ===== src/State/Rewrite/Ownership.antt =====
-- Only the worker that owns a part ends its rewrite; what `MarkCompactReady` of
-- internal/state/postgres.go hands over.
use partforge.Base.{
  Text, ℕ, ◌≡◌, refl, ◌⊎◌, inl, inr, [], true, false, not, ◌&&◌, Option, some, none, ok, guard,
  >>-eq-ok, arith, is_blank, null, ltb, ◌==◌, ◌<◌, ◌∷◌, ◌||◌, All, if◌then◌else◌, Bool-cases,
}
use partforge.State.Part.{
  Part, Counts, Clock, Status, worker_required, finished_key_required, destination_required,
  partitions_required,
}
use partforge.State.Row.{Row}
use partforge.State.Table.{Table, find, read_part, update_part}
use partforge.State.Table.Laws.{WellFormed, update_part-eq-ok}
use partforge.State.Table.Update.{update_part-effect}
use partforge.State.Rewrite.{
  Output, owned_by, compact_ready_part, clone_partition_counts, finished_part, failed_part,
  released_part, mark_compact_ready, mark_finished, mark_failed, release_in_progress,
}

Owned : Text → Part → Table → Type 0
Owned worker p t =
    (r : Row) × (find p.job_id p.part_id t ≡ some r) × (owned_by worker r.data_part ≡ true)

module _ (c : Clock) (p : Part) (worker : Text) (now : ℕ) (t t' : Table) where
  updated-Owned :
      (mutate : Part → Part)
      → update_part c p.job_id p.part_id (owned_by worker) mutate t ≡ ok t'
      → Owned worker p t
  unfolding Owned
  updated-Owned mutate h =
      let (r, found, passed, _) =
        update_part-eq-ok c p.job_id p.part_id (owned_by worker) mutate t h in
      (r, found, passed)

  mark_compact_ready-update :
      (o : Output)
      → mark_compact_ready c p worker o now t ≡ ok t'
      → update_part c p.job_id p.part_id (owned_by worker) (compact_ready_part c o now) t ≡ ok t'
  unfolding mark_compact_ready
  mark_compact_ready-update o h =
      let h1 = (>>-eq-ok (guard (not (is_blank worker)) worker_required) _ h).1 in
      let h2 = (>>-eq-ok (guard (not (is_blank o.finished_key)) finished_key_required) _ h1).1 in
      let h3 =
        (>>-eq-ok
          (guard (not (is_blank o.database) && not (is_blank o.table) && not (is_blank o.schema))
            destination_required)
          _ h2).1 in
      (>>-eq-ok (guard (not (ltb 0 o.stats.count && null o.counts)) partitions_required) _ h3).1

  mark_finished-Owned : (key : Text) → mark_finished c p worker key now t ≡ ok t' → Owned worker p t
  unfolding mark_finished
  mark_finished-Owned key h =
      let h1 = (>>-eq-ok (guard (not (is_blank worker)) worker_required) _ h).1 in
      updated-Owned (finished_part c key now)
        ((>>-eq-ok (guard (not (is_blank key)) finished_key_required) _ h1).1)

  mark_failed-Owned :
      (cause : Option Text) → mark_failed c p worker cause now t ≡ ok t' → Owned worker p t
  unfolding mark_failed
  mark_failed-Owned none h = absurd (ground arith)
  mark_failed-Owned (some text) h =
      updated-Owned (failed_part c text now)
        ((>>-eq-ok (guard (not (is_blank worker)) worker_required) _ h).1)

  release_in_progress-Owned : release_in_progress c p worker now t ≡ ok t' → Owned worker p t
  unfolding release_in_progress
  release_in_progress-Owned h =
      updated-Owned (released_part c now)
        ((>>-eq-ok (guard (not (is_blank worker)) worker_required) _ h).1)

-- Whichever of the four operations ends a rewrite with success, the stored part was in progress and
-- owned by the worker that asked.
pub rewrite-owned :
    (c : Clock) (p : Part) (worker : Text) (now : ℕ) (t t' : Table) (o : Output) (key : Text)
    (cause : Option Text)
    → ((mark_compact_ready c p worker o now t ≡ ok t')
        ⊎ (mark_finished c p worker key now t ≡ ok t')
        ⊎ (mark_failed c p worker cause now t ≡ ok t')
        ⊎ (release_in_progress c p worker now t ≡ ok t'))
    → (r : Row) × (find p.job_id p.part_id t ≡ some r) × (owned_by worker r.data_part ≡ true)
unfolding Owned
rewrite-owned c p worker now t t' o key cause (inl h) =
    updated-Owned c p worker now t t' (compact_ready_part c o now)
      (mark_compact_ready-update c p worker now t t' o h)
rewrite-owned c p worker now t t' o key cause (inr (inl h)) =
    mark_finished-Owned c p worker now t t' key h
rewrite-owned c p worker now t t' o key cause (inr (inr (inl h))) =
    mark_failed-Owned c p worker now t t' cause h
rewrite-owned c p worker now t t' o key cause (inr (inr (inr h))) =
    release_in_progress-Owned c p worker now t t' h

clone_partition_counts-All :
    (counts : Counts)
    → All (λ (id, n). (is_blank id ≡ false) × (0 < n)) (clone_partition_counts counts)
unfolding clone_partition_counts
clone_partition_counts-All [] = tt
clone_partition_counts-All ((id, n) ∷ counts) = elim (Bool-cases (is_blank id || n == 0)) [
  | inl e ↦ rw e (clone_partition_counts-All counts)
  | inr e ↦ rw e ((ground arith, ground arith), clone_partition_counts-All counts)
]

-- A rewrite that is handed over was owned by the worker; the stored part has no worker any more, the
-- new key, a count above zero for each partition that it names, and it is finished if the output is
-- empty and ready to compact if not; and a lookup of another key gives what it gave before. The table
-- must be well formed.
pub mark_compact_ready-handover :
    (c : Clock) (p : Part) (worker : Text) (o : Output) (now : ℕ) (t t' : Table)
    → WellFormed c t
    → mark_compact_ready c p worker o now t ≡ ok t'
    → (q : Part) × (read_part p.job_id p.part_id t' ≡ ok q)
      × (q.worker_id ≡ [])
      × (q.finished_key ≡ o.finished_key)
      × All (λ (id, n). (is_blank id ≡ false) × (0 < n)) q.rewrite.partition_counts
      × (q.status ≡ (if o.stats.count == 0 then Status.finished else Status.compact_ready))
      × ((job part : Text)
          → ((p.job_id ≡ job) × (p.part_id ≡ part) → ⊥)
          → find job part t' ≡ find job part t)
unfolding compact_ready_part
mark_compact_ready-handover c p worker o now t t' w h =
    let (r, _, _, back, others) =
      update_part-effect c p.job_id p.part_id (owned_by worker) (compact_ready_part c o now) t t' w
        (λ q. (refl, refl)) (mark_compact_ready-update c p worker now t t' o h) in
    (
      compact_ready_part c o now r.data_part,
      back,
      refl,
      refl,
      clone_partition_counts-All o.counts,
      refl,
      others,
    )
