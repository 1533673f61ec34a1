-- ===== src/State/Progress/Laws.antt =====
-- The SQL patches set the columns that a full write of the patched part would set.
use partforge.Base.{
  All, Text, ℕ, [], ◌≡◌, refl, ap, ◌∙◌, true, false, Option, none, some, ok, arith, Option-cases,
  inl, inr,
}
use partforge.State.Part.{
  Part, Counts, RewriteFields, Clock, Status, is, validate_part, is_generated_compact_part,
}
use partforge.State.Row.{
  Row, row_at, original_ready_time, part_write_values, is_eligible, is_normalized,
}
use partforge.State.Row.Laws.{part_write_values-eq-ok, part_write_values_lem, stale_time_idle}
use partforge.State.Table.{Table, find, replace}
use partforge.State.Table.Laws.{WellFormed, replace-WellFormed, part_write_values-data}
use partforge.State.Table.Find.{find-WellFormed, find-All}
use partforge.State.Rewrite.{PartStats}
use partforge.State.Progress.{
  RewriteProgress, QueryProgress, StageProgress, patch_percent, patch_query, patch_source,
  patch_destination, patch_failed, patch_stage, patched_fields, patched_part, patched_columns,
  patched_row, update_rewrite_progress, sql_fragmented, sql_single,
}

-- What the scheduling columns are computed from.
abbrev Active : Type 0
Active = record { count : ℕ; bytes : ℕ; counts : Counts }

abbrev active : RewriteFields → Active
active f = record {
  count = f.active_part_count;
  bytes = f.active_part_bytes;
  counts = f.partition_counts;
}

abbrev reported : Option PartStats → Active → Active
reported none a = a
reported (some s) a = record { count = s.count; bytes = s.bytes; counts = a.counts }

patch_percent-active : (o : Option ℕ) (f : RewriteFields) → active (patch_percent o f) ≡ active f
unfolding patch_percent
patch_percent-active none f = refl
patch_percent-active (some _) f = refl

patch_query-active :
    (o : Option QueryProgress) (f : RewriteFields) → active (patch_query o f) ≡ active f
unfolding patch_query
patch_query-active none f = refl
patch_query-active (some _) f = refl

patch_source-active :
    (o : Option PartStats) (f : RewriteFields) → active (patch_source o f) ≡ active f
unfolding patch_source
patch_source-active none f = refl
patch_source-active (some _) f = refl

patch_destination-active :
    (o : Option PartStats) (f : RewriteFields)
    → active (patch_destination o f) ≡ reported o (active f)
unfolding patch_destination
patch_destination-active none f = refl
patch_destination-active (some _) f = refl

patch_failed-active : (o : Option ℕ) (f : RewriteFields) → active (patch_failed o f) ≡ active f
unfolding patch_failed
patch_failed-active none f = refl
patch_failed-active (some _) f = refl

patch_stage-active :
    (c : Clock) (o : Option StageProgress) (f : RewriteFields)
    → active (patch_stage c o f) ≡ active f
unfolding patch_stage
patch_stage-active c none f = refl
patch_stage-active c (some _) f = refl

-- Only the destination's statistics reach them, and never the counts of partitions.
patched_fields-active :
    (c : Clock) (g : RewriteProgress) (now : ℕ) (f : RewriteFields)
    → active (patched_fields c g now f) ≡ reported g.destination_stats (active f)
unfolding patched_fields
patched_fields-active c g now f =
    patch_stage-active c g.stage_progress _
    ∙ patch_failed-active g.failed_merges _
    ∙ patch_destination-active g.destination_stats _
    ∙ ap (reported g.destination_stats) (
        patch_source-active g.source_stats _
        ∙ patch_query-active g.query_progress _
        ∙ patch_percent-active g.insert_progress_percent _)

reported-counts : (d : Option PartStats) (a : Active) → (reported d a).counts ≡ a.counts
reported-counts none a = refl
reported-counts (some s) a = refl

-- A report leaves the counts of partitions alone.
pub patched_fields-counts :
    (c : Clock) (g : RewriteProgress) (now : ℕ) (f : RewriteFields)
    → (patched_fields c g now f).partition_counts ≡ f.partition_counts
patched_fields-counts c g now f =
    ap (λ (a : Active). a.counts) (patched_fields-active c g now f)
    ∙ reported-counts g.destination_stats (active f)

bare_unscheduled :
    (p : Part)
    → p.rewrite.partition_counts ≡ []
    → (is_eligible p ≡ false) × (is_normalized p ≡ false)
unfolding is_eligible is_normalized
bare_unscheduled p e = (ground arith, ground arith)

-- A row with no schedulable output.
abbrev idle_row : Row → Active → Row
idle_row r a = record r {
  compact_bytes = a.bytes;
  compact_parts = a.count;
  compact_eligible = false;
  compact_normalized = false;
}

sql_unscheduled :
    (counts : Counts) → counts ≡ [] → (sql_fragmented counts ≡ false) × (sql_single counts ≡ false)
unfolding sql_fragmented sql_single
sql_unscheduled counts e = (rw e, rw e)

patched_columns-idle :
    (d : Option PartStats) (p : Part) (stale ready_at : Option ℕ)
    → p.rewrite.partition_counts ≡ []
    → patched_columns d (row_at p stale ready_at)
      ≡ idle_row (row_at p stale ready_at) (reported d (active p.rewrite))
unfolding patched_columns
patched_columns-idle none p stale ready_at e =
    let (x, y) = bare_unscheduled p e in ground (arith, x, y)
patched_columns-idle (some s) p stale ready_at e =
    let (x, y) = sql_unscheduled _ e in ground (arith, x, y)

patched_row-columns :
    (c : Clock) (g : RewriteProgress) (now : ℕ) (p : Part) (stale ready_at : Option ℕ)
    → p.rewrite.partition_counts ≡ []
    → row_at (patched_part c g now p) stale ready_at ≡ patched_row c g now (row_at p stale ready_at)
unfolding patched_part patched_row
patched_row-columns c g now p stale ready_at e =
    let same = patched_fields-active c g now p.rewrite in
    let (x, y) = bare_unscheduled (patched_part c g now p) (
      ap (λ (a : Active). a.counts) same
      ∙ reported-counts g.destination_stats (active p.rewrite)
      ∙ e) in
    rw (patched_columns-idle g.destination_stats p stale ready_at e)
      (ground (arith, x, y, ap (λ (a : Active). a.count) same, ap (λ (a : Active). a.bytes) same))

pub patched_row-written :
    (c : Clock) (g : RewriteProgress) (now : ℕ) (p : Part) (r : Row)
    → part_write_values c p ≡ ok r
    → is p.status Status.compacting ≡ false
    → p.rewrite.partition_counts ≡ []
    → part_write_values c (patched_part c g now p) ≡ ok (patched_row c g now r)
unfolding patched_part validate_part original_ready_time is_generated_compact_part
patched_row-written c g now p r w s e =
    let (stale, ready_at, valid, st, ready, same) = part_write_values-eq-ok c p w in
    let idle : none ≡ stale = cc (stale_time_idle c p s) in
    part_write_values_lem c (patched_part c g now p) valid (stale_time_idle c _ s) ready
    ∙ ap ok (
        patched_row-columns c g now p none ready_at e
        ∙ ap (patched_row c g now) (ap (λ o. row_at p o ready_at) idle ∙ same))

-- A part that is being rewritten has no counts of partitions: they come with its output.
abbrev pub BareRow : Row → Type 0
BareRow r = is r.status Status.in_progress ≡ true → r.data_part.rewrite.partition_counts ≡ []

pub in_progress_not_compacting :
    (s : Status) → is s Status.in_progress ≡ true → is s Status.compacting ≡ false
in_progress_not_compacting s h = ground arith

-- A progress report keeps every column in step with the stored part.
pub update_rewrite_progress-WellFormed :
    (c : Clock) (job part worker : Text) (g : RewriteProgress) (now : ℕ) (t t' : Table)
    → update_rewrite_progress c job part worker g now t ≡ ok t'
    → WellFormed c t
    → All BareRow t
    → WellFormed c t'
unfolding update_rewrite_progress
update_rewrite_progress-WellFormed c job part worker g now t t' h w b =
    elim (Option-cases (find job part t)) [
      | inl e ↦ absurd (ground arith)
      | inr (r, e) ↦
          let owned : is r.status Status.in_progress ≡ true = ground arith in
          let same : t' ≡ replace (patched_row c g now r) t = ground arith in
          let written = find-WellFormed c job part t r w e in
          let status = (part_write_values-data c r.data_part written).3 in
          rw same (
            replace-WellFormed c (patched_row c g now r) t
              (patched_row-written c g now r.data_part r written
                (rw (← status) (in_progress_not_compacting r.status owned))
                (find-All BareRow job part t r b e owned))
              w)
    ]
