-- ===== src/State/Beat/Laws.antt =====
-- The patch of a beat sets the columns that a full write of the patched part would set.
use partforge.Base.{
  Text, ℕ, [], ◌≡◌, refl, ap, ◌∙◌, Bool, Option, some, ok, arith, Option-cases, inl, inr,
}
use partforge.State.Part.{Part, Clock, IsLawful, Status, validate_part, is_generated_compact_part}
use partforge.State.Row.{
  Row, row_at, earlier, original_ready_time, part_write_values, is_eligible, is_normalized,
}
use partforge.State.Row.Laws.{part_write_values-eq-ok, part_write_values_lem, stale_time_beat}
use partforge.State.Table.{Table, find, replace}
use partforge.State.Table.Laws.{WellFormed, replace-WellFormed}
use partforge.State.Table.Find.{find-WellFormed}
use partforge.State.Beat.{CompactPatch, compact_patched, beaten_row, beat, compacting_since}

-- The part of a row that a beat has taken up.
abbrev pub beaten_part : Clock → Text → CompactPatch → ℕ → Part → Part
beaten_part c worker patch now p = record p {
  status = Status.compacting;
  worker_id = worker;
  updated_at = c.format now;
  compacting_at = compacting_since c now p;
  error = [];
  compact_cooldown_until = [];
  compact = compact_patched patch p.compact;
}

beaten_part-valid :
    (c : Clock) (worker : Text) (patch : CompactPatch) (now : ℕ) (p : Part)
    → validate_part p ≡ ok tt
    → validate_part (beaten_part c worker patch now p) ≡ ok tt
unfolding validate_part
beaten_part-valid c worker patch now p v = ground arith

beaten_row-columns :
    (c : Clock) (worker : Text) (patch : CompactPatch) (now since : ℕ) (p : Part)
    (stale ready_at : Option ℕ)
    → row_at (beaten_part c worker patch now p) (some (earlier (some now) since)) ready_at
      ≡ beaten_row c worker patch now since (row_at p stale ready_at)
unfolding beaten_row is_eligible is_normalized
beaten_row-columns c worker patch now since p stale ready_at = refl

pub beaten_row-written :
    (c : Clock) (worker : Text) (patch : CompactPatch) (now since : ℕ) (p : Part) (r : Row)
    → IsLawful c
    → part_write_values c p ≡ ok r
    → c.parse (compacting_since c now p) ≡ some since
    → part_write_values c (beaten_part c worker patch now p)
      ≡ ok (beaten_row c worker patch now since r)
unfolding original_ready_time is_generated_compact_part
beaten_row-written c worker patch now since p r l w k =
    let (stale, ready_at, valid, _, ready, same) = part_write_values-eq-ok c p w in
    part_write_values_lem c (beaten_part c worker patch now p)
      (beaten_part-valid c worker patch now p valid)
      (stale_time_beat c (beaten_part c worker patch now p) now since l refl refl k) ready
    ∙ ap ok (
        beaten_row-columns c worker patch now since p stale ready_at
        ∙ ap (beaten_row c worker patch now since) same)

-- A beat, with or without a report, keeps every column in step with the stored part.
pub beat-WellFormed :
    (c : Clock) (worker : Text) (patch : CompactPatch) (now : ℕ) (p : Part) (t t' : Table)
    (requested : Bool)
    → IsLawful c
    → beat c worker patch now p t ≡ ok (t', requested)
    → WellFormed c t
    → WellFormed c t'
unfolding beat
beat-WellFormed c worker patch now p t t' requested l h w =
    elim (Option-cases (find p.job_id p.part_id t)) [
      | inl e ↦ absurd (ground arith)
      | inr (r, e) ↦ elim (Option-cases (c.parse (compacting_since c now r.data_part))) [
        | inl k ↦ absurd (ground arith)
        | inr (since, k) ↦
            let same : t' ≡ replace (beaten_row c worker patch now since r) t = ground arith in
            rw same (
              replace-WellFormed c (beaten_row c worker patch now since r) t
                (beaten_row-written c worker patch now since r.data_part r l
                  (find-WellFormed c p.job_id p.part_id t r w e) k)
                w)
      ]
    ]
