-- ===== src/State/Lifecycle/Finalizing.antt =====
-- The statements by which maintenance finishes the parts of a job are sound.
use partforge.Base.{
  Text, ℕ, ◌≡◌, refl, subst, ◌∙◌, ap, inl, inr, Bool, true, not, ◌&&◌, List, [], ◌∷◌, Option, none,
  ok, >>=-eq-ok, arith, Bool-cases,
}
use partforge.State.Part.{Part, Clock, Status, is, validate_part, is_generated_compact_part}
use partforge.State.Row.{Row, row_at, original_ready_time, is_eligible, is_normalized}
use partforge.State.Row.Laws.{part_write_values-eq-ok, part_write_values_lem, stale_time_idle}
use partforge.State.Table.{Table}
use partforge.State.Table.Laws.{Written}
use partforge.State.Table.Rows.{map-All, map-WellFormed}
use partforge.State.Progress.Laws.{BareRow}
use partforge.State.Claim.{CompactBatching}
use partforge.State.Maintenance.{
  Summary, finalizes, finalized_row, finalize_where, all_finish, window_expired, finalize_job,
  finalize_jobs, finalize_compact_ready,
}
use partforge.State.Lifecycle.{here, once, finalized, map-Moves}
use partforge.State.Lifecycle.Sound.{Sound, Sound-refl, Sound-trans, leads_from}
use partforge.State.Lifecycle.Transactions.{Soundly}

abbrev finalized_data : Clock → ℕ → Part → Part
finalized_data c now p = record p {
  status = Status.finished;
  updated_at = c.format now;
  finished_at = c.format now;
  error = [];
  compact_cooldown_until = [];
}

finalized_data-valid :
    (c : Clock) (now : ℕ) (p : Part)
    → validate_part p ≡ ok tt
    → validate_part (finalized_data c now p) ≡ ok tt
unfolding validate_part
finalized_data-valid c now p v = ground arith

finalized_row-columns :
    (c : Clock) (now : ℕ) (p : Part) (stale ready_at : Option ℕ)
    → row_at (finalized_data c now p) none ready_at ≡ finalized_row c now (row_at p stale ready_at)
unfolding finalized_row is_eligible is_normalized
finalized_row-columns c now p stale ready_at = refl

-- The statement sets the columns that a full write of the finished part would set.
finalized_row-Written :
    (c : Clock) (now : ℕ) (r : Row) → Written c r → Written c (finalized_row c now r)
unfolding original_ready_time is_generated_compact_part finalized_row
finalized_row-Written c now r w =
    let (stale, ready_at, valid, _, ready, same) = part_write_values-eq-ok c r.data_part w in
    part_write_values_lem c (finalized_data c now r.data_part)
      (finalized_data-valid c now r.data_part valid) (stale_time_idle c _ refl) ready
    ∙ ap ok (finalized_row-columns c now r.data_part stale ready_at ∙ ap (finalized_row c now) same)

module _ (c : Clock) (now : ℕ) (test : Row → Bool) where
  finish_where-Sound :
      ((r : Row) → test r ≡ true → is r.status Status.compact_ready ≡ true)
      → (t : Table) → Sound c t (finalize_where test c now t)
  unfolding finalized_row
  finish_where-Sound ready t i = (
    record {
      well_formed =
          map-WellFormed _ c
            (λ r w. elim (Bool-cases (test r)) [
              | inl e ↦ rw e (finalized_row-Written c now r w)
              | inr e ↦ rw e w
            ])
            (λ r. ground arith) t i.well_formed;
      bare =
          map-All _ BareRow
            (λ r b. elim (Bool-cases (test r)) [
              | inl e ↦ rw e (λ s. absurd (ground arith))
              | inr e ↦ rw e b
            ])
            t i.bare;
    },
    map-Moves _ (λ r. ground arith)
        (λ r. elim (Bool-cases (test r)) [
          | inl e ↦ rw e (
              leads_from Status.compact_ready Status.finished r.status (once finalized) (ready r e))
          | inr e ↦ rw e here
        ])
        t,
  )

pub finalizes-ready :
    (locked : Row → Bool) (b : CompactBatching) (job : Text) (all_done expired : Bool) (j : Summary)
    (t : Table) (r : Row)
    → finalizes locked b job all_done expired j t r ≡ true
    → is r.status Status.compact_ready ≡ true
unfolding finalizes
finalizes-ready locked b job all_done expired j t r h = ground arith

module _ (c : Clock) (locked : Row → Bool) (window : ℕ) (b : CompactBatching) (now : ℕ) where
  finalize_job-Sound :
      (job : Text) (j : Summary) (t : Table)
      → Soundly c t (finalize_job c locked window b now job j t)
  unfolding finalize_job
  finalize_job-Sound job j t t' h =
      let (all_done, _, last) = >>=-eq-ok (all_finish window now j) _ h in
      elim (Bool-cases (not all_done && not j.normalized)) [
        | inl e ↦ let same : t ≡ t' = cc (rw e at last) in subst (Sound c t) same (Sound-refl c t)
        | inr e ↦
            let same : finalize_where
                  (finalizes locked b job all_done (window_expired window now j.ready_at) j t) c now
                  t
                ≡ t' =
              cc (rw e at last) in
            subst (Sound c t) same (
              finish_where-Sound c now _
                (finalizes-ready locked b job all_done (window_expired window now j.ready_at) j t)
                t)
      ]

  finalize_jobs-Sound :
      (jobs : List (Text × Summary)) (t : Table)
      → Soundly c t (finalize_jobs c locked window b now jobs t)
  unfolding finalize_jobs
  finalize_jobs-Sound [] t t' h =
      let same : t ≡ t' = cc h in subst (Sound c t) same (Sound-refl c t)
  finalize_jobs-Sound ((job, j) ∷ jobs) t t' h =
      let (u, first, rest) = >>=-eq-ok (finalize_job c locked window b now job j t) _ h in
      Sound-trans c t u t' (finalize_job-Sound job j t u first) (finalize_jobs-Sound jobs u t' rest)

  pub finalize_compact_ready-Sound :
      (job : Text) (t : Table) → Soundly c t (finalize_compact_ready c locked job window b now t)
  unfolding finalize_compact_ready
  finalize_compact_ready-Sound job t = finalize_jobs-Sound _ t
