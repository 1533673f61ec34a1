-- ===== src/State/Lifecycle/Statements.antt =====
-- The statements that patch rows in place, progress reports and beats, are sound.
use partforge.Base.{
  Text, ℕ, ◌≡◌, refl, sym, subst, ◌∙◌, inl, inr, Bool, true, false, ◌||◌, List, [], ◌∷◌, Option,
  some, none, Result, ok, err, arith, Bool-cases, Option-cases, is_blank,
}
use partforge.State.Part.{Part, Clock, IsLawful, Error, Status, is}
use partforge.State.Row.{Row}
use partforge.State.Table.{Table, find, replace}
use partforge.State.Table.Laws.{WellFormed, replace-All}
use partforge.State.Table.Update.{affected-of_find}
use partforge.State.Table.Find.{find-All, same_key-of_find, same_key_iff}
use partforge.State.Progress.{
  RewriteProgress, patched_columns, patched_part, patched_row, update_rewrite_progress,
}
use partforge.State.Beat.{
  CompactPatch, beaten_row, beat, beats, beat_each, after_beat, if_valid, heartbeat, report,
  compacting_since, heartbeat_compact_batch, update_compact_progress,
}
use partforge.State.Progress.Laws.{
  BareRow, patched_fields-counts, update_rewrite_progress-WellFormed,
}
use partforge.State.Beat.Laws.{beat-WellFormed}
use partforge.State.Batch.{CompactBatch}
use partforge.State.Rewrite.{PartStats}
use partforge.State.Lifecycle.{◌⟶*◌, here, once, taken, Moves, replace-Moves}
use partforge.State.Lifecycle.Sound.{Inv, Sound, Sound-refl, Sound-trans, leads_from}
use partforge.State.Lifecycle.Transactions.{Soundly}

-- Moves and bareness of a patch of one row that was found.
patch-Sound :
    (c : Clock) (job part : Text) (t : Table) (r r' : Row)
    → find job part t ≡ some r
    → (r'.job_id ≡ r.job_id) × (r'.part_id ≡ r.part_id)
    → r.status ⟶* r'.status
    → (WellFormed c t → WellFormed c (replace r' t))
    → BareRow r'
    → Sound c t (replace r' t)
patch-Sound c job part t r r' found (same_job, same_part) leads keep bare i =
    let (p, q) = (same_key_iff job part r).0 (same_key-of_find job part t r found) in
    let job' : r'.job_id ≡ job = same_job ∙ p in
    let part' : r'.part_id ≡ part = same_part ∙ q in
    (
      record { well_formed = keep i.well_formed; bare = replace-All BareRow r' t bare i.bare },
      replace-Moves r' t
          (rw (job', part') (affected-of_find job part t r i.well_formed.unique found))
          (λ s found_s.
            let again : find job part t ≡ some s = rw (job', part') at found_s in
            let same : r.status ≡ s.status = cc (found, again) in
            subst (λ x. x ⟶* r'.status) same leads),
    )

pub patched_columns-row :
    (d : Option PartStats) (r : Row)
    → ((patched_columns d r).job_id ≡ r.job_id)
      × ((patched_columns d r).part_id ≡ r.part_id)
      × ((patched_columns d r).status ≡ r.status)
unfolding patched_columns
patched_columns-row none r = (refl, refl, refl)
patched_columns-row (some s) r = (refl, refl, refl)

pub update_rewrite_progress-Sound :
    (c : Clock) (job part worker : Text) (g : RewriteProgress) (now : ℕ) (t : Table)
    → Soundly c t (update_rewrite_progress c job part worker g now t)
unfolding update_rewrite_progress patched_row patched_part
update_rewrite_progress-Sound c job part worker g now t t' h i =
    elim (Option-cases (find job part t)) [
      | inl e ↦ absurd (ground arith)
      | inr (r, e) ↦
          let owned : is r.status Status.in_progress ≡ true = ground arith in
          let same : t' ≡ replace (patched_row c g now r) t = ground arith in
          let (same_job, same_part, same_status) = patched_columns-row g.destination_stats r in
          let w =
            update_rewrite_progress-WellFormed c job part worker g now t t' h i.well_formed
              i.bare in
          subst (λ u. Inv c u × Moves t u) (sym same)
            (patch-Sound c job part t r (patched_row c g now r) e (same_job, same_part)
              (subst (λ s. r.status ⟶* s) (sym same_status) here) (λ _. subst (WellFormed c) same w)
              (λ _.
                patched_fields-counts c g now r.data_part.rewrite
                ∙ find-All BareRow job part t r i.bare e owned)
              i)
    ]

after_beat-Sound :
    {c : Clock} (next : Bool → Table → Table × Result Error Bool) (t : Table)
    (m : Result Error (Table × Bool))
    → ((t' : Table) (asked : Bool) → m ≡ ok (t', asked) → Sound c t t')
    → ((asked : Bool) (t' : Table) → Sound c t' ((next asked t').0))
    → Sound c t ((after_beat next t m).0)
unfolding after_beat
after_beat-Sound {c} next t (err e) first rest = Sound-refl c t
after_beat-Sound {c} next t (ok (t', asked)) first rest =
    Sound-trans c t t' _ (first t' asked refl) (rest asked t')

module _ (c : Clock) (lawful : IsLawful c) (worker : Text) (patch : CompactPatch) (now : ℕ) where
  beats-leads : (r : Row) → beats worker r ≡ true → r.status ⟶* Status.compacting
  beats-leads r h = elim (Bool-cases (is r.status Status.compacting)) [
    | inl e ↦ leads_from Status.compacting Status.compacting r.status here e
    | inr e ↦ leads_from Status.compact_ready Status.compacting r.status (once taken) (ground arith)
  ]

  beat-Sound :
      (p : Part) (t t' : Table) (requested : Bool)
      → beat c worker patch now p t ≡ ok (t', requested)
      → Sound c t t'
  unfolding beat beaten_row
  beat-Sound p t t' requested h i = elim (Option-cases (find p.job_id p.part_id t)) [
    | inl e ↦ absurd (ground arith)
    | inr (r, e) ↦ elim (Option-cases (c.parse (compacting_since c now r.data_part))) [
      | inl k ↦ absurd (ground arith)
      | inr (since, k) ↦
          let held : beats worker r ≡ true = ground arith in
          let same : t' ≡ replace (beaten_row c worker patch now since r) t = ground arith in
          let w = beat-WellFormed c worker patch now p t t' requested lawful h i.well_formed in
          subst (λ u. Inv c u × Moves t u) (sym same)
            (patch-Sound c p.job_id p.part_id t r (beaten_row c worker patch now since r) e
              (refl, refl) (beats-leads r held) (λ _. subst (WellFormed c) same w)
              (λ s. absurd (ground arith)) i)
    ]
  ]

  beat_each-Sound :
      (ps : List Part) (requested : Bool) (t : Table)
      → Sound c t ((beat_each c worker patch now ps requested t).0)
  unfolding beat_each
  beat_each-Sound [] requested t = Sound-refl c t
  beat_each-Sound (p ∷ ps) requested t =
      after_beat-Sound _ t (beat c worker patch now p t) (λ t' asked. beat-Sound p t t' asked)
        (λ asked t'. beat_each-Sound ps (requested || asked) t')

pub heartbeat_compact_batch-Sound :
    (c : Clock)
    → IsLawful c
    → (b : CompactBatch) (worker : Text) (now : ℕ) (t : Table)
    → Sound c t ((heartbeat_compact_batch c b worker now t).0)
unfolding heartbeat_compact_batch
heartbeat_compact_batch-Sound c l b worker now t = elim (Bool-cases (is_blank worker)) [
  | inl e ↦ rw e (Sound-refl c t)
  | inr e ↦ rw e (beat_each-Sound c l worker heartbeat now b.parts false t)
]

if_valid-Sound :
    (c : Clock) (m : Result Error (Unit {0})) (t : Table) (rest : Table × Result Error Bool)
    → Sound c t rest.0
    → Sound c t ((if_valid m t rest).0)
unfolding if_valid
if_valid-Sound c (err e) t rest s = Sound-refl c t
if_valid-Sound c (ok _) t rest s = s

pub update_compact_progress-Sound :
    (c : Clock)
    → IsLawful c
    → (b : CompactBatch) (output worker : Text) (inputs outputs : PartStats) (stage : Text)
      (merges progress now : ℕ) (t : Table)
    → Sound c t
        ((update_compact_progress c b output worker inputs outputs stage merges progress now t).0)
unfolding update_compact_progress
update_compact_progress-Sound c l b output worker inputs outputs stage merges progress now t =
    if_valid-Sound c _ t _ (
      beat_each-Sound c l worker (report (c.format now) output inputs outputs stage merges progress)
        now b.parts false t)
