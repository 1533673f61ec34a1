-- ===== src/State/Lifecycle/Permits/Statements.antt =====
-- What the statements of internal/state/postgres.go that patch rows in place may do to a status.
use partforge.Base.{
  Text, ℕ, ◌≡◌, refl, sym, subst, ◌∙◌, ap, inl, inr, Bool, true, false, ◌||◌, ◌&&◌, List, [], ◌∷◌,
  some, Result, ok, err, arith, Bool-cases, Option-cases, is_blank,
}
use partforge.State.Part.{Part, Clock, IsLawful, Error, Status, is}
use partforge.State.Row.{Row}
use partforge.State.Table.{Table, same_key, find, replace}
use partforge.State.Table.Laws.{WellFormed}
use partforge.State.Table.Update.{affected-of_find}
use partforge.State.Table.Find.{
  same_key-of_find, same_key_iff, find-replace_self, find-replace_other,
}
use partforge.State.Rewrite.{PartStats}
use partforge.State.Progress.{RewriteProgress, patched_part, patched_row, update_rewrite_progress}
use partforge.State.Batch.{CompactBatch}
use partforge.State.Beat.{
  CompactPatch, beaten_row, beat, beats, beat_each, after_beat, if_valid, heartbeat, report,
  compacting_since, heartbeat_compact_batch, update_compact_progress,
}
use partforge.State.Beat.Laws.{beat-WellFormed}
use partforge.State.Command.{Command}
use partforge.State.Lifecycle.Statements.{patched_columns-row}
use partforge.State.Lifecycle.Changes.{Changes, IsTransitive, Changes-refl, Changes-trans}
use partforge.State.Lifecycle.Permits.{permits, Within}

-- A statement that sets the columns of the row of one key.
patch-Changes :
    (may : Status → Status → Bool) (c : Clock) (job part : Text) (t : Table) (r r' : Row)
    → WellFormed c t
    → find job part t ≡ some r
    → (r'.job_id ≡ r.job_id) × (r'.part_id ≡ r.part_id)
    → may r.status r'.status ≡ true
    → Changes may t (replace r' t)
patch-Changes may c job part t r r' w found (same_job, same_part) admitted j p s found_s =
    let (p_job, p_part) = (same_key_iff job part r).0 (same_key-of_find job part t r found) in
    let own : find r'.job_id r'.part_id t ≡ some r =
      ap (λ j. find j r'.part_id t) (same_job ∙ p_job)
      ∙ ap (λ p. find job p t) (same_part ∙ p_part)
      ∙ found in
    elim (Bool-cases (same_key j p r')) [
      | inl e ↦
          let (i, k) = (same_key_iff j p r').0 e in
          let again : find j p (replace r' t) ≡ some r' =
            rw (← i, ← k)
              (find-replace_self r' t (affected-of_find r'.job_id r'.part_id t r w.unique own)) in
          let same : find j p t ≡ some r = rw (i, k) at own in
          let status : r.status ≡ s.status = cc (same, found_s) in
          (r', again, inr (subst (λ x. may x r'.status ≡ true) status admitted))
      | inr e ↦ (s, find-replace_other j p r' t e ∙ found_s, inl refl)
    ]

pub update_rewrite_progress-Within :
    (c : Clock) (job part worker : Text) (g : RewriteProgress) (now : ℕ) (t : Table)
    → WellFormed c t
    → Within t
        (permits (Command.report_rewrite job part worker g))
        (update_rewrite_progress c job part worker g now t)
unfolding update_rewrite_progress permits patched_row patched_part
update_rewrite_progress-Within c job part worker g now t w t' h =
    let may : Status → Status → Bool = permits (Command.report_rewrite job part worker g) in
    elim (Option-cases (find job part t)) [
      | inl e ↦ absurd (ground arith)
      | inr (r, e) ↦
          let owned : is r.status Status.in_progress ≡ true = ground arith in
          let same : t' ≡ replace (patched_row c g now r) t = ground arith in
          let (same_job, same_part, same_status) = patched_columns-row g.destination_stats r in
          subst (Changes may t) (sym same) (
            patch-Changes may c job part t r (patched_row c g now r) w e (same_job, same_part)
              (subst (λ s. may r.status s ≡ true) (sym same_status) (ground arith)))
    ]

-- What a beat may do.
abbrev pub beats_on : Status → Status → Bool
beats_on s s' = (is s Status.compacting || is s Status.compact_ready) && is s' Status.compacting

beats_on_trans : IsTransitive beats_on
beats_on_trans s t u h k = ground arith

module _ (c : Clock) (lawful : IsLawful c) (worker : Text) (patch : CompactPatch) (now : ℕ) where
  beat-Changes :
      (p : Part) (t t' : Table) (requested : Bool)
      → WellFormed c t
      → beat c worker patch now p t ≡ ok (t', requested)
      → Changes beats_on t t'
  unfolding beat beaten_row
  beat-Changes p t t' requested w h = elim (Option-cases (find p.job_id p.part_id t)) [
    | inl e ↦ absurd (ground arith)
    | inr (r, e) ↦ elim (Option-cases (c.parse (compacting_since c now r.data_part))) [
      | inl k ↦ absurd (ground arith)
      | inr (since, k) ↦
          let held : beats worker r ≡ true = ground arith in
          let same : t' ≡ replace (beaten_row c worker patch now since r) t = ground arith in
          subst (Changes beats_on t) (sym same) (
            patch-Changes beats_on c p.job_id p.part_id t r (beaten_row c worker patch now since r)
              w e (refl, refl) (ground arith))
    ]
  ]

  after_beat-Changes :
      (next : Bool → Table → Table × Result Error Bool) (t : Table)
      (m : Result Error (Table × Bool))
      → ((t' : Table) (asked : Bool)
          → m ≡ ok (t', asked)
          → Changes beats_on t t' × Changes beats_on t' ((next asked t').0))
      → Changes beats_on t ((after_beat next t m).0)
  unfolding after_beat
  after_beat-Changes next t (err e) both = Changes-refl beats_on t
  after_beat-Changes next t (ok (t', asked)) both =
      let (first, rest) = both t' asked refl in
      Changes-trans beats_on beats_on_trans t t' _ first rest

  beat_each-Changes :
      (ps : List Part) (requested : Bool) (t : Table)
      → WellFormed c t
      → Changes beats_on t ((beat_each c worker patch now ps requested t).0)
  unfolding beat_each
  beat_each-Changes [] requested t w = Changes-refl beats_on t
  beat_each-Changes (p ∷ ps) requested t w =
      after_beat-Changes _ t (beat c worker patch now p t) (λ t' asked h. (
        beat-Changes p t t' asked w h,
        beat_each-Changes ps (requested || asked) t'
            (beat-WellFormed c worker patch now p t t' asked lawful h w),
      ))

pub heartbeat_compact_batch-Changes :
    (c : Clock)
    → IsLawful c
    → (b : CompactBatch) (worker : Text) (now : ℕ) (t : Table) → WellFormed c t
    → Changes beats_on t ((heartbeat_compact_batch c b worker now t).0)
unfolding heartbeat_compact_batch
heartbeat_compact_batch-Changes c l b worker now t w = elim (Bool-cases (is_blank worker)) [
  | inl e ↦ rw e (Changes-refl beats_on t)
  | inr e ↦ rw e (beat_each-Changes c l worker heartbeat now b.parts false t w)
]

if_valid-Changes :
    (m : Result Error (Unit {0})) (t : Table) (rest : Table × Result Error Bool)
    → Changes beats_on t rest.0
    → Changes beats_on t ((if_valid m t rest).0)
unfolding if_valid
if_valid-Changes (err e) t rest s = Changes-refl beats_on t
if_valid-Changes (ok _) t rest s = s

pub update_compact_progress-Changes :
    (c : Clock)
    → IsLawful c
    → (b : CompactBatch) (output worker : Text) (inputs outputs : PartStats) (stage : Text)
      (merges progress now : ℕ) (t : Table)
    → WellFormed c t
    → Changes beats_on t
        ((update_compact_progress c b output worker inputs outputs stage merges progress now t).0)
unfolding update_compact_progress
update_compact_progress-Changes c l b output worker inputs outputs stage merges progress now t w =
    if_valid-Changes _ t _ (
      beat_each-Changes c l worker
        (report (c.format now) output inputs outputs stage merges progress) now b.parts false t w)
