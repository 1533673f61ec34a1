-- ===== src/State/Lifecycle/Completion.antt =====
-- `CompleteCompaction` of internal/state/postgres.go is sound: each input is superseded as by a
-- conditional update, and the output is new.
pub mod Output
use partforge.Base.{
  Text, ℕ, ◌≡◌, refl, sym, subst, ◌∙◌, ap, ◌⊎◌, inl, inr, Bool, false, not, List, [], ◌∷◌, some,
  All, All-map, ok, guard, >>-eq-ok, >>=-eq-ok, arith, Bool-cases, is_blank, null, ltb, length,
}
use partforge.State.Part.{
  Part, Clock, Status, is, conditional, worker_required, too_many_artifacts, wrong_status,
  validate_part,
}
use partforge.State.Row.{Row}
use partforge.State.Table.{Table, find, read_part, save_part, update_part, insert_part}
use partforge.Base.Order.{sort_slice-All_inv}
use partforge.State.Batch.{
  CompactBatch, part_before, parts_in_lock_order, validate_compact_batch,
  validate_compact_output_for_batch,
}
use partforge.State.Compact.{
  compact_owned_or_unowned_ready, superseded_part, finalized_output, supersede_inputs,
  complete_compaction, max_compact_batch_parts,
}
use partforge.State.Table.Laws.{part_write_values-data}
use partforge.State.Table.Find.{find-WellFormed}
use partforge.State.Table.Update.{update_part-effect, read_part-eq-ok, find-insert_part}
use partforge.State.Lifecycle.{◌⟶*◌, Moves, superseded_final, final-stays}
use partforge.State.Lifecycle.Sound.{
  Inv, Sound, Sound-refl, Sound-trans, update_part-Sound, insert_part-Sound,
}
use partforge.State.Lifecycle.Steps.{superseded_part-Good}
use partforge.State.Lifecycle.Transactions.{Soundly}

update_part_ok :
    (c : Clock) (job part : Text) (condition : Part → Bool) (mutate : Part → Part) (t : Table)
    (current : Part) (u : Table)
    → read_part job part t ≡ ok current
    → guard (condition current) conditional ≡ ok tt
    → save_part c (mutate current) t ≡ ok u
    → update_part c job part condition mutate t ≡ ok u
unfolding update_part
update_part_ok c job part condition mutate t current u read held saved = rw (read, held) saved

-- What one round of the loop over the inputs does.
pub supersede_inputs-cons :
    (c : Clock) (worker : Text) (now : ℕ) (p : Part) (ps : List Part) (output out : Part)
    (t t' : Table)
    → supersede_inputs c worker now (p ∷ ps) output t ≡ ok (t', out)
    → (current : Part) × (u : Table) × (read_part p.job_id p.part_id t ≡ ok current)
      × (update_part c p.job_id p.part_id
            (compact_owned_or_unowned_ready worker)
            (superseded_part c output.part_id now)
            t
          ≡ ok u)
      × (supersede_inputs c worker now ps (finalized_output c now current output) u ≡ ok (t', out))
unfolding supersede_inputs update_part
supersede_inputs-cons c worker now p ps output out t t' h =
    let (current, read, rest) = >>=-eq-ok (read_part p.job_id p.part_id t) _ h in
    let (held, rest') =
      >>-eq-ok (guard (compact_owned_or_unowned_ready worker current) conditional) _ rest in
    let (u, saved, last) =
      >>=-eq-ok (save_part c (superseded_part c output.part_id now current) t) _ rest' in
    (
      current,
      u,
      read,
      update_part_ok c p.job_id p.part_id (compact_owned_or_unowned_ready worker)
          (superseded_part c output.part_id now) t current u read held saved,
      last,
    )

-- The output stays one that no worker rewrites.
pub finalized_output-idle :
    (c : Clock) (now : ℕ) (current output : Part)
    → is output.status Status.in_progress ≡ false
    → is (finalized_output c now current output).status Status.in_progress ≡ false
unfolding finalized_output
finalized_output-idle c now current output h =
    elim (Bool-cases (null current.compact.finalize_requested_at)) [
      | inl e ↦ rw e h
      | inr e ↦ rw e refl
    ]

pub supersede_inputs-Sound :
    (c : Clock) (worker : Text) (now : ℕ) (ps : List Part) (output out : Part) (t t' : Table)
    → is output.status Status.in_progress ≡ false
    → supersede_inputs c worker now ps output t ≡ ok (t', out)
    → Sound c t t' × (is out.status Status.in_progress ≡ false)
unfolding supersede_inputs
supersede_inputs-Sound c worker now [] output out t t' idle h =
    let (table, part) : (t ≡ t') × (output ≡ out) = ground arith in
    (subst (Sound c t) table (Sound-refl c t), rw (← part) idle)
supersede_inputs-Sound c worker now (p ∷ ps) output out t t' idle h =
    let (current, u, _, updated, rest) =
      supersede_inputs-cons c worker now p ps output out t t' h in
    let (sound, idle') =
      supersede_inputs-Sound c worker now ps (finalized_output c now current output) out u t'
        (finalized_output-idle c now current output idle) rest in
    (
      Sound-trans c t u t'
          (update_part-Sound c p.job_id p.part_id (compact_owned_or_unowned_ready worker)
            (superseded_part c output.part_id now) t u
            (superseded_part-Good c now output.part_id worker) updated)
          sound,
      idle',
    )

-- Whether the key of the part finds a row with the status.
abbrev pub Has : Status → Table → Part → Type 0
Has s t p = (r : Row) × (find p.job_id p.part_id t ≡ some r) × (r.status ≡ s)

pub Has-moved :
    (t t' : Table) (p : Part) → Moves t t' → Has Status.superseded t p → Has Status.superseded t' p
Has-moved t t' p m (r, found, e) =
    let (r', found', path) = m p.job_id p.part_id r found in
    let path' : Status.superseded ⟶* r'.status = subst (λ s. s ⟶* r'.status) e path in
    (r', found', sym (final-stays superseded_final path'))

pub Has-superseded :
    (c : Clock) (p : Part) (output worker : Text) (now : ℕ) (t u : Table)
    → Inv c t
    → update_part c p.job_id p.part_id
        (compact_owned_or_unowned_ready worker)
        (superseded_part c output now)
        t
      ≡ ok u
    → Has Status.superseded u p
unfolding superseded_part
Has-superseded c p output worker now t u i h =
    let good = superseded_part-Good c now output worker in
    let (j, _) =
      update_part-Sound c p.job_id p.part_id (compact_owned_or_unowned_ready worker)
        (superseded_part c output now) t u good h i in
    let (_, _, _, back, _) =
      update_part-effect c p.job_id p.part_id (compact_owned_or_unowned_ready worker)
        (superseded_part c output now) t u i.well_formed good.key h in
    let (r, found, same) = read_part-eq-ok p.job_id p.part_id u _ back in
    let (_, _, _, status) =
      part_write_values-data c r.data_part
        (find-WellFormed c p.job_id p.part_id u r j.well_formed found) in
    (r, found, status ∙ ap (λ (q : Part). q.status) same)

supersede_inputs-superseded :
    (c : Clock) (worker : Text) (now : ℕ) (ps : List Part) (output out : Part) (t t' : Table)
    → Inv c t
    → is output.status Status.in_progress ≡ false
    → supersede_inputs c worker now ps output t ≡ ok (t', out)
    → All (Has Status.superseded t') ps
supersede_inputs-superseded c worker now [] output out t t' i idle h = tt
supersede_inputs-superseded c worker now (p ∷ ps) output out t t' i idle h =
    let (current, u, _, updated, rest) =
      supersede_inputs-cons c worker now p ps output out t t' h in
    let (j, _) =
      update_part-Sound c p.job_id p.part_id (compact_owned_or_unowned_ready worker)
        (superseded_part c output.part_id now) t u
        (superseded_part-Good c now output.part_id worker) updated i in
    let idle' = finalized_output-idle c now current output idle in
    let (sound, _) =
      supersede_inputs-Sound c worker now ps (finalized_output c now current output) out u t' idle'
        rest in
    (
      Has-moved u t' p (sound j).1 (Has-superseded c p output.part_id worker now t u i updated),
      supersede_inputs-superseded c worker now ps (finalized_output c now current output) out u t' j
          idle' rest,
    )

pub complete_compaction-eq-ok :
    (c : Clock) (b : CompactBatch) (output : Part) (worker : Text) (now : ℕ) (t t' : Table)
    → complete_compaction c b output worker now t ≡ ok t'
    → (is output.status Status.in_progress ≡ false)
      × ((v : Table × Part) × (supersede_inputs c worker now (parts_in_lock_order b.parts) output t
            ≡ ok v)
          × (insert_part c v.1 v.0 ≡ ok t'))
unfolding complete_compaction
complete_compaction-eq-ok c b output worker now t t' h =
    let h1 = (>>-eq-ok (guard (not (is_blank worker)) worker_required) _ h).1 in
    let h2 =
      (>>-eq-ok (guard (not (ltb max_compact_batch_parts (length b.parts))) too_many_artifacts) _
        h1).1 in
    let h3 = (>>-eq-ok (validate_compact_batch b) _ h2).1 in
    let h4 = (>>-eq-ok (validate_part output) _ h3).1 in
    let (ready, h5) = >>-eq-ok (guard (is output.status Status.compact_ready) wrong_status) _ h4 in
    let h6 = (>>-eq-ok (validate_compact_output_for_batch b output) _ h5).1 in
    let (v, superseded, inserted) =
      >>=-eq-ok (supersede_inputs c worker now (parts_in_lock_order b.parts) output t) _ h6 in
    (ground arith, (v, superseded, inserted))

-- A compaction that completes has superseded every input of its batch. The table before must keep
-- the invariant.
pub complete_compaction-superseded :
    (c : Clock) (b : CompactBatch) (output : Part) (worker : Text) (now : ℕ) (t t' : Table)
    → Inv c t
    → complete_compaction c b output worker now t ≡ ok t'
    → All
        (λ p. (r : Row) × (find p.job_id p.part_id t' ≡ some r) × (r.status ≡ Status.superseded))
        b.parts
unfolding parts_in_lock_order
complete_compaction-superseded c b output worker now t t' i h =
    let (idle, ((u, out), superseded, inserted)) =
      complete_compaction-eq-ok c b output worker now t t' h in
    let (sound, idle') =
      supersede_inputs-Sound c worker now (parts_in_lock_order b.parts) output out t u idle
        superseded in
    let (j, _) = sound i in
    let (_, m) = insert_part-Sound c out u t' (λ s. absurd (cc (s, idle'))) inserted j in
    sort_slice-All_inv part_before _ b.parts (
      All-map (parts_in_lock_order b.parts) (λ p. Has-moved u t' p m)
        (supersede_inputs-superseded c worker now (parts_in_lock_order b.parts) output out t u i
          idle superseded))

pub complete_compaction-Sound :
    (c : Clock) (b : CompactBatch) (output : Part) (worker : Text) (now : ℕ) (t : Table)
    → Soundly c t (complete_compaction c b output worker now t)
complete_compaction-Sound c b output worker now t t' h =
    let (idle, ((u, out), superseded, inserted)) =
      complete_compaction-eq-ok c b output worker now t t' h in
    let (sound, idle') =
      supersede_inputs-Sound c worker now (parts_in_lock_order b.parts) output out t u idle
        superseded in
    Sound-trans c t u t' sound (insert_part-Sound c out u t' (λ s. absurd (cc (s, idle'))) inserted)
