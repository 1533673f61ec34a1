-- ===== src/State/Lifecycle/Completion/Output.antt =====
-- What `CompleteCompaction` of internal/state/postgres.go stores as the output of the batch.
use partforge.Base.{
  Text, ℕ, ◌≡◌, refl, sym, ◌∙◌, ap, inl, inr, Bool, true, false, not, ◌||◌, any, List, [], ◌∷◌,
  some, none, if◌then◌else◌, All, All-map, ok, arith, Bool-cases, null, Option,
}
use partforge.Base.Order.{sort_slice-All, sort_slice-All_inv}
use partforge.State.Part.{Part, Clock, Status}
use partforge.State.Row.{Row}
use partforge.State.Table.{Table, find, read_part, update_part}
use partforge.State.Batch.{CompactBatch, part_before, parts_in_lock_order}
use partforge.State.Compact.{
  compact_owned_or_unowned_ready, superseded_part, finalized_output, supersede_inputs,
  complete_compaction,
}
use partforge.State.Table.Laws.{part_write_values-data}
use partforge.State.Table.Find.{find-WellFormed}
use partforge.State.Table.Update.{update_part-effect, read_part-eq-ok, find-insert_part}
use partforge.State.Lifecycle.Sound.{Inv, update_part-Sound}
use partforge.State.Lifecycle.Steps.{superseded_part-Good}
use partforge.State.Lifecycle.Completion.{
  Has, Has-moved, Has-superseded, supersede_inputs-cons, complete_compaction-eq-ok,
}

abbrev pub requests : Option Row → Bool
requests none = false
requests (some r) = not (null r.data_part.compact.finalize_requested_at)

-- Whether the stored part of a key has a pending request for finalization.
abbrev pub requested : Table → Part → Bool
requested t p = requests (find p.job_id p.part_id t)

-- The output, finished now if it is to be.
abbrev finished_if : Clock → ℕ → Bool → Part → Part
finished_if c now done output =
    if done
    then record output {
      status = Status.finished;
      updated_at = c.format now;
      finished_at = c.format now;
    }
    else output

finished_if-key :
    (c : Clock) (now : ℕ) (done : Bool) (output : Part)
    → ((finished_if c now done output).job_id ≡ output.job_id)
      × ((finished_if c now done output).part_id ≡ output.part_id)
finished_if-key c now true output = (refl, refl)
finished_if-key c now false output = (refl, refl)

finished_if-twice :
    (c : Clock) (now : ℕ) (a b : Bool) (output : Part)
    → finished_if c now b (finished_if c now a output) ≡ finished_if c now (a || b) output
finished_if-twice c now true true output = refl
finished_if-twice c now true false output = refl
finished_if-twice c now false true output = refl
finished_if-twice c now false false output = refl

finalized_output_lem :
    (c : Clock) (now : ℕ) (t : Table) (p current output : Part)
    → read_part p.job_id p.part_id t ≡ ok current
    → finalized_output c now current output ≡ finished_if c now (requested t p) output
unfolding finalized_output requests
finalized_output_lem c now t p current output read =
    let (r, found, same) = read_part-eq-ok p.job_id p.part_id t current read in
    let pending : requested t p ≡ not (null current.compact.finalize_requested_at) =
      ap requests found ∙ ap (λ (q : Part). not (null q.compact.finalize_requested_at)) same in
    elim (Bool-cases (null current.compact.finalize_requested_at)) [
      | inl e ↦ rw (pending, e) refl
      | inr e ↦ rw (pending, e) refl
    ]

superseded-not_held :
    (c : Clock) (worker : Text) (t : Table) (p : Part) (r s : Row)
    → Inv c t
    → find p.job_id p.part_id t ≡ some r
    → compact_owned_or_unowned_ready worker r.data_part ≡ true
    → find p.job_id p.part_id t ≡ some s
    → s.status ≡ Status.superseded
    → ⊥
unfolding compact_owned_or_unowned_ready
superseded-not_held c worker t p r s i found held found' superseded =
    let same : s.status ≡ r.status = cc (found, found') in
    let (_, _, _, status) =
      part_write_values-data c r.data_part
        (find-WellFormed c p.job_id p.part_id t r i.well_formed found) in
    let stored : r.data_part.status ≡ Status.superseded = sym status ∙ sym same ∙ superseded in
    absurd (let no : false ≡ true = rw stored at held in cc no)

-- An input that the loop still has to read is not superseded.
supersede_inputs-fresh :
    (c : Clock) (worker : Text) (now : ℕ) (ps : List Part) (output out : Part) (t t' : Table)
    → Inv c t
    → supersede_inputs c worker now ps output t ≡ ok (t', out)
    → All (λ p. Has Status.superseded t p → ⊥) ps
supersede_inputs-fresh c worker now [] output out t t' i h = tt
supersede_inputs-fresh c worker now (p ∷ ps) output out t t' i h =
    let (current, u, _, updated, rest) =
      supersede_inputs-cons c worker now p ps output out t t' h in
    let good = superseded_part-Good c now output.part_id worker in
    let (j, m) =
      update_part-Sound c p.job_id p.part_id (compact_owned_or_unowned_ready worker)
        (superseded_part c output.part_id now) t u good updated i in
    let (r, found, held, _, _) =
      update_part-effect c p.job_id p.part_id (compact_owned_or_unowned_ready worker)
        (superseded_part c output.part_id now) t u i.well_formed good.key updated in
    (
      λ (s, found', superseded).
          superseded-not_held c worker t p r s i found held found' superseded,
      All-map ps (λ q fresh has. fresh (Has-moved t u q m has))
          (supersede_inputs-fresh c worker now ps (finalized_output c now current output) out u t' j
            rest),
    )

-- So the round of another input leaves its request alone.
requested_kept :
    (c : Clock) (worker output : Text) (now : ℕ) (p q : Part) (t u : Table)
    → Inv c t
    → update_part c p.job_id p.part_id
        (compact_owned_or_unowned_ready worker)
        (superseded_part c output now)
        t
      ≡ ok u
    → (Has Status.superseded u q → ⊥)
    → requested u q ≡ requested t q
requested_kept c worker output now p q t u i updated fresh =
    let good = superseded_part-Good c now output worker in
    let (_, _, _, _, frame) =
      update_part-effect c p.job_id p.part_id (compact_owned_or_unowned_ready worker)
        (superseded_part c output now) t u i.well_formed good.key updated in
    let other : (p.job_id ≡ q.job_id) × (p.part_id ≡ q.part_id) → ⊥ = λ (job, part).
      let (s, found, superseded) = Has-superseded c p output worker now t u i updated in
      fresh (s, rw (job, part) at found, superseded) in
    ap requests (frame q.job_id q.part_id other)

any_same : (f g : Part → Bool) (ps : List Part) → All (λ p. f p ≡ g p) ps → any f ps ≡ any g ps
any_same f g [] h = refl
any_same f g (p ∷ ps) (e, h) = rw (e, any_same f g ps h) refl

supersede_inputs-output :
    (c : Clock) (worker : Text) (now : ℕ) (ps : List Part) (output out : Part) (t t' : Table)
    → Inv c t
    → supersede_inputs c worker now ps output t ≡ ok (t', out)
    → out ≡ finished_if c now (any (requested t) ps) output
unfolding supersede_inputs
supersede_inputs-output c worker now [] output out t t' i h =
    let (_, part) : (t ≡ t') × (output ≡ out) = ground arith in sym part
supersede_inputs-output c worker now (p ∷ ps) output out t t' i h =
    let (current, u, read, updated, rest) =
      supersede_inputs-cons c worker now p ps output out t t' h in
    let output' = finalized_output c now current output in
    let (j, _) =
      update_part-Sound c p.job_id p.part_id (compact_owned_or_unowned_ready worker)
        (superseded_part c output.part_id now) t u
        (superseded_part-Good c now output.part_id worker) updated i in
    let kept : any (requested u) ps ≡ any (requested t) ps =
      any_same (requested u) (requested t) ps (
        All-map ps (λ q. requested_kept c worker output.part_id now p q t u i updated)
          (supersede_inputs-fresh c worker now ps output' out u t' j rest)) in
    supersede_inputs-output c worker now ps output' out u t' j rest
    ∙ ap (λ b. finished_if c now b output') kept
    ∙ ap (finished_if c now (any (requested t) ps))
        (finalized_output_lem c now t p current output read)
    ∙ finished_if-twice c now (requested t p) (any (requested t) ps) output

any-none : (f : Part → Bool) (ps : List Part) → any f ps ≡ false → All (λ p. f p ≡ false) ps
any-none f [] h = tt
any-none f (p ∷ ps) h = (ground arith, any-none f ps (ground arith))

none-any : (f : Part → Bool) (ps : List Part) → All (λ p. f p ≡ false) ps → any f ps ≡ false
none-any f [] h = refl
none-any f (p ∷ ps) (e, h) = rw (e, none-any f ps h) refl

any-parts_in_lock_order :
    (f : Part → Bool) (ps : List Part) → any f (parts_in_lock_order ps) ≡ any f ps
unfolding parts_in_lock_order
any-parts_in_lock_order f ps = elim (Bool-cases (any f ps)) [
  | inl e ↦ elim (Bool-cases (any f (parts_in_lock_order ps))) [
    | inl g ↦ g ∙ sym e
    | inr g ↦ absurd (cc (e, none-any f ps (sort_slice-All_inv part_before _ ps (any-none f _ g))))
  ]
  | inr e ↦ none-any f _ (sort_slice-All part_before _ ps (any-none f ps e)) ∙ sym e
]

-- A compaction that completes has stored its output under its key: finished at this time if some input
-- had a pending request for finalization in the table before, and otherwise as it was given. The table
-- before must keep the invariant.
pub complete_compaction-output :
    (c : Clock) (b : CompactBatch) (output : Part) (worker : Text) (now : ℕ) (t t' : Table)
    → Inv c t
    → complete_compaction c b output worker now t ≡ ok t'
    → (r : Row) × (find output.job_id output.part_id t' ≡ some r)
      × (r.data_part ≡ (
          if any (requested t) b.parts
          then record output {
            status = Status.finished;
            updated_at = c.format now;
            finished_at = c.format now;
          }
          else output))
complete_compaction-output c b output worker now t t' i h =
    let (_, ((u, out), superseded, inserted)) =
      complete_compaction-eq-ok c b output worker now t t' h in
    let (r, found, same) = find-insert_part c out u t' inserted in
    let done : out ≡ finished_if c now (any (requested t) b.parts) output =
      supersede_inputs-output c worker now (parts_in_lock_order b.parts) output out t u i superseded
      ∙ ap (λ d. finished_if c now d output) (any-parts_in_lock_order (requested t) b.parts) in
    let (job, part) = finished_if-key c now (any (requested t) b.parts) output in
    let same_job : out.job_id ≡ output.job_id = ap (λ (p : Part). p.job_id) done ∙ job in
    let same_part : out.part_id ≡ output.part_id = ap (λ (p : Part). p.part_id) done ∙ part in
    (r, rw (same_job, same_part) at found, same ∙ done)
