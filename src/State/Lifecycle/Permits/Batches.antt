-- ===== src/State/Lifecycle/Permits/Batches.antt =====
-- The transactions of internal/state/postgres.go that change each part of a batch, and the claims.
use partforge.Base.{
  Text, ℕ, ◌≡◌, refl, sym, subst, ◌∙◌, ap, inl, inr, Bool, true, not, ◌&&◌, ◌||◌, List, [], ◌∷◌,
  Option, none, some, ok, guard, ◌>>=◌, >>-eq-ok, >>=-eq-ok, arith, is_blank, All-Memᴰ, map, ltb,
}
use partforge.Base.Order.{first_where-eq-some}
use partforge.State.Part.{
  Part, Clock, Status, is, worker_required, cause_required, too_many_artifacts,
}
use partforge.State.Row.{Row}
use partforge.State.Table.{Table, update_part, save_part}
use partforge.State.Table.Laws.{WellFormed, update_part-WellFormed}
use partforge.State.Rewrite.{claim_next_ready, claim_part, claimable, ready_before}
use partforge.State.Batch.{
  CompactBatch, validate_compact_batch, parts_in_lock_order, compact_batch_from_parts,
}
use partforge.State.Compact.{
  each_part, max_compact_batch_parts, compact_owned_or_unowned_ready, released_input,
  compact_failed_part, compacting_by, finalize_requested_part, awaits_compaction, superseded_part,
  finalized_output, supersede_inputs, complete_compaction, release_compact_batch,
  mark_compact_batch_failed, request_compact_finalization,
}
use partforge.State.Claim.{
  CompactClaimOptions, choose_parts, save_claimed, compacting_part, claim_next_compact_batch,
}
use partforge.State.Command.{Command}
use partforge.State.Lifecycle.{KeepsKey}
use partforge.State.Lifecycle.Sound.{Inv}
use partforge.State.Lifecycle.Claims.{Own, Inv-Own, claim_next_ready-eq-ok, ready_before-WeakOrder}
use partforge.State.Lifecycle.Saves.{choose_parts-Chosen, each_part-map}
use partforge.State.Lifecycle.Completion.{supersede_inputs-cons, complete_compaction-eq-ok}
use partforge.State.Lifecycle.Changes.{
  Changes, IsTransitive, Changes-refl, Changes-trans, update_part-Changes, insert_part-Changes,
  each_part-Changes, save_part-Changes, saves-Changes, Writable, row-Writable,
}
use partforge.State.Lifecycle.Permits.{permits, Within, guarded, checked, failing}

module _ (c : Clock) (t : Table) (w : WellFormed c t) (may : Status → Status → Bool) where
  looped :
      IsTransitive may
      → (condition : Part → Bool) (mutate : Part → Part) → KeepsKey mutate
      → ((p : Part) → condition p ≡ true → may p.status (mutate p).status ≡ true)
      → (ps : List Part)
      → Within t may (each_part (λ p. update_part c p.job_id p.part_id condition mutate) ps t)
  looped tr condition mutate keep leads ps t' h =
      each_part-Changes may c tr (λ p. update_part c p.job_id p.part_id condition mutate)
        (λ p u u' wu saved. (
          update_part-WellFormed c p.job_id p.part_id condition mutate u saved wu,
          update_part-Changes may c p.job_id p.part_id condition mutate u u' wu keep leads saved,
        ))
        ps t t' w h

module _ (c : Clock) (now : ℕ) (t : Table) (w : WellFormed c t) where
  pub release_compact_batch-Within :
      (b : CompactBatch) (worker : Text) (done : Bool)
      → Within t
          (permits (Command.release_batch b worker done))
          (release_compact_batch c b worker now done t)
  unfolding release_compact_batch permits released_input compact_owned_or_unowned_ready
  release_compact_batch-Within b worker done = guarded c t _ _ worker_required _ (
      looped c t w _ (λ s s' s'' h k. ground arith) (compact_owned_or_unowned_ready worker)
        (released_input c done now) (λ q. (refl, refl)) (λ q h. ground arith)
        (parts_in_lock_order b.parts))

  pub mark_compact_batch_failed-Within :
      (b : CompactBatch) (worker : Text) (cause : Option Text)
      → Within t
          (permits (Command.fail_batch b worker cause))
          (mark_compact_batch_failed c b worker cause now t)
  unfolding mark_compact_batch_failed permits compact_failed_part
  mark_compact_batch_failed-Within b worker none =
      guarded c t _ _ worker_required _ (failing c t _ cause_required)
  mark_compact_batch_failed-Within b worker (some cause) = guarded c t _ _ worker_required _ (
      checked c t _ (validate_compact_batch b) _ (
        looped c t w _ (λ s s' s'' h k. ground arith) (compacting_by worker)
          (compact_failed_part c cause now) (λ q. (refl, refl)) (λ q h. ground arith)
          (parts_in_lock_order b.parts)))

  pub request_compact_finalization-Within :
      (ps : List Part)
      → Within t
          (permits (Command.request_finalization ps))
          (request_compact_finalization c ps now t)
  unfolding request_compact_finalization permits finalize_requested_part
  request_compact_finalization-Within ps =
      looped c t w _ (λ s s' s'' h k. ground arith) awaits_compaction
        (finalize_requested_part c now) (λ q. ground arith) (λ q h. ground arith)
        (parts_in_lock_order ps)

-- The inputs of a completed compaction.
abbrev supersedes : Status → Status → Bool
supersedes s s' = (is s Status.compacting || is s Status.compact_ready) && is s' Status.superseded

supersedes_trans : IsTransitive supersedes
supersedes_trans s t u h k = ground arith

supersede_inputs-Changes :
    (c : Clock) (worker : Text) (now : ℕ) (ps : List Part) (output out : Part) (t t' : Table)
    → WellFormed c t
    → supersede_inputs c worker now ps output t ≡ ok (t', out)
    → Changes supersedes t t'
unfolding supersede_inputs superseded_part compact_owned_or_unowned_ready
supersede_inputs-Changes c worker now [] output out t t' w h =
    let (table, _) : (t ≡ t') × (output ≡ out) = ground arith in
    subst (Changes supersedes t) table (Changes-refl supersedes t)
supersede_inputs-Changes c worker now (p ∷ ps) output out t t' w h =
    let (current, u, _, updated, rest) =
      supersede_inputs-cons c worker now p ps output out t t' h in
    let held = compact_owned_or_unowned_ready worker in
    let mutate = superseded_part c output.part_id now in
    Changes-trans supersedes supersedes_trans t u t'
      (update_part-Changes supersedes c p.job_id p.part_id held mutate t u w (λ q. (refl, refl))
        (λ q h. ground arith) updated)
      (supersede_inputs-Changes c worker now ps (finalized_output c now current output) out u t'
        (update_part-WellFormed c p.job_id p.part_id held mutate t updated w) rest)

pub complete_compaction-Within :
    (c : Clock) (b : CompactBatch) (output : Part) (worker : Text) (now : ℕ) (t : Table)
    → WellFormed c t
    → Within t
        (permits (Command.complete_batch b output worker))
        (complete_compaction c b output worker now t)
unfolding permits
complete_compaction-Within c b output worker now t w t' h =
    let (_, ((u, out), superseded, inserted)) =
      complete_compaction-eq-ok c b output worker now t t' h in
    Changes-trans supersedes supersedes_trans t u t'
      (supersede_inputs-Changes c worker now (parts_in_lock_order b.parts) output out t u w
        superseded)
      (insert_part-Changes supersedes c out u t' inserted)

pub claim_next_ready-Within :
    (c : Clock) (locked : Row → Bool) (worker : Text) (now : ℕ) (t t' : Table) (q : Option Part)
    → Inv c t
    → claim_next_ready c locked worker now t ≡ ok (t', q)
    → Changes (permits (Command.claim_ready locked worker)) t t'
unfolding permits claim_part
claim_next_ready-Within c locked worker now t t' q i h =
    let may : Status → Status → Bool = permits (Command.claim_ready locked worker) in
    elim (claim_next_ready-eq-ok c locked worker now t t' q h) [
      | inl (_, same, _) ↦ subst (Changes may t) (sym same) (Changes-refl may t)
      | inr (r, e, saved, _) ↦
          let (p, m, _) =
            first_where-eq-some ready_before ready_before-WeakOrder (claimable locked) t r e in
          save_part-Changes may c (claim_part c worker now r.data_part) t t' saved (
            row-Writable may c t r (claim_part c worker now) (λ p. (refl, refl))
              (All-Memᴰ (Own c t) r t (Inv-Own c t i) m) (ground arith))
    ]

pub claim_next_compact_batch-Within :
    (c : Clock) (now : ℕ) (locked : Row → Bool) (t : Table) (worker : Text)
    (o : CompactClaimOptions) (t' : Table) (b : Option CompactBatch)
    → Inv c t
    → claim_next_compact_batch c locked worker now o t ≡ ok (t', b)
    → Changes (permits (Command.claim_batch locked worker o)) t t'
unfolding claim_next_compact_batch save_claimed compacting_part permits
claim_next_compact_batch-Within c now locked t worker o t' b i h =
    let may : Status → Status → Bool = permits (Command.claim_batch locked worker o) in
    let f = compacting_part c worker now in
    let guarded = (>>-eq-ok (guard (not (is_blank worker)) worker_required) _ h).1 in
    let capped =
      (>>-eq-ok
        (guard (not (ltb max_compact_batch_parts o.batching.max_artifacts)) too_many_artifacts) _
        guarded).1 in
    let (ps, chosen, rest) =
      >>=-eq-ok (choose_parts o now locked t) (λ ps. save_claimed c (map f ps) t) capped in
    let (_, _, rest') =
      >>=-eq-ok (compact_batch_from_parts (map f ps))
        (λ q. each_part (save_part c) (map f ps) t >>= (λ u. ok (u, q))) rest in
    let (u, saved, last) = >>=-eq-ok (each_part (save_part c) (map f ps) t) _ rest' in
    let same : u ≡ t' = cc last in
    saves-Changes may c f ps t t t' (Changes-refl may t)
      (choose_parts-Chosen c o now locked t (λ p. Writable may t (f p))
        (λ r own ready. row-Writable may c t r f (λ p. (refl, refl)) own (ground arith)) ps i
        chosen)
      (sym (each_part-map c f ps t) ∙ saved ∙ ap ok same)
