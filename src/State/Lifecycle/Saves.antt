-- ===== src/State/Lifecycle/Saves.antt =====
-- A loop that writes back parts of the table, in the claim of a batch and in the release of stale
-- compactions, is sound.
use partforge.Base.{
  Text, ℕ, ◌≡◌, refl, sym, subst, ◌∙◌, ap, inl, inr, Bool, true, false, not, ◌&&◌, ◌+◌, List, [],
  ◌∷◌, Option, none, some, ok, err, guard, ◌>>=◌, >>-eq-ok, >>=-eq-ok, arith, if◌then◌else◌,
  Bool-cases, is_blank, All, All-map, All-Memᴰ, filter, filter-tested, take-All, ltb, take, map,
  length, null,
}
use partforge.Base.Order.{
  WeakOrder, ltb-WeakOrder, text_lt-WeakOrder, then_by-WeakOrder, keyed-WeakOrder,
  reversed-WeakOrder, first_where-eq-some, sort_slice, sort_slice-All,
}
use partforge.State.Part.{
  Part, Clock, Status, is, worker_required, too_many_artifacts, validate_part,
}
use partforge.State.Row.{Row}
use partforge.State.Table.{Table, save_part}
use partforge.State.Table.Find.{find-save_part}
use partforge.State.Batch.{CompactBatch, compact_batch_from_parts, u64}
use partforge.State.Compact.{each_part, max_compact_batch_parts}
use partforge.State.Claim.{
  read_parts, within_cap, choose_parts, save_claimed, compacting_part, select_siblings,
  claim_normalized_siblings, siblings_of_anchor, fragmented_or_siblings, claim_next_compact_batch,
  CompactClaimOptions, CompactBatching, sibling_of, sibling_before, enabled, most_fragmented,
  claims_fragmented, admitted,
}
use partforge.State.Maintenance.{is_stale, stale_released_part, release_stale_compacting_parts}
use partforge.State.Lifecycle.{
  ◌⟶*◌, here, step, once, taken, given_back, settled, import_started, import_failed,
  retried_compact, finalized,
}
use partforge.State.Lifecycle.Sound.{Inv, Sound, Sound-refl, Sound-trans, BarePart, save_part-Sound}
use partforge.State.Lifecycle.Claims.{Own, Inv-Own, Leading, row-Leading}
use partforge.State.Lifecycle.Transactions.{Soundly}

module _ (c : Clock) (f : Part → Part) where
  -- No written part may overtake another: their statuses lead to each other.
  saves-Sound :
      ((p : Part) → BarePart (f p))
      → ((p q : Part) → (f p).status ⟶* (f q).status)
      → (ps : List Part) (t t' : Table) → All (λ p. Leading t (f p).status (f p)) ps
      → each_part (λ p. save_part c (f p)) ps t ≡ ok t'
      → Sound c t t'
  unfolding each_part
  saves-Sound bare linked [] t t' l h = subst (Sound c t) (ground arith) (Sound-refl c t)
  saves-Sound bare linked (p ∷ ps) t t' (l, ls) h =
      let (u, saved, rest) =
        >>=-eq-ok (save_part c (f p) t) (each_part (λ q. save_part c (f q)) ps) h in
      let after =
        All-map ps
          (λ q lq r found.
            elim (find-save_part c (f p) t u (f q).job_id (f q).part_id r saved found) [
              | inl old ↦ lq r old
              | inr new ↦ subst (λ s. s ⟶* (f q).status) (sym new) (linked p q)
            ])
          ls in
      Sound-trans c t u t' (save_part-Sound c (f p) t u saved (bare p) l)
        (saves-Sound bare linked ps u t' after rest)

  pub each_part-map :
      (ps : List Part) (t : Table)
      → each_part (save_part c) (map f ps) t ≡ each_part (λ p. save_part c (f p)) ps t
  unfolding each_part
  each_part-map [] t = refl
  each_part-map (p ∷ ps) t =
      elim (save_part c (f p) t)
        as (λ m.
          (m >>= each_part (save_part c) (map f ps))
          ≡ (m >>= each_part (λ q. save_part c (f q)) ps)) [
            | ok u ↦ each_part-map ps u
            | err e ↦ refl
          ]

-- The rows that a query has chosen.
abbrev Chosen : Table → Part → Type 0
Chosen t p = Leading t Status.compacting p

module _ {ℓ} (P : Part → Type ℓ) where
  pub read_parts-All :
      (rs : List Row) (ps : List Part)
      → read_parts rs ≡ ok ps
      → All (λ r. P r.data_part) rs
      → All P ps
  unfolding read_parts
  read_parts-All [] ps h k = let same : [] ≡ ps = ground arith in subst (All P) same tt
  read_parts-All (r ∷ rs) ps h (k, ks) =
      let (qs, read, last) =
        >>=-eq-ok (read_parts rs) (λ qs. ok (r.data_part ∷ qs))
          ((>>-eq-ok (validate_part r.data_part) _ h).1) in
      let same : (r.data_part ∷ qs) ≡ ps = ground arith in
      subst (All P) same (k, read_parts-All rs qs read ks)

  within_cap-All : (cap bytes : ℕ) (ps : List Part) → All P ps → All P (within_cap cap bytes ps)
  unfolding within_cap
  within_cap-All cap bytes [] k = tt
  within_cap-All cap bytes (p ∷ ps) (k, ks) =
      let over = ltb 0 cap && ltb cap (u64 (bytes + p.rewrite.active_part_bytes)) in
      elim (Bool-cases over) [
        | inl e ↦ rw e tt
        | inr e ↦ rw e (k, within_cap-All cap (u64 (bytes + p.rewrite.active_part_bytes)) ps ks)
      ]

most_fragmented-WeakOrder : WeakOrder most_fragmented
most_fragmented-WeakOrder =
    then_by-WeakOrder
      (keyed-WeakOrder (λ (r : Row). r.compact_parts) (reversed-WeakOrder ltb-WeakOrder))
      (then_by-WeakOrder (keyed-WeakOrder (λ (r : Row). r.created_at) text_lt-WeakOrder) (
        then_by-WeakOrder (keyed-WeakOrder (λ (r : Row). r.job_id) text_lt-WeakOrder)
          (keyed-WeakOrder (λ (r : Row). r.part_id) text_lt-WeakOrder)))

Chosen-row :
    (c : Clock) (t : Table) (r : Row)
    → Own c t r
    → is r.status Status.compact_ready ≡ true
    → Chosen t r.data_part
Chosen-row c t r own e = row-Leading c t r Status.compact_ready Status.compacting own e (once taken)

-- What holds of the part of each row that a claim may choose holds of the chosen parts.
module _ (c : Clock) (o : CompactClaimOptions) (now : ℕ) (locked : Row → Bool) (t : Table)
    (P : Part → Type 0)
    (each : (r : Row) → Own c t r → is r.status Status.compact_ready ≡ true → P r.data_part) where
  select_siblings-Chosen :
      (b : CompactBatching) (anchor : Row) (ps : List Part)
      → Inv c t
      → select_siblings b locked t anchor ≡ ok ps
      → All P ps
  unfolding select_siblings
  select_siblings-Chosen b anchor ps i h =
      let (qs, read, last) =
        >>=-eq-ok
          (read_parts (
            take b.max_artifacts (sort_slice sibling_before (filter (sibling_of locked anchor) t))))
          _ h in
      let rows =
        All-map (filter (sibling_of locked anchor) t) (λ r (own, e). each r own (ground arith))
          (filter-tested (Own c t) (sibling_of locked anchor) t (Inv-Own c t i)) in
      let few = take-All _ b.max_artifacts _ (sort_slice-All sibling_before _ _ rows) in
      let capped = within_cap-All P b.max_bytes 0 qs (read_parts-All P _ qs read few) in
      elim (Bool-cases (ltb (length (within_cap b.max_bytes 0 qs)) 2)) [
        | inl e ↦ let same : [] ≡ ps = cc (rw e at last) in subst (All P) same tt
        | inr e ↦
            let same : within_cap b.max_bytes 0 qs ≡ ps = cc (rw e at last) in
            subst (All P) same capped
      ]

  siblings_of_anchor-Chosen :
      (b : CompactBatching) (anchor : Option Row) (ps : List Part)
      → Inv c t
      → siblings_of_anchor b locked t anchor ≡ ok ps
      → All P ps
  unfolding siblings_of_anchor
  siblings_of_anchor-Chosen b none ps i h = let same : [] ≡ ps = cc h in subst (All P) same tt
  siblings_of_anchor-Chosen b (some anchor) ps i h =
      select_siblings-Chosen b anchor ps i ((>>-eq-ok (validate_part anchor.data_part) _ h).1)

  fragmented_or_siblings-Chosen :
      (first : Option Row) (ps : List Part)
      → Inv c t
      → ((r : Row) → first ≡ some r → Own c t r × (is r.status Status.compact_ready ≡ true))
      → fragmented_or_siblings o now locked t first ≡ ok ps
      → All P ps
  unfolding fragmented_or_siblings claim_normalized_siblings
  fragmented_or_siblings-Chosen none ps i found h = elim (Bool-cases (enabled o.batching)) [
    | inl on ↦ siblings_of_anchor-Chosen o.batching _ ps i (rw on at h)
    | inr off ↦ let same : [] ≡ ps = cc (rw off at h) in subst (All P) same tt
  ]
  fragmented_or_siblings-Chosen (some r) ps i found h =
      let (own, e) = found r refl in read_parts-All P (r ∷ []) ps h (each r own e, tt)

  pub choose_parts-Chosen :
      (ps : List Part) → Inv c t → choose_parts o now locked t ≡ ok ps → All P ps
  unfolding choose_parts admitted
  choose_parts-Chosen ps i h =
      fragmented_or_siblings-Chosen _ ps i
        (λ r e.
          let (test, m, _) =
            first_where-eq-some most_fragmented most_fragmented-WeakOrder
              (claims_fragmented o now locked t) t r e in
          (All-Memᴰ (Own c t) r t (Inv-Own c t i) m, ground arith))
        h

abbrev asked : Part → Bool
asked p = not (null p.compact.finalize_requested_at)

abbrev given_status : Bool → Status
given_status done = if done then Status.finished else Status.compact_ready

to_done : (done : Bool) → Status.compacting ⟶* given_status done
to_done true = once settled
to_done false = once given_back

between : (a b : Bool) → given_status a ⟶* given_status b
between true true = here
between true false = step import_started (step import_failed (once retried_compact))
between false true = once finalized
between false false = here

module _ (c : Clock) (now : ℕ) (locked : Row → Bool) (t : Table) where
  pub claim_next_compact_batch-Sound :
      (worker : Text) (o : CompactClaimOptions) (t' : Table) (b : Option CompactBatch)
      → claim_next_compact_batch c locked worker now o t ≡ ok (t', b)
      → Sound c t t'
  unfolding claim_next_compact_batch save_claimed compacting_part
  claim_next_compact_batch-Sound worker o t' b h i =
      let guarded = (>>-eq-ok (guard (not (is_blank worker)) worker_required) _ h).1 in
      let capped =
        (>>-eq-ok
          (guard (not (ltb max_compact_batch_parts o.batching.max_artifacts)) too_many_artifacts) _
          guarded).1 in
      let (ps, chosen, rest) =
        >>=-eq-ok (choose_parts o now locked t)
          (λ ps. save_claimed c (map (compacting_part c worker now) ps) t) capped in
      let (_, _, rest') =
        >>=-eq-ok (compact_batch_from_parts (map (compacting_part c worker now) ps))
          (λ q.
            each_part (save_part c) (map (compacting_part c worker now) ps) t >>= (λ u. ok (u, q)))
          rest in
      let (u, saved, last) =
        >>=-eq-ok (each_part (save_part c) (map (compacting_part c worker now) ps) t) _ rest' in
      let same : u ≡ t' = cc last in
      saves-Sound c (compacting_part c worker now) (λ p s. absurd (ground arith)) (λ p q. here) ps t
        t' (choose_parts-Chosen c o now locked t (Chosen t) (Chosen-row c t) ps i chosen)
        (sym (each_part-map c (compacting_part c worker now) ps t) ∙ saved ∙ ap ok same) i

  pub release_stale_compacting_parts-Sound :
      (age : ℕ) → Soundly c t (release_stale_compacting_parts c locked now age t)
  unfolding release_stale_compacting_parts stale_released_part
  release_stale_compacting_parts-Sound age t' h i =
      let (ps, read, rest) = >>=-eq-ok (read_parts (filter (is_stale locked now age) t)) _ h in
      let leads =
        All-map (filter (is_stale locked now age) t)
          (λ r (own, e).
            row-Leading c t r Status.compacting (stale_released_part c now r.data_part).status own
              (ground arith) (to_done (asked r.data_part)))
          (filter-tested (Own c t) (is_stale locked now age) t (Inv-Own c t i)) in
      saves-Sound c (stale_released_part c now) (λ p s. absurd (ground arith))
        (λ p q. between (asked p) (asked q)) ps t t'
        (read_parts-All
          (λ p. Leading t (stale_released_part c now p).status (stale_released_part c now p)) _ ps
          read leads)
        rest i
