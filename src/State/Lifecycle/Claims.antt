-- ===== src/State/Lifecycle/Claims.antt =====
-- The transactions that choose their rows by a query are sound: the claims of parts to rewrite and of
-- batches to compact, and the release of stale compactions.
use mathlib.Core.List.{Memᴰ}
use partforge.Base.{
  Text, ℕ, ◌≡◌, refl, sym, subst, ◌⊎◌, inl, inr, Bool, true, not, Option, none, some, ok, guard,
  >>-eq-ok, >>=-eq-ok, arith, Option-cases, is_blank, All, All-and, All-Memᴰ,
}
use partforge.Base.Order.{
  WeakOrder, ltb-WeakOrder, text_lt-WeakOrder, then_by-WeakOrder, keyed-WeakOrder,
  reversed-WeakOrder, first_where, first_where-eq-some,
}
use partforge.State.Part.{Part, Clock, Status, is, worker_required, validate_part}
use partforge.State.Row.{Row}
use partforge.State.Table.{Table, find, save_part}
use partforge.State.Table.Laws.{Written, part_write_values-data}
use partforge.State.Table.Find.{find-own}
use partforge.State.Progress.Laws.{BareRow}
use partforge.State.Rewrite.{ready_before, claimable, claim_part, save_claim, claim_next_ready}
use partforge.State.Lifecycle.{◌⟶*◌, once, claimed}
use partforge.State.Lifecycle.Sound.{Inv, Sound, Sound-refl, save_part-Sound, leads_from}

-- What each row of a table with the invariant has.
abbrev pub Own : Clock → Table → Row → Type 0
Own c t r = (Written c r × BareRow r) × (find r.job_id r.part_id t ≡ some r)

pub Inv-Own : (c : Clock) (t : Table) → Inv c t → All (Own c t) t
Inv-Own c t i =
    All-and _ _ t (All-and _ _ t i.well_formed.consistent i.bare) (find-own t i.well_formed.unique)

-- Whatever the key of a part finds has a status that leads to the target.
abbrev pub Leading : Table → Status → Part → Type 0
Leading t target p = (r : Row) → find p.job_id p.part_id t ≡ some r → r.status ⟶* target

pub row-Leading :
    (c : Clock) (t : Table) (r : Row) (from target : Status)
    → Own c t r
    → is r.status from ≡ true
    → from ⟶* target
    → Leading t target r.data_part
row-Leading c t r from target ((w, _), own) s path r' found =
    let (_, job, part, _) = part_write_values-data c r.data_part w in
    let found' : find r.job_id r.part_id t ≡ some r' = rw (job, part) found in
    let same : r.status ≡ r'.status = cc (own, found') in
    subst (λ x. x ⟶* target) same (leads_from from target r.status path s)

pub ready_before-WeakOrder : WeakOrder ready_before
ready_before-WeakOrder =
    then_by-WeakOrder
      (keyed-WeakOrder (λ (r : Row). r.source_artifact_bytes) (reversed-WeakOrder ltb-WeakOrder))
      (then_by-WeakOrder (keyed-WeakOrder (λ (r : Row). r.created_at) text_lt-WeakOrder) (
        then_by-WeakOrder (keyed-WeakOrder (λ (r : Row). r.job_id) text_lt-WeakOrder)
          (keyed-WeakOrder (λ (r : Row). r.part_id) text_lt-WeakOrder)))

save_claim-eq-ok :
    (c : Clock) (worker : Text) (now : ℕ) (t t' : Table) (r : Row) (q : Option Part)
    → save_claim c worker now t (some r) ≡ ok (t', q)
    → (save_part c (claim_part c worker now r.data_part) t ≡ ok t')
      × (q ≡ some (claim_part c worker now r.data_part))
unfolding save_claim
save_claim-eq-ok c worker now t t' r q h =
    let (u, saved, last) =
      >>=-eq-ok (save_part c (claim_part c worker now r.data_part) t)
        (λ u. ok (u, some (claim_part c worker now r.data_part)))
        ((>>-eq-ok (validate_part r.data_part) _ h).1) in
    (cc (saved, last), cc last)

-- A successful claim takes nothing, or a ready row of the table.
pub claim_next_ready-eq-ok :
    (c : Clock) (locked : Row → Bool) (worker : Text) (now : ℕ) (t t' : Table) (q : Option Part)
    → claim_next_ready c locked worker now t ≡ ok (t', q)
    → ((first_where ready_before (claimable locked) t ≡ none) × (t' ≡ t) × (q ≡ none))
      ⊎ ((r : Row) × (first_where ready_before (claimable locked) t ≡ some r)
          × (save_part c (claim_part c worker now r.data_part) t ≡ ok t')
          × (q ≡ some (claim_part c worker now r.data_part)))
unfolding claim_next_ready
claim_next_ready-eq-ok c locked worker now t t' q h =
    let rest = (>>-eq-ok (guard (not (is_blank worker)) worker_required) _ h).1 in
    elim (Option-cases (first_where ready_before (claimable locked) t)) [
      | inl e ↦ inl (e, cc (rw e at rest), cc (rw e at rest))
      | inr (r, e) ↦
          let (saved, part) = save_claim-eq-ok c worker now t t' r q (rw e at rest) in
          inr (r, e, saved, part)
    ]

claimed-Sound :
    (c : Clock) (worker : Text) (now : ℕ) (t t' : Table) (r : Row)
    → Memᴰ r t
    → is r.status Status.ready ≡ true
    → save_part c (claim_part c worker now r.data_part) t ≡ ok t'
    → Sound c t t'
unfolding claim_part
claimed-Sound c worker now t t' r m e saved i =
    save_part-Sound c (claim_part c worker now r.data_part) t t' saved (λ s. refl)
      (row-Leading c t r Status.ready Status.in_progress (All-Memᴰ (Own c t) r t (Inv-Own c t i) m)
        e (once claimed))
      i

pub claim_next_ready-Sound :
    (c : Clock) (locked : Row → Bool) (worker : Text) (now : ℕ) (t t' : Table) (q : Option Part)
    → claim_next_ready c locked worker now t ≡ ok (t', q)
    → Sound c t t'
claim_next_ready-Sound c locked worker now t t' q h =
    elim (claim_next_ready-eq-ok c locked worker now t t' q h) [
      | inl (_, same, _) ↦ subst (Sound c t) (sym same) (Sound-refl c t)
      | inr (r, e, saved, _) ↦
          let (p, m, _) =
            first_where-eq-some ready_before ready_before-WeakOrder (claimable locked) t r e in
          claimed-Sound c worker now t t' r m (ground arith) saved
    ]
