-- ===== src/State/Rewrite/Claiming.antt =====
-- Which part `ClaimNextReady` of internal/state/postgres.go gives to a worker, and that it gives one.
use partforge.Base.{
  Text, ℕ, ◌≡◌, refl, ◌⊎◌, inl, inr, Bool, true, false, Option, some, none, ok, arith, Option-cases,
  is_blank, All, All-Memᴰ,
}
use partforge.Base.Order.{first_where, first_where-eq-some, first_where-eq-none}
use partforge.State.Part.{Part, Clock, validate_part, is_generated_compact_part}
use partforge.State.Row.{Row, original_ready_time}
use partforge.State.Row.Laws.{part_write_values-eq-ok, stale_time_idle}
use partforge.State.Table.{Table, find, read_part, save_part}
use partforge.State.Table.Laws.{WellFormed, part_write_values-data}
use partforge.State.Table.Update.{affected-of_find, read_part-save_part, save_part_ok}
use partforge.State.Rewrite.{ready_before, claimable, claim_part, save_claim, claim_next_ready}
use partforge.State.Lifecycle.Sound.{Inv}
use partforge.State.Lifecycle.Claims.{Own, Inv-Own, ready_before-WeakOrder, claim_next_ready-eq-ok}

-- A successful claim either gives nothing, and then no part could be claimed and the table is as
-- before; or it gives a part of the table that could be claimed and that none that could be comes
-- before, in progress and owned by the worker, and the part is stored so. The table must keep the
-- invariant.
pub claim_next_ready-first :
    (c : Clock) (locked : Row → Bool) (worker : Text) (now : ℕ) (t t' : Table) (q : Option Part)
    → Inv c t
    → claim_next_ready c locked worker now t ≡ ok (t', q)
    → (All (λ r. claimable locked r ≡ false) t × (t' ≡ t) × (q ≡ none))
      ⊎ ((r : Row) × (find r.job_id r.part_id t ≡ some r)
          × (claimable locked r ≡ true)
          × All (λ s. claimable locked s ≡ true → ready_before s r ≡ false) t
          × (q ≡ some (claim_part c worker now r.data_part))
          × (read_part r.job_id r.part_id t' ≡ ok (claim_part c worker now r.data_part)))
unfolding claim_part
claim_next_ready-first c locked worker now t t' q i h =
    elim (claim_next_ready-eq-ok c locked worker now t t' q h) [
      | inl (e, same, nothing) ↦
          inl (first_where-eq-none ready_before (claimable locked) t e, same, nothing)
      | inr (r, e, saved, given) ↦
          let (test, m, least) =
            first_where-eq-some ready_before ready_before-WeakOrder (claimable locked) t r e in
          let ((w, _), own) = All-Memᴰ (Own c t) r t (Inv-Own c t i) m in
          let (_, job, part, _) = part_write_values-data c r.data_part w in
          let (back, _) = read_part-save_part c (claim_part c worker now r.data_part) t t' saved in
          inr (r, own, test, least, given, rw (job, part) back)
    ]

claim_part-valid :
    (c : Clock) (worker : Text) (now : ℕ) (p : Part)
    → validate_part p ≡ ok tt
    → validate_part (claim_part c worker now p) ≡ ok tt
unfolding validate_part claim_part
claim_part-valid c worker now p v = ground arith

claim_part-ready_time :
    (c : Clock) (worker : Text) (now : ℕ) (p : Part) (ready_at : Option ℕ)
    → original_ready_time c p ≡ ok ready_at
    → original_ready_time c (claim_part c worker now p) ≡ ok ready_at
unfolding original_ready_time is_generated_compact_part claim_part
claim_part-ready_time c worker now p ready_at h = h

claim_part_ok :
    (c : Clock) (worker : Text) (now : ℕ) (t : Table) (r : Row)
    → Own c t r
    → WellFormed c t
    → (t' : Table) × (save_part c (claim_part c worker now r.data_part) t ≡ ok t')
unfolding claim_part
claim_part_ok c worker now t r ((w, _), own) wf =
    let (stale, ready_at, valid, _, ready, _) = part_write_values-eq-ok c r.data_part w in
    let (_, job, part, _) = part_write_values-data c r.data_part w in
    (
      _,
      save_part_ok c (claim_part c worker now r.data_part) none ready_at t
          (claim_part-valid c worker now r.data_part valid) (stale_time_idle c _ refl)
          (claim_part-ready_time c worker now r.data_part ready_at ready)
          (rw (← job, ← part) (affected-of_find r.job_id r.part_id t r wf.unique own)),
    )

-- A claim with a worker's name always succeeds on a table that keeps the invariant.
pub claim_next_ready-succeeds :
    (c : Clock) (locked : Row → Bool) (worker : Text) (now : ℕ) (t : Table)
    → Inv c t
    → is_blank worker ≡ false
    → (t' : Table) × (q : Option Part) × (claim_next_ready c locked worker now t ≡ ok (t', q))
unfolding claim_next_ready save_claim
claim_next_ready-succeeds c locked worker now t i named =
    elim (Option-cases (first_where ready_before (claimable locked) t)) [
      | inl e ↦ (t, none, rw (named, e) refl)
      | inr (r, e) ↦
          let (_, m, _) =
            first_where-eq-some ready_before ready_before-WeakOrder (claimable locked) t r e in
          let own = All-Memᴰ (Own c t) r t (Inv-Own c t i) m in
          let (_, _, valid, _, _, _) = part_write_values-eq-ok c r.data_part own.0.0 in
          let (t', saved) = claim_part_ok c worker now t r own i.well_formed in
          (t', some (claim_part c worker now r.data_part), rw (named, e, valid, saved) refl)
    ]
