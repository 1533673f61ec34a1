-- ===== src/State/Table/Find.antt =====
-- What a lookup by key gives after a write.
use partforge.Base.{
  All, Text, ◌≡◌, refl, subst, ◌↔◌, ◌⊎◌, inl, inr, [], ◌∷◌, true, false, some, text_eq_iff, ok,
  arith, Bool-cases,
}
use partforge.State.Part.{Part, Clock}
use partforge.State.Row.{Row}
use partforge.State.Table.{Table, same_key, find, affected, replace, save_part}
use partforge.Base.{All-map, All-and, text_eq_iff, sym, ◌∙◌, ◌⊎◌, inl, inr}
use partforge.State.Table.{save_part, affected}
use partforge.State.Table.Laws.{
  WellFormed, Written, UniqueKeys, save_part-eq-ok, part_write_values-data,
}

pub same_key-of_find :
    (job part : Text) (t : Table) (r : Row) → find job part t ≡ some r → same_key job part r ≡ true
unfolding find
same_key-of_find job part [] r h = cc
same_key-of_find job part (s ∷ t) r h = ground (arith, same_key-of_find job part t r)

pub same_key_iff :
    (job part : Text) (r : Row)
    → (same_key job part r ≡ true) ↔ ((r.job_id ≡ job) × (r.part_id ≡ part))
unfolding same_key
same_key_iff job part r = (
  λ h. ground (arith, text_eq_iff r.job_id job, text_eq_iff r.part_id part),
  λ (p, q). ground (arith, text_eq_iff r.job_id job, text_eq_iff r.part_id part),
)

find-replace_own :
    (r : Row) (t : Table)
    → affected r.job_id r.part_id t ≡ 1
    → same_key r.job_id r.part_id r ≡ true
    → find r.job_id r.part_id (replace r t) ≡ some r
unfolding find replace affected
find-replace_own r [] h k = absurd (omega arith)
find-replace_own r (s ∷ t) h k = ground (arith, find-replace_own r t)

-- A write is read back.
pub find-replace_self :
    (r : Row) (t : Table)
    → affected r.job_id r.part_id t ≡ 1
    → find r.job_id r.part_id (replace r t) ≡ some r
find-replace_self r t h =
    find-replace_own r t h ((same_key_iff r.job_id r.part_id r).1 (refl, refl))

-- A write leaves the rows of other keys alone.
pub find-replace_other :
    (job part : Text) (r : Row) (t : Table)
    → same_key job part r ≡ false
    → find job part (replace r t) ≡ find job part t
unfolding find replace same_key
find-replace_other job part r [] h = refl
find-replace_other job part r (s ∷ t) h = ground (
  arith,
  find-replace_other job part r t,
  text_eq_iff s.job_id r.job_id,
  text_eq_iff s.part_id r.part_id,
)

-- A row that is found has what every row has.
pub find-All {ℓ} :
    (P : Row → Type ℓ) (job part : Text) (t : Table) (r : Row)
    → All P t
    → find job part t ≡ some r
    → P r
unfolding find
find-All P job part [] r k h = absurd (ground arith)
find-All P job part (s ∷ t) r (k, ks) h = elim (Bool-cases (same_key job part s)) [
  | inl e ↦ let same : s ≡ r = ground arith in subst P same k
  | inr e ↦ find-All P job part t r ks (ground arith)
]

-- So it is the one that its part gives.
pub find-WellFormed :
    (c : Clock) (job part : Text) (t : Table) (r : Row)
    → WellFormed c t
    → find job part t ≡ some r
    → Written c r
find-WellFormed c job part t r w h = find-All (Written c) job part t r w.consistent h

absent_not_same :
    (job part : Text) (t : Table)
    → affected job part t ≡ 0
    → All (λ s. same_key job part s ≡ false) t
unfolding affected
absent_not_same job part [] h = tt
absent_not_same job part (s ∷ t) h = elim (Bool-cases (same_key job part s)) [
  | inl e ↦ absurd (ground arith)
  | inr e ↦ (e, absent_not_same job part t (ground arith))
]

same_key_flip :
    (r s : Row) → same_key r.job_id r.part_id s ≡ false → same_key s.job_id s.part_id r ≡ false
unfolding same_key
same_key_flip r s h = ground (
  arith,
  text_eq_iff s.job_id r.job_id,
  text_eq_iff s.part_id r.part_id,
  text_eq_iff r.job_id s.job_id,
  text_eq_iff r.part_id s.part_id,
)

-- With one row for a key, each row is the one that its key finds.
pub find-own : (t : Table) → UniqueKeys t → All (λ r. find r.job_id r.part_id t ≡ some r) t
unfolding find
find-own [] u = tt
find-own (r ∷ t) (fresh, u) = (
  rw ((same_key_iff r.job_id r.part_id r).1 (refl, refl)) refl,
  All-map t (λ s (own, other). rw (same_key_flip r s other) own)
      (All-and _ _ t (find-own t u) (absent_not_same r.job_id r.part_id t fresh)),
)

-- After a write a key finds what it found before, or the written part.
pub find-save_part :
    (c : Clock) (p : Part) (t t' : Table) (job part : Text) (r : Row)
    → save_part c p t ≡ ok t'
    → find job part t' ≡ some r
    → (find job part t ≡ some r) ⊎ (r.status ≡ p.status)
find-save_part c p t t' job part r h found =
    let (r', written, one, same) = save_part-eq-ok c p t h in
    elim (Bool-cases (same_key job part r')) [
      | inl e ↦
          let (p', q') = (same_key_iff job part r').0 e in
          let again : find job part (replace r' t) ≡ some r' =
            rw (← p', ← q') (find-replace_self r' t one) in
          inr (cc (again, rw same at found, (part_write_values-data c p written).3))
      | inr e ↦ inl (sym (find-replace_other job part r' t e) ∙ (rw same at found))
    ]
