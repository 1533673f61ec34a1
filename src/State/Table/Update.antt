-- ===== src/State/Table/Update.antt =====
-- What a successful write or conditional update does, and when a write succeeds.
use partforge.Base.{
  ◌++◌, Text, ℕ, ◌≡◌, refl, sym, subst, ◌∙◌, inl, inr, [], ◌∷◌, Bool, true, Option, some, ok,
  or_fail, >>=-eq-ok, arith, Bool-cases,
}
use partforge.State.Part.{Part, Clock, conditional, validate_part}
use partforge.State.Row.{Row, row_at, stale_time, original_ready_time}
use partforge.State.Row.Laws.{part_write_values-eq-ok, part_write_values_lem}
use partforge.State.Table.{
  Table, same_key, find, affected, replace, save_part, insert_part, read_part, update_part,
}
use partforge.State.Table.Laws.{
  WellFormed, UniqueKeys, part_write_values-data, save_part-eq-ok, insert_part-eq-ok,
  update_part-eq-ok,
}
use partforge.State.Table.Find.{
  same_key-of_find, same_key_iff, find-replace_self, find-replace_other, find-WellFormed,
}

pub affected-of_find :
    (job part : Text) (t : Table) (r : Row)
    → UniqueKeys t
    → find job part t ≡ some r
    → affected job part t ≡ 1
unfolding find affected
affected-of_find job part [] r u h = absurd (ground arith)
affected-of_find job part (s ∷ t) r (fresh, u) h = elim (Bool-cases (same_key job part s)) [
  | inl e ↦
      let (p, q) = (same_key_iff job part s).0 e in
      let none_left : affected job part t ≡ 0 = rw (p, q) at fresh in
      rw e (omega (arith, none_left))
  | inr e ↦ rw e (omega (arith, affected-of_find job part t r u (rw e at h)))
]

-- A part that was written is read back, and a lookup of another key gives what it gave before.
pub read_part-save_part :
    (c : Clock) (p : Part) (t t' : Table)
    → save_part c p t ≡ ok t'
    → (read_part p.job_id p.part_id t' ≡ ok p)
      × ((job part : Text)
          → ((p.job_id ≡ job) × (p.part_id ≡ part) → ⊥)
          → find job part t' ≡ find job part t)
unfolding read_part
read_part-save_part c p t t' h =
    let (r, written, one, same) = save_part-eq-ok c p t h in
    let (stored, job, part, _) = part_write_values-data c p written in
    let (_, _, valid, _, _, _) = part_write_values-eq-ok c p written in
    let found : find p.job_id p.part_id t' ≡ some r =
      rw (same, ← job, ← part) (find-replace_self r t one) in
    (
      rw (found, stored, valid) refl,
      λ job' part' other. elim (Bool-cases (same_key job' part' r)) [
        | inl e ↦
            let (p', q') = (same_key_iff job' part' r).0 e in
            absurd (other (sym job ∙ p', sym part ∙ q'))
        | inr e ↦ rw same (find-replace_other job' part' r t e)
      ],
    )

-- A conditional update that succeeds found the part, and its test held; the changed part is read
-- back, and a lookup of another key gives what it gave before. The table must be well formed, and the
-- change keep the key.
pub update_part-effect :
    (c : Clock) (job part : Text) (condition : Part → Bool) (mutate : Part → Part) (t t' : Table)
    → WellFormed c t
    → ((p : Part) → ((mutate p).job_id ≡ p.job_id) × ((mutate p).part_id ≡ p.part_id))
    → update_part c job part condition mutate t ≡ ok t'
    → (r : Row) × (find job part t ≡ some r)
      × (condition r.data_part ≡ true)
      × (read_part job part t' ≡ ok (mutate r.data_part))
      × ((job' part' : Text)
          → ((job ≡ job') × (part ≡ part') → ⊥)
          → find job' part' t' ≡ find job' part' t)
update_part-effect c job part condition mutate t t' w keep h =
    let (r, found, passed, saved) = update_part-eq-ok c job part condition mutate t h in
    let written = find-WellFormed c job part t r w found in
    let (_, job_data, part_data, _) = part_write_values-data c r.data_part written in
    let (own_job, own_part) = (same_key_iff job part r).0 (same_key-of_find job part t r found) in
    let (kept_job, kept_part) = keep r.data_part in
    let same_job : (mutate r.data_part).job_id ≡ job = kept_job ∙ sym job_data ∙ own_job in
    let same_part : (mutate r.data_part).part_id ≡ part = kept_part ∙ sym part_data ∙ own_part in
    let (back, others) = read_part-save_part c (mutate r.data_part) t t' saved in
    (
      r,
      found,
      passed,
      subst (λ j. read_part j part t' ≡ ok (mutate r.data_part)) same_job
          (subst (λ q. read_part (mutate r.data_part).job_id q t' ≡ ok (mutate r.data_part))
            same_part back),
      λ job' part' other. others job' part' (λ (p, q). other (sym same_job ∙ p, sym same_part ∙ q)),
    )

-- A write succeeds for a valid part whose times are readable and whose key has one row.
pub save_part_ok :
    (c : Clock) (p : Part) (stale ready_at : Option ℕ) (t : Table)
    → validate_part p ≡ ok tt
    → stale_time c p ≡ ok stale
    → original_ready_time c p ≡ ok ready_at
    → affected p.job_id p.part_id t ≡ 1
    → save_part c p t ≡ ok (replace (row_at p stale ready_at) t)
unfolding save_part
save_part_ok c p stale ready_at t v s o one = rw (part_write_values_lem c p v s o, one) refl

-- A part that is read is the one of a row.
pub read_part-eq-ok :
    (job part : Text) (t : Table) (p : Part)
    → read_part job part t ≡ ok p
    → (r : Row) × (find job part t ≡ some r) × (r.data_part ≡ p)
unfolding read_part
read_part-eq-ok job part t p h =
    let (r, found, rest) = >>=-eq-ok (or_fail (find job part t) conditional) _ h in
    (r, ground arith, ground arith)

find-append_new :
    (r : Row) (t : Table)
    → affected r.job_id r.part_id t ≡ 0
    → find r.job_id r.part_id (t ++ (r ∷ [])) ≡ some r
unfolding find affected
find-append_new r [] h = rw ((same_key_iff r.job_id r.part_id r).1 (refl, refl)) refl
find-append_new r (s ∷ t) h = elim (Bool-cases (same_key r.job_id r.part_id s)) [
  | inl e ↦ absurd (ground arith)
  | inr e ↦ rw e (find-append_new r t (ground arith))
]

-- A part that was inserted is found with its own status.
pub find-insert_part :
    (c : Clock) (p : Part) (t t' : Table)
    → insert_part c p t ≡ ok t'
    → (r : Row) × (find p.job_id p.part_id t' ≡ some r) × (r.data_part ≡ p)
find-insert_part c p t t' h =
    let (r, written, absent, same) = insert_part-eq-ok c p t h in
    let (stored, job, part, _) = part_write_values-data c p written in
    (r, rw (same, ← job, ← part) (find-append_new r t absent), stored)
