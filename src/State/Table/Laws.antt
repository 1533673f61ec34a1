-- ===== src/State/Table/Laws.antt =====
-- What the shared statements keep: one row for a key, and columns that agree with the part.
use partforge.Base.{
  All, Text, ◌+◌, ◌≡◌, refl, inl, inr, [], ◌∷◌, ◌++◌, Bool, true, some, if◌then◌else◌, text_eq_iff,
  ok, arith, Bool-cases, Option-cases, >>=-eq-ok,
}
use partforge.State.Part.{Part, Clock}
use partforge.State.Row.{Row, part_write_values}
use partforge.State.Table.{
  Table, same_key, find, affected, replace, insert_part, save_part, read_part, update_part,
}

-- Every column is the one that a full write of the row's part would give.
abbrev pub Written : Clock → Row → Type 0
Written c r = part_write_values c r.data_part ≡ ok r

abbrev pub UniqueKeys : Table → Type 0
UniqueKeys [] = Unit
UniqueKeys (r ∷ t) = (affected r.job_id r.part_id t ≡ 0) × UniqueKeys t

pub record WellFormed (c : Clock) (t : Table) : Type 0 where
  pub consistent : All (Written c) t
  pub unique : UniqueKeys t

-- The key columns of a written row are those of its part, and the part is stored whole.
pub part_write_values-data :
    (c : Clock) (p : Part) {r : Row}
    → part_write_values c p ≡ ok r
    → (r.data_part ≡ p) × (r.job_id ≡ p.job_id) × (r.part_id ≡ p.part_id) × (r.status ≡ p.status)
unfolding part_write_values
part_write_values-data c p h = ground arith

module _ {ℓ} (P : Row → Type ℓ) where
  pub replace-All : (r : Row) (t : Table) → P r → All P t → All P (replace r t)
  unfolding replace
  replace-All r [] w k = tt
  replace-All r (s ∷ t) w (k, ks) = elim (Bool-cases (same_key r.job_id r.part_id s)) [
    | inl e ↦ rw e (w, replace-All r t w ks)
    | inr e ↦ rw e (k, replace-All r t w ks)
  ]

  pub append-All : (r : Row) (t : Table) → P r → All P t → All P (t ++ (r ∷ []))
  append-All r [] w k = (w, tt)
  append-All r (s ∷ t) w (k, ks) = (k, append-All r t w ks)

affected-replace :
    (job part : Text) (r : Row) (t : Table) → affected job part (replace r t) ≡ affected job part t
unfolding affected replace same_key
affected-replace job part r [] = refl
affected-replace job part r (s ∷ t) = ground (
  arith,
  text_eq_iff s.job_id r.job_id,
  text_eq_iff s.part_id r.part_id,
  affected-replace job part r t,
)

same_key_lem :
    (r s : Row)
    → same_key r.job_id r.part_id s ≡ true
    → (s.job_id ≡ r.job_id) × (s.part_id ≡ r.part_id)
unfolding same_key
same_key_lem r s h = ground (arith, text_eq_iff s.job_id r.job_id, text_eq_iff s.part_id r.part_id)

replace-UniqueKeys : (r : Row) (t : Table) → UniqueKeys t → UniqueKeys (replace r t)
unfolding replace
replace-UniqueKeys r [] u = tt
replace-UniqueKeys r (s ∷ t) (fresh, u) = ground (
  arith,
  affected-replace s.job_id s.part_id r t,
  affected-replace r.job_id r.part_id r t,
  same_key_lem r s,
  replace-UniqueKeys r t u,
)

pub save_part-eq-ok :
    (c : Clock) (p : Part) (t : Table) {t' : Table}
    → save_part c p t ≡ ok t'
    → (r : Row) × (part_write_values c p ≡ ok r)
      × (affected r.job_id r.part_id t ≡ 1)
      × (t' ≡ replace r t)
unfolding save_part
save_part-eq-ok c p t h =
    let (r, written, rest) = >>=-eq-ok (part_write_values c p) _ h in
    (r, written, ground arith, ground arith)

-- A written row is the one that its own part gives.
written_stable :
    (c : Clock) (p : Part) {r : Row}
    → part_write_values c p ≡ ok r
    → part_write_values c r.data_part ≡ ok r
written_stable c p h = simp ((part_write_values-data c p h).0) h

-- A full write keeps the table well formed.
pub save_part-WellFormed :
    (c : Clock) (p : Part) (t : Table) {t' : Table}
    → save_part c p t ≡ ok t'
    → WellFormed c t
    → WellFormed c t'
save_part-WellFormed c p t h w =
    let (r, written, _, same) = save_part-eq-ok c p t h in
    rw same (record {
      consistent = replace-All (Written c) r t (written_stable c p written) w.consistent;
      unique = replace-UniqueKeys r t w.unique;
    })

-- So does any row in place of the one of its key, if its columns agree with its part.
pub replace-WellFormed :
    (c : Clock) (r : Row) (t : Table)
    → part_write_values c r.data_part ≡ ok r
    → WellFormed c t
    → WellFormed c (replace r t)
replace-WellFormed c r t k w = record {
  consistent = replace-All (Written c) r t k w.consistent;
  unique = replace-UniqueKeys r t w.unique;
}

affected-append :
    (job part : Text) (r : Row) (t : Table)
    → affected job part (t ++ (r ∷ []))
      ≡ affected job part t + (if same_key job part r then 1 else 0)
unfolding affected
affected-append job part r [] = ground arith
affected-append job part r (s ∷ t) = omega (arith, affected-append job part r t)

same_key_comm : (r s : Row) → same_key r.job_id r.part_id s ≡ same_key s.job_id s.part_id r
unfolding same_key
same_key_comm r s = ground (
  arith,
  text_eq_iff s.job_id r.job_id,
  text_eq_iff s.part_id r.part_id,
  text_eq_iff r.job_id s.job_id,
  text_eq_iff r.part_id s.part_id,
)

append-UniqueKeys :
    (r : Row) (t : Table)
    → affected r.job_id r.part_id t ≡ 0
    → UniqueKeys t
    → UniqueKeys (t ++ (r ∷ []))
unfolding affected
append-UniqueKeys r [] f u = (refl, tt)
append-UniqueKeys r (s ∷ t) f (fresh, u) = (
  ground (arith, affected-append s.job_id s.part_id r t, same_key_comm r s),
  append-UniqueKeys r t (omega arith) u,
)

pub insert_part-eq-ok :
    (c : Clock) (p : Part) (t : Table) {t' : Table}
    → insert_part c p t ≡ ok t'
    → (r : Row) × (part_write_values c p ≡ ok r)
      × (affected r.job_id r.part_id t ≡ 0)
      × (t' ≡ t ++ (r ∷ []))
unfolding insert_part
insert_part-eq-ok c p t h =
    let (r, written, rest) = >>=-eq-ok (part_write_values c p) _ h in
    (r, written, ground arith, ground arith)

-- So does an insert.
pub insert_part-WellFormed :
    (c : Clock) (p : Part) (t : Table) {t' : Table}
    → insert_part c p t ≡ ok t'
    → WellFormed c t
    → WellFormed c t'
insert_part-WellFormed c p t h w =
    let (r, written, absent, same) = insert_part-eq-ok c p t h in
    rw same (record {
      consistent = append-All (Written c) r t (written_stable c p written) w.consistent;
      unique = append-UniqueKeys r t absent w.unique;
    })

pub update_part-eq-ok :
    (c : Clock) (job part : Text) (condition : Part → Bool) (mutate : Part → Part) (t : Table)
    {t' : Table}
    → update_part c job part condition mutate t ≡ ok t'
    → (r : Row) × (find job part t ≡ some r)
      × (condition r.data_part ≡ true)
      × (save_part c (mutate r.data_part) t ≡ ok t')
unfolding update_part read_part
update_part-eq-ok c job part condition mutate t h = elim (Option-cases (find job part t)) [
  | inl e ↦ ground arith
  | inr (r, e) ↦ (r, e, ground arith, ground arith)
]

-- A conditional update keeps the table well formed, whatever it changes.
pub update_part-WellFormed :
    (c : Clock) (job part : Text) (condition : Part → Bool) (mutate : Part → Part) (t : Table)
    {t' : Table}
    → update_part c job part condition mutate t ≡ ok t'
    → WellFormed c t
    → WellFormed c t'
update_part-WellFormed c job part condition mutate t h w =
    save_part-WellFormed c _ t (update_part-eq-ok c job part condition mutate t h).3 w
