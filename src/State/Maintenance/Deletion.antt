-- ===== src/State/Maintenance/Deletion.antt =====
-- What a delete of internal/state/postgres.go leaves behind.
use partforge.Base.{
  Text, ◌≡◌, text_eq, subst, refl, sym, ap, ◌∙◌, ◌+◌, ◌&&◌, Bool, true, none, if◌then◌else◌, inl,
  inr, List, [], ◌∷◌, false, not, Result, ok, guard, >>-eq-ok, arith, is_blank, any, filter, length,
  map, ◌==◌, All, Bool-cases, text_lt,
}
use partforge.Base.Order.{sort_slice}
use partforge.State.Part.{Part, Clock, Error, job_required, duplicate_part, conditional, referenced}
use partforge.State.Row.{Row}
use partforge.State.Table.{Table, find, same_key}
use partforge.State.Table.Find.{same_key_iff}
use partforge.State.Table.Laws.{WellFormed}
use partforge.State.Table.Rows.{filter-WellFormed}
use partforge.State.Maintenance.{
  delete_job_parts_after_lock, check_selection, adjacent_equal, selected, depends,
}

-- The ids of the parts, as the statements get them.
abbrev pub ids_of : List Part → List Text
ids_of ps = sort_slice text_lt (map (λ (p : Part). p.part_id) ps)

kept :
    (job : Text) (ids : List Text) (t : Table)
    → any (depends job ids) t ≡ false
    → All (λ r. depends job ids r ≡ false) (filter (λ r. not (selected job ids r)) t)
kept job ids [] h = tt
kept job ids (r ∷ t) h = elim (Bool-cases (selected job ids r)) [
  | inl e ↦ rw e (kept job ids t (ground arith))
  | inr e ↦ rw e (ground arith, kept job ids t (ground arith))
]

pub delete-eq-ok :
    (first : Part) (ps : List Part) (after_lock : Result Error (Unit {0})) (t t' : Table)
    → delete_job_parts_after_lock (first ∷ ps) after_lock t ≡ ok t'
    → (filter (λ r. not (selected first.job_id (ids_of (first ∷ ps)) r)) t ≡ t')
      × (after_lock ≡ ok tt)
      × (length (filter (selected first.job_id (ids_of (first ∷ ps))) t)
          ≡ length (ids_of (first ∷ ps)))
      × (any (depends first.job_id (ids_of (first ∷ ps))) t ≡ false)
unfolding delete_job_parts_after_lock
delete-eq-ok first ps after_lock t t' h =
    let ids = ids_of (first ∷ ps) in
    let h1 = (>>-eq-ok (guard (not (is_blank first.job_id)) job_required) _ h).1 in
    let h2 = (>>-eq-ok (check_selection first.job_id (first ∷ ps)) _ h1).1 in
    let h3 = (>>-eq-ok (guard (not (adjacent_equal ids)) duplicate_part) _ h2).1 in
    let (count, h4) =
      >>-eq-ok (guard (length (filter (selected first.job_id ids) t) == length ids) conditional) _
        h3 in
    let (free, h5) = >>-eq-ok (guard (not (any (depends first.job_id ids) t)) referenced) _ h4 in
    let (acted, last) = >>-eq-ok after_lock _ h5 in (cc last, acted, ground arith, ground arith)

-- Whether the key is one of the job and the ids.
abbrev pub names_key : Text → List Text → Text → Text → Bool
names_key job ids j p = text_eq j job && any (text_eq p) ids

names_key-row :
    (job : Text) (ids : List Text) (j p : Text) (r : Row)
    → same_key j p r ≡ true
    → names_key job ids j p ≡ selected job ids r
names_key-row job ids j p r own =
    let (same_job, same_part) = (same_key_iff j p r).0 own in rw (← same_job, ← same_part) refl

-- What a key finds in the rows that are left.
find-kept :
    (job : Text) (ids : List Text) (j p : Text) (t : Table)
    → find j p (filter (λ r. not (selected job ids r)) t)
      ≡ (if names_key job ids j p then none else find j p t)
unfolding find
find-kept job ids j p [] = ground arith
find-kept job ids j p (r ∷ t) = elim (Bool-cases (selected job ids r)) [
  | inl e ↦ elim (Bool-cases (same_key j p r)) [
    | inl own ↦
        let named : names_key job ids j p ≡ true = names_key-row job ids j p r own ∙ e in
        rw (e, find-kept job ids j p t, named) refl
    | inr other ↦ rw (e, find-kept job ids j p t, other) refl
  ]
  | inr e ↦ elim (Bool-cases (same_key j p r)) [
    | inl own ↦
        let named : names_key job ids j p ≡ false = names_key-row job ids j p r own ∙ e in
        rw (e, own, named) refl
    | inr other ↦ rw (e, other, find-kept job ids j p t) refl
  ]
]

length-kept :
    (p : Row → Bool) (t : Table)
    → length (filter (λ r. not (p r)) t) + length (filter p t) ≡ length t
length-kept p [] = refl
length-kept p (r ∷ t) = elim (Bool-cases (p r)) [
  | inl e ↦ rw e (omega (arith, length-kept p t))
  | inr e ↦ rw e (omega (arith, length-kept p t))
]

-- A delete that succeeds leaves no row under a key that it names, and under every other key the row
-- that was there; it removes as many rows as it names, and leaves none whose source it names. The
-- table stays well formed, which it must be, and the caller's action under the locks has succeeded.
pub delete-removes :
    (c : Clock) (first : Part) (ps : List Part) (after_lock : Result Error (Unit {0}))
    (t t' : Table)
    → WellFormed c t
    → delete_job_parts_after_lock (first ∷ ps) after_lock t ≡ ok t'
    → WellFormed c t'
      × (after_lock ≡ ok tt)
      × (length t' + length (ids_of (first ∷ ps)) ≡ length t)
      × ((job part : Text)
          → find job part t' ≡ (
              if text_eq job first.job_id && any (text_eq part) (ids_of (first ∷ ps))
              then none
              else find job part t))
      × All (λ r. depends first.job_id (ids_of (first ∷ ps)) r ≡ false) t'
delete-removes c first ps after_lock t t' w h =
    let ids = ids_of (first ∷ ps) in
    let (same, acted, count, free) = delete-eq-ok first ps after_lock t t' h in
    (
      subst (WellFormed c) same (filter-WellFormed _ c t w),
      acted,
      rw (← same, ← count) (length-kept (selected first.job_id ids) t),
      λ job part. ap (find job part) (sym same) ∙ find-kept first.job_id ids job part t,
      subst (All (λ r. depends first.job_id ids r ≡ false)) same (kept first.job_id ids t free),
    )
