-- ===== src/State/Table/Rows.antt =====
-- Statements that touch many rows at once keep the table well formed.
use partforge.Base.{Text, ◌≤◌, ◌≡◌, refl, inl, inr, [], ◌∷◌, Bool, arith, Bool-cases}
use partforge.State.Part.{Clock}
use partforge.State.Row.{Row}
use partforge.State.Table.{Table, same_key, affected}
use partforge.State.Table.Laws.{WellFormed, Written, UniqueKeys}
use partforge.Base.{map, filter, All}
use native.Mathlib.Nat.{le_refl}

module _ (f : Row → Row) where
  pub map-All {ℓ} :
      (P : Row → Type ℓ) → ((r : Row) → P r → P (f r)) → (t : Table) → All P t → All P (map f t)
  map-All P keep [] k = tt
  map-All P keep (r ∷ t) (k, ks) = (keep r k, map-All P keep t ks)

  affected-map :
      ((r : Row) → ((f r).job_id ≡ r.job_id) × ((f r).part_id ≡ r.part_id))
      → (job part : Text) (t : Table) → affected job part (map f t) ≡ affected job part t
  unfolding affected same_key
  affected-map same job part [] = refl
  affected-map same job part (r ∷ t) = rw ((same r).0, (same r).1, affected-map same job part t)

  map-UniqueKeys :
      ((r : Row) → ((f r).job_id ≡ r.job_id) × ((f r).part_id ≡ r.part_id))
      → (t : Table) → UniqueKeys t
      → UniqueKeys (map f t)
  map-UniqueKeys same [] u = tt
  map-UniqueKeys same (r ∷ t) (fresh, u) = (
    rw (affected-map same (f r).job_id (f r).part_id t, (same r).0, (same r).1) fresh,
    map-UniqueKeys same t u,
  )

  -- An update of many rows.
  pub map-WellFormed :
      (c : Clock)
      → ((r : Row) → Written c r → Written c (f r))
      → ((r : Row) → ((f r).job_id ≡ r.job_id) × ((f r).part_id ≡ r.part_id))
      → (t : Table) → WellFormed c t
      → WellFormed c (map f t)
  map-WellFormed c keep same t w = record {
    consistent = map-All (Written c) keep t w.consistent;
    unique = map-UniqueKeys same t w.unique;
  }

module _ (p : Row → Bool) where
  affected-filter_le :
      (job part : Text) (t : Table) → affected job part (filter p t) ≤ affected job part t
  unfolding affected
  affected-filter_le job part [] = le_refl 0
  affected-filter_le job part (r ∷ t) = ground (arith, affected-filter_le job part t)

  filter-UniqueKeys : (t : Table) → UniqueKeys t → UniqueKeys (filter p t)
  filter-UniqueKeys [] u = tt
  filter-UniqueKeys (r ∷ t) (fresh, u) =
      ground (arith, affected-filter_le r.job_id r.part_id t, filter-UniqueKeys t u)

  pub filter-All {ℓ} : (P : Row → Type ℓ) (t : Table) → All P t → All P (filter p t)
  filter-All P [] k = tt
  filter-All P (r ∷ t) (k, ks) = elim (Bool-cases (p r)) [
    | inl e ↦ rw e (k, filter-All P t ks)
    | inr e ↦ rw e (filter-All P t ks)
  ]

  -- A delete.
  pub filter-WellFormed : (c : Clock) (t : Table) → WellFormed c t → WellFormed c (filter p t)
  filter-WellFormed c t w = record {
    consistent = filter-All (Written c) t w.consistent;
    unique = filter-UniqueKeys t w.unique;
  }
