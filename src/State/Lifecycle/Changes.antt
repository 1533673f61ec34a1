-- ===== src/State/Lifecycle/Changes.antt =====
-- What a change of the table of internal/state/postgres.go does to each stored part: nothing, or a
-- change of the status that a test of two statuses admits.
use partforge.Base.{
  Text, ◌≡◌, refl, sym, subst, ap, ◌∙◌, ◌⊎◌, inl, inr, List, [], ◌∷◌, Bool, true, some, ok, arith,
  map, Bool-cases, All, Result, err, >>=-eq-ok,
}
use partforge.State.Part.{Part, Clock, Error, Status}
use partforge.State.Row.{Row}
use partforge.State.Table.{
  Table, same_key, find, replace, save_part, update_part, insert_part, commit,
}
use partforge.State.Table.Laws.{
  WellFormed, part_write_values-data, save_part-eq-ok, update_part-eq-ok, insert_part-eq-ok,
}
use partforge.State.Table.Find.{
  find-WellFormed, same_key-of_find, same_key_iff, find-replace_self, find-replace_other,
}
use partforge.State.Compact.{each_part}
use partforge.State.Lifecycle.{KeepsKey, find-append}
use partforge.State.Lifecycle.Claims.{Own}

-- The row of a key is as it was, or its status has changed as the test admits.
abbrev pub Kept : (Status → Status → Bool) → Row → Row → Type 0
Kept may r r' = (r' ≡ r) ⊎ (may r.status r'.status ≡ true)

-- No stored part is lost, and each is kept in this sense.
abbrev pub Changes : (Status → Status → Bool) → Table → Table → Type 0
Changes may t t' =
    (job part : Text) (r : Row)
    → find job part t ≡ some r
    → (r' : Row) × (find job part t' ≡ some r') × Kept may r r'

abbrev pub IsTransitive : (Status → Status → Bool) → Type 0
IsTransitive may = (s t u : Status) → may s t ≡ true → may t u ≡ true → may s u ≡ true

module _ (may : Status → Status → Bool) where
  pub Changes-refl : (t : Table) → Changes may t t
  Changes-refl t job part r h = (r, h, inl refl)

  Kept-trans : IsTransitive may → (r s u : Row) → Kept may r s → Kept may s u → Kept may r u
  Kept-trans tr r s u (inl e) k = subst (λ x. Kept may x u) e k
  Kept-trans tr r s u (inr m) (inl e) = inr (subst (λ x. may r.status x.status ≡ true) (sym e) m)
  Kept-trans tr r s u (inr m) (inr n) = inr (tr r.status s.status u.status m n)

  pub Changes-trans :
      IsTransitive may → (t u v : Table) → Changes may t u → Changes may u v → Changes may t v
  Changes-trans tr t u v m n job part r h =
      let (r', h', k) = m job part r h in
      let (r'', h'', l) = n job part r' h' in (r'', h'', Kept-trans tr r r' r'' k l)

  -- A write after other changes, of a part whose status the test admits from the first table.
  pub save_part-Changes_from :
      (c : Clock) (p : Part) (t u v : Table)
      → Changes may t u
      → save_part c p u ≡ ok v
      → ((r : Row) → find p.job_id p.part_id t ≡ some r → may r.status p.status ≡ true)
      → Changes may t v
  save_part-Changes_from c p t u v m h lead job part r found =
      let (r', written, one, same) = save_part-eq-ok c p u h in
      let (_, own_job, own_part, status) = part_write_values-data c p written in
      elim (Bool-cases (same_key job part r')) [
        | inl e ↦
            let (i, j) = (same_key_iff job part r').0 e in
            let found' : find p.job_id p.part_id t ≡ some r =
              rw (← own_job, ← own_part, i, j) found in
            let again : find job part (replace r' u) ≡ some r' =
              rw (← i, ← j) (find-replace_self r' u one) in
            (
              r',
              ap (find job part) same ∙ again,
              inr (subst (λ s. may r.status s ≡ true) (sym status) (lead r found')),
            )
        | inr e ↦
            let (s, found_s, k) = m job part r found in
            (s, ap (find job part) same ∙ find-replace_other job part r' u e ∙ found_s, k)
      ]

  pub save_part-Changes :
      (c : Clock) (p : Part) (t t' : Table)
      → save_part c p t ≡ ok t'
      → ((r : Row) → find p.job_id p.part_id t ≡ some r → may r.status p.status ≡ true)
      → Changes may t t'
  save_part-Changes c p t t' = save_part-Changes_from c p t t t' (Changes-refl t)

  -- The part may be written in place of the row of its key in the table.
  abbrev pub Writable : Table → Part → Type 0
  Writable t p = (r : Row) → find p.job_id p.part_id t ≡ some r → may r.status p.status ≡ true

  -- A loop that writes parts that have been chosen from the table before.
  pub saves-Changes :
      (c : Clock) (f : Part → Part) (ps : List Part) (t u v : Table)
      → Changes may t u
      → All (λ p. Writable t (f p)) ps
      → each_part (λ p. save_part c (f p)) ps u ≡ ok v
      → Changes may t v
  unfolding each_part
  saves-Changes c f [] t u v m k h = let same : u ≡ v = ground arith in subst (Changes may t) same m
  saves-Changes c f (p ∷ ps) t u v m (k, ks) h =
      let (u', first, rest) = >>=-eq-ok (save_part c (f p) u) _ h in
      saves-Changes c f ps t u' v (save_part-Changes_from c (f p) t u u' m first k) ks rest

  pub row-Writable :
      (c : Clock) (t : Table) (r : Row) (f : Part → Part)
      → KeepsKey f
      → Own c t r
      → may r.status (f r.data_part).status ≡ true
      → Writable t (f r.data_part)
  row-Writable c t r f keep ((w, _), own) admitted s found =
      let (_, job, part, _) = part_write_values-data c r.data_part w in
      let (kept_job, kept_part) = keep r.data_part in
      let same_job : (f r.data_part).job_id ≡ r.job_id = kept_job ∙ sym job in
      let same_part : (f r.data_part).part_id ≡ r.part_id = kept_part ∙ sym part in
      let found' : find r.job_id r.part_id t ≡ some s = rw (same_job, same_part) at found in
      let same : r.status ≡ s.status = cc (own, found') in
      subst (λ x. may x (f r.data_part).status ≡ true) same admitted

  pub update_part-Changes :
      (c : Clock) (job part : Text) (condition : Part → Bool) (mutate : Part → Part) (t t' : Table)
      → WellFormed c t
      → KeepsKey mutate
      → ((p : Part) → condition p ≡ true → may p.status (mutate p).status ≡ true)
      → update_part c job part condition mutate t ≡ ok t'
      → Changes may t t'
  update_part-Changes c job part condition mutate t t' w keep leads h =
      let (r, found, passed, saved) = update_part-eq-ok c job part condition mutate t h in
      let written = find-WellFormed c job part t r w found in
      let (_, job_data, part_data, status) = part_write_values-data c r.data_part written in
      let (own_job, own_part) = (same_key_iff job part r).0 (same_key-of_find job part t r found) in
      let (kept_job, kept_part) = keep r.data_part in
      let same_job = kept_job ∙ sym job_data ∙ own_job in
      let same_part = kept_part ∙ sym part_data ∙ own_part in
      save_part-Changes c (mutate r.data_part) t t' saved λ s found_s.
        let s_found : find job part t ≡ some s = rw (same_job, same_part) at found_s in
        let s_status : r.data_part.status ≡ s.status =
          sym status ∙ (let e : r.status ≡ s.status = cc (found, s_found) in e) in
        subst (λ x. may x (mutate r.data_part).status ≡ true) s_status (leads r.data_part passed)

  pub insert_part-Changes :
      (c : Clock) (p : Part) (t t' : Table) → insert_part c p t ≡ ok t' → Changes may t t'
  insert_part-Changes c p t t' h job part r found =
      let (r', _, _, same) = insert_part-eq-ok c p t h in
      (r, rw same (find-append job part r t (r' ∷ []) found), inl refl)

  pub map-Changes :
      (f : Row → Row)
      → ((r : Row) → ((f r).job_id ≡ r.job_id) × ((f r).part_id ≡ r.part_id))
      → ((r : Row) → Kept may r (f r))
      → (t : Table) → Changes may t (map f t)
  unfolding find same_key
  map-Changes f same leads [] job part r h = absurd (ground arith)
  map-Changes f same leads (s ∷ t) job part r h = elim (Bool-cases (same_key job part s)) [
    | inl e ↦
        let eq : s ≡ r = ground arith in
        (f s, rw ((same s).0, (same s).1, e) refl, subst (λ x. Kept may x (f s)) eq (leads s))
    | inr e ↦
        let (r', h', k) = map-Changes f same leads t job part r (ground arith) in
        (r', rw ((same s).0, (same s).1, e) h', k)
  ]

  -- A loop whose body changes parts as the test admits, on well-formed tables.
  pub each_part-Changes :
      (c : Clock)
      → IsTransitive may
      → (body : Part → Table → Result Error Table)
      → ((p : Part) (t t' : Table)
          → WellFormed c t
          → body p t ≡ ok t'
          → WellFormed c t' × Changes may t t')
      → (ps : List Part) (t t' : Table) → WellFormed c t
      → each_part body ps t ≡ ok t'
      → Changes may t t'
  unfolding each_part
  each_part-Changes c tr body good [] t t' w h =
      let same : t ≡ t' = ground arith in subst (Changes may t) same (Changes-refl t)
  each_part-Changes c tr body good (p ∷ ps) t t' w h =
      let (u, first, rest) = >>=-eq-ok (body p t) _ h in
      let (v, m) = good p t u w first in
      Changes-trans tr t u t' m (each_part-Changes c tr body good ps u t' v rest)

  pub commit-Changes :
      (t : Table) (r : Result Error Table)
      → ((t' : Table) → r ≡ ok t' → Changes may t t')
      → Changes may t (commit t r)
  commit-Changes t (ok t') m = m t' refl
  commit-Changes t (err e) m = Changes-refl t

-- A test that admits more.
pub Changes-weaken :
    (may might : Status → Status → Bool)
    → ((s t : Status) → may s t ≡ true → might s t ≡ true)
    → (t u : Table) → Changes may t u
    → Changes might t u
Changes-weaken may might more t u m job part r h =
    let (r', h', k) = m job part r h in
    (r', h', elim k [ inl e ↦ inl e | inr e ↦ inr (more r.status r'.status e) ])
