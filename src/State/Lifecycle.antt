-- ===== src/State/Lifecycle.antt =====
-- The lifecycle of a part, as a graph on statuses, and what it means that a change of the table
-- follows it: no part is lost, and the status of each moves along edges.
pub mod Sound
pub mod Steps
pub mod Transactions
pub mod Claims
pub mod Saves
pub mod Completion
pub mod Statements
pub mod Finalizing
pub mod Execution
pub mod Overrides
pub mod Changes
pub mod Permits
use partforge.Base.{
  Text, ◌≡◌, refl, ◌⊎◌, inl, inr, List, ◌++◌, [], ◌∷◌, Bool, true, false, Option, some, ok, arith,
  map, All, if◌then◌else◌, Bool-cases, ap, sym, ◌∙◌, subst,
}
use partforge.Base.{Result, err}
use partforge.State.Part.{Error, Part, Clock, Status, is}
use partforge.State.Row.{Row, part_write_values}
use partforge.State.Table.{
  Table, same_key, find, affected, replace, save_part, update_part, insert_part, commit,
}
use partforge.State.Table.Laws.{
  WellFormed, Written, part_write_values-data, save_part-eq-ok, insert_part-eq-ok,
  update_part-eq-ok,
}
use partforge.State.Table.Find.{
  find-WellFormed, same_key-of_find, same_key_iff, find-replace_self, find-replace_other,
}

infix 40 ◌⟶◌ ◌⟶*◌
pub data ◌⟶◌ : Status → Status → Type 0 where
  claimed : Status.ready ⟶ Status.in_progress
  rewritten : Status.in_progress ⟶ Status.compact_ready
  completed : Status.in_progress ⟶ Status.finished
  rewrite_failed : Status.in_progress ⟶ Status.failed
  given_up : Status.in_progress ⟶ Status.ready
  taken : Status.compact_ready ⟶ Status.compacting
  given_back : Status.compacting ⟶ Status.compact_ready
  settled : Status.compacting ⟶ Status.finished
  finalized : Status.compact_ready ⟶ Status.finished
  replaced : Status.compacting ⟶ Status.superseded
  compact_failed : Status.compacting ⟶ Status.failed
  import_started : Status.finished ⟶ Status.importing
  import_done : Status.importing ⟶ Status.imported
  import_undone : Status.importing ⟶ Status.finished
  import_failed : Status.importing ⟶ Status.failed
  retried_rewrite : Status.failed ⟶ Status.ready
  retried_compact : Status.failed ⟶ Status.compact_ready
  retried_import : Status.failed ⟶ Status.finished

pub data ◌⟶*◌ : Status → Status → Type 0 where
  here : {s : Status} → s ⟶* s
  step : {s t u : Status} → s ⟶ t → t ⟶* u → s ⟶* u

pub ruleset edges = (
  claimed, rewritten, completed, rewrite_failed, given_up, taken, given_back, settled, finalized,
  replaced, compact_failed, import_started, import_done, import_undone, import_failed,
  retried_rewrite, retried_compact, retried_import,
)

pub ⟶*_trans : {s t u : Status} → s ⟶* t → t ⟶* u → s ⟶* u
⟶*_trans here q = q
⟶*_trans (step e p) q = step e (⟶*_trans p q)

pub once : {s t : Status} → s ⟶ t → s ⟶* t
once e = step e here

-- The statuses that no edge leaves.
pub data IsFinal : Status → Type 0 where
  imported_final : IsFinal Status.imported
  superseded_final : IsFinal Status.superseded

no_edge : {s t : Status} → IsFinal s → s ⟶ t → ⊥
no_edge imported_final e = elim e [ ]
no_edge superseded_final e = elim e [ ]

pub final-stays : {s t : Status} → IsFinal s → s ⟶* t → s ≡ t
final-stays f here = refl
final-stays f (step e p) = absurd (no_edge f e)

-- Every stored part is still stored, with a status that its old one leads to.
abbrev pub Moves : Table → Table → Type 0
Moves t t' =
    (job part : Text) (r : Row)
    → find job part t ≡ some r
    → (r' : Row) × (find job part t' ≡ some r') × (r.status ⟶* r'.status)

pub Moves-refl : (t : Table) → Moves t t
Moves-refl t job part r h = (r, h, here)

pub Moves-trans : (t u v : Table) → Moves t u → Moves u v → Moves t v
Moves-trans t u v m n job part r h =
    let (r', h', p) = m job part r h in
    let (r'', h'', q) = n job part r' h' in (r'', h'', ⟶*_trans p q)

pub replace-Moves :
    (r' : Row) (t : Table)
    → affected r'.job_id r'.part_id t ≡ 1
    → ((r : Row) → find r'.job_id r'.part_id t ≡ some r → r.status ⟶* r'.status)
    → Moves t (replace r' t)
replace-Moves r' t one lead job part r h = elim (Bool-cases (same_key job part r')) [
  | inl e ↦
      let (p, q) = (same_key_iff job part r').0 e in
      (r', rw (← p, ← q) (find-replace_self r' t one), lead r (rw (p, q) h))
  | inr e ↦ (r, find-replace_other job part r' t e ∙ h, here)
]

-- A full write of a part whose status the stored one leads to.
pub save_part-Moves :
    (c : Clock) (p : Part) (t t' : Table)
    → save_part c p t ≡ ok t'
    → ((r : Row) → find p.job_id p.part_id t ≡ some r → r.status ⟶* p.status)
    → Moves t t'
save_part-Moves c p t t' h lead =
    let (r', written, one, same) = save_part-eq-ok c p t h in
    let (_, job, part, status) = part_write_values-data c p written in
    subst (Moves t) (sym same) (
      replace-Moves r' t one
        (λ r found. subst (λ s. r.status ⟶* s) (sym status) (lead r (rw (job, part) at found))))

same_status : (o : Option Row) (r s : Row) → o ≡ some r → o ≡ some s → r.status ≡ s.status
same_status o r s p q = cc

-- What a change of one part must keep.
abbrev pub KeepsKey : (Part → Part) → Type 0
KeepsKey f = (p : Part) → ((f p).job_id ≡ p.job_id) × ((f p).part_id ≡ p.part_id)

abbrev pub Leads : (Part → Bool) → (Part → Part) → Type 0
Leads condition f = (p : Part) → condition p ≡ true → p.status ⟶* (f p).status

pub update_part-Moves :
    (c : Clock) (job part : Text) (condition : Part → Bool) (mutate : Part → Part) (t t' : Table)
    → WellFormed c t
    → KeepsKey mutate
    → Leads condition mutate
    → update_part c job part condition mutate t ≡ ok t'
    → Moves t t'
update_part-Moves c job part condition mutate t t' w keep leads h =
    let (r, found, passed, saved) = update_part-eq-ok c job part condition mutate t h in
    let written = find-WellFormed c job part t r w found in
    let (_, job_data, part_data, status) = part_write_values-data c r.data_part written in
    let (own_job, own_part) = (same_key_iff job part r).0 (same_key-of_find job part t r found) in
    let (kept_job, kept_part) = keep r.data_part in
    let same_job = kept_job ∙ sym job_data ∙ own_job in
    let same_part = kept_part ∙ sym part_data ∙ own_part in
    save_part-Moves c (mutate r.data_part) t t' saved λ s found_s.
      let s_found : find job part t ≡ some s = rw (same_job, same_part) at found_s in
      let s_status : r.data_part.status ≡ s.status =
        sym status ∙ same_status (find job part t) r s found s_found in
      subst (λ x. x ⟶* (mutate r.data_part).status) s_status (leads r.data_part passed)

pub find-append :
    (job part : Text) (r : Row) (t u : Table)
    → find job part t ≡ some r
    → find job part (t ++ u) ≡ some r
unfolding find
find-append job part r [] u h = absurd (ground arith)
find-append job part r (s ∷ t) u h = ground (arith, find-append job part r t u)

-- An insert only adds.
pub insert_part-Moves :
    (c : Clock) (p : Part) (t t' : Table) → insert_part c p t ≡ ok t' → Moves t t'
insert_part-Moves c p t t' h job part r found =
    let (r', _, _, same) = insert_part-eq-ok c p t h in
    (r, rw same (find-append job part r t (r' ∷ []) found), here)

-- Nor does an update of many rows lose one.
pub map-Moves :
    (f : Row → Row)
    → ((r : Row) → ((f r).job_id ≡ r.job_id) × ((f r).part_id ≡ r.part_id))
    → ((r : Row) → r.status ⟶* (f r).status)
    → (t : Table) → Moves t (map f t)
unfolding find same_key
map-Moves f same leads [] job part r h = absurd (ground arith)
map-Moves f same leads (s ∷ t) job part r h = elim (Bool-cases (same_key job part s)) [
  | inl e ↦
      let eq : s ≡ r = ground arith in
      (f s, rw ((same s).0, (same s).1, e) refl, subst (λ x. x.status ⟶* (f s).status) eq (leads s))
  | inr e ↦
      let (r', h', p) = map-Moves f same leads t job part r (ground arith) in
      (r', rw ((same s).0, (same s).1, e) h', p)
]

-- A failed transaction moves nothing.
pub commit-Moves :
    (t : Table) (r : Result Error Table)
    → ((t' : Table) → r ≡ ok t' → Moves t t')
    → Moves t (commit t r)
commit-Moves t (ok t') m = m t' refl
commit-Moves t (err e) m = Moves-refl t
