-- ===== src/State/Lifecycle/Sound.antt =====
-- The invariant of the table, and the changes that keep it and follow the lifecycle.
use partforge.Base.{
  Text, ◌≡◌, sym, subst, List, [], ◌∷◌, Bool, true, All, Result, ok, some, arith, >>=-eq-ok,
}
use partforge.State.Part.{Part, Clock, Error, Status, is}
use partforge.State.Row.{Row, part_write_values}
use partforge.State.Table.{Table, find, save_part, insert_part, update_part}
use partforge.State.Table.Laws.{
  WellFormed, Written, part_write_values-data, replace-All, append-All, save_part-eq-ok,
  insert_part-eq-ok, update_part-eq-ok, save_part-WellFormed, insert_part-WellFormed,
}
use partforge.State.Table.Find.{find-All, find-WellFormed}
use partforge.State.Progress.Laws.{BareRow}
use partforge.State.Compact.{each_part}
use partforge.State.Lifecycle.{
  ◌⟶*◌, Moves, Moves-refl, Moves-trans, KeepsKey, Leads, save_part-Moves, update_part-Moves,
  insert_part-Moves,
}

pub record Inv (c : Clock) (t : Table) : Type 0 where
  pub well_formed : WellFormed c t
  pub bare : All BareRow t

-- From a table with the invariant the change leads to one with it, along the lifecycle.
abbrev pub Sound : Clock → Table → Table → Type 0
Sound c t t' = Inv c t → Inv c t' × Moves t t'

pub Sound-refl : (c : Clock) (t : Table) → Sound c t t
Sound-refl c t v = (v, Moves-refl t)

pub Sound-trans : (c : Clock) (t u v : Table) → Sound c t u → Sound c u v → Sound c t v
Sound-trans c t u v f g i = let (j, m) = f i in let (k, n) = g j in (k, Moves-trans t u v m n)

abbrev pub BarePart : Part → Type 0
BarePart p = is p.status Status.in_progress ≡ true → p.rewrite.partition_counts ≡ []

pub written_bare :
    (c : Clock) (p : Part) {r : Row} → part_write_values c p ≡ ok r → BarePart p → BareRow r
written_bare c p h b = λ s. ground (arith, part_write_values-data c p h)

Written-bare : (c : Clock) (r : Row) → Written c r → BareRow r → BarePart r.data_part
Written-bare c r h b = λ s. ground (arith, part_write_values-data c r.data_part h)

pub save_part-Sound :
    (c : Clock) (p : Part) (t t' : Table)
    → save_part c p t ≡ ok t'
    → BarePart p
    → ((r : Row) → find p.job_id p.part_id t ≡ some r → r.status ⟶* p.status)
    → Sound c t t'
save_part-Sound c p t t' h b leads i =
    let (r, written, _, same) = save_part-eq-ok c p t h in
    (
      record {
        well_formed = save_part-WellFormed c p t h i.well_formed;
        bare = rw same (replace-All BareRow r t (written_bare c p written b) i.bare);
      },
      save_part-Moves c p t t' h leads,
    )

pub insert_part-Sound :
    (c : Clock) (p : Part) (t t' : Table) → BarePart p → insert_part c p t ≡ ok t' → Sound c t t'
insert_part-Sound c p t t' b h i =
    let (r, written, _, same) = insert_part-eq-ok c p t h in
    (
      record {
        well_formed = insert_part-WellFormed c p t h i.well_formed;
        bare = rw same (append-All BareRow r t (written_bare c p written b) i.bare);
      },
      insert_part-Moves c p t t' h,
    )

-- A change of one part that may be made under a condition.
pub record Good (condition : Part → Bool) (mutate : Part → Part) : Type 0 where
  pub key : KeepsKey mutate
  pub leads : Leads condition mutate
  pub bare : (p : Part) → BarePart p → BarePart (mutate p)

pub update_part-Sound :
    (c : Clock) (job part : Text) (condition : Part → Bool) (mutate : Part → Part) (t t' : Table)
    → Good condition mutate
    → update_part c job part condition mutate t ≡ ok t'
    → Sound c t t'
update_part-Sound c job part condition mutate t t' g h i =
    let (r, found, _, saved) = update_part-eq-ok c job part condition mutate t h in
    let (r', written, _, same) = save_part-eq-ok c (mutate r.data_part) t saved in
    let before = find-WellFormed c job part t r i.well_formed found in
    let bare = Written-bare c r before (find-All BareRow job part t r i.bare found) in
    (
      record {
        well_formed = save_part-WellFormed c (mutate r.data_part) t saved i.well_formed;
        bare = rw same (
            replace-All BareRow r' t
              (written_bare c (mutate r.data_part) written (g.bare r.data_part bare)) i.bare);
      },
      update_part-Moves c job part condition mutate t t' i.well_formed g.key g.leads h,
    )

-- A loop whose body is sound.
pub each_part-Sound :
    (c : Clock) (body : Part → Table → Result Error Table)
    → ((p : Part) (t t' : Table) → body p t ≡ ok t' → Sound c t t')
    → (ps : List Part) (t t' : Table) → each_part body ps t ≡ ok t'
    → Sound c t t'
unfolding each_part
each_part-Sound c body good [] t t' h = subst (Sound c t) (ground arith) (Sound-refl c t)
each_part-Sound c body good (p ∷ ps) t t' h =
    let (u, first, rest) = >>=-eq-ok (body p t) _ h in
    Sound-trans c t u t' (good p t u first) (each_part-Sound c body good ps u t' rest)

is_sound : (s a : Status) → is s a ≡ true → s ≡ a
is_sound s a h = ground arith

-- A test of the status settles where a path starts.
pub leads_from : (a b s : Status) → a ⟶* b → is s a ≡ true → s ⟶* b
leads_from a b s p h = subst (λ x. x ⟶* b) (sym (is_sound s a h)) p
