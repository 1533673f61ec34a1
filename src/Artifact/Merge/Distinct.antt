-- ===== src/Artifact/Merge/Distinct.antt =====
-- internal/artifact/tar.go: no two files of an extraction have one name, and none is a directory.
use partforge.Base.{
  Text, ℕ, List, [], ◌∷◌, ◌++◌, not, Option, none, some, Result, ok, err, guard, ◌>>=◌, ◌>>◌,
  >>=-eq-ok, >>-eq-ok, All, is_blank, length, text_eq, text_lt, ◌≡◌, refl, ap, subst, Bool-cases,
  inl, inr,
}
use partforge.Base.Order.{sort_slice, sort_slice-All}
use partforge.Artifact.Plan.{FinishedTarDir, FinishedTarFile, FinishedTarPlan, plan_finished_tar}
use partforge.Artifact.Numbers.{TarError}
use partforge.Artifact.Plan.Layout.{Proper, LaidOut}
use partforge.Artifact.Plan.Extraction.{plan_finished_tar-LaidOut}
use partforge.Artifact.Merge.{
  Merge, dir, lookup, no_destination, merge_part, merge_parts, merge_dir, merge_dirs, merge_file,
  merge_files, merge_plan, planned, creation_order, nothing_merged, merge_archives, plan_extraction,
}
use partforge.Artifact.Merge.Known.{Known, Sorted, merge_dir-Sorted, merge_file-Sorted}

merge_dirs-Sorted :
    (dirs : List FinishedTarDir) (m next : Merge)
    → All (λ (d : FinishedTarDir). Proper d.name) dirs
    → Sorted m
    → merge_dirs dirs m ≡ ok next
    → Sorted next
unfolding merge_dirs
merge_dirs-Sorted [] m next proper sorted h = let same : m ≡ next = cc h in subst Sorted same sorted
merge_dirs-Sorted (d ∷ dirs) m next (first, rest) sorted h =
    let (between, merged, others) =
      >>=-eq-ok (merge_dir d (lookup d.name m.entry_kinds) m) (merge_dirs dirs) h in
    merge_dirs-Sorted dirs between next rest
      (merge_dir-Sorted d (lookup d.name m.entry_kinds) m between first sorted refl merged) others

merge_files-Sorted :
    (archive_path : Text) (files : List FinishedTarFile) (m next : Merge)
    → All (λ (f : FinishedTarFile). Proper f.name) files
    → Sorted m
    → merge_files archive_path files m ≡ ok next
    → Sorted next
unfolding merge_files
merge_files-Sorted archive_path [] m next proper sorted h =
    let same : m ≡ next = cc h in subst Sorted same sorted
merge_files-Sorted archive_path (f ∷ files) m next (first, rest) sorted h =
    let (between, merged, others) =
      >>=-eq-ok (merge_file archive_path f (lookup f.name m.entry_kinds) m)
        (merge_files archive_path files) h in
    merge_files-Sorted archive_path files between next rest
      (merge_file-Sorted archive_path f (lookup f.name m.entry_kinds) m between first sorted refl
        merged)
      others

-- Parts do not touch the entries.
merge_part-Sorted :
    (archive_path part : Text) (seen : Option Text) (m next : Merge)
    → Sorted m
    → merge_part archive_path part seen m ≡ ok next
    → Sorted next
unfolding merge_part
merge_part-Sorted archive_path part none m next sorted h =
    let built : Merge = record m {
      part_seen = (part, archive_path) ∷ m.part_seen;
      part_names = m.part_names ++ part ∷ [];
    } in
    let same : built ≡ next = cc h in subst Sorted same sorted
merge_part-Sorted archive_path part (some existing) m next sorted h =
    elim (Bool-cases (text_eq existing archive_path)) [
      | inl e ↦ let same : m ≡ next = cc (rw e at h) in subst Sorted same sorted
      | inr e ↦ absurd (cc (rw e at h))
    ]

merge_parts-Sorted :
    (archive_path : Text) (parts : List Text) (m next : Merge)
    → Sorted m
    → merge_parts archive_path parts m ≡ ok next
    → Sorted next
unfolding merge_parts
merge_parts-Sorted archive_path [] m next sorted h =
    let same : m ≡ next = cc h in subst Sorted same sorted
merge_parts-Sorted archive_path (part ∷ parts) m next sorted h =
    let (between, merged, others) =
      >>=-eq-ok (merge_part archive_path part (lookup part m.part_seen) m)
        (merge_parts archive_path parts) h in
    merge_parts-Sorted archive_path parts between next
      (merge_part-Sorted archive_path part (lookup part m.part_seen) m between sorted merged) others

merge_plan-Sorted :
    (archive_path : Text) (plan : FinishedTarPlan) (upto : ℕ) (m next : Merge)
    → LaidOut plan upto
    → Sorted m
    → merge_plan archive_path plan m ≡ ok next
    → Sorted next
unfolding merge_plan
merge_plan-Sorted archive_path plan upto m next (dirs, files, _) sorted h =
    let (with_dirs, entered, filed) =
      >>=-eq-ok (merge_parts archive_path plan.part_names m >>= merge_dirs plan.dirs)
        (merge_files archive_path plan.files) h in
    let (with_parts, parted, placed) =
      >>=-eq-ok (merge_parts archive_path plan.part_names m) (merge_dirs plan.dirs) entered in
    merge_files-Sorted archive_path plan.files with_dirs next files
      (merge_dirs-Sorted plan.dirs with_parts with_dirs dirs
        (merge_parts-Sorted archive_path plan.part_names m with_parts sorted parted) placed)
      filed

planned-ok :
    (found : Result TarError (Option FinishedTarPlan)) (plan : FinishedTarPlan)
    → planned found ≡ ok plan
    → found ≡ ok (some plan)
unfolding planned
planned-ok (err e) plan h = absurd (cc h)
planned-ok (ok none) plan h = absurd (cc h)
planned-ok (ok (some p)) plan h = let same : p ≡ plan = cc h in ap (λ q. ok (some q)) same

module _ (archive_at : Text → Text) where
  planned-LaidOut :
      (path dest_root : Text) (plan : FinishedTarPlan)
      → planned (plan_finished_tar (archive_at path) dest_root) ≡ ok plan
      → LaidOut plan (length (archive_at path))
  planned-LaidOut path dest_root plan h =
      plan_finished_tar-LaidOut (archive_at path) dest_root plan
        (planned-ok (plan_finished_tar (archive_at path) dest_root) plan h)

  merge_archives-Sorted :
      (dest_root : Text) (paths : List Text) (m next : Merge)
      → Sorted m
      → merge_archives archive_at dest_root paths m ≡ ok next
      → Sorted next
  unfolding merge_archives
  merge_archives-Sorted dest_root [] m next sorted h =
      let same : m ≡ next = cc h in subst Sorted same sorted
  merge_archives-Sorted dest_root (path ∷ paths) m next sorted h =
      let (plan, found, rest) =
        >>=-eq-ok (planned (plan_finished_tar (archive_at path) dest_root)) _ h in
      let (between, merged, others) =
        >>=-eq-ok (merge_plan path plan m) (merge_archives archive_at dest_root paths) rest in
      merge_archives-Sorted dest_root paths between next
        (merge_plan-Sorted path plan (length (archive_at path)) m between
          (planned-LaidOut path dest_root plan found) sorted merged)
        others

  -- What is extracted from several archives: every name is proper and stands for one kind of entry,
  -- and no two files have one name.
  pub plan_extraction-Sorted :
      (paths : List Text) (dest_root : Text) (m : Merge)
      → plan_extraction archive_at paths dest_root ≡ ok m
      → Sorted m
  unfolding plan_extraction creation_order
  plan_extraction-Sorted paths dest_root m h =
      let (merged, found, last) =
        >>=-eq-ok
          (guard (not (is_blank dest_root)) no_destination
            >> merge_archives archive_at dest_root paths nothing_merged)
          _ h in
      let (_, archives) = >>-eq-ok (guard (not (is_blank dest_root)) no_destination) _ found in
      let (dirs, files, distinct) =
        merge_archives-Sorted dest_root paths nothing_merged merged (tt, tt, tt) archives in
      let built : Merge = record merged {
        part_names = sort_slice text_lt merged.part_names;
        dirs = creation_order merged.dirs;
      } in
      let same : built ≡ m = cc last in
      subst Sorted same (
        sort_slice-All _ (λ (d : FinishedTarDir). Known merged.entry_kinds dir d.name) merged.dirs
            dirs,
        files,
        distinct,
      )
