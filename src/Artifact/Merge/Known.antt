-- ===== src/Artifact/Merge/Known.antt =====
-- internal/artifact/tar.go: what the kinds of the entries say while archives are merged.
use partforge.Base.{
  All-snoc, Text, List, [], ◌∷◌, ◌++◌, false, Option, none, some, ok, All, All-map, text_eq,
  text_eq_refl, text_eq_iff, ◌≡◌, refl, sym, ap, subst, Bool-cases, inl, inr,
}
use partforge.Artifact.Plan.{FinishedTarDir, FinishedTarFile}
use partforge.Artifact.Plan.Layout.{Proper}
use partforge.Artifact.Merge.{Merge, Kind, dir, file, lookup, merge_dir, merge_file}

-- No two files have one name.
abbrev pub DistinctNames : List (Text × FinishedTarFile) → Type 0
DistinctNames [] = Unit
DistinctNames ((_, f) ∷ files) =
    All (λ (g : Text × FinishedTarFile). text_eq f.name g.1.name ≡ false) files
    × DistinctNames files

-- A proper name that has been seen as what it is.
abbrev pub Known : List (Text × Kind) → Kind → Text → Type 0
Known kinds kind name = (lookup name kinds ≡ some kind) × Proper name

-- What the kinds say of the directories and files.
abbrev pub Sorted : Merge → Type 0
Sorted m =
    All (λ (d : FinishedTarDir). Known m.entry_kinds dir d.name) m.dirs
    × All (λ (f : Text × FinishedTarFile). Known m.entry_kinds file f.1.name) m.files
    × DistinctNames m.files

DistinctNames-snoc :
    (files : List (Text × FinishedTarFile)) (g : Text × FinishedTarFile)
    → DistinctNames files
    → All (λ (f : Text × FinishedTarFile). text_eq f.1.name g.1.name ≡ false) files
    → DistinctNames (files ++ g ∷ [])
DistinctNames-snoc [] g h other = (tt, tt)
DistinctNames-snoc (f ∷ files) g (first, rest) (new, others) =
    (All-snoc _ files g first new, DistinctNames-snoc files g rest others)

same_name :
    (a b : Text) (kinds : List (Text × Kind)) (kind : Kind)
    → lookup a kinds ≡ none
    → lookup b kinds ≡ some kind
    → (text_eq a b ≡ false) × (text_eq b a ≡ false)
same_name a b kinds kind fresh known =
    let differ : a ≡ b → (text_eq a b ≡ false) × (text_eq b a ≡ false) =
      λ e. absurd (cc (ap (λ n. lookup n kinds) e, fresh, known)) in
    (
      elim (Bool-cases (text_eq a b)) [ inl h ↦ (differ ((text_eq_iff a b).0 h)).0 | inr h ↦ h ],
      elim (Bool-cases (text_eq b a)) [
        | inl h ↦ (differ (sym ((text_eq_iff b a).0 h))).1
        | inr h ↦ h
      ],
    )

-- A new name leaves the kinds of the others as they are.
Known-new :
    (new name : Text) (kinds : List (Text × Kind)) (k kind : Kind)
    → lookup new kinds ≡ none
    → Known kinds kind name
    → Known ((new, k) ∷ kinds) kind name
unfolding lookup
Known-new new name kinds k kind fresh (known, proper) =
    let (other, _) = same_name new name kinds kind fresh known in (rw other known, proper)

Known-self :
    (name : Text) (kinds : List (Text × Kind)) (k : Kind)
    → Proper name
    → Known ((name, k) ∷ kinds) k name
unfolding lookup
Known-self name kinds k proper = (rw (text_eq_refl name) refl, proper)

pub merge_dir-Sorted :
    (d : FinishedTarDir) (seen : Option Kind) (m next : Merge)
    → Proper d.name
    → Sorted m
    → lookup d.name m.entry_kinds ≡ seen
    → merge_dir d seen m ≡ ok next
    → Sorted next
unfolding merge_dir
merge_dir-Sorted d none m next proper (dirs, files, distinct) fresh h =
    let built : Merge = record m {
      entry_kinds = (d.name, dir) ∷ m.entry_kinds;
      dirs = m.dirs ++ d ∷ [];
    } in
    let same : built ≡ next = cc h in
    subst Sorted same (
      All-snoc (λ (e : FinishedTarDir). Known built.entry_kinds dir e.name) m.dirs d
          (All-map m.dirs (λ e known. Known-new d.name e.name m.entry_kinds dir dir fresh known)
            dirs)
          (Known-self d.name m.entry_kinds dir proper),
      All-map m.files (λ f known. Known-new d.name f.1.name m.entry_kinds dir file fresh known)
          files,
      distinct,
    )
merge_dir-Sorted d (some dir) m next proper sorted seen h =
    let same : m ≡ next = cc h in subst Sorted same sorted
merge_dir-Sorted d (some file) m next proper sorted seen h = absurd (cc h)

pub merge_file-Sorted :
    (archive_path : Text) (f : FinishedTarFile) (seen : Option Kind) (m next : Merge)
    → Proper f.name
    → Sorted m
    → lookup f.name m.entry_kinds ≡ seen
    → merge_file archive_path f seen m ≡ ok next
    → Sorted next
unfolding merge_file
merge_file-Sorted archive_path f none m next proper (dirs, files, distinct) fresh h =
    let built : Merge = record m {
      entry_kinds = (f.name, file) ∷ m.entry_kinds;
      files = m.files ++ (archive_path, f) ∷ [];
    } in
    let same : built ≡ next = cc h in
    subst Sorted same (
      All-map m.dirs (λ d known. Known-new f.name d.name m.entry_kinds file dir fresh known) dirs,
      All-snoc (λ (g : Text × FinishedTarFile). Known built.entry_kinds file g.1.name) m.files
          (archive_path, f)
          (All-map m.files
            (λ g known. Known-new f.name g.1.name m.entry_kinds file file fresh known) files)
          (Known-self f.name m.entry_kinds file proper),
      DistinctNames-snoc m.files (archive_path, f) distinct
          (All-map m.files
            (λ g known. (same_name f.name g.1.name m.entry_kinds file fresh known.0).1) files),
    )
merge_file-Sorted archive_path f (some k) m next proper sorted seen h = absurd (cc h)
