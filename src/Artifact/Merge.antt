-- ===== src/Artifact/Merge.antt =====
-- internal/artifact/tar.go: the plan of several archives, before anything is written.
pub mod Known
pub mod Distinct
use partforge.Base.{
  Text, ℕ, List, [], ◌∷◌, ◌++◌, Bool, true, false, not, Option, none, some, Result, ok, err, guard,
  ◌>>=◌, ◌>>◌, >>=-eq-ok, >>-eq-ok, if◌then◌else◌, ◌&&◌, ◌||◌, ltb, ◌==◌, ◌+◌, any, All, All-map,
  All-and, is_blank, text_eq, text_eq_refl, text_eq_iff, text_lt, ◌≡◌, refl, sym, ap, subst, ◌∙◌,
  Bool-cases, Option-cases, inl, inr, arith,
}
use partforge.Base.Order.{sort_slice, then_by}
use partforge.Base.Paths.{slash}
use partforge.Artifact.Numbers.{TarError}
use partforge.Artifact.Plan.{FinishedTarDir, FinishedTarFile, FinishedTarPlan, plan_finished_tar}

pub data MergeError : Type 0 where
  no_destination : MergeError
  no_plan : TarError → MergeError
  out_of_fuel : MergeError
  duplicate_part : MergeError
  file_and_directory : MergeError
  duplicate_entry : MergeError

pub data Kind : Type 0 where
  dir : Kind
  file : Kind

-- The maps with their newest entries first, and the lists of the function.
pub record Merge : Type 0 where
  pub part_seen : List (Text × Text)
  pub entry_kinds : List (Text × Kind)
  pub part_names : List Text
  pub dirs : List FinishedTarDir
  pub files : List (Text × FinishedTarFile)

unfoldable pub lookup {ℓ} : {A : Type ℓ} → Text → List (Text × A) → Option A
lookup key [] = none
lookup key ((k, value) ∷ entries) =
    let rest = lookup key entries in if text_eq k key then some value else rest

merge_part : Text → Text → Option Text → Merge → Result MergeError Merge
merge_part archive_path part none m = ok (record m {
  part_seen = (part, archive_path) ∷ m.part_seen;
  part_names = m.part_names ++ part ∷ [];
})
merge_part archive_path part (some existing) m =
    if text_eq existing archive_path then ok m else err duplicate_part

merge_parts : Text → List Text → Merge → Result MergeError Merge
unfolding merge_part lookup
merge_parts archive_path [] m = ok m
merge_parts archive_path (part ∷ parts) m =
    merge_part archive_path part (lookup part m.part_seen) m >>= merge_parts archive_path parts

unfoldable pub merge_dir : FinishedTarDir → Option Kind → Merge → Result MergeError Merge
merge_dir d (some dir) m = ok m
merge_dir d (some file) m = err file_and_directory
merge_dir d none m =
    ok (record m { entry_kinds = (d.name, dir) ∷ m.entry_kinds; dirs = m.dirs ++ d ∷ [] })

unfoldable pub merge_dirs : List FinishedTarDir → Merge → Result MergeError Merge
unfolding merge_dir lookup
merge_dirs [] m = ok m
merge_dirs (d ∷ dirs) m = merge_dir d (lookup d.name m.entry_kinds) m >>= merge_dirs dirs

unfoldable pub merge_file : Text → FinishedTarFile → Option Kind → Merge → Result MergeError Merge
merge_file archive_path f (some _) m = err duplicate_entry
merge_file archive_path f none m = ok (record m {
  entry_kinds = (f.name, file) ∷ m.entry_kinds;
  files = m.files ++ (archive_path, f) ∷ [];
})

unfoldable pub merge_files : Text → List FinishedTarFile → Merge → Result MergeError Merge
unfolding merge_file lookup
merge_files archive_path [] m = ok m
merge_files archive_path (f ∷ files) m =
    merge_file archive_path f (lookup f.name m.entry_kinds) m >>= merge_files archive_path files

-- One archive with its plan.
unfoldable pub merge_plan : Text → FinishedTarPlan → Merge → Result MergeError Merge
unfolding merge_parts merge_dirs merge_files
merge_plan archive_path plan m =
    merge_parts archive_path plan.part_names m
    >>= merge_dirs plan.dirs
    >>= merge_files archive_path plan.files

planned : Result TarError (Option FinishedTarPlan) → Result MergeError FinishedTarPlan
planned (err e) = err (no_plan e)
planned (ok none) = err out_of_fuel
planned (ok (some plan)) = ok plan

-- The number of slashes in a name.
unfoldable pub depth : Text → ℕ
depth [] = 0
depth (c ∷ s) = let rest = depth s in if c == slash then 1 + rest else rest

-- Shallow directories are created first.
unfoldable pub creation_order : List FinishedTarDir → List FinishedTarDir
unfolding depth
creation_order dirs =
    sort_slice (then_by (λ a b. ltb (depth a.name) (depth b.name)) (λ a b. text_lt a.name b.name))
      dirs

-- Deep directories get their modes first.
unfoldable pub chmod_order : List FinishedTarDir → List FinishedTarDir
unfolding depth
chmod_order dirs =
    sort_slice (then_by (λ a b. ltb (depth b.name) (depth a.name)) (λ a b. text_lt b.name a.name))
      dirs

abbrev pub nothing_merged : Merge
nothing_merged = record { part_seen = []; entry_kinds = []; part_names = []; dirs = []; files = [] }

-- The archives by their paths: their bytes are a parameter.
module _ (archive_at : Text → Text) where
  unfoldable pub merge_archives : Text → List Text → Merge → Result MergeError Merge
  unfolding planned merge_plan
  merge_archives dest_root [] m = ok m
  merge_archives dest_root (path ∷ paths) m =
      planned (plan_finished_tar (archive_at path) dest_root) >>= λ plan.
      merge_plan path plan m >>= merge_archives dest_root paths

  -- What `extractFinishedTarArchivesContext` writes, in the order in which it creates directories.
  unfoldable pub plan_extraction : List Text → Text → Result MergeError Merge
  unfolding merge_archives creation_order
  plan_extraction paths dest_root =
      guard (not (is_blank dest_root)) no_destination
      >> merge_archives dest_root paths nothing_merged
      >>= λ m.
          ok (record m {
            part_names = sort_slice text_lt m.part_names;
            dirs = creation_order m.dirs;
          })
