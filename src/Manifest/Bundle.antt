-- ===== src/Manifest/Bundle.antt =====
-- internal/manifest/manifest.go: the manifest of a part and its validation. The time of creation, which
-- nothing in that package reads, is left out.
use partforge.Base.{
  guard-ok, Text, ℕ, List, [], ◌∷◌, ◌++◌, Bool, true, false, not, Result, ok, err, guard, ◌>>◌,
  >>-eq-ok, ◌&&◌, ◌||◌, ◌==◌, null, all, All, is_blank, text_eq, text_eq_iff, codes, ◌≡◌, arith,
}
use partforge.Base.Scan.{split_byte, contains_any, contains_byte}
use partforge.Base.Paths.{slash, path_clean, is_proper}
use partforge.Base.Paths.Contained.{stays, path_clean-contained}
use partforge.Manifest.Build.{resolve_click_house_build, BuildError}

pub record TableRef : Type 0 where
  pub database : Text
  pub table : Text

pub record SourcePart : Type 0 where
  pub disk : Text
  pub name : Text
  pub relative_path : Text

pub record SqlBundle : Type 0 where
  pub source_schema : Text
  pub destination_schema : Text
  pub insert_select : Text

pub record SourceObject : Type 0 where
  pub bucket : Text
  pub key : Text
  pub path : Text

pub record S3Refs : Type 0 where
  pub bucket : Text
  pub source_key : Text
  pub finished_key : Text
  pub source_objects : List SourceObject
  pub source_finished_key : Text

pub record Manifest : Type 0 where
  pub version : ℕ
  pub job_id : Text
  pub part_id : Text
  pub freeze : Text
  pub source : TableRef
  pub dest : TableRef
  pub part : SourcePart
  pub sql : SqlBundle
  pub s3 : S3Refs
  pub click_house_build : Text

pub data ManifestError : Type 0 where
  bad_build : ManifestError
  unsupported_version : ManifestError
  missing_ids : ManifestError
  missing_table : ManifestError
  missing_sql : ManifestError
  missing_references : ManifestError
  two_sources : ManifestError
  unsafe_source_finished_key : ManifestError
  missing_object_field : ManifestError
  unsafe_source_object : ManifestError

resolved_build : Result BuildError Text → Result ManifestError (Unit {0})
resolved_build (err _) = err bad_build
resolved_build (ok _) = ok tt

-- The bytes that no key may have: NUL and the ends of lines.
abbrev pub control : Text
control = 0 ∷ 13 ∷ 10 ∷ []

unfoldable pub is_safe_object : SourceObject → Bool
is_safe_object o =
    not (contains_any (o.bucket ++ o.key) control)
    && stays o.path
    && not (contains_byte 92 o.path)
    && text_eq (path_clean o.path) o.path

unfoldable pub check_object : SourceObject → Result ManifestError (Unit {0})
unfolding is_safe_object
check_object o =
    guard (not (null o.bucket || null o.key || null o.path)) missing_object_field
    >> guard (is_safe_object o) unsafe_source_object

unfoldable pub check_objects : List SourceObject → Result ManifestError (Unit {0})
unfolding check_object
check_objects [] = ok tt
check_objects (o ∷ objects) = check_object o >> check_objects objects

unfoldable pub check_source_finished_key : S3Refs → Result ManifestError (Unit {0})
check_source_finished_key s3 =
    guard (null s3.source_finished_key || null s3.source_objects) two_sources
    >> guard (not (contains_any s3.source_finished_key (control ++ codes "*?[]{}")))
        unsafe_source_finished_key

unfoldable pub check_fields : Manifest → Result ManifestError (Unit {0})
unfolding resolved_build
check_fields m =
    resolved_build (resolve_click_house_build m.click_house_build)
    >> guard (m.version == 1) unsupported_version
    >> guard (not (null m.job_id || null m.part_id || null m.part.disk || null m.part.name))
        missing_ids
    >> guard
        (not (
          null m.source.database
          || null m.source.table
          || null m.dest.database
          || null m.dest.table))
        missing_table
    >> guard
        (not (
          is_blank m.sql.source_schema
          || is_blank m.sql.destination_schema
          || is_blank m.sql.insert_select))
        missing_sql
    >> guard (not (null m.s3.bucket || null m.s3.source_key || null m.s3.finished_key))
        missing_references

unfoldable pub validate : Manifest → Result ManifestError (Unit {0})
unfolding check_fields check_source_finished_key check_objects
validate m = check_fields m >> check_source_finished_key m.s3 >> check_objects m.s3.source_objects

-- A path of segments that each name a file or directory in their parent, and named objects.
abbrev pub Contained : SourceObject → Type 0
Contained o =
    (all is_proper (split_byte slash o.path) ≡ true)
    × (contains_byte 92 o.path ≡ false)
    × (contains_any (o.bucket ++ o.key) control ≡ false)

check_object-Contained : (o : SourceObject) → check_object o ≡ ok tt → Contained o
unfolding check_object is_safe_object
check_object-Contained o h =
    let (_, safe) =
      >>-eq-ok (guard (not (null o.bucket || null o.key || null o.path)) missing_object_field) _
        h in
    let passed : is_safe_object o ≡ true = guard-ok _ _ safe in
    let clean : path_clean o.path ≡ o.path =
      (text_eq_iff (path_clean o.path) o.path).0 (ground (arith, passed)) in
    (
      path_clean-contained o.path clean (ground (arith, passed)),
      ground (arith, passed),
      ground (arith, passed),
    )

check_objects-Contained :
    (objects : List SourceObject) → check_objects objects ≡ ok tt → All Contained objects
unfolding check_objects
check_objects-Contained [] h = tt
check_objects-Contained (o ∷ objects) h =
    let (first, rest) = >>-eq-ok (check_object o) (check_objects objects) h in
    (check_object-Contained o first, check_objects-Contained objects rest)

-- A valid manifest names source objects that stay below the directory they are copied to, and
-- either source objects or a finished artifact.
pub validate-Contained :
    (m : Manifest)
    → validate m ≡ ok tt
    → All Contained m.s3.source_objects
      × ((null m.s3.source_objects || null m.s3.source_finished_key) ≡ true)
unfolding validate check_source_finished_key
validate-Contained m h =
    let (before, objects) = >>-eq-ok (check_fields m >> check_source_finished_key m.s3) _ h in
    let (_, source) = >>-eq-ok (check_fields m) (check_source_finished_key m.s3) before in
    let (one, _) =
      >>-eq-ok (guard (null m.s3.source_finished_key || null m.s3.source_objects) two_sources) _
        source in
    let either : (null m.s3.source_finished_key || null m.s3.source_objects) ≡ true =
      guard-ok _ _ one in
    (check_objects-Contained m.s3.source_objects objects, ground (arith, either))
