-- ===== src/Manifest/Tests.antt =====
-- A manifest with one source object, its keys, and the theorems at it.
use partforge.Manifest.Build.{resolve_click_house_build}
use partforge.Base.{is_blank, text_eq}
use partforge.Base.Scan.{contains_any, join, starts_with, strip_prefix}
use partforge.Base.Paths.{path_clean, path_join}
use partforge.Base.{
  Text, List, [], ◌∷◌, ◌++◌, true, not, ok, err, All, all, codes, null, ◌||◌, ◌≡◌, refl,
}
use partforge.Base.Scan.{split_byte, contains_byte}
use partforge.Manifest.Bundle.{
  TableRef, SourceObject, Manifest, unsafe_source_object, Contained, validate, validate-Contained,
}
use partforge.Manifest.Keys.{
  finished_prefix, imported_marker_key, hashed_bytes, split_byte-hashed_bytes,
}

abbrev events : TableRef
events = record { database = codes "d"; table = codes "t" }

abbrev object_at : Text → SourceObject
object_at path = record { bucket = codes "b"; key = codes "k"; path = path }

abbrev manifest_of : Text → Manifest
manifest_of path = record {
  version = 1;
  job_id = codes "j";
  part_id = codes "p";
  freeze = codes "f";
  source = events;
  dest = events;
  part = record { disk = codes "default"; name = codes "all_1_1_0"; relative_path = codes "x" };
  sql = record {
    source_schema = codes "C";
    destination_schema = codes "C";
    insert_select = codes "I";
  };
  s3 = record {
    bucket = codes "b";
    source_key = codes "s";
    finished_key = codes "f";
    source_objects = object_at path ∷ [];
    source_finished_key = [];
  };
  click_house_build = [];
}

abbrev valid : Manifest
valid = manifest_of (codes "x.proj/d.bin")

validates : validate valid ≡ ok tt
unfolding validate resolve_click_house_build text_eq is_blank contains_any starts_with strip_prefix
    path_clean join split_byte
validates = refl

validate-Contained_example :
    All Contained valid.s3.source_objects
    × ((null valid.s3.source_objects || null valid.s3.source_finished_key) ≡ true)
validate-Contained_example = validate-Contained valid validates

refuses_climbing : validate (manifest_of (codes "x/../../d")) ≡ err unsafe_source_object
unfolding validate resolve_click_house_build text_eq is_blank contains_any starts_with strip_prefix
    path_clean join split_byte
refuses_climbing = refl

keys : finished_prefix (codes "/a//b/") (codes "j") ≡ codes "a/b/jobs/j/finished/"
unfolding finished_prefix path_join starts_with strip_prefix join split_byte text_eq
keys = refl

marker : imported_marker_key [] (codes "j") (codes "p") ≡ codes "jobs/j/imported/p.json"
unfolding imported_marker_key path_join starts_with strip_prefix join split_byte text_eq
marker = refl

abbrev values : List Text
values = codes "d" ∷ [] ∷ codes "t" ∷ []

without_zeros : all (λ v. not (contains_byte 0 v)) values ≡ true
unfolding contains_byte
without_zeros = refl

split_byte-hashed_bytes_example : split_byte 0 (hashed_bytes values) ≡ values ++ [] ∷ []
split_byte-hashed_bytes_example = split_byte-hashed_bytes values without_zeros
