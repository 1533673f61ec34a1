-- ===== src/Artifact/Tests.antt =====
-- An archive of one directory with one file of five bytes, and the theorems at it.
use partforge.Artifact.Merge.{
  merge_archives, merge_plan, merge_dirs, merge_dir, merge_files, merge_file, lookup,
  creation_order, depth, Merge, dir, file, duplicate_part, plan_extraction,
}
use partforge.Artifact.Merge.Known.{Sorted}
use partforge.Artifact.Merge.Distinct.{plan_extraction-Sorted}
use partforge.Artifact.Plan.{FinishedTarFile}
use partforge.Artifact.Header.{
  checksum_from, drop, flag_at, is_zero_tar_block, parse_raw_tar_header, slice, tar_string,
  verify_tar_header_checksum,
}
use partforge.Artifact.Numbers.{base_256_from, octal_from, parse_tar_numeric}
use partforge.Artifact.Pax.{next_record, pax_from, positive_index, read_pax_records, value_of}
use partforge.Artifact.Names.{validate_tar_part_name}
use partforge.Artifact.Plan.{
  add_entry, add_part, check_end, entry_name, entry_size, plan_entry, plan_from, plan_header,
  plan_more, plan_next, sorted_plan, trim_zeros, with_dir, with_file,
}
use partforge.Base.Order.{sort_slice}
use partforge.Base.Paths.{path_join}
use partforge.Base.Scan.{ends_with, on_first}
use partforge.Base.Strconv.{is_digit, parse_below, parse_int}
use partforge.Base.Strings.{space_1, space_2, space_3}
use partforge.Base.{text_lt, trim_space}
use partforge.Base.{is_blank, text_eq}
use partforge.Base.Scan.{contains_any, contains_byte, join, starts_with, strip_prefix}
use partforge.Base.Paths.{path_clean}
use partforge.Base.{
  Text, ℕ, zero, suc, [], ◌∷◌, ◌++◌, none, some, ok, err, codes, ◌-◌, ◌%◌, ◌+◌, ◌≤◌, ◌<◌, ◌≡◌, ◌≢◌,
  ◌↔◌, refl, length, all, true,
}
use partforge.Base.Strconv.{max_int_64}
use partforge.Base.Paths.{slash, is_proper}
use partforge.Base.Scan.{split_byte}
use partforge.Artifact.Numbers.{
  parse_tar_octal, parse_tar_base_256, padded_tar_size, tar_block_size, trim_pad, is_octal,
  octal_value, base_256_overflow, parse_tar_octal-exact, padded_tar_size-bounds,
}
use partforge.Artifact.Names.{
  clean_finished_tar_entry_name, clean_finished_tar_entry_name-proper, trim_slash, part_of,
}
use partforge.Artifact.Numbers.{unsafe_entry_name}
use partforge.Artifact.Plan.{FinishedTarPlan, plan_finished_tar}
use partforge.Artifact.Plan.Layout.{LaidOut}
use partforge.Artifact.Plan.Extraction.{plan_finished_tar-ends, plan_finished_tar-LaidOut}

abbrev zeros : ℕ → Text
zeros zero = []
zeros (suc n) = 0 ∷ zeros n

-- A text in a field of a given width.
abbrev field : ℕ → Text → Text
field width s = s ++ zeros (width - length s)

abbrev header_block : Text → Text → Text → Text → Text
header_block name size checksum flag =
    field 100 name
    ++ field 24 (codes "0000644")
    ++ field 24 size
    ++ field 8 checksum
    ++ field 356 flag

abbrev archive : Text
archive =
    header_block (codes "p/") (codes "00000000000") (codes "002502") (codes "5")
    ++ header_block (codes "p/f") (codes "00000000005") (codes "002650") (codes "0")
    ++ field 512 (codes "bytes")
    ++ zeros 512

abbrev planned_file : FinishedTarFile
planned_file = record {
  name = codes "p/f";
  local_path = codes "/d/p/f";
  offset = 1024;
  size = 5;
  mode = 420;
}

abbrev plan : FinishedTarPlan
plan = record {
  part_names = codes "p" ∷ [];
  dirs = record { name = codes "p"; local_path = codes "/d/p"; mode = 420 } ∷ [];
  files = planned_file ∷ [];
}

plans : plan_finished_tar archive (codes "/d") ≡ ok (some plan)
unfolding plan_finished_tar is_zero_tar_block slice parse_raw_tar_header parse_tar_octal trim_pad
    parse_tar_numeric padded_tar_size value_of clean_finished_tar_entry_name is_blank starts_with
    strip_prefix contains_byte split_byte text_eq path_clean join checksum_from drop flag_at
    tar_string verify_tar_header_checksum part_of trim_slash validate_tar_part_name base_256_from
    octal_from parse_tar_base_256 next_record pax_from positive_index read_pax_records add_entry
    add_part check_end entry_name entry_size plan_entry plan_from plan_header plan_more plan_next
    sorted_plan trim_zeros with_dir with_file sort_slice is_proper path_join contains_any ends_with
    on_first is_digit parse_below parse_int space_1 space_2 space_3 text_lt trim_space
plans = refl

plan_finished_tar-LaidOut_example : LaidOut plan (length archive)
plan_finished_tar-LaidOut_example = plan_finished_tar-LaidOut archive (codes "/d") plan plans

plan_finished_tar-ends_example : plan_finished_tar archive (codes "/d") ≢ ok none
plan_finished_tar-ends_example = plan_finished_tar-ends archive (codes "/d")

abbrev size_field : Text
size_field = codes "00000000644" ++ 0 ∷ []

parse_tar_octal-exact_example : (parse_tar_octal size_field ≡ ok 420) ↔ (
    (all is_octal (trim_pad size_field) ≡ true)
    × (octal_value 0 (trim_pad size_field) ≡ 420)
    × (420 ≤ max_int_64))
parse_tar_octal-exact_example = parse_tar_octal-exact size_field 420

pads : padded_tar_size 513 ≡ ok 1024
unfolding padded_tar_size
pads = refl

padded_tar_size-bounds_example :
    (513 ≤ 1024) × (1024 < 513 + tar_block_size) × (1024 % tar_block_size ≡ 0) × (1024 ≤ max_int_64)
padded_tar_size-bounds_example = padded_tar_size-bounds 513 1024 pads

cleans : clean_finished_tar_entry_name (codes "p/d/") ≡ ok (codes "p/d", codes "p")
unfolding clean_finished_tar_entry_name is_blank starts_with strip_prefix contains_byte split_byte
    text_eq path_clean join contains_any
cleans = refl

clean_finished_tar_entry_name-proper_example :
    (codes "p/d" ≡ trim_slash (codes "p/d/"))
    × (all is_proper (split_byte slash (codes "p/d")) ≡ true)
    × (codes "p" ≡ part_of (split_byte slash (codes "p/d")))
clean_finished_tar_entry_name-proper_example =
    clean_finished_tar_entry_name-proper (codes "p/d/") (codes "p/d") (codes "p") cleans

refuses_parent : clean_finished_tar_entry_name (codes "p/../../e") ≡ err unsafe_entry_name
unfolding clean_finished_tar_entry_name is_blank starts_with strip_prefix contains_byte split_byte
    text_eq
refuses_parent = refl

refuses_overflow :
    parse_tar_base_256 (128 ∷ 0 ∷ 0 ∷ 0 ∷ 128 ∷ 0 ∷ 0 ∷ 0 ∷ 0 ∷ 0 ∷ 0 ∷ 0 ∷ [])
    ≡ err base_256_overflow
unfolding parse_tar_base_256
refuses_overflow = refl

abbrev merged : Merge
merged = record {
  part_seen = (codes "p", codes "a") ∷ [];
  entry_kinds = (codes "p/f", file) ∷ (codes "p", dir) ∷ [];
  part_names = codes "p" ∷ [];
  dirs = plan.dirs;
  files = (codes "a", planned_file) ∷ [];
}

merges : plan_extraction (λ _. archive) (codes "a" ∷ []) (codes "/d") ≡ ok merged
unfolding plan_finished_tar is_zero_tar_block slice parse_raw_tar_header parse_tar_octal trim_pad
    parse_tar_numeric padded_tar_size value_of clean_finished_tar_entry_name is_blank starts_with
    strip_prefix contains_byte split_byte text_eq path_clean join checksum_from drop flag_at
    tar_string verify_tar_header_checksum part_of trim_slash validate_tar_part_name base_256_from
    octal_from parse_tar_base_256 next_record pax_from positive_index read_pax_records add_entry
    add_part check_end entry_name entry_size plan_entry plan_from plan_header plan_more plan_next
    sorted_plan trim_zeros with_dir with_file sort_slice is_proper path_join contains_any ends_with
    on_first is_digit parse_below parse_int space_1 space_2 space_3 text_lt trim_space
    plan_extraction merge_archives merge_plan merge_dirs merge_dir merge_files merge_file lookup
    creation_order depth
merges = refl

plan_extraction-Sorted_example : Sorted merged
plan_extraction-Sorted_example =
    plan_extraction-Sorted (λ _. archive) (codes "a" ∷ []) (codes "/d") merged merges

refuses_twice :
    plan_extraction (λ _. archive) (codes "a" ∷ codes "b" ∷ []) (codes "/d") ≡ err duplicate_part
unfolding plan_finished_tar is_zero_tar_block slice parse_raw_tar_header parse_tar_octal trim_pad
    parse_tar_numeric padded_tar_size value_of clean_finished_tar_entry_name is_blank starts_with
    strip_prefix contains_byte split_byte text_eq path_clean join checksum_from drop flag_at
    tar_string verify_tar_header_checksum part_of trim_slash validate_tar_part_name base_256_from
    octal_from parse_tar_base_256 next_record pax_from positive_index read_pax_records add_entry
    add_part check_end entry_name entry_size plan_entry plan_from plan_header plan_more plan_next
    sorted_plan trim_zeros with_dir with_file sort_slice is_proper path_join contains_any ends_with
    on_first is_digit parse_below parse_int space_1 space_2 space_3 text_lt trim_space
    plan_extraction merge_archives merge_plan merge_dirs merge_dir merge_files merge_file lookup
    creation_order depth
refuses_twice = refl
