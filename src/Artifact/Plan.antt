-- ===== src/Artifact/Plan.antt =====
-- internal/artifact/tar.go: `planFinishedTar` over the bytes of an archive.
pub mod Layout
pub mod Extraction
use partforge.Base.{
  Text, ℕ, zero, suc, List, [], ◌∷◌, ◌++◌, Bool, true, false, not, Option, none, some, Result, ok,
  err, guard, or_fail, ◌>>=◌, ◌>>◌, if◌then◌else◌, ◌&&◌, ◌||◌, ltb, leb, ◌==◌, ◌+◌, ◌-◌, ◌/◌, ◌^◌,
  null, any, length, text_eq, text_lt, codes,
}
use mathlib.Core.Option
use partforge.Base.Order.{sort_slice}
use partforge.Base.Paths.{path_join}
use partforge.Base.Strconv.{parse_int}
use partforge.Artifact.Numbers.{
  TarError, invalid_pax_size, truncated_header, past_archive_end, unsupported_type, tar_block_size,
  padded_tar_size,
}
use partforge.Artifact.Header.{
  slice, is_zero_tar_block, type_reg, type_reg_a, type_dir, RawTarHeader, parse_raw_tar_header,
}
use partforge.Artifact.Names.{clean_finished_tar_entry_name}
use partforge.Artifact.Pax.{Records, value_of, read_pax_records}

pub record FinishedTarDir : Type 0 where
  pub name : Text
  pub local_path : Text
  pub mode : ℕ

pub record FinishedTarFile : Type 0 where
  pub name : Text
  pub local_path : Text
  pub offset : ℕ
  pub size : ℕ
  pub mode : ℕ

pub record FinishedTarPlan : Type 0 where
  pub part_names : List Text
  pub dirs : List FinishedTarDir
  pub files : List FinishedTarFile

-- The variables of the loop.
pub record Walk : Type 0 where
  pub offset : ℕ
  pub pending_pax : Records
  pub global_pax : Records
  pub pending_long_name : Text
  pub plan : FinishedTarPlan

unfoldable pub entry_name : RawTarHeader → Text → Records → Text
entry_name header long_name records =
    if null (value_of (codes "path") records)
    then if null long_name then header.name else long_name
    else value_of (codes "path") records

-- An entry's data must end within the archive, its padding included.
unfoldable pub check_end : ℕ → ℕ → ℕ → Result TarError (Unit {0})
check_end archive_size data_offset padded =
    guard (leb (data_offset + padded) archive_size) past_archive_end

-- The size of an entry and its padded size, by its record or else by its header.
unfoldable pub entry_size : ℕ → ℕ → Text → ℕ → ℕ → Result TarError (ℕ × ℕ)
unfolding check_end
entry_size archive_size data_offset [] size padded = ok (size, padded)
entry_size archive_size data_offset (b ∷ text) size padded =
    or_fail (parse_int (b ∷ text)) invalid_pax_size >>= λ parsed.
    guard (not (leb (2 ^ 63) parsed)) invalid_pax_size
    >> padded_tar_size parsed
    >>= λ parsed_padded.
        check_end archive_size data_offset parsed_padded >> ok (parsed, parsed_padded)

unfoldable pub add_part : Text → List Text → List Text
add_part part part_names =
    if any (text_eq part) part_names then part_names else part_names ++ part ∷ []

unfoldable pub with_dir : FinishedTarDir → Text → FinishedTarPlan → FinishedTarPlan
unfolding add_part
with_dir dir part plan = record plan {
  part_names = add_part part plan.part_names;
  dirs = plan.dirs ++ dir ∷ [];
}

unfoldable pub with_file : FinishedTarFile → Text → FinishedTarPlan → FinishedTarPlan
unfolding add_part
with_file file part plan = record plan {
  part_names = add_part part plan.part_names;
  files = plan.files ++ file ∷ [];
}

-- The plan with one more entry.
unfoldable pub add_entry :
    Text → ℕ → RawTarHeader → ℕ → Text → Text → FinishedTarPlan → Result TarError FinishedTarPlan
unfolding with_dir with_file
add_entry dest_root data_offset header size name part plan =
    let local_path = path_join (dest_root ∷ name ∷ []) in
    let dir : FinishedTarDir = record {
      name = name;
      local_path = local_path;
      mode = header.mode;
    } in
    let file : FinishedTarFile = record {
      name = name;
      local_path = local_path;
      offset = data_offset;
      size = size;
      mode = header.mode;
    } in
    if header.typeflag == type_dir
    then ok (with_dir dir part plan)
    else if header.typeflag == type_reg || header.typeflag == type_reg_a
    then ok (with_file file part plan)
    else err unsupported_type

-- An entry of a file or directory; `data_offset` is where its data starts.
unfoldable pub plan_entry : ℕ → Text → Walk → ℕ → RawTarHeader → ℕ → Result TarError Walk
unfolding entry_name entry_size add_entry
plan_entry archive_size dest_root w data_offset header padded =
    let records = w.pending_pax ++ w.global_pax in
    entry_size archive_size data_offset (value_of (codes "size") records) header.size padded
    >>= λ (size, padded_size).
        clean_finished_tar_entry_name (entry_name header w.pending_long_name records)
        >>= λ (name, part). add_entry dest_root data_offset header size name part w.plan >>= λ plan.
            ok (record {
              offset = data_offset + padded_size;
              pending_pax = [];
              global_pax = w.global_pax;
              pending_long_name = [];
              plan = plan;
            })

-- `bytes.TrimRight(payload, "\x00")`
unfoldable pub trim_zeros : Text → Text
trim_zeros [] = []
trim_zeros (b ∷ s) = let rest = trim_zeros s in if null rest && b == 0 then [] else b ∷ rest

-- One header and its data: an extension, or an entry.
unfoldable pub plan_header : Text → Text → Walk → ℕ → RawTarHeader → ℕ → Result TarError Walk
unfolding plan_entry trim_zeros
plan_header archive dest_root w data_offset header padded =
    let payload = slice data_offset (data_offset + header.size) archive in
    let next_offset = data_offset + padded in
    if header.typeflag == 120
    then read_pax_records payload
      >>= (λ records. ok (record w { offset = next_offset; pending_pax = records }))
    else if header.typeflag == 103
    then read_pax_records payload
      >>= (λ records. ok (record w { offset = next_offset; global_pax = records ++ w.global_pax }))
    else if header.typeflag == 76
    then ok (record w { offset = next_offset; pending_long_name = trim_zeros payload })
    else if header.typeflag == 75
    then ok (record w { offset = next_offset })
    else plan_entry (length archive) dest_root w data_offset header padded

-- The next round of the loop, or its end.
unfoldable pub plan_next : Text → Text → Walk → Result TarError (Option Walk)
unfolding plan_header check_end
plan_next archive dest_root w =
    let block = slice w.offset (w.offset + tar_block_size) archive in
    if ltb (length archive) (w.offset + tar_block_size)
    then if w.offset == length archive then ok none else err truncated_header
    else if is_zero_tar_block block
    then ok none
    else parse_raw_tar_header block >>= (λ header. padded_tar_size header.size >>= λ padded.
        check_end (length archive) (w.offset + tar_block_size) padded
        >> plan_header archive dest_root w (w.offset + tar_block_size) header padded
        >>= λ next. ok (some next))

unfoldable pub plan_more :
    Walk → Option Walk → (Walk → Result TarError (Option Walk)) → Result TarError (Option Walk)
plan_more w none go = ok (some w)
plan_more w (some next) go = go next

-- The loop, or nothing if the fuel does not last; each round takes one, and passes a header block.
unfoldable pub plan_from : ℕ → Text → Text → Walk → Result TarError (Option Walk)
unfolding plan_next plan_more
plan_from zero archive dest_root w = ok none
plan_from (suc fuel) archive dest_root w =
    plan_next archive dest_root w >>= λ next. plan_more w next (plan_from fuel archive dest_root)

abbrev pub start : Walk
start = record {
  offset = 0;
  pending_pax = [];
  global_pax = [];
  pending_long_name = [];
  plan = record { part_names = []; dirs = []; files = [] };
}

unfoldable pub sorted_plan : FinishedTarPlan → FinishedTarPlan
sorted_plan plan = record {
  part_names = sort_slice text_lt plan.part_names;
  dirs = plan.dirs;
  files = plan.files;
}

-- The fuel is enough for as many headers as there are blocks in the archive, and the end.
unfoldable pub plan_finished_tar : Text → Text → Result TarError (Option FinishedTarPlan)
unfolding plan_from sorted_plan
plan_finished_tar archive dest_root =
    plan_from (suc (length archive / tar_block_size)) archive dest_root start >>= λ found.
    ok (Option.map (λ (w : Walk). sorted_plan w.plan) found)
