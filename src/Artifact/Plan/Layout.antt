-- ===== src/Artifact/Plan/Layout.antt =====
-- internal/artifact/tar.go: what a plan of an archive extracts, and from where.
use partforge.Base.{
  All-snoc, Text, ℕ, List, [], ◌∷◌, ◌++◌, true, not, ok, guard, or_fail, ◌>>◌, >>=-eq-ok, >>-eq-ok,
  ◌||◌, leb, ◌==◌, ◌+◌, ◌^◌, ◌≤◌, all, All, ◌≡◌, subst, Bool-cases, inl, inr, arith, codes,
}
use partforge.Base.Paths.{slash, is_proper, path_join}
use partforge.Base.Scan.{split_byte}
use partforge.Base.Strconv.{parse_int}
use partforge.Artifact.Numbers.{invalid_pax_size, padded_tar_size, padded_tar_size-bounds}
use partforge.Artifact.Header.{type_dir, type_reg, type_reg_a, RawTarHeader}
use partforge.Artifact.Names.{clean_finished_tar_entry_name, clean_finished_tar_entry_name-proper}
use partforge.Artifact.Pax.{value_of}
use partforge.Artifact.Plan.{
  FinishedTarDir, FinishedTarFile, FinishedTarPlan, Walk, entry_name, check_end, entry_size,
  with_dir, with_file, add_entry, plan_entry,
}

-- A relative name of segments that each name a file or directory in their parent.
abbrev pub Proper : Text → Type 0
Proper name = all is_proper (split_byte slash name) ≡ true

-- The data of the files stand behind each other between two offsets.
abbrev pub Stacked : ℕ → List FinishedTarFile → ℕ → Type 0
Stacked from [] upto = from ≤ upto
Stacked from (file ∷ files) upto =
    (from ≤ file.offset) × Stacked (file.offset + file.size) files upto

-- Every name is proper, and the files are behind each other below an offset.
abbrev pub LaidOut : FinishedTarPlan → ℕ → Type 0
LaidOut plan upto =
    All (λ (dir : FinishedTarDir). Proper dir.name) plan.dirs
    × All (λ (file : FinishedTarFile). Proper file.name) plan.files
    × Stacked 0 plan.files upto

Stacked-later :
    (from : ℕ) (files : List FinishedTarFile) (upto later : ℕ)
    → upto ≤ later
    → Stacked from files upto
    → Stacked from files later
Stacked-later from [] upto later h stacked = omega (arith, stacked, h)
Stacked-later from (file ∷ files) upto later h (first, stacked) =
    (first, Stacked-later (file.offset + file.size) files upto later h stacked)

Stacked-snoc :
    (from : ℕ) (files : List FinishedTarFile) (file : FinishedTarFile) (later : ℕ)
    → file.offset + file.size ≤ later
    → Stacked from files file.offset
    → Stacked from (files ++ file ∷ []) later
Stacked-snoc from [] file later h stacked = (stacked, h)
Stacked-snoc from (f ∷ files) file later h (first, stacked) =
    (first, Stacked-snoc (f.offset + f.size) files file later h stacked)

pub LaidOut-later :
    (plan : FinishedTarPlan) (upto later : ℕ)
    → upto ≤ later
    → LaidOut plan upto
    → LaidOut plan later
LaidOut-later plan upto later h (dirs, files, stacked) =
    (dirs, files, Stacked-later 0 plan.files upto later h stacked)

with_dir-LaidOut :
    (dir : FinishedTarDir) (part : Text) (plan : FinishedTarPlan) (upto : ℕ)
    → Proper dir.name
    → LaidOut plan upto
    → LaidOut (with_dir dir part plan) upto
unfolding with_dir
with_dir-LaidOut dir part plan upto proper (dirs, files, stacked) =
    (All-snoc (λ (d : FinishedTarDir). Proper d.name) plan.dirs dir dirs proper, files, stacked)

with_file-LaidOut :
    (file : FinishedTarFile) (part : Text) (plan : FinishedTarPlan) (later : ℕ)
    → Proper file.name
    → file.offset + file.size ≤ later
    → LaidOut plan file.offset
    → LaidOut (with_file file part plan) later
unfolding with_file
with_file-LaidOut file part plan later proper fits (dirs, files, stacked) = (
  dirs,
  All-snoc (λ (f : FinishedTarFile). Proper f.name) plan.files file files proper,
  Stacked-snoc 0 plan.files file later fits stacked,
)

add_entry-LaidOut :
    (dest_root : Text) (data_offset : ℕ) (header : RawTarHeader) (size : ℕ) (name part : Text)
    (plan next : FinishedTarPlan) (later : ℕ)
    → Proper name
    → data_offset + size ≤ later
    → LaidOut plan data_offset
    → add_entry dest_root data_offset header size name part plan ≡ ok next
    → LaidOut next later
unfolding add_entry
add_entry-LaidOut dest_root data_offset header size name part plan next later proper fits laid h =
    let local_path = path_join (dest_root ∷ name ∷ []) in
    let dir : FinishedTarDir = record {
      name = name;
      local_path = local_path;
      mode = header.mode;
    } in
    let file : FinishedTarFile = record {
      name = name;
      local_path = local_path;
      offset = data_offset;
      size = size;
      mode = header.mode;
    } in
    elim (Bool-cases (header.typeflag == type_dir)) [
      | inl is_dir ↦
          let same : with_dir dir part plan ≡ next = cc (rw is_dir at h) in
          subst (λ p. LaidOut p later) same
            (with_dir-LaidOut dir part plan later proper
              (LaidOut-later plan data_offset later (omega (arith, fits)) laid))
      | inr other ↦
          elim (Bool-cases (header.typeflag == type_reg || header.typeflag == type_reg_a)) [
            | inl is_file ↦
                let same : with_file file part plan ≡ next = cc (rw (other, is_file) at h) in
                subst (λ p. LaidOut p later) same
                  (with_file-LaidOut file part plan later proper fits laid)
            | inr neither ↦ absurd (cc (rw (other, neither) at h))
          ]
    ]

pub check_end-fits :
    (archive_size data_offset padded : ℕ)
    → check_end archive_size data_offset padded ≡ ok tt
    → data_offset + padded ≤ archive_size
unfolding check_end
check_end-fits archive_size data_offset padded h = ground arith

-- A size that is accepted ends, with its padding, within the archive.
entry_size-fits :
    (archive_size data_offset : ℕ) (text : Text) (size padded : ℕ) (chosen : ℕ × ℕ)
    → size ≤ padded
    → data_offset + padded ≤ archive_size
    → entry_size archive_size data_offset text size padded ≡ ok chosen
    → (chosen.0 ≤ chosen.1) × (data_offset + chosen.1 ≤ archive_size)
unfolding entry_size
entry_size-fits archive_size data_offset [] size padded chosen below fits h =
    let same : ◌≡◌ {A = ℕ × ℕ} (size, padded) chosen = cc h in
    subst (λ (c : ℕ × ℕ). (c.0 ≤ c.1) × (data_offset + c.1 ≤ archive_size)) same (below, fits)
entry_size-fits archive_size data_offset (b ∷ text) size padded chosen below fits h =
    let (parsed, _, sized) = >>=-eq-ok (or_fail (parse_int (b ∷ text)) invalid_pax_size) _ h in
    let (parsed_padded, checked, ended) =
      >>=-eq-ok (guard (not (leb (2 ^ 63) parsed)) invalid_pax_size >> padded_tar_size parsed) _
        sized in
    let (_, pad) =
      >>-eq-ok (guard (not (leb (2 ^ 63) parsed)) invalid_pax_size) (padded_tar_size parsed)
        checked in
    let (within, given) = >>-eq-ok (check_end archive_size data_offset parsed_padded) _ ended in
    let (grows, _, _, _) = padded_tar_size-bounds parsed parsed_padded pad in
    let same : ◌≡◌ {A = ℕ × ℕ} (parsed, parsed_padded) chosen = cc given in
    subst (λ (c : ℕ × ℕ). (c.0 ≤ c.1) × (data_offset + c.1 ≤ archive_size)) same
      (grows, check_end-fits archive_size data_offset parsed_padded within)

-- An invariant of the loop.
abbrev pub WalkLaidOut : ℕ → Walk → Type 0
WalkLaidOut archive_size w = (w.offset ≤ archive_size) × LaidOut w.plan w.offset

pub plan_entry-LaidOut :
    (archive_size : ℕ) (dest_root : Text) (w next : Walk) (data_offset : ℕ) (header : RawTarHeader)
    (padded : ℕ)
    → w.offset ≤ data_offset
    → header.size ≤ padded
    → data_offset + padded ≤ archive_size
    → LaidOut w.plan w.offset
    → plan_entry archive_size dest_root w data_offset header padded ≡ ok next
    → (data_offset ≤ next.offset) × WalkLaidOut archive_size next
unfolding plan_entry
plan_entry-LaidOut archive_size dest_root w next data_offset header padded ahead below fits laid h =
    let records = w.pending_pax ++ w.global_pax in
    let (sizes, sized, named) =
      >>=-eq-ok
        (entry_size archive_size data_offset (value_of (codes "size") records) header.size padded) _
        h in
    let (names, cleaned, added) =
      >>=-eq-ok (clean_finished_tar_entry_name (entry_name header w.pending_long_name records)) _
        named in
    let (plan, entered, last) =
      >>=-eq-ok (add_entry dest_root data_offset header sizes.0 names.0 names.1 w.plan) _ added in
    let (padding, within) =
      entry_size-fits archive_size data_offset _ header.size padded sizes below fits sized in
    let (_, proper, _) = clean_finished_tar_entry_name-proper _ names.0 names.1 cleaned in
    let planned : LaidOut plan (data_offset + sizes.1) =
      add_entry-LaidOut dest_root data_offset header sizes.0 names.0 names.1 w.plan plan
        (data_offset + sizes.1) proper (omega (arith, padding))
        (LaidOut-later w.plan w.offset data_offset ahead laid) entered in
    let built : Walk = record w {
      offset = data_offset + sizes.1;
      pending_pax = [];
      pending_long_name = [];
      plan = plan;
    } in
    let same : built ≡ next = cc last in
    subst (λ (x : Walk). (data_offset ≤ x.offset) × WalkLaidOut archive_size x) same
      (omega arith, (within, planned))
