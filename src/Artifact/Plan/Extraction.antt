-- ===== src/Artifact/Plan/Extraction.antt =====
-- internal/artifact/tar.go: the plan of a whole archive.
use partforge.Base.{
  Text, ℕ, zero, suc, ◌++◌, none, some, ok, ◌>>◌, >>=-eq-ok, >>-eq-ok, ltb, ◌==◌, ◌+◌, ◌*◌, ◌/◌,
  ◌≤◌, ◌<◌, length, ◌≡◌, ◌≢◌, refl, sym, subst, Bool-cases, Option-cases, inl, inr, arith,
}
use partforge.Artifact.Numbers.{tar_block_size, padded_tar_size, padded_tar_size-bounds}
use partforge.Artifact.Header.{RawTarHeader, slice, is_zero_tar_block, parse_raw_tar_header}
use partforge.Artifact.Pax.{read_pax_records}
use partforge.Artifact.Plan.{
  FinishedTarPlan, Walk, check_end, trim_zeros, plan_header, plan_next, plan_more, plan_from,
  sorted_plan, start, plan_finished_tar,
}
use partforge.Artifact.Plan.Layout.{
  WalkLaidOut, LaidOut, LaidOut-later, plan_entry-LaidOut, check_end-fits,
}

-- What a round keeps and moves on: at least to `data_offset`.
abbrev Passed : ℕ → ℕ → Walk → Type 0
Passed archive_size data_offset next = (data_offset ≤ next.offset) × WalkLaidOut archive_size next

moved :
    (archive_size data_offset padded : ℕ) (w next : Walk)
    → w.offset ≤ data_offset
    → data_offset + padded ≤ archive_size
    → LaidOut w.plan w.offset
    → next.offset ≡ data_offset + padded
    → next.plan ≡ w.plan
    → Passed archive_size data_offset next
moved archive_size data_offset padded w next ahead fits laid offset plan =
    let unchanged : LaidOut next.plan w.offset = subst (λ p. LaidOut p w.offset) (sym plan) laid in
    (
      omega (arith, offset),
      (
        omega (arith, offset, fits),
        LaidOut-later next.plan w.offset next.offset (omega (arith, offset, ahead)) unchanged,
      ),
    )

plan_header-Passed :
    (archive dest_root : Text) (w next : Walk) (data_offset : ℕ) (header : RawTarHeader)
    (padded : ℕ)
    → w.offset ≤ data_offset
    → header.size ≤ padded
    → data_offset + padded ≤ length archive
    → LaidOut w.plan w.offset
    → plan_header archive dest_root w data_offset header padded ≡ ok next
    → Passed (length archive) data_offset next
unfolding plan_header
plan_header-Passed archive dest_root w next data_offset header padded ahead below fits laid h =
    let payload = slice data_offset (data_offset + header.size) archive in
    let kept : (built : Walk)
        → built ≡ next
        → built.offset ≡ data_offset + padded
        → built.plan ≡ w.plan
        → Passed (length archive) data_offset next =
      λ built same offset plan.
        subst (Passed (length archive) data_offset) same
          (moved (length archive) data_offset padded w built ahead fits laid offset plan) in
    elim (Bool-cases (header.typeflag == 120)) [
      | inl e ↦
          let (records, _, last) = >>=-eq-ok (read_pax_records payload) _ (rw e at h) in
          kept (record w { offset = data_offset + padded; pending_pax = records }) (cc last) refl
            refl
      | inr e ↦ elim (Bool-cases (header.typeflag == 103)) [
        | inl f ↦
            let (records, _, last) = >>=-eq-ok (read_pax_records payload) _ (rw (e, f) at h) in
            kept (record w { offset = data_offset + padded; global_pax = records ++ w.global_pax })
              (cc last) refl refl
        | inr f ↦ elim (Bool-cases (header.typeflag == 76)) [
          | inl g ↦
              kept
                (record w { offset = data_offset + padded; pending_long_name = trim_zeros payload })
                (cc (rw (e, f, g) at h)) refl refl
          | inr g ↦ elim (Bool-cases (header.typeflag == 75)) [
            | inl k ↦
                kept (record w { offset = data_offset + padded }) (cc (rw (e, f, g, k) at h)) refl
                  refl
            | inr k ↦
                plan_entry-LaidOut (length archive) dest_root w next data_offset header padded ahead
                  below fits laid (rw (e, f, g, k) at h)
          ]
        ]
      ]
    ]

plan_next-Passed :
    (archive dest_root : Text) (w next : Walk)
    → WalkLaidOut (length archive) w
    → plan_next archive dest_root w ≡ ok (some next)
    → Passed (length archive) (w.offset + tar_block_size) next
unfolding plan_next
plan_next-Passed archive dest_root w next (inside, laid) h =
    let block = slice w.offset (w.offset + tar_block_size) archive in
    elim (Bool-cases (ltb (length archive) (w.offset + tar_block_size))) [
      | inl e ↦ elim (Bool-cases (w.offset == length archive)) [
        | inl f ↦ absurd (cc (rw (e, f) at h))
        | inr f ↦ absurd (cc (rw (e, f) at h))
      ]
      | inr e ↦ elim (Bool-cases (is_zero_tar_block block)) [
        | inl f ↦ absurd (cc (rw (e, f) at h))
        | inr f ↦
            let (header, _, padding) = >>=-eq-ok (parse_raw_tar_header block) _ (rw (e, f) at h) in
            let (padded, pad, checked) = >>=-eq-ok (padded_tar_size header.size) _ padding in
            let (found, passed, last) =
              >>=-eq-ok
                (check_end (length archive) (w.offset + tar_block_size) padded
                  >> plan_header archive dest_root w (w.offset + tar_block_size) header padded)
                _ checked in
            let (within, planned) =
              >>-eq-ok (check_end (length archive) (w.offset + tar_block_size) padded) _ passed in
            let (grows, _, _, _) = padded_tar_size-bounds header.size padded pad in
            let same : found ≡ next = cc last in
            subst (Passed (length archive) (w.offset + tar_block_size)) same (
              plan_header-Passed archive dest_root w found (w.offset + tar_block_size) header padded
                (omega arith) grows
                (check_end-fits (length archive) (w.offset + tar_block_size) padded within) laid
                planned)
      ]
    ]

plan_from-LaidOut :
    (fuel : ℕ) (archive dest_root : Text) (w last : Walk)
    → WalkLaidOut (length archive) w
    → plan_from fuel archive dest_root w ≡ ok (some last)
    → WalkLaidOut (length archive) last
unfolding plan_from plan_more
plan_from-LaidOut zero archive dest_root w last laid h = absurd (cc h)
plan_from-LaidOut (suc fuel) archive dest_root w last laid h =
    let (found, round, more) = >>=-eq-ok (plan_next archive dest_root w) _ h in
    elim (Option-cases found) [
      | inl e ↦
          let same : w ≡ last = cc (rw e at more) in subst (WalkLaidOut (length archive)) same laid
      | inr (next, e) ↦
          let (_, kept) = plan_next-Passed archive dest_root w next laid (rw e at round) in
          plan_from-LaidOut fuel archive dest_root next last kept (rw e at more)
    ]

-- The loop takes no more rounds than there are blocks left, and one.
plan_from-lasts :
    (fuel : ℕ) (archive dest_root : Text) (w : Walk)
    → WalkLaidOut (length archive) w
    → length archive < w.offset + fuel * tar_block_size
    → plan_from fuel archive dest_root w ≢ ok none
unfolding plan_from plan_more
plan_from-lasts zero archive dest_root w (inside, _) enough h =
    absurd (omega (arith, inside, enough))
plan_from-lasts (suc fuel) archive dest_root w laid enough h =
    let (found, round, more) = >>=-eq-ok (plan_next archive dest_root w) _ h in
    elim (Option-cases found) [
      | inl e ↦ absurd (cc (rw e at more))
      | inr (next, e) ↦
          let (ahead, kept) = plan_next-Passed archive dest_root w next laid (rw e at round) in
          plan_from-lasts fuel archive dest_root next kept (omega (arith, ahead, enough))
            (rw e at more)
    ]

-- Planning ends for every archive, with a plan or an error: the fuel lasts.
pub plan_finished_tar-ends :
    (archive dest_root : Text) → plan_finished_tar archive dest_root ≢ ok none
unfolding plan_finished_tar
plan_finished_tar-ends archive dest_root h =
    let (found, ran, last) =
      >>=-eq-ok (plan_from (suc (length archive / tar_block_size)) archive dest_root start) _ h in
    elim (Option-cases found) [
      | inl e ↦
          plan_from-lasts (suc (length archive / tar_block_size)) archive dest_root start
            (omega arith, (tt, tt, omega arith)) (omega arith) (rw e at ran)
      | inr (w, e) ↦ absurd (cc (rw e at last))
    ]

-- What a plan extracts: names of proper segments only, and the data of one file behind that of
-- another, within the archive.
pub plan_finished_tar-LaidOut :
    (archive dest_root : Text) (plan : FinishedTarPlan)
    → plan_finished_tar archive dest_root ≡ ok (some plan)
    → LaidOut plan (length archive)
unfolding plan_finished_tar sorted_plan
plan_finished_tar-LaidOut archive dest_root plan h =
    let (found, ran, last) =
      >>=-eq-ok (plan_from (suc (length archive / tar_block_size)) archive dest_root start) _ h in
    elim (Option-cases found) [
      | inl e ↦ absurd (cc (rw e at last))
      | inr (w, e) ↦
          let (inside, laid) =
            plan_from-LaidOut (suc (length archive / tar_block_size)) archive dest_root start w
              (omega arith, (tt, tt, omega arith)) (rw e at ran) in
          let same : sorted_plan w.plan ≡ plan = cc (rw e at last) in
          subst (λ p. LaidOut p (length archive)) same
            (LaidOut-later w.plan w.offset (length archive) inside laid)
    ]
