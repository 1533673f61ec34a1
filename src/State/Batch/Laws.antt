-- ===== src/State/Batch/Laws.antt =====
-- What a batch of internal/state/postgres.go promises of its parts.
use partforge.Base.{
  ◌<◌, ◌≤◌, ◌≡◌, refl, sym, subst, ◌∙◌, ap, inl, inr, List, [], ◌∷◌, true, some, ok, guard,
  >>-eq-ok, arith, Bool-cases, All, text_eq, text_eq_iff,
}
use partforge.State.Part.{Part, mixed_batch}
use partforge.State.Batch.{
  CompactBatch, int_leb, add_input, add_inputs, compact_batch_from_parts,
  validate_compact_batch_parts, validate_compact_batch_part, all_match_first, matches_first,
  same_destination, build_of,
}

-- A generation that can be raised without a wrap of its `int`.
abbrev Raisable : Part → Type 0
Raisable p = p.compact_generation < 9223372036854775807

add_input-generation :
    (b : CompactBatch) (p : Part)
    → b.generation < 9223372036854775808
    → Raisable p
    → (b.generation ≤ (add_input b p).generation)
      × (p.compact_generation < (add_input b p).generation)
      × ((add_input b p).generation < 9223372036854775808)
unfolding add_input
add_input-generation b p small raisable =
    elim (Bool-cases (int_leb b.generation p.compact_generation)) [
      | inl e ↦ rw e (ground arith, ground arith, ground arith)
      | inr e ↦ rw e (ground arith, ground arith, ground arith)
    ]

add_inputs-generation :
    (b : CompactBatch) (ps : List Part)
    → b.generation < 9223372036854775808
    → All Raisable ps
    → (b.generation ≤ (add_inputs b ps).generation)
      × All (λ (p : Part). p.compact_generation < (add_inputs b ps).generation) ps
unfolding add_inputs
add_inputs-generation b [] small raisable = (omega arith, tt)
add_inputs-generation b (p ∷ ps) small (raisable, rest) =
    let (more, over, next) = add_input-generation b p small raisable in
    let (above, each) = add_inputs-generation (add_input b p) ps next rest in
    (omega arith, (omega arith, each))

-- Each part agrees with the first in what the output takes from its inputs.
abbrev Agrees : Part → Part → Type 0
Agrees first p =
    (p.job_id ≡ first.job_id)
    × (p.bucket ≡ first.bucket)
    × (build_of p ≡ build_of first)
    × (same_destination p first ≡ true)

matches_first-Agrees :
    (first p : Part)
    → matches_first first p ≡ ok tt
    → Agrees first p × (validate_compact_batch_part p ≡ ok tt)
unfolding matches_first
matches_first-Agrees first p h =
    let (valid, h1) = >>-eq-ok (validate_compact_batch_part p) _ h in
    let (job, h2) = >>-eq-ok (guard (text_eq p.job_id first.job_id) mixed_batch) _ h1 in
    let (build, h3) = >>-eq-ok (guard (text_eq (build_of p) (build_of first)) mixed_batch) _ h2 in
    let (bucket, h4) = >>-eq-ok (guard (text_eq p.bucket first.bucket) mixed_batch) _ h3 in
    (
      (
        (text_eq_iff p.job_id first.job_id).0 (ground arith),
        (text_eq_iff p.bucket first.bucket).0 (ground arith),
        (text_eq_iff (build_of p) (build_of first)).0 (ground arith),
        ground arith,
      ),
      valid,
    )

all_match_first-Agrees :
    (first : Part) (ps : List Part) → all_match_first first ps ≡ ok tt → All (Agrees first) ps
unfolding all_match_first
all_match_first-Agrees first [] h = tt
all_match_first-Agrees first (p ∷ ps) h =
    let (m, rest) = >>-eq-ok (matches_first first p) _ h in
    ((matches_first-Agrees first p m).0, all_match_first-Agrees first ps rest)

add_inputs-parts :
    (b : CompactBatch) (ps : List Part)
    → ((add_inputs b ps).parts ≡ b.parts) × ((add_inputs b ps).job_id ≡ b.job_id)
unfolding add_inputs add_input
add_inputs-parts b [] = (refl, refl)
add_inputs-parts b (p ∷ ps) = add_inputs-parts (add_input b p) ps

-- A batch that is put together from parts has those parts, they agree with the first of them in the
-- job, the bucket, the build and the destination, and the batch's generation is above each of theirs.
-- The generations must be ones of the `int` range that are not negative and not its largest.
pub compact_batch_from_parts-agrees :
    (first : Part) (ps : List Part) (b : CompactBatch)
    → All (λ (p : Part). p.compact_generation < 9223372036854775807) (first ∷ ps)
    → compact_batch_from_parts (first ∷ ps) ≡ ok (some b)
    → (b.parts ≡ (first ∷ ps))
      × (b.job_id ≡ first.job_id)
      × All
          (λ p.
            (p.job_id ≡ first.job_id)
            × (p.bucket ≡ first.bucket)
            × (build_of p ≡ build_of first)
            × (same_destination p first ≡ true))
          ps
      × All (λ (p : Part). p.compact_generation < b.generation) (first ∷ ps)
unfolding compact_batch_from_parts validate_compact_batch_parts
compact_batch_from_parts-agrees first ps b raisable h =
    let empty : CompactBatch = record {
      job_id = first.job_id;
      parts = first ∷ ps;
      input_part_count = 0;
      input_rows = 0;
      input_bytes = 0;
      generation = 0;
    } in
    let (valid, last) = >>-eq-ok (validate_compact_batch_parts (first ∷ ps)) _ h in
    let (_, agree) = >>-eq-ok (validate_compact_batch_part first) _ valid in
    let same : add_inputs empty (first ∷ ps) ≡ b = cc last in
    let (parts, job) = add_inputs-parts empty (first ∷ ps) in
    (
      sym (ap (λ (x : CompactBatch). x.parts) same) ∙ parts,
      sym (ap (λ (x : CompactBatch). x.job_id) same) ∙ job,
      all_match_first-Agrees first ps agree,
      subst
          (λ (x : CompactBatch).
            All (λ (p : Part). p.compact_generation < x.generation) (first ∷ ps))
          same (add_inputs-generation empty (first ∷ ps) (omega arith) raisable).1,
    )
