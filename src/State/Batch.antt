-- ===== src/State/Batch.antt =====
-- The compaction batches of internal/state/postgres.go: how a batch is put together from claimed
-- parts, and the checks of a batch and of its output. A `uint64` sum wraps.
pub mod Laws
use partforge.Base.{
  Text, ℕ, suc, ◌+◌, ◌%◌, ◌^◌, List, [], ◌∷◌, Bool, true, false, not, ◌&&◌, ◌||◌, ltb, leb,
  if◌then◌else◌, text_eq, text_lt, is_blank, Option, none, some, Result, ok, err, ◌>>=◌, ◌>>◌,
  guard,
}
use partforge.Base.Order.{then_by, sort_slice}
use partforge.Manifest.Build.{resolve_click_house_build, default_build}
use partforge.State.Part.{
  Part, Error, bad_build, job_required, parts_required, destination_required, mixed_batch,
  bad_output, validate_part,
}
use partforge.State.Row.{has_destination}

abbrev pub u64 : ℕ → ℕ
u64 n = n % 18446744073709551616

pub record CompactBatch : Type 0 where
  pub job_id : Text
  pub parts : List Part
  pub input_part_count : ℕ
  pub input_rows : ℕ
  pub input_bytes : ℕ
  pub generation : ℕ

abbrev pub part_before : Part → Part → Bool
part_before = then_by (λ a b. text_lt a.job_id b.job_id) (λ a b. text_lt a.part_id b.part_id)

unfoldable pub parts_in_lock_order : List Part → List Part
unfolding sort_slice
parts_in_lock_order = sort_slice part_before

unfoldable pub validate_compact_batch_part : Part → Result Error (Unit {0})
validate_compact_batch_part p = do validate_part p; guard (has_destination p) destination_required

-- `manifest.ResolveClickHouseBuild` with its error dropped.
unfoldable pub build_of : Part → Text
unfolding resolve_click_house_build
build_of p = elim (resolve_click_house_build p.click_house_build) [ ok b ↦ b | err _ ↦ [] ]

abbrev pub same_destination : Part → Part → Bool
same_destination p q =
    text_eq p.destination_database q.destination_database
    && text_eq p.destination_table q.destination_table
    && text_eq p.destination_schema q.destination_schema

-- The body of the loop over the parts after the first.
unfoldable pub matches_first : Part → Part → Result Error (Unit {0})
unfolding validate_compact_batch_part build_of
matches_first first p = do
  validate_compact_batch_part p
  guard (text_eq p.job_id first.job_id) mixed_batch
  guard (text_eq (build_of p) (build_of first)) mixed_batch
  guard (text_eq p.bucket first.bucket) mixed_batch
  guard (same_destination p first) mixed_batch

all_match_first : Part → List Part → Result Error (Unit {0})
all_match_first first [] = ok tt
all_match_first first (p ∷ ps) = do matches_first first p; all_match_first first ps

unfoldable pub validate_compact_batch_parts : List Part → Result Error (Unit {0})
unfolding all_match_first
validate_compact_batch_parts [] = err parts_required
validate_compact_batch_parts (first ∷ ps) = do
  validate_compact_batch_part first
  all_match_first first ps

unfoldable pub validate_compact_batch : CompactBatch → Result Error (Unit {0})
validate_compact_batch b = elim b.parts [
  | [] ↦ err parts_required
  | first ∷ ps ↦ do
    validate_compact_batch_parts (first ∷ ps)
    guard (not (is_blank b.job_id)) job_required
    guard (text_eq b.job_id first.job_id) mixed_batch
]

-- `>=` of the `int` b and the `int` a, each as its two's complement of 64 bits.
abbrev pub int_leb : ℕ → ℕ → Bool
int_leb a b = leb (u64 (a + 9223372036854775808)) (u64 (b + 9223372036854775808))

-- The loop that sums the inputs and raises the generation, an `int` as its two's complement.
add_input : CompactBatch → Part → CompactBatch
add_input b p = record b {
  input_part_count = u64 (b.input_part_count + p.rewrite.active_part_count);
  input_rows = u64 (b.input_rows + p.rewrite.active_part_rows);
  input_bytes = u64 (b.input_bytes + p.rewrite.active_part_bytes);
  generation =
      if int_leb b.generation p.compact_generation
      then u64 (suc p.compact_generation)
      else b.generation;
}

add_inputs : CompactBatch → List Part → CompactBatch
add_inputs b [] = b
add_inputs b (p ∷ ps) = add_inputs (add_input b p) ps

unfoldable pub compact_batch_from_parts : List Part → Result Error (Option CompactBatch)
unfolding add_inputs add_input
compact_batch_from_parts [] = ok none
compact_batch_from_parts (first ∷ ps) = do
  validate_compact_batch_parts (first ∷ ps)
  let empty : CompactBatch = record {
    job_id = first.job_id;
    parts = first ∷ ps;
    input_part_count = 0;
    input_rows = 0;
    input_bytes = 0;
    generation = 0;
  }
  ok (some (add_inputs empty (first ∷ ps)))

checked_build : Part → Result Error Text
checked_build p = elim (resolve_click_house_build p.click_house_build) [
  | ok b ↦ ok b
  | err e ↦ err (bad_build e)
]

unfoldable pub validate_compact_output_for_batch : CompactBatch → Part → Result Error (Unit {0})
unfolding checked_build
validate_compact_output_for_batch b output = elim b.parts [
  | [] ↦ err parts_required
  | input ∷ _ ↦ do
    input_build ← checked_build input
    output_build ← checked_build output
    guard (text_eq output_build input_build) bad_output
    guard (text_eq output.job_id b.job_id) bad_output
    guard (text_eq output.bucket input.bucket) bad_output
    guard (same_destination output input) bad_output
]
