-- ===== src/Insert/Chunks.antt =====
-- The chunks of an insert: `insertChunkCount` of internal/rewrite/insert_chunks.go, and the bounds that
-- the loop of `runInsertSelectWithRetries` of internal/rewrite/processor.go gives to each chunk. No
-- bound is above the number of rows, so no `uint64` sum wraps.
use Prim.Native.Nat.{min, max}
use partforge.Base.{
  ℕ, zero, suc, ◌+◌, ◌*◌, ◌/◌, ◌%◌, ◌≤◌, ◌<◌, ◌≡◌, refl, subst, ◌⊎◌, inl, inr, List, [], ◌∷◌, ltb,
  ◌==◌, if◌then◌else◌, arith, Bool-cases,
}

-- `max(uint64(1), min(uint64(20), rows/minRows))`
unfoldable pub insert_chunk_count : ℕ → ℕ → ℕ
insert_chunk_count rows min_rows = if min_rows == 0 then 1 else max 1 (min 20 (rows / min_rows))

-- The end of the chunk that starts at `start`.
unfoldable pub chunk_end : ℕ → ℕ → ℕ → ℕ → ℕ
chunk_end rows chunks chunk start =
    (start + rows / chunks) + (if ltb chunk (rows % chunks) then 1 else 0)

-- The ranges of the chunks from one on, as many as are left, and the end of the last.
unfoldable pub ranges_from : ℕ → ℕ → ℕ → ℕ → ℕ → List (ℕ × ℕ) × ℕ
unfolding chunk_end
ranges_from rows chunks zero chunk start = ([], start)
ranges_from rows chunks (suc left) chunk start =
    let end = chunk_end rows chunks chunk start in
    let rest = ranges_from rows chunks left (suc chunk) end in ((start, end) ∷ rest.0, rest.1)

unfoldable pub insert_ranges : ℕ → ℕ → List (ℕ × ℕ) × ℕ
unfolding ranges_from
insert_ranges rows min_rows =
    let chunks = insert_chunk_count rows min_rows in ranges_from rows chunks chunks 0 0

-- Each range starts where the one before it ends.
abbrev pub Tiles : ℕ → List (ℕ × ℕ) → ℕ → Type 0
Tiles start [] end = start ≡ end
Tiles start ((a, b) ∷ ranges) end = (a ≡ start) × (a ≤ b) × Tiles b ranges end

chunk_end-le : (rows chunks chunk start : ℕ) → start ≤ chunk_end rows chunks chunk start
unfolding chunk_end
chunk_end-le rows chunks chunk start = elim (Bool-cases (ltb chunk (rows % chunks))) [
  | inl e ↦ rw e (omega arith)
  | inr e ↦ rw e (omega arith)
]

chunk_end_lem :
    (rows chunks chunk start : ℕ)
    → ((chunk < rows % chunks) × (chunk_end rows chunks chunk start ≡ (start + rows / chunks) + 1))
      ⊎ ((rows % chunks ≤ chunk) × (chunk_end rows chunks chunk start ≡ start + rows / chunks))
unfolding chunk_end
chunk_end_lem rows chunks chunk start = elim (Bool-cases (ltb chunk (rows % chunks))) [
  | inl e ↦ inl (ground arith, rw e (omega arith))
  | inr e ↦ inr (ground arith, rw e (omega arith))
]

ranges_from-Tiles :
    (rows chunks left chunk start : ℕ)
    → Tiles start
        (ranges_from rows chunks left chunk start).0
        (ranges_from rows chunks left chunk start).1
unfolding ranges_from
ranges_from-Tiles rows chunks zero chunk start = refl
ranges_from-Tiles rows chunks (suc left) chunk start = (
  refl,
  chunk_end-le rows chunks chunk start,
  ranges_from-Tiles rows chunks left (suc chunk) (chunk_end rows chunks chunk start),
)

-- One more row for each chunk below the remainder.
ranges_from-end :
    (rows chunks left chunk start : ℕ)
    → (ranges_from rows chunks left chunk start).1 + min chunk (rows % chunks)
      ≡ (start + left * (rows / chunks)) + min (chunk + left) (rows % chunks)
unfolding ranges_from chunk_end
ranges_from-end rows chunks zero chunk start = omega arith
ranges_from-end rows chunks (suc left) chunk start =
    let ih = ranges_from-end rows chunks left (suc chunk) (chunk_end rows chunks chunk start) in
    let product : suc left * (rows / chunks) ≡ rows / chunks + left * (rows / chunks) =
      grind arith in
    elim (chunk_end_lem rows chunks chunk start) [
      | inl (below, step) ↦ omega (arith, ih, product, below, step)
      | inr (above, step) ↦ omega (arith, ih, product, above, step)
    ]

insert_chunk_count_pos : (rows min_rows : ℕ) → 0 < insert_chunk_count rows min_rows
unfolding insert_chunk_count
insert_chunk_count_pos rows min_rows = ground arith

-- The chunks of an insert cover the rows of the source once each and in order: the first starts at row
-- 0, each starts where the one before it ends, and the last ends at the number of rows.
pub insert_ranges-Tiles : (rows min_rows : ℕ) → Tiles 0 (insert_ranges rows min_rows).0 rows
unfolding insert_ranges
insert_ranges-Tiles rows min_rows =
    let chunks = insert_chunk_count rows min_rows in
    let end = ranges_from-end rows chunks chunks 0 0 in
    let whole : rows ≡ chunks * (rows / chunks) + rows % chunks = omega arith in
    let small : rows % chunks < chunks = omega (arith, insert_chunk_count_pos rows min_rows) in
    let last : (ranges_from rows chunks chunks 0 0).1 ≡ rows = omega (arith, end, whole, small) in
    subst (Tiles 0 (ranges_from rows chunks chunks 0 0).0) last
      (ranges_from-Tiles rows chunks chunks 0 0)
