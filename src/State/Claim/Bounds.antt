-- ===== src/State/Claim/Bounds.antt =====
-- How large a batch `ClaimNextCompactBatch` of internal/state/postgres.go takes.
use partforge.Base.{
  ℕ, ◌+◌, ◌<◌, ◌≤◌, ◌≡◌, refl, ◌⊎◌, inl, inr, List, [], ◌∷◌, Bool, ◌&&◌, Option, some, none, ok,
  >>-eq-ok, >>=-eq-ok, arith, ltb, Bool-cases, sym, any, true, false, All, length, take, filter,
  length-take-le,
}
use partforge.State.Part.{Part}
use partforge.State.Row.{Row}
use partforge.State.Batch.{u64}
use partforge.Base.Order.{sort_slice, first_where-any}
use partforge.State.Part.{validate_part}
use partforge.State.Table.{Table}
use partforge.State.Claim.{
  CompactBatching, CompactClaimOptions, enabled, within_cap, read_parts, select_siblings,
  sibling_of, sibling_before, siblings_of_anchor, claim_normalized_siblings, fragmented_or_siblings,
  choose_parts, claims_fragmented, most_fragmented,
}

-- The bytes of parts, without a bound.
abbrev pub total_bytes : List Part → ℕ
total_bytes [] = 0
total_bytes (p ∷ ps) = p.rewrite.active_part_bytes + total_bytes ps

within_cap-total :
    (cap bytes : ℕ) (ps : List Part)
    → 0 < cap
    → bytes ≤ cap
    → All (λ (p : Part). cap + p.rewrite.active_part_bytes < 18446744073709551616) ps
    → bytes + total_bytes (within_cap cap bytes ps) ≤ cap
unfolding within_cap
within_cap-total cap bytes [] pos fits small = omega arith
within_cap-total cap bytes (p ∷ ps) pos fits (s, small) =
    let sum = u64 (bytes + p.rewrite.active_part_bytes) in
    let exact : sum ≡ bytes + p.rewrite.active_part_bytes = omega arith in
    elim (Bool-cases (ltb 0 cap && ltb cap sum)) [
      | inl e ↦ rw e (omega arith)
      | inr e ↦ rw e (omega (arith, within_cap-total cap sum ps pos (ground arith) small))
    ]

-- The candidates that a batch takes fit the cap, if there is one and no sum can wrap: then their
-- exact bytes are at most the cap.
pub within_cap-fits :
    (cap : ℕ) (ps : List Part)
    → 0 < cap
    → All (λ (p : Part). cap + p.rewrite.active_part_bytes < 18446744073709551616) ps
    → total_bytes (within_cap cap 0 ps) ≤ cap
within_cap-fits cap ps pos small = omega (arith, within_cap-total cap 0 ps pos (omega arith) small)

within_cap-length : (cap bytes : ℕ) (ps : List Part) → length (within_cap cap bytes ps) ≤ length ps
unfolding within_cap
within_cap-length cap bytes [] = omega arith
within_cap-length cap bytes (p ∷ ps) =
    let sum = u64 (bytes + p.rewrite.active_part_bytes) in
    elim (Bool-cases (ltb 0 cap && ltb cap sum)) [
      | inl e ↦ rw e (omega arith)
      | inr e ↦ rw e (omega (arith, within_cap-length cap sum ps))
    ]

read_parts-length : (rs : List Row) (ps : List Part) → read_parts rs ≡ ok ps → length ps ≡ length rs
unfolding read_parts
read_parts-length [] ps h = let same : [] ≡ ps = cc h in rw (← same) refl
read_parts-length (r ∷ rs) ps h =
    let (qs, read, last) =
      >>=-eq-ok (read_parts rs) (λ qs. ok (r.data_part ∷ qs))
        ((>>-eq-ok (validate_part r.data_part) _ h).1) in
    let same : (r.data_part ∷ qs) ≡ ps = ground arith in
    rw (← same) (omega (arith, read_parts-length rs qs read))

-- The siblings that a batch takes: none, or from two on.
Sized : CompactBatching → List Part → Type 0
Sized b ps = (ps ≡ []) ⊎ ((2 ≤ length ps) × (length ps ≤ b.max_artifacts))

select_siblings-Sized :
    (b : CompactBatching) (locked : Row → Bool) (t : Table) (anchor : Row) (ps : List Part)
    → select_siblings b locked t anchor ≡ ok ps
    → Sized b ps
unfolding select_siblings Sized
select_siblings-Sized b locked t anchor ps h =
    let rows = sort_slice sibling_before (filter (sibling_of locked anchor) t) in
    let (qs, read, last) = >>=-eq-ok (read_parts (take b.max_artifacts rows)) _ h in
    let few : length (within_cap b.max_bytes 0 qs) ≤ b.max_artifacts = omega (
      arith,
      within_cap-length b.max_bytes 0 qs,
      read_parts-length _ qs read,
      length-take-le b.max_artifacts rows,
    ) in
    elim (Bool-cases (ltb (length (within_cap b.max_bytes 0 qs)) 2)) [
      | inl e ↦ let same : [] ≡ ps = cc (rw e at last) in inl (sym same)
      | inr e ↦
          let same : within_cap b.max_bytes 0 qs ≡ ps = cc (rw e at last) in
          rw (← same) (inr (ground arith, few))
    ]

siblings_of_anchor-Sized :
    (b : CompactBatching) (locked : Row → Bool) (t : Table) (anchor : Option Row) (ps : List Part)
    → siblings_of_anchor b locked t anchor ≡ ok ps
    → Sized b ps
unfolding siblings_of_anchor Sized
siblings_of_anchor-Sized b locked t none ps h = let same : [] ≡ ps = cc h in inl (sym same)
siblings_of_anchor-Sized b locked t (some anchor) ps h =
    select_siblings-Sized b locked t anchor ps ((>>-eq-ok (validate_part anchor.data_part) _ h).1)

claim_normalized_siblings-Sized :
    (o : CompactClaimOptions) (now : ℕ) (locked : Row → Bool) (t : Table) (ps : List Part)
    → fragmented_or_siblings o now locked t none ≡ ok ps
    → Sized o.batching ps
unfolding fragmented_or_siblings claim_normalized_siblings Sized
claim_normalized_siblings-Sized o now locked t ps h = elim (Bool-cases (enabled o.batching)) [
  | inl on ↦ siblings_of_anchor-Sized o.batching locked t _ ps (rw on at h)
  | inr off ↦ let same : [] ≡ ps = cc (rw off at h) in inl (sym same)
]

-- A claim chooses one part if some fragmented part can be claimed. Otherwise it chooses none, or from
-- two parts up to the configured number: never a single normalized part.
pub choose_parts-size :
    (o : CompactClaimOptions) (now : ℕ) (locked : Row → Bool) (t : Table) (ps : List Part)
    → choose_parts o now locked t ≡ ok ps
    → ((any (claims_fragmented o now locked t) t ≡ true) × (length ps ≡ 1))
      ⊎ ((any (claims_fragmented o now locked t) t ≡ false)
          × ((ps ≡ []) ⊎ ((2 ≤ length ps) × (length ps ≤ o.batching.max_artifacts))))
unfolding choose_parts fragmented_or_siblings Sized
choose_parts-size o now locked t ps h =
    elim (first_where-any most_fragmented (claims_fragmented o now locked t) t) [
      | inl (e, none_any) ↦
          inr (none_any, claim_normalized_siblings-Sized o now locked t ps (rw e at h))
      | inr (r, e, some_any) ↦ inl (some_any, read_parts-length (r ∷ []) ps (rw e at h))
    ]
