-- ===== src/Rewrite/Normalizing/Settled.antt =====
-- internal/rewrite/compactor.go: when the wait for the merges of an input ends well.
use partforge.Base.{
  ℕ, zero, suc, List, [], ◌∷◌, Bool, true, false, not, Result, ok, guard, >>-eq-ok, ◌&&◌, ◌||◌, ltb,
  leb, ◌==◌, ◌+◌, ◌^◌, ◌≤◌, ◌<◌, ◌≡◌, ◌≢◌, ◌↔◌, ◌⊎◌, refl, subst, sym, ap, ◌∙◌, arith, Bool-cases,
  inl, inr,
}
use partforge.Rewrite.Normalizing.{
  Round, NormalizeError, negative_wait, answered, memory_limited, failed, Progress, observe,
  is_quiet, return_or, poll, Settles, compact_merge_settle_min_wait, normalize_compact_input,
}
use partforge.Rewrite.Partitions.{
  PartPartitionStats, summarize_part_partitions, compact_partitions_normalized,
}

observe-moved :
    (merges parts now : ℕ) (st : Progress)
    → (0 < merges) ⊎ (parts ≢ st.last_parts)
    → observe merges parts now st ≡ record { last_parts = parts; last_progress_at = now }
unfolding observe
observe-moved merges parts now st moved =
    let changed : (not (parts == st.last_parts) || ltb 0 merges) ≡ true = elim moved [
      | inl some_merge ↦ ground (arith, some_merge)
      | inr other ↦ ground (arith, other)
    ] in
    rw changed refl

observe-still :
    (parts now : ℕ) (st : Progress) → parts ≡ st.last_parts → observe 0 parts now st ≡ st
unfolding observe
observe-still parts now st same =
    let unchanged : (not (parts == st.last_parts) || ltb 0 0) ≡ false = ground (arith, same) in
    rw unchanged refl

is_quiet-le :
    (timeout now : ℕ) (st : Progress)
    → is_quiet timeout now st ≡ true
    → st.last_progress_at + timeout ≤ now
unfolding is_quiet
is_quiet-le timeout now st h = ground arith

le-is_quiet :
    (timeout now : ℕ) (st : Progress)
    → st.last_progress_at + timeout ≤ now
    → is_quiet timeout now st ≡ true
unfolding is_quiet
le-is_quiet timeout now st h = ground arith

return_or-ok :
    (a b : Bool) (rest : Result NormalizeError (Unit {0}))
    → return_or a b rest ≡ ok tt
    → (a ≡ true) ⊎ ((b ≡ true) ⊎ (rest ≡ ok tt))
unfolding return_or
return_or-ok true b rest h = inl refl
return_or-ok false true rest h = inr (inl refl)
return_or-ok false false rest h = inr (inr h)

return_or-first :
    (a b : Bool) (rest : Result NormalizeError (Unit {0})) → a ≡ true → return_or a b rest ≡ ok tt
unfolding return_or
return_or-first a b rest h = rw h refl

return_or-rest :
    (a b : Bool) (rest : Result NormalizeError (Unit {0}))
    → (b ≡ true) ⊎ (rest ≡ ok tt)
    → return_or a b rest ≡ ok tt
unfolding return_or
return_or-rest true b rest h = refl
return_or-rest false true rest h = refl
return_or-rest false false rest (inl h) = absurd (cc h)
return_or-rest false false rest (inr h) = h

abbrev pub counted : List PartPartitionStats → ℕ
counted partitions = (summarize_part_partitions partitions).count

poll-Settles :
    (input : List PartPartitionStats) (timeout : ℕ) (st : Progress) (rounds : List Round)
    → 0 < timeout
    → poll input timeout st rounds ≡ ok tt
    → Settles input timeout st.last_parts st.last_progress_at rounds
unfolding poll
poll-Settles input timeout st [] some_wait h = absurd (cc h)
poll-Settles input timeout st (memory_limited ∷ rounds) some_wait h =
    Settles.limited _ _ rounds (poll-Settles input timeout st rounds some_wait h)
poll-Settles input timeout st (failed ∷ rounds) some_wait h = absurd (cc h)
poll-Settles input timeout st (answered (suc merges) partitions now ∷ rounds) some_wait h =
    let before : Progress = observe (suc merges) (counted partitions) now st in
    let seen : Progress = record { last_parts = counted partitions; last_progress_at = now } in
    let moved : before ≡ seen =
      observe-moved (suc merges) (counted partitions) now st (inl (omega arith)) in
    Settles.moving _ _ (suc merges) partitions now rounds (inl (omega arith))
      (elim (return_or-ok (suc merges == 0 && compact_partitions_normalized input partitions)
        (suc merges == 0 && is_quiet timeout now before) (poll input timeout before rounds) h) [
          | inl bad ↦ absurd (ground (arith, bad))
          | inr (inl bad) ↦ absurd (ground (arith, bad))
          | inr (inr rest) ↦
              poll-Settles input timeout seen rounds some_wait
                (subst (λ s. poll input timeout s rounds ≡ ok tt) moved rest)
        ])
poll-Settles input timeout st (answered zero partitions now ∷ rounds) some_wait h =
    let before : Progress = observe 0 (counted partitions) now st in
    elim (return_or-ok (0 == 0 && compact_partitions_normalized input partitions)
      (0 == 0 && is_quiet timeout now before) (poll input timeout before rounds) h) [
        | inl done ↦ Settles.normalized _ _ partitions now rounds done
        | inr later ↦ elim (Bool-cases (counted partitions == st.last_parts)) [
          | inl e ↦
              let same : counted partitions ≡ st.last_parts = ground (arith, e) in
              let kept : before ≡ st = observe-still (counted partitions) now st same in
              elim later [
                | inl enough ↦
                    Settles.quiet _ _ partitions now rounds same
                      (is_quiet-le timeout now st (ap (is_quiet timeout now) (sym kept) ∙ enough))
                | inr rest ↦ Settles.still _ _ partitions now rounds same (
                    poll-Settles input timeout st rounds some_wait
                      (subst (λ s. poll input timeout s rounds ≡ ok tt) kept rest))
              ]
          | inr e ↦
              let other : counted partitions ≢ st.last_parts = λ same. ground (arith, e, same) in
              let seen : Progress = record {
                last_parts = counted partitions;
                last_progress_at = now;
              } in
              let moved : before ≡ seen = observe-moved 0 (counted partitions) now st (inr other) in
              elim later [
                | inl enough ↦
                    let late : now + timeout ≤ now =
                      is_quiet-le timeout now seen
                        (ap (is_quiet timeout now) (sym moved) ∙ enough) in
                    absurd (omega (arith, late, some_wait))
                | inr rest ↦ Settles.moving _ _ 0 partitions now rounds (inr other) (
                    poll-Settles input timeout seen rounds some_wait
                      (subst (λ s. poll input timeout s rounds ≡ ok tt) moved rest))
              ]
        ]
      ]

Settles-poll :
    (input : List PartPartitionStats) (timeout parts since : ℕ) (rounds : List Round)
    → Settles input timeout parts since rounds
    → poll input timeout (record { last_parts = parts; last_progress_at = since }) rounds ≡ ok tt
unfolding poll
Settles-poll input timeout parts since _ (Settles.normalized _ _ partitions now rounds h) =
    let before : Progress =
      observe 0 (counted partitions) now
        (record { last_parts = parts; last_progress_at = since }) in
    return_or-first (0 == 0 && compact_partitions_normalized input partitions)
      (0 == 0 && is_quiet timeout now before) (poll input timeout before rounds) h
Settles-poll input timeout parts since _ (Settles.quiet _ _ partitions now rounds same enough) =
    let st : Progress = record { last_parts = parts; last_progress_at = since } in
    let kept : observe 0 (counted partitions) now st ≡ st =
      observe-still (counted partitions) now st same in
    return_or-rest (0 == 0 && compact_partitions_normalized input partitions)
      (0 == 0 && is_quiet timeout now (observe 0 (counted partitions) now st))
      (poll input timeout (observe 0 (counted partitions) now st) rounds)
      (inl (ap (is_quiet timeout now) kept ∙ le-is_quiet timeout now st enough))
Settles-poll input timeout parts since _ (Settles.limited _ _ rounds later) =
    Settles-poll input timeout parts since rounds later
Settles-poll input timeout parts since _ (Settles.still _ _ partitions now rounds same later) =
    let st : Progress = record { last_parts = parts; last_progress_at = since } in
    let kept : observe 0 (counted partitions) now st ≡ st =
      observe-still (counted partitions) now st same in
    return_or-rest (0 == 0 && compact_partitions_normalized input partitions)
      (0 == 0 && is_quiet timeout now (observe 0 (counted partitions) now st))
      (poll input timeout (observe 0 (counted partitions) now st) rounds)
      (inr (
        ap (λ s. poll input timeout s rounds) kept
        ∙ Settles-poll input timeout parts since rounds later))
Settles-poll input timeout parts since _
      (Settles.moving _ _ merges partitions now rounds moved later) =
    let st : Progress = record { last_parts = parts; last_progress_at = since } in
    return_or-rest (merges == 0 && compact_partitions_normalized input partitions)
      (merges == 0 && is_quiet timeout now (observe merges (counted partitions) now st))
      (poll input timeout (observe merges (counted partitions) now st) rounds)
      (inr (
        ap (λ s. poll input timeout s rounds)
          (observe-moved merges (counted partitions) now st moved)
        ∙ Settles-poll input timeout (counted partitions) now rounds later))

settle_wait-bounds :
    (wait : ℕ)
    → wait < 2 ^ 63
    → (0 < compact_merge_settle_min_wait wait)
      × (leb (2 ^ 63) (compact_merge_settle_min_wait wait) ≡ false)
unfolding compact_merge_settle_min_wait
settle_wait-bounds wait small = ground arith

-- The wait for the merges of an input ends well exactly when a round without merges finds one part
-- in each partition, or the rounds were still for the wait, which is five minutes if none is given.
pub normalize_compact_input-Settles :
    (wait : ℕ) (input : List PartPartitionStats) (started_at : ℕ) (rounds : List Round)
    → wait < 2 ^ 63
    → (normalize_compact_input wait input started_at rounds ≡ ok tt)
      ↔ Settles input (compact_merge_settle_min_wait wait) (counted input) started_at rounds
unfolding normalize_compact_input
normalize_compact_input-Settles wait input started_at rounds small =
    let timeout : ℕ = compact_merge_settle_min_wait wait in
    let start : Progress = record { last_parts = counted input; last_progress_at = started_at } in
    let (positive, signed) = settle_wait-bounds wait small in
    (
      λ h.
          let (_, polled) =
            >>-eq-ok (guard (not (leb (2 ^ 63) timeout)) negative_wait)
              (poll input timeout start rounds) h in
          poll-Settles input timeout start rounds positive polled,
      λ settles. rw signed (Settles-poll input timeout (counted input) started_at rounds settles),
    )
