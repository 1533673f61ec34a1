-- ===== src/State/Upkeep/Spacing.antt =====
-- How often the maintenance of internal/state/maintenance.go runs, and that it is sound.
use partforge.Base.{
  Text, ℕ, ◌+◌, ◌<◌, ◌≡◌, refl, sym, subst, ◌∙◌, ap, ◌⊎◌, inl, inr, [], Bool, true, false, ltb, ok,
  >>=-eq-ok, arith, Bool-cases, some,
}
use partforge.State.Part.{Clock}
use partforge.State.Row.{Row}
use partforge.State.Table.{Table, find}
use partforge.State.Claim.{CompactBatching}
use partforge.State.Upkeep.{
  Store, spacing, reserves, release_if_timed, maintain_parts, maintain_compaction,
}
use partforge.State.Lifecycle.Changes.{Changes, Changes-refl}
use partforge.State.Upkeep.Settling.{settles, maintain_parts-Changes}
use partforge.State.Lifecycle.Sound.{Inv, Sound, Sound-refl, Sound-trans}
use partforge.State.Lifecycle.Saves.{release_stale_compacting_parts-Sound}
use partforge.State.Lifecycle.Finalizing.{finalize_compact_ready-Sound}

module _ (c : Clock) (locked : Row → Bool) (window stale_after : ℕ) (b : CompactBatching) where
  release_if_timed-Sound :
      (now : ℕ) (t t' : Table) → release_if_timed c locked now stale_after t ≡ ok t' → Sound c t t'
  unfolding release_if_timed
  release_if_timed-Sound now t t' h = elim (Bool-cases (ltb 0 stale_after)) [
    | inl e ↦ release_stale_compacting_parts-Sound c now locked t stale_after t' (rw e at h)
    | inr e ↦ let same : t ≡ t' = cc (rw e at h) in subst (Sound c t) same (Sound-refl c t)
  ]

  maintain_parts-Sound :
      (now : ℕ) (t t' : Table)
      → maintain_parts c locked window stale_after b now t ≡ ok t'
      → Sound c t t'
  unfolding maintain_parts
  maintain_parts-Sound now t t' h =
      let (u, first, rest) = >>=-eq-ok (release_if_timed c locked now stale_after t) _ h in
      Sound-trans c t u t' (release_if_timed-Sound now t u first)
        (finalize_compact_ready-Sound c locked window b now [] u t' rest)

  maintain_compaction-eq-ok :
      (busy : Bool) (now : ℕ) (once : Bool) (s s' : Store)
      → maintain_compaction c locked busy window stale_after b now once s ≡ ok s'
      → (s ≡ s')
        ⊎ ((maintain_parts c locked window stale_after b now s.parts ≡ ok s'.parts)
            × (s'.next_run_at ≡ now + spacing))
  unfolding maintain_compaction
  maintain_compaction-eq-ok busy now once s s' h = elim (Bool-cases (reserves busy once now s)) [
    | inl e ↦
        let (t, worked, last) =
          >>=-eq-ok (maintain_parts c locked window stale_after b now s.parts) _ (rw e at h) in
        let same : record { next_run_at = now + spacing; parts = t } ≡ s' = ground arith in
        inr (
          worked ∙ ap (λ (x : Store). ok x.parts) same,
          sym (ap (λ (x : Store). x.next_run_at) same),
        )
    | inr e ↦ inl (cc (rw e at h))
  ]

-- A pass that succeeds keeps the invariant of the table, which it must have, and loses no part: each
-- is as it was, or is a compaction that is now ready to compact or finished, or was ready to compact
-- and is now finished. And it either changes nothing, or no looping worker's pass in the ten seconds
-- from it does anything, whatever window, age, batching and locks that worker has.
pub maintain_compaction-spaced :
    (c : Clock) (locked : Row → Bool) (busy : Bool) (window stale_after : ℕ) (b : CompactBatching)
    (now : ℕ) (once : Bool) (s s' : Store)
    → Inv c s.parts
    → maintain_compaction c locked busy window stale_after b now once s ≡ ok s'
    → Inv c s'.parts
      × ((job part : Text) (r : Row)
          → find job part s.parts ≡ some r
          → (r' : Row) × (find job part s'.parts ≡ some r')
            × ((r' ≡ r) ⊎ (settles r.status r'.status ≡ true)))
      × ((s ≡ s')
          ⊎ ((locked' : Row → Bool) (busy' : Bool) (window' stale_after' : ℕ) (b' : CompactBatching)
                (later : ℕ)
              → later < now + spacing
              → maintain_compaction c locked' busy' window' stale_after' b' later false s' ≡ ok s'))
unfolding maintain_compaction
maintain_compaction-spaced c locked busy window stale_after b now once s s' i h =
    elim (maintain_compaction-eq-ok c locked window stale_after b busy now once s s' h) [
      | inl same ↦ (
        subst (λ (x : Store). Inv c x.parts) same i,
        subst (λ (x : Store). Changes settles s.parts x.parts) same (Changes-refl settles s.parts),
        inl same,
      )
      | inr (worked, next) ↦ (
        (maintain_parts-Sound c locked window stale_after b now s.parts s'.parts worked i).0,
        maintain_parts-Changes c locked now window b stale_after s.parts s'.parts i worked,
        inr (λ locked' busy' window' stale_after' b' later soon.
            let idle : reserves busy' false later s' ≡ false = ground arith in rw idle refl),
      )
    ]
