-- ===== src/State/Upkeep/Settling.antt =====
-- What a pass of the maintenance of internal/state/maintenance.go does to the status of a part.
use partforge.Base.{
  Text, ℕ, ◌≡◌, refl, subst, inl, inr, Bool, true, not, ◌&&◌, ◌||◌, List, [], ◌∷◌, ok, >>=-eq-ok,
  arith, Bool-cases, All-map, filter, filter-tested, null, ltb,
}
use partforge.State.Part.{Part, Clock, Status, is}
use partforge.State.Row.{Row}
use partforge.State.Table.{Table}
use partforge.State.Claim.{CompactBatching, read_parts}
use partforge.State.Maintenance.{
  Summary, is_stale, stale_released_part, release_stale_compacting_parts, finalizes, finalized_row,
  finalize_where, all_finish, window_expired, finalize_job, finalize_jobs, finalize_compact_ready,
}
use partforge.State.Upkeep.{maintain_parts, release_if_timed}
use partforge.State.Lifecycle.Sound.{Inv}
use partforge.State.Lifecycle.Claims.{Inv-Own}
use partforge.State.Lifecycle.Saves.{read_parts-All}
use partforge.State.Lifecycle.Finalizing.{finalizes-ready}
use partforge.State.Lifecycle.Changes.{
  Changes, IsTransitive, Changes-weaken, Changes-refl, Changes-trans, saves-Changes, Writable,
  row-Writable, map-Changes,
}

-- What the release of stale compactions may do to a status.
abbrev pub gives_back : Status → Status → Bool
gives_back s s' = is s Status.compacting && (is s' Status.compact_ready || is s' Status.finished)

-- What the end of the compaction stage may do to one.
abbrev pub finishes : Status → Status → Bool
finishes s s' = is s Status.compact_ready && is s' Status.finished

-- What a pass may do.
abbrev pub settles : Status → Status → Bool
settles s s' = gives_back s s' || finishes s s'

finishes_trans : IsTransitive finishes
finishes_trans s t u h k = ground arith

settles_trans : IsTransitive settles
settles_trans s t u h k = ground arith

gives_back-stale :
    (c : Clock) (now : ℕ) (s : Status) (p : Part)
    → is s Status.compacting ≡ true
    → gives_back s (stale_released_part c now p).status ≡ true
unfolding stale_released_part
gives_back-stale c now s p h = elim (Bool-cases (not (null p.compact.finalize_requested_at))) [
  | inl e ↦ rw (h, e) refl
  | inr e ↦ rw (h, e) refl
]

module _ (c : Clock) (locked : Row → Bool) (now : ℕ) where
  pub release_stale-Changes :
      (age : ℕ) (t t' : Table)
      → Inv c t
      → release_stale_compacting_parts c locked now age t ≡ ok t'
      → Changes gives_back t t'
  unfolding release_stale_compacting_parts stale_released_part
  release_stale-Changes age t t' i h =
      let (ps, read, rest) = >>=-eq-ok (read_parts (filter (is_stale locked now age) t)) _ h in
      let rows =
        All-map (filter (is_stale locked now age) t)
          (λ r (own, e).
            row-Writable gives_back c t r (stale_released_part c now) (λ p. (refl, refl)) own
              (gives_back-stale c now r.status r.data_part (ground arith)))
          (filter-tested _ (is_stale locked now age) t (Inv-Own c t i)) in
      saves-Changes gives_back c (stale_released_part c now) ps t t t' (Changes-refl gives_back t)
        (read_parts-All (λ p. Writable gives_back t (stale_released_part c now p)) _ ps read rows)
        rest

  finish_where-Changes :
      (test : Row → Bool)
      → ((r : Row) → test r ≡ true → is r.status Status.compact_ready ≡ true)
      → (t : Table) → Changes finishes t (finalize_where test c now t)
  unfolding finalized_row
  finish_where-Changes test ready t =
      map-Changes finishes _ (λ r. ground arith)
        (λ r. elim (Bool-cases (test r)) [
          | inl e ↦ rw e (inr (rw (ready r e) (ground arith)))
          | inr e ↦ rw e (inl refl)
        ])
        t

  module _ (window : ℕ) (b : CompactBatching) where
    finalize_job-Changes :
        (job : Text) (j : Summary) (t t' : Table)
        → finalize_job c locked window b now job j t ≡ ok t'
        → Changes finishes t t'
    unfolding finalize_job
    finalize_job-Changes job j t t' h =
        let (all_done, _, last) = >>=-eq-ok (all_finish window now j) _ h in
        let expired = window_expired window now j.ready_at in
        elim (Bool-cases (not all_done && not j.normalized)) [
          | inl e ↦
              let same : t ≡ t' = cc (rw e at last) in
              subst (Changes finishes t) same (Changes-refl finishes t)
          | inr e ↦
              let same : finalize_where (finalizes locked b job all_done expired j t) c now t ≡ t' =
                cc (rw e at last) in
              subst (Changes finishes t) same
                (finish_where-Changes _ (finalizes-ready locked b job all_done expired j t) t)
        ]

    finalize_jobs-Changes :
        (jobs : List (Text × Summary)) (t t' : Table)
        → finalize_jobs c locked window b now jobs t ≡ ok t'
        → Changes finishes t t'
    unfolding finalize_jobs
    finalize_jobs-Changes [] t t' h =
        let same : t ≡ t' = cc h in subst (Changes finishes t) same (Changes-refl finishes t)
    finalize_jobs-Changes ((job, j) ∷ jobs) t t' h =
        let (u, first, rest) = >>=-eq-ok (finalize_job c locked window b now job j t) _ h in
        Changes-trans finishes finishes_trans t u t' (finalize_job-Changes job j t u first)
          (finalize_jobs-Changes jobs u t' rest)

    pub finalize_compact_ready-Changes :
        (job : Text) (t t' : Table)
        → finalize_compact_ready c locked job window b now t ≡ ok t'
        → Changes finishes t t'
    unfolding finalize_compact_ready
    finalize_compact_ready-Changes job t = finalize_jobs-Changes _ t

    pub maintain_parts-Changes :
        (age : ℕ) (t t' : Table)
        → Inv c t
        → maintain_parts c locked window age b now t ≡ ok t'
        → Changes settles t t'
    unfolding maintain_parts release_if_timed
    maintain_parts-Changes age t t' i h =
        let (u, first, rest) = >>=-eq-ok (release_if_timed c locked now age t) _ h in
        let released : Changes settles t u = elim (Bool-cases (ltb 0 age)) [
          | inl e ↦
              Changes-weaken gives_back settles (λ s s' h. ground arith) t u
                (release_stale-Changes age t u i (rw e at first))
          | inr e ↦
              let same : t ≡ u = cc (rw e at first) in
              subst (Changes settles t) same (Changes-refl settles t)
        ] in
        Changes-trans settles settles_trans t u t' released (
          Changes-weaken finishes settles (λ s s' h. ground arith) u t'
            (finalize_compact_ready-Changes [] u t' rest))
