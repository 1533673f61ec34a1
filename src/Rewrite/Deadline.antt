-- ===== src/Rewrite/Deadline.antt =====
-- The time limits of the wait for merges in internal/rewrite/compactor.go. Times and durations are
-- nanoseconds, and a configured duration is not negative; a time of 0 is the zero time.
use partforge.Base.{
  ℕ, false, not, Option, none, some, if◌then◌else◌, ltb, ◌==◌, ◌+◌, ◌-◌, ◌*◌, ◌≤◌, ◌<◌, ◌≡◌, subst,
  arith, Bool-cases, inl, inr,
}

unfoldable pub compact_merge_timeout : ℕ → ℕ
compact_merge_timeout timeout = if timeout == 0 then 15 * 60 * 1000000000 else timeout

unfoldable pub compact_merge_max_timeout : ℕ → ℕ
compact_merge_max_timeout timeout = if timeout == 0 then 24 * 60 * 60 * 1000000000 else timeout

-- The time until the deadline, if there is one.
unfoldable pub compact_merge_timeout_until : ℕ → ℕ → Option ℕ
compact_merge_timeout_until deadline now =
    if deadline == 0 then none else if not (ltb now deadline) then some 0 else some (deadline - now)

-- The remaining time replaces the longest wait, and caps the other.
unfoldable pub compact_merge_timeouts_for_deadline : ℕ → ℕ → ℕ → ℕ × ℕ
compact_merge_timeouts_for_deadline timeout max_timeout remaining =
    (if ltb remaining timeout then remaining else timeout, remaining)

-- The limits of the wait, or nothing when there is no time for it.
pub record WaitLimits : Type 0 where
  pub merge_timeout : ℕ
  pub merge_max_timeout : ℕ

unfoldable pub limits_by : ℕ → ℕ → Option ℕ → Option WaitLimits
unfolding compact_merge_timeouts_for_deadline
limits_by timeout max_timeout none =
    some (record { merge_timeout = timeout; merge_max_timeout = max_timeout })
limits_by timeout max_timeout (some remaining) =
    let (t, m) = compact_merge_timeouts_for_deadline timeout max_timeout remaining in
    if remaining == 0 then none else some (record { merge_timeout = t; merge_max_timeout = m })

unfoldable pub merge_wait_limits : ℕ → ℕ → ℕ → ℕ → Option WaitLimits
unfolding compact_merge_timeout compact_merge_max_timeout compact_merge_timeout_until limits_by
merge_wait_limits timeout max_timeout deadline now =
    limits_by (compact_merge_timeout timeout) (compact_merge_max_timeout max_timeout)
      (compact_merge_timeout_until deadline now)

timeout-positive : (timeout : ℕ) → 0 < compact_merge_timeout timeout
unfolding compact_merge_timeout
timeout-positive timeout = ground arith

limits_by-cases :
    (timeout max_timeout deadline now : ℕ) (l : WaitLimits)
    → 0 < timeout
    → 0 < deadline
    → limits_by timeout max_timeout (compact_merge_timeout_until deadline now) ≡ some l
    → (0 < l.merge_timeout)
      × (l.merge_timeout ≤ timeout)
      × (l.merge_timeout ≤ l.merge_max_timeout)
      × (now + l.merge_max_timeout ≡ deadline)
unfolding limits_by compact_merge_timeout_until compact_merge_timeouts_for_deadline
limits_by-cases timeout max_timeout deadline now l some_time some_deadline h =
    elim (Bool-cases (deadline == 0)) [
      | inl zero_time ↦ absurd (ground (arith, zero_time, some_deadline))
      | inr timed ↦ elim (Bool-cases (not (ltb now deadline))) [
        | inl passed ↦ absurd (cc (rw (timed, passed) at h))
        | inr ahead ↦
            let remaining : ℕ = deadline - now in
            let later : now < deadline = ground (arith, ahead) in
            let lasting : (remaining == 0) ≡ false = ground (arith, later) in
            let built : WaitLimits = record {
              merge_timeout = if ltb remaining timeout then remaining else timeout;
              merge_max_timeout = remaining;
            } in
            let same : built ≡ l = cc (rw (timed, ahead, lasting) at h) in
            subst
              (λ (x : WaitLimits).
                (0 < x.merge_timeout)
                × (x.merge_timeout ≤ timeout)
                × (x.merge_timeout ≤ x.merge_max_timeout)
                × (now + x.merge_max_timeout ≡ deadline))
              same
              (ground (arith, some_time, later), ground arith, ground arith, omega (arith, later))
      ]
    ]

-- With a deadline, the wait for merges that is allowed ends at the deadline at the latest, and
-- neither of its limits is 0, which would stand for a default.
pub merge_wait_limits-deadline :
    (timeout max_timeout deadline now : ℕ) (l : WaitLimits)
    → 0 < deadline
    → merge_wait_limits timeout max_timeout deadline now ≡ some l
    → (0 < l.merge_timeout)
      × (l.merge_timeout ≤ compact_merge_timeout timeout)
      × (l.merge_timeout ≤ l.merge_max_timeout)
      × (now + l.merge_max_timeout ≡ deadline)
unfolding merge_wait_limits
merge_wait_limits-deadline timeout max_timeout deadline now l some_deadline h =
    limits_by-cases (compact_merge_timeout timeout) (compact_merge_max_timeout max_timeout) deadline
      now l (timeout-positive timeout) some_deadline h
