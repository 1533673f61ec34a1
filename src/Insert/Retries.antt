-- ===== src/Insert/Retries.antt =====
-- The retries of an insert in internal/rewrite/processor.go: the wait before each attempt.
use partforge.Base.{ℕ, zero, suc, ◌-◌, ◌^◌, ◌≤◌, ltb, leb, if◌then◌else◌, arith}

-- The wait before an attempt, in seconds.
unfoldable pub insert_select_retry_backoff : ℕ → ℕ
insert_select_retry_backoff attempt =
    if ltb attempt 1 then 1 else if leb 5 attempt then 10 else 2 ^ (attempt - 1)

-- The wait is from one to ten seconds and never shrinks from one attempt to the next.
pub insert_select_retry_backoff-bounds :
    (attempt : ℕ)
    → (1 ≤ insert_select_retry_backoff attempt)
      × (insert_select_retry_backoff attempt ≤ 10)
      × (insert_select_retry_backoff attempt ≤ insert_select_retry_backoff (suc attempt))
unfolding insert_select_retry_backoff
insert_select_retry_backoff-bounds zero = ground arith
insert_select_retry_backoff-bounds (suc zero) = ground arith
insert_select_retry_backoff-bounds (suc (suc zero)) = ground arith
insert_select_retry_backoff-bounds (suc (suc (suc zero))) = ground arith
insert_select_retry_backoff-bounds (suc (suc (suc (suc zero)))) = ground arith
insert_select_retry_backoff-bounds (suc (suc (suc (suc (suc n))))) = ground arith
