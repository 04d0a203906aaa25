-- ===== src/Playback/Outcomes.antt =====
-- What `jobResult` promises to the job store.
use iolink.Base.{
  ℕ, zero, suc, ◌+◌, ◌*◌, ◌^◌, ◌≤◌, ◌≡◌, ◌≢◌, ◌⊎◌, nat_eq, ℤ, pos, ◌<ℤ◌, GoError, arith,
}
use iolink.Media.{Time, second, retryable}
use iolink.Jobs.Store.{max_attempts}
use iolink.Playback.Results.{retry_shift, retry_delay, failure_result}

small_power : (k : ℕ) → k ≤ 5 → (1 ≤ 2 ^ k) × (2 ^ k ≤ 32)
small_power zero h = omega arith
small_power (suc zero) h = omega arith
small_power (suc (suc zero)) h = omega arith
small_power (suc (suc (suc zero))) h = omega arith
small_power (suc (suc (suc (suc zero)))) h = omega arith
small_power (suc (suc (suc (suc (suc zero))))) h = omega arith
small_power (suc (suc (suc (suc (suc (suc k)))))) h = absurd (omega arith)

retry_shift-le : (attempts : ℤ) → retry_shift attempts ≤ 5
unfolding retry_shift
retry_shift-le attempts = ground arith

retry_delay_bounds :
    (attempts : ℤ) → (second ≤ retry_delay attempts) × (retry_delay attempts ≤ 30 * second)
unfolding retry_delay
retry_delay_bounds attempts =
    let p = small_power (retry_shift attempts) (retry_shift-le attempts) in ground (arith, p)

-- A failed job is put off only while it has attempts left, by one to thirty seconds; every other
-- ending stands at once.
pub failure_retry :
    (e : GoError) (attempts : ℤ) (now : Time)
    → let r = failure_result e attempts now in
      ((r.status ≡ retryable)
        × (attempts <ℤ pos max_attempts)
        × (now + second ≤ r.next_at)
        × (r.next_at ≤ now + 30 * second))
      ⊎ ((r.status ≢ retryable) × (r.next_at ≡ now))
unfolding failure_result
failure_retry e attempts now = ground (arith, retry_delay_bounds attempts)

-- The delay doubles from one second on the first attempt, and is held at thirty seconds.
pub retry_delay_doubles :
    (k : ℕ)
    → (k ≤ 4 → retry_delay (pos (suc k)) ≡ second * 2 ^ k)
      × (5 ≤ k → retry_delay (pos (suc k)) ≡ 30 * second)
unfolding retry_delay retry_shift
retry_delay_doubles zero = ground arith
retry_delay_doubles (suc zero) = ground arith
retry_delay_doubles (suc (suc zero)) = ground arith
retry_delay_doubles (suc (suc (suc zero))) = ground arith
retry_delay_doubles (suc (suc (suc (suc zero)))) = ground arith
retry_delay_doubles (suc (suc (suc (suc (suc k))))) = ground arith
