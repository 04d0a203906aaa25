-- ===== src/Notify/Limits.antt =====
-- internal/notifications/worker.go, `NewWorker`: the numbers that a worker runs with.
use iolink.Base.{
  ◌*◌, ◌≡◌, subst, inl, inr, ℤ, pos, ◌<ℤ◌, is_positive, Bool, true, false, Bool-cases, ok, arith,
}
use iolink.Media.{second}
use iolink.Notify.Worker.{Settings, positive_or, with_defaults, new_worker}

-- A number is the one that was asked for if that is positive, and else the default; so it is positive.
pub record IsDefaulted (default asked n : ℤ) : Type 0 where
  pub positive : pos 0 <ℤ n
  pub kept : pos 0 <ℤ asked → n ≡ asked
  pub replaced : is_positive asked ≡ false → n ≡ default

-- What a worker is made of: the lease is longer than the time for a delivery, there are one to six
-- attempts and one to 32 deliveries at a time.
pub record IsRunnable (has_store : Bool) (asked s : Settings) : Type 0 where
  pub stored : has_store ≡ true
  pub lease : IsDefaulted (pos (120 * second)) asked.lease_duration s.lease_duration
  pub timeout : IsDefaulted (pos (20 * second)) asked.delivery_timeout s.delivery_timeout
  pub poll : IsDefaulted (pos second) asked.poll_interval s.poll_interval
  pub attempts : IsDefaulted (pos 6) asked.max_attempts s.max_attempts
  pub parallel : IsDefaulted (pos 2) asked.concurrency s.concurrency
  pub leased : s.delivery_timeout <ℤ s.lease_duration
  pub attempts_limit : s.max_attempts <ℤ pos 7
  pub parallel_limit : s.concurrency <ℤ pos 33

positive_or-IsDefaulted :
    (default n : ℤ) → pos 0 <ℤ default → IsDefaulted default n (positive_or default n)
positive_or-IsDefaulted default n h = elim (Bool-cases (is_positive n)) [
  | inl b ↦ record {
    positive = ground arith;
    kept = λ p. ground arith;
    replaced = λ p. ground arith;
  }
  | inr b ↦ record {
    positive = ground arith;
    kept = λ p. ground arith;
    replaced = λ p. ground arith;
  }
]

-- A worker is made only with a store, and runs with the numbers that were asked for where they are
-- positive, and with two minutes, 20 seconds, one second, six attempts and two at a time where they
-- are not; its lease is longer than its time for a delivery, and it has at most six attempts and at
-- most 32 deliveries at a time.
pub new_worker-IsRunnable :
    (has_store : Bool) (asked : Settings) {s : Settings}
    → new_worker has_store asked ≡ ok s
    → IsRunnable has_store asked s
unfolding new_worker with_defaults
new_worker-IsRunnable has_store asked {s} h =
    let e : with_defaults asked ≡ s = ground arith in
    subst (IsRunnable has_store asked) e (record {
      stored = ground arith;
      lease = positive_or-IsDefaulted (pos (120 * second)) asked.lease_duration (ground arith);
      timeout = positive_or-IsDefaulted (pos (20 * second)) asked.delivery_timeout (ground arith);
      poll = positive_or-IsDefaulted (pos second) asked.poll_interval (ground arith);
      attempts = positive_or-IsDefaulted (pos 6) asked.max_attempts (ground arith);
      parallel = positive_or-IsDefaulted (pos 2) asked.concurrency (ground arith);
      leased = ground arith;
      attempts_limit = ground arith;
      parallel_limit = ground arith;
    })
