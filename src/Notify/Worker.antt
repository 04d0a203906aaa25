-- ===== src/Notify/Worker.antt =====
-- internal/notifications/worker.go: `NewWorker` and one round of the worker, `RunOnce`. The text of
-- an error is kept as the error.
use iolink.Base.{
  ℕ, zero, suc, ◌+◌, ◌*◌, ◌^◌, Bool, true, false, ◌||◌, if◌then◌else◌, Text, is_empty, ℤ, pos,
  negsuc, ltb_ℤ, is_positive, [], Option, none, some, GoError, plain, wrapping, wrap_err, is_err,
  notify, context, NotifyError, ContextError, Result, ok, err, not,
}
use iolink.Media.{Time, second}
use iolink.World.{M}

-- `V` stands for float64.
pub record Delivery (V : Type 0) : Type 0 where
  pub alarm_id : ℤ
  pub recipient_id : Text
  pub device_no : Text
  pub pond_id : ℤ
  pub metric : Text
  pub current_value : V
  pub threshold : V
  pub level : Text
  pub message : Text
  pub created_at : Time

pub record Claim (V : Type 0) : Type 0 where
  pub id : ℤ
  pub attempts : ℤ
  pub lease_token : Text
  pub delivery : Delivery V

pub data Status : Type 0 where
  sent disabled failed unknown retryable : Status

pub record SendResult : Type 0 where
  pub status : Status
  pub next_at : Time
  pub last_error : Option GoError

-- The numbers of a configuration.
pub record Settings : Type 0 where
  pub lease_duration : ℤ
  pub delivery_timeout : ℤ
  pub poll_interval : ℤ
  pub max_attempts : ℤ
  pub concurrency : ℤ

abbrev pub positive_or : ℤ → ℤ → ℤ
positive_or default n = if is_positive n then n else default

unfoldable pub with_defaults : Settings → Settings
with_defaults s = record {
  lease_duration = positive_or (pos (120 * second)) s.lease_duration;
  delivery_timeout = positive_or (pos (20 * second)) s.delivery_timeout;
  poll_interval = positive_or (pos second) s.poll_interval;
  max_attempts = positive_or (pos 6) s.max_attempts;
  concurrency = positive_or (pos 2) s.concurrency;
}

-- `NewWorker`, on whether there is a store, and on the numbers.
unfoldable pub new_worker : Bool → Settings → Result Settings
unfolding with_defaults
new_worker has_store asked =
    let s = with_defaults asked in
    if not has_store
    then err (wrapping [])
    else if not (ltb_ℤ s.delivery_timeout s.lease_duration)
    then err (wrapping [])
    else if ltb_ℤ (pos 6) s.max_attempts
    then err (wrapping [])
    else if ltb_ℤ (pos 32) s.concurrency
    then err (wrapping [])
    else ok s

-- `1<<uint(attempts-1)`; a count below one shifts the bit out.
abbrev backoff_minutes : ℤ → ℕ
backoff_minutes (pos zero) = 0
backoff_minutes (pos (suc n)) = 2 ^ n
backoff_minutes (negsuc n) = 0

unfoldable pub backoff : ℤ → ℕ
backoff attempts = backoff_minutes attempts * (60 * second)

unfoldable pub retried : ℤ → ℤ → Time → GoError → SendResult
unfolding backoff
retried attempts max_attempts now e =
    if ltb_ℤ attempts max_attempts
    then record { status = retryable; next_at = now + backoff attempts; last_error = some e }
    else record { status = failed; next_at = now; last_error = some e }

-- The `switch` on the error of a send.
unfoldable pub send_result : Option GoError → ℤ → ℤ → Time → SendResult
unfolding retried
send_result none attempts max_attempts now = record {
  status = sent;
  next_at = now;
  last_error = none;
}
send_result (some e) attempts max_attempts now =
    if is_err e (notify NotifyError.disabled)
    then record { status = disabled; next_at = now; last_error = some e }
    else if is_err e (notify NotifyError.permanent)
    then record { status = failed; next_at = now; last_error = some e }
    else if is_err e (notify NotifyError.unknown)
        || is_err e (context ContextError.canceled)
        || is_err e (context ContextError.deadline_exceeded)
    then record { status = unknown; next_at = now; last_error = some e }
    else if is_err e (notify NotifyError.retryable)
    then retried attempts max_attempts now e
    else retried attempts max_attempts now e

-- What the worker is configured with. The store may report its queue's depth; the metric that it
-- sets is not modelled.
pub record Config (W V : Type 0) : Type 0 where
  pub claim : Time → ℤ → ℤ → M W (Option (Claim V))
  pub finish : Claim V → SendResult → Time → M W (Unit {0})
  pub queue_depth : Option (M W ℕ)
  pub sender : Option (Delivery V → M W (Unit {0}))
  pub settings : Settings
  pub now : W → Time
  pub on_sent : Option (W → W)
  pub on_failure : Option (W → W)

-- The world after a call, and the error that it returned.
abbrev pub error_of : {W A : Type 0} → W × Result A → W × Option GoError
error_of (w, ok a) = (w, none)
error_of (w, err e) = (w, some e)

abbrev pub notified : {W : Type 0} → Option (W → W) → W → W
notified none w = w
notified (some f) w = f w

module _ {W V : Type 0} (d : Config W V) where
  -- The world after the send, and its error.
  unfoldable pub send : Claim V → W → W × Option GoError
  send c w =
      if is_empty c.delivery.recipient_id
      then (w, some (plain (notify NotifyError.disabled)))
      else elim d.sender [
        | none ↦ (w, some (plain (notify NotifyError.disabled)))
        | some sender ↦ error_of (sender c.delivery w)
      ]

  -- The end of `RunOnce`, behind `Finish`.
  abbrev pub report : Option GoError → W × Option GoError → W × Bool × Option GoError
  report send_err (w, some e) = (w, true, some e)
  report (some e) (w, none) = (notified d.on_failure w, true, some (wrap_err e))
  report none (w, none) = (notified d.on_sent w, true, none)

  -- The part of `RunOnce` behind the send.
  unfoldable pub conclude : Claim V → W × Option GoError → W × Bool × Option GoError
  unfolding send_result
  conclude c (w, send_err) =
      let now = d.now w in
      let result = send_result send_err c.attempts d.settings.max_attempts now in
      report send_err (error_of (d.finish c result now w))

  -- The part of `RunOnce` on a claimed delivery.
  unfoldable pub run_claim : Claim V → W → W × Bool × Option GoError
  unfolding send conclude
  run_claim c w = conclude c (send c w)

  abbrev pub ask_depth : Option (M W ℕ) → W → W
  ask_depth none w = w
  ask_depth (some depth) w = (depth w).0

  abbrev run_claimed : W × Result (Option (Claim V)) → W × Bool × Option GoError
  run_claimed (w, err e) = (ask_depth d.queue_depth w, false, some e)
  run_claimed (w, ok none) = (ask_depth d.queue_depth w, false, none)
  run_claimed (w, ok (some c)) = run_claim c (ask_depth d.queue_depth w)

  unfoldable pub run_once : W → W × Bool × Option GoError
  unfolding run_claim
  run_once w = run_claimed (d.claim (d.now w) d.settings.lease_duration d.settings.max_attempts w)
