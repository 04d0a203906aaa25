-- ===== src/Notify/Examples.antt =====
-- The notification worker's theorems at a small configuration: a world is the number of calls so
-- far.
use iolink.Base.{
  ℕ, suc, ◌+◌, ◌*◌, ◌^◌, ◌≤◌, ◌<◌, ◌≡◌, refl, ◌≢◌, ◌⊎◌, true, text, pos, Option, none, some,
  GoError, plain, notify, NotifyError, ok, arith,
}
use iolink.Media.{second}
use iolink.World.{M}
use iolink.Notify.Worker.{
  Claim, Settings, retryable, Config, new_worker, with_defaults, send_result, send, conclude,
  run_claim, run_once,
}
use iolink.Notify.Outcomes.{send_result_bounds}
use iolink.Notify.Limits.{IsRunnable, new_worker-IsRunnable}
use iolink.Notify.Rounds.{Sent, run_once-Sent}

abbrev unset : Settings
unset = record {
  lease_duration = pos 0;
  delivery_timeout = pos 0;
  poll_interval = pos 0;
  max_attempts = pos 0;
  concurrency = pos 0;
}

abbrev settings : Settings
settings = record {
  lease_duration = pos (120 * second);
  delivery_timeout = pos (20 * second);
  poll_interval = pos second;
  max_attempts = pos 6;
  concurrency = pos 2;
}

configured : new_worker true unset ≡ ok settings
unfolding new_worker with_defaults
configured = refl

new_worker-IsRunnable_example : IsRunnable true unset settings
new_worker-IsRunnable_example = new_worker-IsRunnable true unset configured

abbrev unreachable : Option GoError
unreachable = some (plain (notify NotifyError.retryable))

send_result_bounds_example :
    let r = send_result unreachable (pos 3) (pos 6) 1000 in
    ((r.status ≡ retryable)
      × (unreachable ≢ none)
      × (3 < 6)
      × (r.next_at ≡ 1000 + 2 ^ 2 * (60 * second))
      × (r.next_at ≤ 1000 + 16 * (60 * second)))
    ⊎ ((r.status ≢ retryable) × (r.next_at ≡ 1000))
send_result_bounds_example = send_result_bounds unreachable 2 6 1000 (omega arith)

abbrev returns : {A : Type 0} → A → M ℕ A
returns a w = (suc w, ok a)

abbrev alarm : Claim ℕ
alarm = record {
  id = pos 1;
  attempts = pos 1;
  lease_token = text "t";
  delivery = record {
    alarm_id = pos 1;
    recipient_id = text "open";
    device_no = text "d";
    pond_id = pos 1;
    metric = text "ph";
    current_value = 9;
    threshold = 8;
    level = text "warning";
    message = text "m";
    created_at = 900;
  };
}

abbrev config : Config ℕ ℕ
config = record {
  claim = λ now lease limit. returns (some alarm);
  finish = λ c r now. returns tt;
  queue_depth = some (returns 1);
  sender = some (λ d. returns tt);
  settings = settings;
  now = λ w. 1000;
  on_sent = some suc;
  on_failure = none;
}

round : run_once config 0 ≡ (5, true, none)
unfolding run_once run_claim conclude send send_result
round = refl

run_once-Sent_example : Sent config 0 5
run_once-Sent_example = run_once-Sent config 0 round
