-- ===== src/Playback/Results.antt =====
-- service.go, `jobResult`: how a provider's answer ends a job.
use iolink.Base.{
  ℕ, ◌+◌, ◌*◌, ◌^◌, ◌||◌, if◌then◌else◌, ltb, Text, text, [], ℤ, pos, pos_part, ◌-ℤ◌, ltb_ℤ, leb_ℤ,
  Option, none, some, GoError, is_err, media, context, canceled, deadline_exceeded, MediaError,
}
use iolink.Media.{
  Time, second, JobKind, stop, JobStatus, ready, stopped, retryable, failed, unknown, disabled,
  JobResult,
}

abbrev pub max_attempts : ℕ
max_attempts = 6

abbrev finished_status : JobKind → JobStatus
finished_status stop = stopped
finished_status _ = ready

-- `attempts - 1`, held between 0 and 5.
unfoldable pub retry_shift : ℤ → ℕ
retry_shift attempts =
    let shift = attempts -ℤ pos 1 in
    if ltb_ℤ shift (pos 0) then 0 else if ltb 5 (pos_part shift) then 5 else pos_part shift

unfoldable pub retry_delay : ℤ → ℕ
unfolding retry_shift
retry_delay attempts =
    let delay : ℕ = second * 2 ^ retry_shift attempts in
    if ltb (30 * second) delay then 30 * second else delay

abbrev pub with_code : JobStatus → Text → Time → JobResult
with_code status code at = record { status = status; error_code = code; next_at = at }

unfoldable pub failure_result : GoError → ℤ → Time → JobResult
failure_result e attempts now =
    if is_err e (media MediaError.unavailable) || is_err e (media MediaError.disabled)
    then with_code disabled (text "provider_unavailable") now
    else if is_err e (media MediaError.license_unavailable)
    then with_code disabled (text "license_unavailable") now
    else if is_err e (media MediaError.license_required)
    then with_code failed (text "license_required") now
    else if is_err e (media MediaError.unsupported)
    then with_code failed (text "unsupported_codec") now
    else if is_err e (media MediaError.unknown)
        || is_err e (context canceled)
        || is_err e (context deadline_exceeded)
    then with_code unknown (text "provider_unknown") now
    else if is_err e (media MediaError.retryable) || ltb_ℤ attempts (pos max_attempts)
    then (if leb_ℤ (pos max_attempts) attempts
        then with_code failed (text "source_unreachable") now
        else with_code retryable (text "source_unreachable") (now + retry_delay attempts))
    else with_code failed (text "source_unreachable") now

-- The result, and the error that the worker returns.
unfoldable pub job_result : Option GoError → ℤ → Time → JobKind → JobResult × Option GoError
unfolding failure_result
job_result none attempts now kind = (with_code (finished_status kind) [] now, none)
job_result (some e) attempts now kind = (failure_result e attempts now, some e)
