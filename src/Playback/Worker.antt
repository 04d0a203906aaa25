-- ===== src/Playback/Worker.antt =====
-- service.go: `ProcessMediaJob`, one round of the media worker.
use iolink.Base.{
  [], Bool, true, false, ◌||◌, not, if◌then◌else◌, Text, is_empty, Option, none, some, GoError,
  plain, is_err, media, MediaError, Result, ok, err,
}
use iolink.Media.{
  Time, JobKind, start, stop, other_kind, skipped, Lease, JobAuthorization, JobResult,
  StreamRequest,
}
use iolink.Playback.Effects.{Provider, Config}
use iolink.Playback.Checks.{normalize_store_error, normalize_license_error}
use iolink.Playback.Results.{with_code, job_result}
use iolink.Playback.Service.{invalid, unavailable}

-- What a job comes to before it is finished: skipped, or the provider's answer.
pub data Outcome : Type 0 where
  skip : Outcome
  answered : Option GoError → Outcome

abbrev pub request_of : Lease → StreamRequest
request_of l = record {
  camera_id = l.camera_id;
  source_version = l.source_version;
  stream_id = l.stream_id;
}

-- The error of a call that returns an error alone.
abbrev pub answer : {W : Type 0} → W × Result (Unit {0}) → W × Outcome
answer (w, ok _) = (w, answered none)
answer (w, err e) = (w, answered (some e))

-- What the worker returns: `processed` and the error.
abbrev pub Report : Type 0
Report = Bool × Option GoError

-- The result that is stored, and the error that is returned with it.
unfoldable pub outcome_result : Outcome → Lease → Time → JobResult × Option GoError
outcome_result skip l now = (with_code skipped [] now, none)
outcome_result (answered e) l now = job_result e l.attempts now l.kind

report : {W : Type 0} → Option GoError → W × Result (Unit {0}) → W × Report
report returned (w, ok _) = (w, (true, returned))
report returned (w, err e) = (
  w,
  (
    true,
    some (
        if is_err e (media MediaError.lease_lost)
        then plain (media MediaError.lease_lost)
        else plain (media MediaError.persistence_unknown)),
  ),
)

module _ {W : Type 0} (d : Config W) where
  start_licensed : Provider W → Lease → W × Result (Unit {0}) → W × Outcome
  start_licensed p l (w, ok _) = answer (p.start_stream (request_of l) w)
  start_licensed p l (w, err e) = (w, answered (some (normalize_license_error e)))

  -- `case media.JobStart`.
  unfoldable pub start_job : Provider W → Lease → JobAuthorization → W → W × Outcome
  unfolding start_licensed
  start_job p l auth w =
      if not auth.active || not auth.source_current then (w, skip) else elim d.license [
        | none ↦ (w, answered (some unavailable))
        | some require_video ↦ start_licensed p l (require_video auth.target.license w)
      ]

  -- `case media.JobStop`.
  unfoldable pub stop_job : Provider W → Lease → JobAuthorization → W → W × Outcome
  stop_job p l auth w =
      if auth.stop_superseded then (w, skip) else answer (p.stop_stream (request_of l) w)

  -- The `switch` on the job's kind.
  unfoldable pub perform : JobKind → Provider W → Lease → JobAuthorization → W → W × Outcome
  unfolding start_job stop_job
  perform start p l auth w = start_job p l auth w
  perform stop p l auth w = stop_job p l auth w
  perform (other_kind k) p l auth w = (w, answered (some invalid))

  unfoldable pub finish : Lease → Time → W × Outcome → W × Report
  unfolding report outcome_result
  finish l now (w, o) = let r = outcome_result o l now in report r.1 (d.finish_job l r.0 now w)

  unfoldable pub run_lease : Provider W → Lease → Time → W × Result JobAuthorization → W × Report
  unfolding finish
  run_lease p l now (w, err e) = (w, (true, some (normalize_store_error e)))
  run_lease p l now (w, ok auth) = finish l now (perform l.kind p l auth w)

  unfoldable pub run_claim : Provider W → Time → W × Result (Option Lease) → W × Report
  unfolding run_lease
  run_claim p now (w, err e) = (w, (false, some (normalize_store_error e)))
  run_claim p now (w, ok none) = (w, (false, none))
  run_claim p now (w, ok (some l)) = run_lease p l now (d.revalidate_job l w)

  unfoldable pub process_media_job : Text → W → W × Report
  unfolding run_claim
  process_media_job worker_id w =
      if not d.enabled then (w, (false, some unavailable)) else elim d.provider [
        | none ↦ (w, (false, some unavailable))
        | some p ↦
            (if is_empty worker_id
              then (w, (false, some invalid))
              else run_claim p (d.now w) (d.claim_job (d.now w) d.lease_duration worker_id w))
      ]
