-- ===== src/Playback/Rounds.antt =====
-- service.go, `ProcessMediaJob`: what a round that reports a job without an error did.
use iolink.Base.{
  ◌≡◌, refl, ap, subst, ◌⊎◌, inl, inr, Bool, true, false, ◌||◌, not, Bool-cases, Text, [], is_empty,
  none, some, Option-cases, pos, ok, arith,
}
use iolink.Media.{
  Time, JobKind, start, stop, other_kind, JobStatus, skipped, ready, stopped, Lease,
  JobAuthorization, LicenseSnapshot,
}
use iolink.Playback.Effects.{M, Provider, Config, Run-cases}
use iolink.Playback.Results.{with_code, job_result}
use iolink.Playback.Worker.{
  Outcome, skip, answered, request_of, start_job, stop_job, perform, outcome_result, finish,
  run_lease, run_claim, process_media_job,
}

-- What was done for a job: a start of a camera that is no longer active or whose source changed, and a
-- stop that a later start supersedes, are skipped without a call; any other start passed the license
-- guard before the provider was called with the stream of the lease, and any other stop called it.
pub data Done {W : Type 0} (d : Config W) (p : Provider W) (l : Lease) (auth : JobAuthorization)
    (w w' : W) (kind : JobKind) (status : JobStatus) : Type 0 where
  start_skipped :
      kind ≡ start
      → (auth.active ≡ false) ⊎ (auth.source_current ≡ false)
      → status ≡ skipped
      → w' ≡ w
      → Done d p l auth w w' kind status
  started :
      (require_video : LicenseSnapshot → M W (Unit {0})) (licensed_world : W)
      → kind ≡ start
      → auth.active ≡ true
      → auth.source_current ≡ true
      → d.license ≡ some require_video
      → require_video auth.target.license w ≡ (licensed_world, ok tt)
      → p.start_stream (request_of l) licensed_world ≡ (w', ok tt)
      → status ≡ ready
      → Done d p l auth w w' kind status
  stop_skipped :
      kind ≡ stop
      → auth.stop_superseded ≡ true
      → status ≡ skipped
      → w' ≡ w
      → Done d p l auth w w' kind status
  was_stopped :
      kind ≡ stop
      → auth.stop_superseded ≡ false
      → p.stop_stream (request_of l) w ≡ (w', ok tt)
      → status ≡ stopped
      → Done d p l auth w w' kind status

-- A job that was processed.
pub record Processed {W : Type 0} (d : Config W) (worker_id : Text) (w w' : W) : Type 0 where
  pub provider : Provider W
  pub lease : Lease
  pub auth : JobAuthorization
  pub status : JobStatus
  pub claim_world : W
  pub auth_world : W
  pub done_world : W
  pub enabled : d.enabled ≡ true
  pub configured : d.provider ≡ some provider
  pub named : is_empty worker_id ≡ false
  pub claimed : d.claim_job (d.now w) d.lease_duration worker_id w ≡ (claim_world, ok (some lease))
  pub revalidated : d.revalidate_job lease claim_world ≡ (auth_world, ok auth)
  pub done : Done d provider lease auth auth_world done_world lease.kind status
  pub finished :
      d.finish_job lease (with_code status [] (d.now w)) (d.now w) done_world ≡ (w', ok tt)

module _ {W : Type 0} (d : Config W) where
  -- What an outcome without an error stores.
  abbrev status_of : Outcome → JobKind → JobStatus
  status_of skip kind = skipped
  status_of (answered e) start = ready
  status_of (answered e) stop = stopped
  status_of (answered e) (other_kind k) = ready

  abbrev has_error : Outcome → Bool
  has_error (answered (some e)) = true
  has_error _ = false

  start_job-Done :
      (p : Provider W) (l : Lease) (auth : JobAuthorization) (w : W) {w' : W} {o : Outcome}
      → start_job d p l auth w ≡ (w', o)
      → has_error o ≡ false
      → Done d p l auth w w' start (status_of o start)
  unfolding start_job
  start_job-Done p l auth w {w'} {o} h z =
      elim (Bool-cases (not auth.active || not auth.source_current)) [
        | inl b ↦
            let same : o ≡ skip = ground arith in
            start_skipped refl (ground arith) (ap (λ x. status_of x start) same) (ground arith)
        | inr b ↦ elim (Option-cases d.license) [
          | inl n ↦ absurd (ground arith)
          | inr (require_video, n) ↦ elim (Run-cases (require_video auth.target.license w)) [
            | inr (w1, e, k) ↦ absurd (ground arith)
            | inl (w1, u, k) ↦ elim (Run-cases (p.start_stream (request_of l) w1)) [
              | inr (w2, e, m) ↦ absurd (ground arith)
              | inl (w2, v, m) ↦
                  let same : o ≡ answered none = ground arith in
                  started require_video w1 refl (ground arith) (ground arith) n k (ground arith)
                    (ap (λ x. status_of x start) same)
            ]
          ]
        ]
      ]

  stop_job-Done :
      (p : Provider W) (l : Lease) (auth : JobAuthorization) (w : W) {w' : W} {o : Outcome}
      → stop_job d p l auth w ≡ (w', o)
      → has_error o ≡ false
      → Done d p l auth w w' stop (status_of o stop)
  unfolding stop_job
  stop_job-Done p l auth w {w'} {o} h z = elim (Bool-cases auth.stop_superseded) [
    | inl b ↦
        let same : o ≡ skip = ground arith in
        stop_skipped refl b (ap (λ x. status_of x stop) same) (ground arith)
    | inr b ↦ elim (Run-cases (p.stop_stream (request_of l) w)) [
      | inr (w1, e, k) ↦ absurd (ground arith)
      | inl (w1, u, k) ↦
          let same : o ≡ answered none = ground arith in
          was_stopped refl b (ground arith) (ap (λ x. status_of x stop) same)
    ]
  ]

  perform-Done :
      (kind : JobKind) (p : Provider W) (l : Lease) (auth : JobAuthorization) (w : W) {w' : W}
      {o : Outcome}
      → perform d kind p l auth w ≡ (w', o)
      → has_error o ≡ false
      → Done d p l auth w w' kind (status_of o kind)
  unfolding perform
  perform-Done start p l auth w h z = start_job-Done p l auth w h z
  perform-Done stop p l auth w h z = stop_job-Done p l auth w h z
  perform-Done (other_kind k) p l auth w h z = absurd (ground arith)

  stored_status :
      (kind : JobKind) (now : Time)
      → (job_result none (pos 0) now kind).0 ≡ with_code (status_of (answered none) kind) [] now
  unfolding job_result
  stored_status start now = refl
  stored_status stop now = refl
  stored_status (other_kind k) now = refl

  outcome_result-stored :
      (o : Outcome) (l : Lease) (now : Time)
      → (outcome_result o l now).1 ≡ none
      → (has_error o ≡ false) × ((outcome_result o l now).0 ≡ with_code (status_of o l.kind) [] now)
  unfolding outcome_result job_result
  outcome_result-stored skip l now h = (refl, refl)
  outcome_result-stored (answered (some e)) l now h = absurd (ground arith)
  outcome_result-stored (answered none) l now h = (refl, stored_status l.kind now)

  finish-finished :
      (l : Lease) (now : Time) (w : W) (o : Outcome) {w' : W}
      → finish d l now (w, o) ≡ (w', (true, none))
      → ((outcome_result o l now).1 ≡ none)
        × (d.finish_job l (outcome_result o l now).0 now w ≡ (w', ok tt))
  unfolding finish
  finish-finished l now w o {w'} h =
      elim (Run-cases (d.finish_job l (outcome_result o l now).0 now w)) [
        | inr (w1, e, k) ↦ absurd (ground arith)
        | inl (w1, u, k) ↦ (ground arith, ground arith)
      ]

  run_claim-Processed :
      (p : Provider W) (worker_id : Text) (w : W) {w' : W}
      → d.enabled ≡ true
      → d.provider ≡ some p
      → is_empty worker_id ≡ false
      → run_claim d p (d.now w) (d.claim_job (d.now w) d.lease_duration worker_id w)
        ≡ (w', (true, none))
      → Processed d worker_id w w'
  unfolding run_claim run_lease
  run_claim-Processed p worker_id w {w'} enabled configured named h =
      elim (Run-cases (d.claim_job (d.now w) d.lease_duration worker_id w)) [
        | inr (w1, e, c) ↦ absurd (ground arith)
        | inl (w1, found, c) ↦ elim (Option-cases found) [
          | inl n ↦ absurd (ground arith)
          | inr (l, n) ↦ elim (Run-cases (d.revalidate_job l w1)) [
            | inr (w2, e, r) ↦ absurd (ground arith)
            | inl (w2, auth, r) ↦
                let (w3, o) = perform d l.kind p l auth w2 in
                let (unfailed, kept) = finish-finished l (d.now w) w3 o (ground arith) in
                let (quiet, result) = outcome_result-stored o l (d.now w) unfailed in
                record {
                  provider = p;
                  lease = l;
                  auth = auth;
                  status = status_of o l.kind;
                  claim_world = w1;
                  auth_world = w2;
                  done_world = w3;
                  enabled = enabled;
                  configured = configured;
                  named = named;
                  claimed = rw c (rw n refl);
                  revalidated = r;
                  done = perform-Done l.kind p l auth w2 refl quiet;
                  finished = subst (λ x. d.finish_job l x (d.now w) w3 ≡ (w', ok tt)) result kept;
                }
          ]
        ]
      ]

  -- A round reports a job without an error only when the service is enabled, has a provider and was
  -- given the name of a worker, the store leased the job and confirmed it, and the store then took its
  -- ending: skipped, without a call, if there was nothing left to do; ready, if the license guard and
  -- then the provider took the start; stopped, if the provider took the stop.
  pub process_media_job-Processed :
      (worker_id : Text) (w : W) {w' : W}
      → process_media_job d worker_id w ≡ (w', (true, none))
      → Processed d worker_id w w'
  unfolding process_media_job
  process_media_job-Processed worker_id w h = elim (Bool-cases d.enabled) [
    | inr b ↦ absurd (ground arith)
    | inl b ↦ elim (Option-cases d.provider) [
      | inl n ↦ absurd (ground arith)
      | inr (p, n) ↦ elim (Bool-cases (is_empty worker_id)) [
        | inl e ↦ absurd (ground arith)
        | inr e ↦ run_claim-Processed p worker_id w b n e (ground arith)
      ]
    ]
  ]
