-- ===== src/Jobs/Examples.antt =====
-- The job store's theorems at a concrete store, and a worker's round through it.
use iolink.Base.{
  ℕ, ◌<◌, ◌≤◌, ◌≡◌, refl, ◌≢◌, inl, text_eq, text_beq, true, false, Text, text, is_empty, ℤ, pos,
  ◌+ℤ◌, List, [], ◌∷◌, none, some, lookup, insert, ok, err, arith,
}
use iolink.Media.{
  Time, Job, start, ready, Lease, JobAuthorization, JobResult, PlaybackTarget, LicenseSnapshot,
  add_time, Context,
}
use iolink.Jobs.Store.{
  Entry, scheduled, running, Store, no_result, is_running, lease_of, claimed_entry, claim_job,
  is_eligible, valid_result, valid_lease, valid_claim, context_error, max_attempts, sort_jobs,
  first_eligible, enqueue, claim_selected, lease_matches, new_entry, valid_enqueue,
}
use iolink.Jobs.Finish.{
  lease_lost, finish_job, revalidate_job, current_authorization, target_agrees, finished_entry,
  finish_entry,
}
use iolink.Jobs.Order.{FirstEligible}
use iolink.Jobs.Invariant.{IsValid, EntryIsValid}
use iolink.Jobs.Leases.{claim-first, claim-excludes, finish_stale, finish-once}
use iolink.Jobs.Rounds.{finish-claim}
use iolink.Jobs.Traces.{Call, enqueues, claims, run, fresh, claimed-le}

abbrev no_license : LicenseSnapshot
no_license = record {
  deployment_id = [];
  payload = [];
  signature = [];
  sha256 = [];
  max_seen_at = 0;
  clock_error = false;
  now = 0;
}

abbrev camera_target : PlaybackTarget
camera_target = record {
  tenant_id = pos 1;
  camera_id = pos 7;
  source_version = pos 2;
  stream_id = text "s";
  user_id = pos 3;
  user_token_version = pos 1;
  tenant_permission_version = pos 1;
  member_permission_version = pos 1;
  license = no_license;
}

abbrev allowed : JobAuthorization
allowed = record {
  target = camera_target;
  active = true;
  source_current = true;
  stop_superseded = false;
}

abbrev start_camera : Text → ℤ → Job
start_camera id attempts = record {
  id = id;
  kind = start;
  camera_id = pos 7;
  source_version = pos 2;
  stream_id = text "s";
  session_id = text "v";
  attempts = attempts;
}

abbrev waiting : Text → Time → Entry
waiting id at = record {
  job = start_camera id (pos 0);
  status = scheduled;
  available_at = at;
  leased_until = 0;
  lease_owner = [];
  lease_token = [];
  result = no_result;
  authorization = allowed;
}

-- A job in the hands of worker "w" until 140.
abbrev taken : Text → Entry
taken id = record {
  job = start_camera id (pos 1);
  status = running;
  available_at = 5;
  leased_until = 140;
  lease_owner = text "w";
  lease_token = text "t";
  result = no_result;
  authorization = allowed;
}

abbrev held : Lease
held = lease_of (taken (text "a"))

abbrev jobs : Store
jobs = (text "a", waiting (text "a") 5) ∷ (text "b", waiting (text "b") 3) ∷ []

abbrev taken_b : Entry
taken_b = record (taken (text "b")) { available_at = 3 }

abbrev after_claim : Store
after_claim = (text "a", waiting (text "a") 5) ∷ (text "b", taken_b) ∷ []

abbrev live : Context
live = some none

abbrev done : JobResult
done = record { status = ready; error_code = []; next_at = 50 }

waiting-IsValid : (id : Text) (at : Time) → is_empty id ≡ false → EntryIsValid (id, waiting id at)
waiting-IsValid id at h = ground arith

taken-IsValid :
    (id : Text) (at : Time)
    → is_empty id ≡ false
    → EntryIsValid (id, record (taken id) { available_at = at })
taken-IsValid id at h = ground arith

jobs-IsValid : IsValid jobs
unfolding lookup text_beq
jobs-IsValid = record {
  keys = (refl, (refl, tt));
  entries = (waiting-IsValid (text "a") 5 refl, (waiting-IsValid (text "b") 3 refl, tt));
}

after_claim-IsValid : IsValid after_claim
unfolding lookup text_beq
after_claim-IsValid = record {
  keys = (refl, (refl, tt));
  entries = (waiting-IsValid (text "a") 5 refl, (taken-IsValid (text "b") 3 refl, tt));
}

claims_b :
    claim_job jobs live 40 (pos 100) (text "w") 40 (ok (text "t"))
    ≡ ok (after_claim, some (lease_of taken_b))
unfolding claim_job claim_selected claimed_entry context_error valid_claim first_eligible sort_jobs
    insert is_eligible text_beq
claims_b = refl

claim-first_example :
    (e : Entry) × (lookup (text "b") jobs ≡ some e)
    × (is_eligible 40 e ≡ true)
    × FirstEligible 40 (text "b", e) jobs
    × (pos 1 ≡ e.job.attempts +ℤ pos 1)
    × (◌≡◌ {A = ℕ} 140 (add_time 40 (pos 100)))
    × (lookup (text "b") after_claim ≡ some (claimed_entry e 40 (pos 100) (text "w") (text "t")))
    × ((id : Text) → id ≢ text "b" → lookup id after_claim ≡ lookup id jobs)
claim-first_example =
    claim-first jobs jobs-IsValid live 40 (pos 100) (text "w") 40 (ok (text "t")) claims_b

-- With "b" in hand the next claim takes "a".
claims_a :
    claim_job after_claim live 41 (pos 100) (text "x") 41 (ok (text "u"))
    ≡ ok (
      insert
          (text "a")
          (claimed_entry (waiting (text "a") 5) 41 (pos 100) (text "x") (text "u"))
          after_claim,
      some (lease_of (claimed_entry (waiting (text "a") 5) 41 (pos 100) (text "x") (text "u"))),
    )
unfolding claim_job claim_selected claimed_entry context_error valid_claim first_eligible sort_jobs
    insert is_eligible text_beq
claims_a = refl

claim-excludes_example :
    ((lease_of (claimed_entry (waiting (text "a") 5) 41 (pos 100) (text "x") (text "u"))).id
      ≢ text "b")
    × (lookup (text "b") (
          insert
            (text "a")
            (claimed_entry (waiting (text "a") 5) 41 (pos 100) (text "x") (text "u"))
            after_claim)
        ≡ some taken_b)
claim-excludes_example =
    claim-excludes after_claim after_claim-IsValid live 41 (pos 100) (text "x") 41 (ok (text "u"))
      (text "b") (unfold lookup text_beq in refl) refl refl refl claims_a

-- The lease of a worker whose token was replaced.
abbrev stale : Lease
stale = record (lease_of taken_b) { lease_token = text "old" }

finish_stale_example :
    (finish_job after_claim live stale done 50 50 ≡ err lease_lost)
    × (revalidate_job after_claim live stale 50 ≡ err lease_lost)
finish_stale_example =
    finish_stale after_claim live stale done 50 50 taken_b (unfold context_error in refl)
      (unfold valid_lease in refl) refl (unfold valid_result in refl) refl
      (unfold lookup text_beq in refl) (inl (λ e. cc))

abbrev after_finish : Store
after_finish = insert (text "b") (finished_entry taken_b done) after_claim

finishes_b : finish_job after_claim live (lease_of taken_b) done 50 60 ≡ ok after_finish
unfolding finish_job finish_entry context_error valid_lease valid_result lease_matches target_agrees
    lookup text_beq
finishes_b = refl

finish-once_example :
    (e : Entry) × (lookup (text "b") after_claim ≡ some e)
    × (e.lease_token ≡ text "t")
    × (is_running e.status ≡ true)
    × (50 < e.leased_until)
    × (60 < e.leased_until)
    × (lookup (text "b") after_finish ≡ some (finished_entry e done))
    × (is_running (finished_entry e done).status ≡ false)
    × ((id : Text) → id ≢ text "b" → lookup id after_finish ≡ lookup id after_claim)
    × ((later : Context) (r' : JobResult) (now' clock' : Time) (s'' : Store)
        → finish_job after_finish later (lease_of taken_b) r' now' clock' ≢ ok s'')
finish-once_example = finish-once after_claim live (lease_of taken_b) done 50 60 finishes_b

finish-claim_example :
    (revalidate_job after_claim live (lease_of taken_b) 60
      ≡ ok (current_authorization allowed (lease_of taken_b)))
    × ((s'' : Store) × (finish_job after_claim live (lease_of taken_b) done 50 60 ≡ ok s'')
        × ((e : Entry) × (lookup (text "b") s'' ≡ some e)
            × ((is_running e.status ≡ false) × (e.result ≡ done) × (e.job.attempts ≡ pos 1))))
finish-claim_example =
    finish-claim jobs live live 40 40 50 60 (pos 100) (text "w") (text "t") done
      (waiting (text "b") 3) jobs-IsValid refl claims_b (unfold lookup text_beq in refl)
      (unfold context_error in refl) (omega arith) (omega arith) (omega arith) (omega arith)
      (unfold valid_result in refl) (unfold target_agrees text_beq in refl)

abbrev day : List Call
day =
    enqueues live
      (record { job = start_camera (text "a") (pos 4); available_at = 5; authorization = allowed })
      1
    ∷ claims live 40 (pos 100) (text "w") 40 (text "t")
    ∷ claims live 150 (pos 100) (text "x") 150 (text "u")
    ∷ claims live 300 (pos 100) (text "y") 300 (text "v")
    ∷ []

claimed-le_example :
    ((run (text "a") fresh day).claimed ≤ max_attempts) × IsValid (run (text "a") fresh day).store
claimed-le_example = claimed-le (text "a") day (tt, (refl, (refl, (refl, tt))))

-- Enqueued with four attempts behind it, the job is claimed twice; the third claim finds nothing.
day_claims : (run (text "a") fresh day).claimed ≡ 2
unfolding run enqueue claim_job claim_selected claimed_entry context_error valid_claim valid_enqueue
    new_entry first_eligible sort_jobs insert lookup is_eligible text_beq
day_claims = refl
