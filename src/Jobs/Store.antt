-- ===== src/Jobs/Store.antt =====
-- internal/mediajobs/store.go and validation.go. The map of jobs is an association list. Every
-- operation runs under the mutex, so it is one step; what it reads from outside comes as
-- arguments: the context, the store's clock and the random lease token. A method is modelled on
-- a non-nil receiver, and `UTC` leaves a time as it is.
use iolink.Base.{
  ℕ, ◌*◌, ◌==◌, text_eq, nat_eq, int_eq, Bool, true, false, ◌&&◌, ◌||◌, not, if◌then◌else◌, leb,
  Text, is_empty, ℤ, pos, ◌+ℤ◌, is_positive, leb_ℤ, ltb_ℤ, List, [], ◌∷◌, Option, none, some,
  length, lookup, insert, GoError, plain, media, context, jobs, canceled, invalid_job, JobsError,
  MediaError, Result, ok, err, ◌>>=◌, ◌>>◌, guard, check, trim_space, text_ltb,
}
use iolink.Media.{
  Time, second, add_time, before, after, is_zero_time, JobKind, other_kind, kind_eq, JobStatus, Job,
  Lease, JobAuthorization, JobResult, Context,
}

abbrev pub max_attempts : ℕ
max_attempts = 6

abbrev pub max_lease : ℕ
max_lease = 5 * 60 * second

abbrev pub max_worker_id : ℕ
max_worker_id = 128

-- The strings that `entry.status` takes.
pub data EntryStatus : Type 0 where
  scheduled running retryable failed unknown cancelled succeeded : EntryStatus

abbrev pub is_running : EntryStatus → Bool
is_running running = true
is_running _ = false

abbrev pub is_waiting : EntryStatus → Bool
is_waiting scheduled = true
is_waiting retryable = true
is_waiting _ = false

pub record Entry : Type 0 where
  pub job : Job
  pub status : EntryStatus
  pub available_at : Time
  pub leased_until : Time
  pub lease_owner : Text
  pub lease_token : Text
  pub result : JobResult
  pub authorization : JobAuthorization

abbrev pub Store : Type 0
Store = List (Text × Entry)

pub record EnqueueInput : Type 0 where
  pub job : Job
  pub available_at : Time
  pub authorization : JobAuthorization

unfoldable pub context_error : Context → Option GoError
context_error none = some (plain (context canceled))
context_error (some answer) = answer

abbrev pub empty_kind : JobKind → Bool
empty_kind (other_kind s) = is_empty s
empty_kind _ = false

unfoldable pub valid_lease : Lease → Bool
valid_lease l =
    not (is_empty l.id)
    && not (is_empty l.lease_token)
    && is_positive l.source_version
    && is_positive l.camera_id
    && not (is_empty l.stream_id)

unfoldable pub lease_matches : Entry → Lease → Bool
lease_matches e l =
    e.lease_token == l.lease_token
    && not (is_empty e.lease_owner)
    && e.job.id == l.id
    && e.job.kind == l.kind
    && e.job.camera_id == l.camera_id
    && e.job.source_version == l.source_version
    && e.job.stream_id == l.stream_id
    && e.job.session_id == l.session_id

unfoldable pub valid_result : JobResult → Bool
valid_result r = elim r.status [
  | JobStatus.retryable ↦ not (is_zero_time r.next_at)
  | JobStatus.other_status s ↦ false
  | _ ↦ true
]

unfoldable pub result_state : JobStatus → EntryStatus
result_state JobStatus.retryable = retryable
result_state JobStatus.failed = failed
result_state JobStatus.disabled = failed
result_state JobStatus.unknown = unknown
result_state JobStatus.skipped = cancelled
result_state _ = succeeded

abbrev pub no_result : JobResult
no_result = record { status = JobStatus.other_status []; error_code = []; next_at = 0 }

unfoldable pub valid_enqueue : Job → Bool
valid_enqueue j =
    not (is_empty j.id)
    && not (empty_kind j.kind)
    && is_positive j.camera_id
    && is_positive j.source_version
    && not (is_empty j.stream_id)
    && leb_ℤ (pos 0) j.attempts
    && ltb_ℤ j.attempts (pos max_attempts)

unfoldable pub new_entry : EnqueueInput → Time → Entry
new_entry input clock = record {
  job = input.job;
  status = scheduled;
  available_at = if is_zero_time input.available_at then clock else input.available_at;
  leased_until = 0;
  lease_owner = [];
  lease_token = [];
  result = no_result;
  authorization = input.authorization;
}

unfoldable pub enqueue : Store → Context → EnqueueInput → Time → Result Store
enqueue s ctx input clock = do
  check (context_error ctx)
  guard (valid_enqueue input.job) (plain (jobs invalid_job))
  elim (lookup input.job.id s) [
    | some e ↦ err (plain (media MediaError.conflict))
    | none ↦ ok (insert input.job.id (new_entry input clock) s)
  ]

unfoldable pub set_authorization : Store → Context → Text → JobAuthorization → Result Store
set_authorization s ctx id auth = do
  check (context_error ctx)
  guard (not (is_empty id)) (plain (jobs invalid_job))
  elim (lookup id s) [
    | none ↦ err (plain (jobs JobsError.not_found))
    | some e ↦ ok (insert id (record e { authorization = auth }) s)
  ]

-- The comparison of `sort.Slice`: earlier first, then by id.
unfoldable pub sorts_before : Text × Entry → Text × Entry → Bool
sorts_before (i, a) (j, b) =
    if not (a.available_at == b.available_at)
    then before a.available_at b.available_at
    else text_ltb i j

unfoldable pub insert_sorted : Text × Entry → List (Text × Entry) → List (Text × Entry)
unfolding sorts_before
insert_sorted x [] = x ∷ []
insert_sorted x (y ∷ ys) =
    let rest = insert_sorted x ys in if sorts_before y x then y ∷ rest else x ∷ y ∷ ys

unfoldable pub sort_jobs : List (Text × Entry) → List (Text × Entry)
unfolding insert_sorted
sort_jobs [] = []
sort_jobs (x ∷ xs) = insert_sorted x (sort_jobs xs)

-- The tests that one round of the scan makes.
unfoldable pub is_eligible : Time → Entry → Bool
is_eligible now e =
    ltb_ℤ e.job.attempts (pos max_attempts)
    && ((is_waiting e.status && not (after e.available_at now))
        || (is_running e.status && (is_zero_time e.leased_until || not (after e.leased_until now))))

unfoldable pub first_eligible : Time → List (Text × Entry) → Option (Text × Entry)
unfolding is_eligible
first_eligible now [] = none
first_eligible now ((id, e) ∷ rest) =
    let later = first_eligible now rest in if is_eligible now e then some (id, e) else later

unfoldable pub valid_claim : Time → ℤ → Text → Bool
unfolding trim_space
valid_claim now lease worker_id =
    not (is_zero_time now)
    && is_positive lease
    && leb_ℤ lease (pos max_lease)
    && not (is_empty (trim_space worker_id))
    && leb (length (trim_space worker_id)) max_worker_id

unfoldable pub claimed_entry : Entry → Time → ℤ → Text → Text → Entry
claimed_entry e now lease worker_id token = record e {
  job = record e.job { attempts = e.job.attempts +ℤ pos 1 };
  status = running;
  lease_owner = worker_id;
  lease_token = token;
  leased_until = add_time now lease;
}

abbrev pub lease_of : Entry → Lease
lease_of e = record { job = e.job; lease_token = e.lease_token; leased_until = e.leased_until }

-- What `ClaimJob` does with the job that its scan selects; `none` is its `false` without an error.
unfoldable pub claim_selected :
    Store → Option (Text × Entry) → Time → ℤ → Text → Result Text → Result (Store × Option Lease)
unfolding claimed_entry
claim_selected s none now lease worker_id token = ok (s, none)
claim_selected s (some (id, e)) now lease worker_id token = do
  t ← token
  let e' = claimed_entry e now lease worker_id t
  ok (insert id e' s, some (lease_of e'))

unfoldable pub claim_job :
    Store → Context → Time → ℤ → Text → Time → Result Text → Result (Store × Option Lease)
claim_job s ctx now lease worker_id clock token = do
  check (context_error ctx)
  guard (valid_claim now lease worker_id) (plain (jobs invalid_job))
  guard (not (is_zero_time clock)) (plain (jobs invalid_job))
  claim_selected s (first_eligible clock (sort_jobs s)) clock lease worker_id token
