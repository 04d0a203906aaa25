-- ===== src/Jobs/Finish.antt =====
-- internal/mediajobs/store.go: `RevalidateJob`, `FinishJob` and `Snapshot`.
use iolink.Base.{
  ◌==◌, text_eq, nat_eq, int_eq, Bool, true, false, ◌&&◌, ◌||◌, not, Text, is_empty, pos, [],
  Option, none, some, lookup, insert, GoError, plain, media, jobs, invalid_job, MediaError, Result,
  ok, err, ◌>>◌, guard, check,
}
use iolink.Media.{
  Time, after, is_zero_time, kind_eq, JobStatus, Job, Lease, JobAuthorization, JobResult, Context,
}
use iolink.Jobs.Store.{
  EntryStatus, is_running, Entry, Store, context_error, valid_lease, lease_matches, valid_result,
  result_state,
}

abbrev pub lease_lost : GoError
lease_lost = plain (media MediaError.lease_lost)

-- The authorization with `SourceCurrent` rechecked against the lease.
unfoldable pub current_authorization : JobAuthorization → Lease → JobAuthorization
current_authorization auth l = record auth {
  source_current =
      auth.source_current
      && auth.target.source_version == l.source_version
      && auth.target.camera_id == l.camera_id
      && (is_empty auth.target.stream_id || auth.target.stream_id == l.stream_id);
}

-- `RevalidateJob` on the entry that stands under the lease's id.
unfoldable pub revalidate_entry : Entry → Lease → Time → Result JobAuthorization
revalidate_entry e l clock = do
  guard (lease_matches e l && is_running e.status && after e.leased_until clock) lease_lost
  ok (current_authorization e.authorization l)

unfoldable pub revalidate_job : Store → Context → Lease → Time → Result JobAuthorization
revalidate_job s ctx l clock = do
  check (context_error ctx)
  guard (valid_lease l) lease_lost
  guard (not (is_zero_time clock)) lease_lost
  elim (lookup l.id s) [ none ↦ err lease_lost | some e ↦ revalidate_entry e l clock ]

-- The target that `SetAuthorization` left does not contradict the lease.
unfoldable pub target_agrees : JobAuthorization → Lease → Bool
target_agrees auth l =
    (auth.target.source_version == pos 0 || auth.target.source_version == l.source_version)
    && (auth.target.camera_id == pos 0 || auth.target.camera_id == l.camera_id)
    && (is_empty auth.target.stream_id || auth.target.stream_id == l.stream_id)

abbrev pub is_skipped : JobStatus → Bool
is_skipped JobStatus.skipped = true
is_skipped _ = false

unfoldable pub finished_entry : Entry → JobResult → Entry
unfolding result_state
finished_entry e r = record e {
  result = r;
  status = result_state r.status;
  available_at = r.next_at;
  leased_until = 0;
  lease_owner = [];
  lease_token = [];
}

-- `FinishJob` on the entry that stands under the lease's id.
unfoldable pub finish_entry : Store → Entry → Lease → JobResult → Time → Time → Result Store
finish_entry s e l r now clock = do
  guard
      (lease_matches e l
        && is_running e.status
        && after e.leased_until now
        && after e.leased_until clock)
      lease_lost
  guard (is_skipped r.status || target_agrees e.authorization l) lease_lost
  ok (insert l.id (finished_entry e r) s)

unfoldable pub finish_job : Store → Context → Lease → JobResult → Time → Time → Result Store
finish_job s ctx l r now clock = do
  check (context_error ctx)
  guard (valid_lease l && not (is_zero_time now) && valid_result r) (plain (jobs invalid_job))
  guard (not (is_zero_time clock)) lease_lost
  elim (lookup l.id s) [ none ↦ err lease_lost | some e ↦ finish_entry s e l r now clock ]

-- `Snapshot`: a copy of the entry without its token.
pub record Snapshot : Type 0 where
  pub job : Job
  pub status : EntryStatus
  pub available_at : Time
  pub leased_until : Time
  pub lease_owner : Text
  pub result : JobResult
  pub authorization : JobAuthorization

unfoldable pub snapshot : Store → Context → Text → Result (Option Snapshot)
snapshot s ctx id = do
  check (context_error ctx)
  elim (lookup id s) [
    | none ↦ ok none
    | some e ↦ ok (
        some (record {
          job = e.job;
          status = e.status;
          available_at = e.available_at;
          leased_until = e.leased_until;
          lease_owner = e.lease_owner;
          result = e.result;
          authorization = e.authorization;
        }))
  ]
