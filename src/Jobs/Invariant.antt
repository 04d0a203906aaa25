-- ===== src/Jobs/Invariant.antt =====
-- What holds of the store between two calls.
use iolink.Base.{
  ◌≡◌, refl, text_eq, true, false, Text, [], ◌∷◌, is_empty, ℤ, pos, is_positive, ◌≤ℤ◌, some, All,
  All-lookup, All-insert, Keyed, insert-Keyed, insert, ok, arith, trim_space,
}
use iolink.Media.{Time, Lease, JobAuthorization, JobResult, JobStatus, Context}
use iolink.Jobs.Store.{
  Entry, Store, EnqueueInput, valid_enqueue, valid_claim, is_running, max_attempts, claimed_entry,
  is_eligible, result_state, enqueue, set_authorization, claim_job, new_entry,
}
use iolink.Jobs.Finish.{finished_entry, finish_job}
use iolink.Jobs.Order.{scan-some}
use iolink.Jobs.Calls.{enqueue-ok, set_authorization-ok, claim-ok, finish-ok}

-- An entry stands under its job's id, has been claimed at most `max_attempts` times, and carries a
-- lease exactly while it is running.
pub record EntryIsValid (x : Text × Entry) : Type 0 where
  pub keyed : x.1.job.id ≡ x.0
  pub started : pos 0 ≤ℤ x.1.job.attempts
  pub capped : x.1.job.attempts ≤ℤ pos max_attempts
  pub named : (is_empty x.0 ≡ false) × (is_empty x.1.job.stream_id ≡ false)
  pub numbered :
      (is_positive x.1.job.camera_id ≡ true) × (is_positive x.1.job.source_version ≡ true)
  pub leased :
      is_running x.1.status ≡ true
      → (is_empty x.1.lease_owner ≡ false) × (is_empty x.1.lease_token ≡ false)
  pub idle :
      is_running x.1.status ≡ false
      → (x.1.lease_owner ≡ []) × (x.1.lease_token ≡ []) × (x.1.leased_until ≡ 0)

pub record IsValid (s : Store) : Type 0 where
  pub keys : Keyed s
  pub entries : All EntryIsValid s

insert-IsValid :
    (s : Store) (id : Text) (e : Entry) → IsValid s → EntryIsValid (id, e) → IsValid (insert id e s)
insert-IsValid s id e v p = record {
  keys = insert-Keyed id e s v.keys;
  entries = All-insert EntryIsValid id e s v.entries p;
}

pub empty-IsValid : IsValid []
empty-IsValid = record { keys = tt; entries = tt }

-- A worker's name that is not blank is not empty.
trim_space-empty : (w : Text) → is_empty (trim_space w) ≡ false → is_empty w ≡ false
unfolding trim_space
trim_space-empty [] h = cc
trim_space-empty (c ∷ w) h = refl

pub valid_claim-worker :
    (now : Time) (lease : ℤ) (w : Text) → valid_claim now lease w ≡ true → is_empty w ≡ false
unfolding valid_claim
valid_claim-worker now lease w h = ground (arith, trim_space-empty w)

new_entry-IsValid :
    (input : EnqueueInput) (clock : Time)
    → valid_enqueue input.job ≡ true
    → EntryIsValid (input.job.id, new_entry input clock)
unfolding valid_enqueue new_entry
new_entry-IsValid input clock h = ground arith

claimed_entry-IsValid :
    (x : Text × Entry) (clock : Time) (lease : ℤ) (w t : Text)
    → EntryIsValid x
    → is_eligible clock x.1 ≡ true
    → is_empty w ≡ false
    → is_empty t ≡ false
    → EntryIsValid (x.0, claimed_entry x.1 clock lease w t)
unfolding is_eligible claimed_entry
claimed_entry-IsValid x clock lease w t v e hw ht = ground arith

pub result_state-idle : (r : JobStatus) → is_running (result_state r) ≡ false
unfolding result_state
result_state-idle r = ground arith

finished_entry-IsValid :
    (id : Text) (e : Entry) (r : JobResult)
    → EntryIsValid (id, e)
    → EntryIsValid (id, finished_entry e r)
unfolding finished_entry
finished_entry-IsValid id e r v = ground (arith, result_state-idle r.status)

module _ (s : Store) (ctx : Context) (v : IsValid s) where
  pub enqueue-IsValid :
      (input : EnqueueInput) (clock : Time) {s' : Store}
      → enqueue s ctx input clock ≡ ok s'
      → IsValid s'
  enqueue-IsValid input clock h =
      let (w, n, e) = enqueue-ok s ctx input clock h in
      rw e (insert-IsValid s _ _ v (new_entry-IsValid input clock w))

  pub set_authorization-IsValid :
      (id : Text) (auth : JobAuthorization) {s' : Store}
      → set_authorization s ctx id auth ≡ ok s'
      → IsValid s'
  set_authorization-IsValid id auth h =
      let (e, q, u) = set_authorization-ok s ctx id auth h in
      let p : EntryIsValid (id, e) = All-lookup EntryIsValid id s v.entries q in
      rw u (insert-IsValid s id (record e { authorization = auth }) v (ground arith))

  -- A successful claim, given that the random token is not empty.
  pub claim_job-IsValid :
      (now : Time) (lease : ℤ) (w : Text) (clock : Time) (token : Text) {s' : Store} {l : Lease}
      → is_empty token ≡ false
      → claim_job s ctx now lease w clock (ok token) ≡ ok (s', some l)
      → IsValid s'
  claim_job-IsValid now lease w clock token ht h =
      let (x, t, f, k, g, z, e, q) = claim-ok s ctx now lease w clock (ok token) h in
      let (p, y, first) = scan-some EntryIsValid clock s x v.entries f in
      rw e (
        insert-IsValid s x.0 _ v (
          claimed_entry-IsValid x clock lease w t p y (valid_claim-worker now lease w g)
            (ground arith)))

  pub finish_job-IsValid :
      (l : Lease) (r : JobResult) (now clock : Time) {s' : Store}
      → finish_job s ctx l r now clock ≡ ok s'
      → IsValid s'
  finish_job-IsValid l r now clock h =
      let (e, q, m, run, live, live', u) = finish-ok s ctx l r now clock h in
      rw u (
        insert-IsValid s l.id _ v
          (finished_entry-IsValid l.id e r (All-lookup EntryIsValid l.id s v.entries q)))
