-- ===== src/Jobs/Calls.antt =====
-- What a successful call has checked and done: inversions of the operations.
use iolink.Base.{
  text_eq, ◌≡◌, inl, inr, true, false, ◌&&◌, ◌||◌, not, Text, is_empty, ℤ, none, some, lookup,
  insert, Result, ok, arith, Option-cases, Result-cases, check-ok, guard-ok,
}
use iolink.Media.{Time, after, is_zero_time, Lease, JobAuthorization, JobResult, Context}
use iolink.Jobs.Store.{
  Entry, Store, EnqueueInput, context_error, valid_enqueue, valid_claim, valid_lease, valid_result,
  lease_matches, is_running, claimed_entry, lease_of, first_eligible, sort_jobs, enqueue,
  set_authorization, claim_job, claim_selected, new_entry,
}
use iolink.Jobs.Finish.{target_agrees, is_skipped, finish_entry, finished_entry, finish_job}

finish_entry-ok :
    (s : Store) (e : Entry) (l : Lease) (r : JobResult) (now clock : Time) {s' : Store}
    → finish_entry s e l r now clock ≡ ok s'
    → (lease_matches e l
          && is_running e.status
          && after e.leased_until now
          && after e.leased_until clock
        ≡ true)
      × (s' ≡ insert l.id (finished_entry e r) s)
unfolding finish_entry
finish_entry-ok s e l r now clock h =
    let (m, h1) =
      guard-ok
        (lease_matches e l
          && is_running e.status
          && after e.leased_until now
          && after e.leased_until clock)
        _ _ h in
    let (a, h2) = guard-ok (is_skipped r.status || target_agrees e.authorization l) _ _ h1 in
    (m, cc)

module _ (s : Store) (ctx : Context) where
  pub enqueue-ok :
      (input : EnqueueInput) (clock : Time) {s' : Store}
      → enqueue s ctx input clock ≡ ok s'
      → (valid_enqueue input.job ≡ true)
        × (lookup input.job.id s ≡ none)
        × (s' ≡ insert input.job.id (new_entry input clock) s)
  unfolding enqueue
  enqueue-ok input clock h =
      let (c, h1) = check-ok (context_error ctx) _ h in
      let (v, h2) = guard-ok (valid_enqueue input.job) _ _ h1 in
      elim (Option-cases (lookup input.job.id s)) [
        | inl q ↦ (v, q, ground arith)
        | inr (e, q) ↦ absurd (ground arith)
      ]

  pub set_authorization-ok :
      (id : Text) (auth : JobAuthorization) {s' : Store}
      → set_authorization s ctx id auth ≡ ok s'
      → (e : Entry) × (lookup id s ≡ some e)
        × (s' ≡ insert id (record e { authorization = auth }) s)
  unfolding set_authorization
  set_authorization-ok id auth h =
      let (c, h1) = check-ok (context_error ctx) _ h in
      let (g, h2) = guard-ok (not (is_empty id)) _ _ h1 in
      elim (Option-cases (lookup id s)) [
        | inl q ↦ absurd (ground arith)
        | inr (e, q) ↦ (e, q, ground arith)
      ]

  -- A claim that finds nothing leaves the store as it was.
  pub claim-none :
      (now : Time) (lease : ℤ) (worker_id : Text) (clock : Time) (token : Result Text) {s' : Store}
      → claim_job s ctx now lease worker_id clock token ≡ ok (s', none)
      → (s' ≡ s) × (first_eligible clock (sort_jobs s) ≡ none)
  unfolding claim_job claim_selected
  claim-none now lease worker_id clock token h =
      let (c, h1) = check-ok (context_error ctx) _ h in
      let (v, h2) = guard-ok (valid_claim now lease worker_id) _ _ h1 in
      let (z, h3) = guard-ok (not (is_zero_time clock)) _ _ h2 in
      elim (Option-cases (first_eligible clock (sort_jobs s))) [
        | inl q ↦ (ground arith, q)
        | inr (x, q) ↦ elim (Result-cases token) [
          | inr (e, k) ↦ absurd (ground arith)
          | inl (t, k) ↦ absurd (ground arith)
        ]
      ]

  pub claim-ok :
      (now : Time) (lease : ℤ) (worker_id : Text) (clock : Time) (token : Result Text) {s' : Store}
      {l : Lease}
      → claim_job s ctx now lease worker_id clock token ≡ ok (s', some l)
      → (x : Text × Entry) × (t : Text) × (first_eligible clock (sort_jobs s) ≡ some x)
        × (token ≡ ok t)
        × (valid_claim now lease worker_id ≡ true)
        × (is_zero_time clock ≡ false)
        × (s' ≡ insert x.0 (claimed_entry x.1 clock lease worker_id t) s)
        × (l ≡ lease_of (claimed_entry x.1 clock lease worker_id t))
  unfolding claim_job claim_selected
  claim-ok now lease worker_id clock token h =
      let (c, h1) = check-ok (context_error ctx) _ h in
      let (v, h2) = guard-ok (valid_claim now lease worker_id) _ _ h1 in
      let (z, h3) = guard-ok (not (is_zero_time clock)) _ _ h2 in
      elim (Option-cases (first_eligible clock (sort_jobs s))) [
        | inl q ↦ absurd (ground arith)
        | inr (x, q) ↦ elim (Result-cases token) [
          | inr (e, k) ↦ absurd (ground arith)
          | inl (t, k) ↦ (x, t, q, k, v, ground arith, ground arith, ground arith)
        ]
      ]

  pub finish-ok :
      (l : Lease) (r : JobResult) (now clock : Time) {s' : Store}
      → finish_job s ctx l r now clock ≡ ok s'
      → (e : Entry) × (lookup l.id s ≡ some e)
        × (lease_matches e l ≡ true)
        × (is_running e.status ≡ true)
        × (after e.leased_until now ≡ true)
        × (after e.leased_until clock ≡ true)
        × (s' ≡ insert l.id (finished_entry e r) s)
  unfolding finish_job
  finish-ok l r now clock {s'} h =
      let (c, h1) = check-ok (context_error ctx) _ h in
      let (v, h2) = guard-ok (valid_lease l && not (is_zero_time now) && valid_result r) _ _ h1 in
      let (z, h3) = guard-ok (not (is_zero_time clock)) _ _ h2 in
      elim (Option-cases (lookup l.id s)) [
        | inl q ↦ absurd (ground arith)
        | inr (e, q) ↦
            let h4 : finish_entry s e l r now clock ≡ ok s' = ground arith in
            let (m, u) = finish_entry-ok s e l r now clock h4 in
            (e, q, ground arith, ground arith, ground arith, ground arith, u)
      ]
