-- ===== src/Jobs/Leases.antt =====
-- Who may run a job: the claim picks it, and the lease guards its end.
use iolink.Base.{
  ◌<◌, ◌≡◌, refl, sym, ap, ◌∙◌, ◌≢◌, ◌⊎◌, ◌↔◌, ==_iff, text_eq, int_eq, true, false, ◌&&◌, Text, ℤ,
  pos, ◌+ℤ◌, none, some, All-both, subst, Keyed-lookup, lookup, lookup-insert_self,
  lookup-insert_ne, Result, ok, err, arith,
}
use iolink.Media.{Time, add_time, after, is_zero_time, kind_eq, Lease, JobResult, Context}
use iolink.Jobs.Store.{
  Entry, Store, context_error, valid_claim, valid_lease, valid_result, lease_matches, is_running,
  claimed_entry, lease_of, is_eligible, claim_job, claim_selected,
}
use iolink.Jobs.Finish.{
  lease_lost, finished_entry, finish_job, finish_entry, revalidate_job, revalidate_entry,
}
use iolink.Jobs.Order.{FirstEligible, NoneEligible, scan-some, scan-none, scan-of_none}
use iolink.Jobs.Calls.{claim-ok, claim-none, finish-ok}
use iolink.Jobs.Invariant.{IsValid, EntryIsValid, result_state-idle}

-- The lease that a claim gives out, in terms of the entry that its scan selects.
claimed_lease :
    (e : Entry) (clock : Time) (lease : ℤ) (worker_id t : Text)
    → let l = lease_of (claimed_entry e clock lease worker_id t) in
      (l.id ≡ e.job.id)
      × (l.attempts ≡ e.job.attempts +ℤ pos 1)
      × (l.leased_until ≡ add_time clock lease)
      × (l.lease_token ≡ t)
unfolding claimed_entry
claimed_lease e clock lease worker_id t = (refl, refl, refl, refl)

module _ (s : Store) (v : IsValid s) (ctx : Context) (now : Time) (lease : ℤ) (worker_id : Text)
    (clock : Time) (token : Result Text) where
  -- A claim takes an eligible job that comes first among the eligible ones by the time from which it
  -- is available and then by id; the lease counts one more attempt and runs for the time asked, and
  -- no other job changes.
  pub claim-first :
      {s' : Store} {l : Lease}
      → claim_job s ctx now lease worker_id clock token ≡ ok (s', some l)
      → (e : Entry) × (lookup l.id s ≡ some e)
        × (is_eligible clock e ≡ true)
        × FirstEligible clock (l.id, e) s
        × (l.attempts ≡ e.job.attempts +ℤ pos 1)
        × (l.leased_until ≡ add_time clock lease)
        × (lookup l.id s' ≡ some (claimed_entry e clock lease worker_id l.lease_token))
        × ((id : Text) → id ≢ l.id → lookup id s' ≡ lookup id s)
  claim-first {s'} {l} h =
      let (x, t, f, k, g, z, u, q) = claim-ok s ctx now lease worker_id clock token h in
      let ((p, found), y, first) =
        scan-some (λ x. EntryIsValid x × (lookup x.0 s ≡ some x.1)) clock s x
          (All-both EntryIsValid _ s v.entries (Keyed-lookup s v.keys)) f in
      let (a, b, c, d) = claimed_lease x.1 clock lease worker_id t in
      let i : x.0 ≡ l.id = sym (ap (λ m. m.id) q ∙ a ∙ p.keyed) in
      let j : t ≡ l.lease_token = sym (ap (λ m. m.lease_token) q ∙ d) in
      (
        x.1,
        rw i at found,
        y,
        subst (λ n. FirstEligible clock (n, x.1) s) i first,
        ap (λ m. m.attempts) q ∙ b,
        ap (λ m. m.leased_until) q ∙ c,
        rw (u, ← i, ← j) (lookup-insert_self x.0 _ s),
        λ id n. rw u (lookup-insert_ne x.0 id _ s (λ m. n (m ∙ i))),
      )

  -- While a worker's lease on a job is live, no claim takes that job, and none changes it.
  pub claim-excludes :
      (id : Text) {e : Entry} {s' : Store} {l : Lease}
      → lookup id s ≡ some e
      → is_running e.status ≡ true
      → is_zero_time e.leased_until ≡ false
      → after e.leased_until clock ≡ true
      → claim_job s ctx now lease worker_id clock token ≡ ok (s', some l)
      → (l.id ≢ id) × (lookup id s' ≡ some e)
  claim-excludes id {e} {s'} {l} q r z live h =
      let (e', q', y, first, a, b, c, rest) = claim-first h in
      let other : l.id ≢ id = λ same.
        let one : e' ≡ e = ground (arith, rw same at q') in
        unfold is_eligible in absurd (ground arith) in
      (other, rest id (λ m. other (sym m)) ∙ q)

-- A claim with valid arguments finds nothing exactly when no job is eligible, and then changes
-- nothing.
claim-none_iff :
    (s : Store) (ctx : Context) (now : Time) (lease : ℤ) (worker_id : Text) (clock : Time)
    (token : Result Text)
    → context_error ctx ≡ none
    → valid_claim now lease worker_id ≡ true
    → is_zero_time clock ≡ false
    → (claim_job s ctx now lease worker_id clock token ≡ ok (s, none)) ↔ NoneEligible clock s
claim-none_iff s ctx now lease worker_id clock token live valid z = (
  λ h. scan-none clock s (claim-none s ctx now lease worker_id clock token h).1,
  λ h. unfold claim_job claim_selected in rw (live, valid, z, scan-of_none clock s h),
)

-- Why a lease is not a job's current one.
abbrev pub IsStale : Entry → Lease → Time → Type 0
IsStale e l clock =
    (e.lease_token ≢ l.lease_token)
    ⊎ (is_running e.status ≡ false)
    ⊎ (after e.leased_until clock ≡ false)

lease_matches_token :
    (e : Entry) (l : Lease) → e.lease_token ≢ l.lease_token → lease_matches e l ≡ false
unfolding lease_matches
lease_matches_token e l n = ground (arith, ==_iff e.lease_token l.lease_token)

IsStale-refused :
    (e : Entry) (l : Lease) (now clock : Time)
    → IsStale e l clock
    → (lease_matches e l
          && is_running e.status
          && after e.leased_until now
          && after e.leased_until clock
        ≡ false)
      × (lease_matches e l && is_running e.status && after e.leased_until clock ≡ false)
IsStale-refused e l now clock why = ground (arith, lease_matches_token e l)

-- A lease that is not the job's current one can neither end the job nor be revalidated: one with
-- another token, one of a job that is not running, and one that ran out by the store's clock.
pub finish_stale :
    (s : Store) (ctx : Context) (l : Lease) (r : JobResult) (now clock : Time) (e : Entry)
    → context_error ctx ≡ none
    → valid_lease l ≡ true
    → is_zero_time now ≡ false
    → valid_result r ≡ true
    → is_zero_time clock ≡ false
    → lookup l.id s ≡ some e
    → IsStale e l clock
    → (finish_job s ctx l r now clock ≡ err lease_lost)
      × (revalidate_job s ctx l clock ≡ err lease_lost)
unfolding finish_job finish_entry revalidate_job revalidate_entry
finish_stale s ctx l r now clock e live a b c d q why =
    let (x, y) = IsStale-refused e l now clock why in
    (rw (live, a, b, c, d, q, x), rw (live, a, d, q, y))

-- Only the holder of the current, live lease ends a job. The job then waits or rests without a
-- lease, no other job changes, and the same lease cannot end it again.
pub finish-once :
    (s : Store) (ctx : Context) (l : Lease) (r : JobResult) (now clock : Time) {s' : Store}
    → finish_job s ctx l r now clock ≡ ok s'
    → (e : Entry) × (lookup l.id s ≡ some e)
      × (e.lease_token ≡ l.lease_token)
      × (is_running e.status ≡ true)
      × (now < e.leased_until)
      × (clock < e.leased_until)
      × (lookup l.id s' ≡ some (finished_entry e r))
      × (is_running (finished_entry e r).status ≡ false)
      × ((id : Text) → id ≢ l.id → lookup id s' ≡ lookup id s)
      × ((later : Context) (r' : JobResult) (now' clock' : Time)
          → (s'' : Store) → finish_job s' later l r' now' clock' ≢ ok s'')
finish-once s ctx l r now clock {s'} h =
    let (e, q, m, run, a, b, u) = finish-ok s ctx l r now clock h in
    let here : lookup l.id s' ≡ some (finished_entry e r) = rw u (lookup-insert_self l.id _ s) in
    (
      e,
      q,
      unfold lease_matches in ground (arith, ==_iff e.lease_token l.lease_token),
      run,
      ground arith,
      ground arith,
      here,
      unfold finished_entry in result_state-idle r.status,
      λ id n. rw u (lookup-insert_ne l.id id _ s n),
      λ later r' now' clock' s'' h'.
          let (e', q', m', run', a', b', u') = finish-ok s' later l r' now' clock' h' in
          let one : finished_entry e r ≡ e' = ground (arith, here, q') in
          let idle : is_running (finished_entry e r).status ≡ false =
            unfold finished_entry in result_state-idle r.status in
          cc (ap (λ t. is_running t.status) one),
    )
