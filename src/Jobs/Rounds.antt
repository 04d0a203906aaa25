-- ===== src/Jobs/Rounds.antt =====
-- A worker's round: it claims a job, revalidates its lease and ends the job in time.
use iolink.Base.{
  ◌<◌, ◌≡◌, refl, sym, ap, ◌∙◌, ==_refl, text_eq, int_eq, true, false, ◌||◌, Text, is_empty, ℤ,
  Option, none, some, All-both, Keyed-lookup, lookup, insert, lookup-insert_self, ok, arith,
}
use iolink.Media.{Time, after, is_zero_time, kind_eq, Lease, JobResult, Context}
use iolink.Jobs.Store.{
  Entry, Store, context_error, valid_lease, valid_result, lease_matches, is_running, claimed_entry,
  lease_of, claim_job,
}
use iolink.Jobs.Finish.{
  target_agrees, is_skipped, finished_entry, finish_job, finish_entry, revalidate_job,
  revalidate_entry, current_authorization,
}
use iolink.Jobs.Order.{scan-some}
use iolink.Jobs.Calls.{claim-ok}
use iolink.Jobs.Invariant.{IsValid, EntryIsValid, valid_claim-worker, result_state-idle}

claimed-matches :
    (e : Entry) (clock : Time) (lease : ℤ) (w t : Text)
    → is_empty w ≡ false
    → let e' = claimed_entry e clock lease w t in lease_matches e' (lease_of e') ≡ true
unfolding lease_matches claimed_entry
claimed-matches e clock lease w t h = simp (h, ==_refl)

claimed-valid_lease :
    (x : Text × Entry) (clock : Time) (lease : ℤ) (w t : Text)
    → EntryIsValid x
    → is_empty t ≡ false
    → valid_lease (lease_of (claimed_entry x.1 clock lease w t)) ≡ true
unfolding valid_lease claimed_entry
claimed-valid_lease x clock lease w t v h = ground (arith, ap is_empty v.keyed)

-- What a worker finds on the job that it has just claimed.
module _ (s' : Store) (e : Entry) (l : Lease) (later : Context) (live : context_error later ≡ none)
    (here : lookup l.id s' ≡ some e) (valid : valid_lease l ≡ true)
    (matches : lease_matches e l ≡ true) (running : is_running e.status ≡ true) where
  revalidate_current :
      (clock : Time)
      → is_zero_time clock ≡ false
      → after e.leased_until clock ≡ true
      → revalidate_job s' later l clock ≡ ok (current_authorization e.authorization l)
  unfolding revalidate_job revalidate_entry
  revalidate_current clock z a = rw (live, valid, z, here, matches, running, a)

  finish_current :
      (r : JobResult) (now clock : Time)
      → is_zero_time now ≡ false
      → is_zero_time clock ≡ false
      → valid_result r ≡ true
      → after e.leased_until now ≡ true
      → after e.leased_until clock ≡ true
      → is_skipped r.status || target_agrees e.authorization l ≡ true
      → finish_job s' later l r now clock ≡ ok (insert l.id (finished_entry e r) s')
  unfolding finish_job finish_entry
  finish_current r now clock y z q a b t =
      rw (live, valid, y, q, z, here, matches, running, a, b, t)

ended :
    (c : Entry) (r : JobResult) {n : ℤ}
    → c.job.attempts ≡ n
    → (is_running (finished_entry c r).status ≡ false)
      × ((finished_entry c r).result ≡ r)
      × ((finished_entry c r).job.attempts ≡ n)
unfolding finished_entry
ended c r h = (result_state-idle r.status, refl, h)

-- The entry that a claim leaves behind fits the lease that it gives out.
claim-current :
    (s : Store) (ctx : Context) (now clock : Time) (lease : ℤ) (w token : Text) {s' : Store}
    {l : Lease}
    → IsValid s
    → is_empty token ≡ false
    → claim_job s ctx now lease w clock (ok token) ≡ ok (s', some l)
    → (e c : Entry) × (lookup l.id s ≡ some e)
      × (lookup l.id s' ≡ some c)
      × (c.authorization ≡ e.authorization)
      × (valid_lease l ≡ true)
      × (lease_matches c l ≡ true)
      × (is_running c.status ≡ true)
      × (c.leased_until ≡ l.leased_until)
      × (c.job.attempts ≡ l.attempts)
claim-current s ctx now clock lease w token {s'} {l} v ht h =
    let (x, t, f, k, g, z, u, p) = claim-ok s ctx now lease w clock (ok token) h in
    let ((valid, found), y, first) =
      scan-some (λ x. EntryIsValid x × (lookup x.0 s ≡ some x.1)) clock s x
        (All-both EntryIsValid _ s v.entries (Keyed-lookup s v.keys)) f in
    let id : l.id ≡ x.0 = ap (λ m. m.id) p ∙ unfold claimed_entry in valid.keyed in
    (
      x.1,
      claimed_entry x.1 clock lease w t,
      ap (λ m. lookup m s) id ∙ found,
      ap (λ m. lookup m s') id ∙ rw u (lookup-insert_self x.0 _ s),
      unfold claimed_entry in refl,
      ap valid_lease p ∙ claimed-valid_lease x clock lease w t valid (ground arith),
      ap (lease_matches (claimed_entry x.1 clock lease w t)) p
          ∙ claimed-matches x.1 clock lease w t (valid_claim-worker now lease w g),
      unfold claimed_entry in refl,
      sym (ap (λ m. m.leased_until) p),
      sym (ap (λ m. m.attempts) p),
    )

-- A worker that claims a job can, until its lease runs out, revalidate the lease and end the job
-- with any valid result that the job's target does not contradict: the round goes through.
pub finish-claim :
    (s : Store) (ctx later : Context) (now clock now' clock' : Time) (lease : ℤ)
    (worker_id token : Text) (r : JobResult) (e : Entry) {s' : Store} {l : Lease}
    → IsValid s
    → is_empty token ≡ false
    → claim_job s ctx now lease worker_id clock (ok token) ≡ ok (s', some l)
    → lookup l.id s ≡ some e
    → context_error later ≡ none
    → 0 < now'
    → now' < l.leased_until
    → 0 < clock'
    → clock' < l.leased_until
    → valid_result r ≡ true
    → is_skipped r.status || target_agrees e.authorization l ≡ true
    → (revalidate_job s' later l clock' ≡ ok (current_authorization e.authorization l))
      × ((s'' : Store) × (finish_job s' later l r now' clock' ≡ ok s'')
          × ((done : Entry) × (lookup l.id s'' ≡ some done)
              × ((is_running done.status ≡ false)
                  × (done.result ≡ r)
                  × (done.job.attempts ≡ l.attempts))))
finish-claim s ctx later now clock now' clock' lease w token r e {s'} {l} v ht h q live n0 n1 c0 c1
      vr agrees =
    let (e', c, q', here, auth, valid, matches, running, until, count) =
      claim-current s ctx now clock lease w token v ht h in
    let kept : c.authorization ≡ e.authorization =
      auth ∙ ground (arith, ap (λ (m : Option Entry). m) q, q') in
    (
      rw (← kept) (
          revalidate_current s' c l later live here valid matches running clock' (ground arith)
            (ground arith)),
      (
        insert l.id (finished_entry c r) s',
        finish_current s' c l later live here valid matches running r now' clock' (ground arith)
            (ground arith) vr (ground arith) (ground arith) (rw kept agrees),
        (finished_entry c r, lookup-insert_self l.id _ s', ended c r count),
      ),
    )
