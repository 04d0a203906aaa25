-- ===== src/Jobs/Traces.antt =====
-- The store over any sequence of calls, by any number of workers.
use iolink.Base.{
  ℕ, suc, ◌≤◌, ◌≡◌, refl, sym, ap, ◌∙◌, inl, inr, ◌==◌, ==_iff, text_eq, true, false, if◌then◌else◌,
  Text, is_empty, ℤ, pos, ◌≤ℤ◌, List, [], ◌∷◌, Option, none, some, All-lookup, lookup, insert,
  lookup-insert, Result, ok, err, arith, Bool-cases,
}
use iolink.Media.{Time, Lease, JobAuthorization, JobResult, Context}
use iolink.Jobs.Store.{
  Entry, Store, EnqueueInput, max_attempts, new_entry, claimed_entry, enqueue, set_authorization,
  claim_job, valid_enqueue,
}
use iolink.Jobs.Finish.{finished_entry, finish_job}
use iolink.Jobs.Calls.{enqueue-ok, set_authorization-ok, claim-none, finish-ok}
use iolink.Jobs.Invariant.{
  IsValid, EntryIsValid, empty-IsValid, enqueue-IsValid, set_authorization-IsValid,
  claim_job-IsValid, finish_job-IsValid,
}
use iolink.Jobs.Leases.{claim-first}

pub data Call : Type 0 where
  enqueues : Context → EnqueueInput → Time → Call
  authorizes : Context → Text → JobAuthorization → Call
  claims : Context → Time → ℤ → Text → Time → Text → Call
  finishes : Context → Lease → JobResult → Time → Time → Call

-- The store, and how often a given job was claimed.
pub record World : Type 0 where
  pub store : Store
  pub claimed : ℕ

-- A call that fails leaves the store as it was.
unfoldable pub after_write : World → Result Store → World
after_write w (ok s) = record w { store = s }
after_write w (err e) = w

unfoldable pub after_claim : Text → World → Result (Store × Option Lease) → World
after_claim id w (ok (s, some l)) = record {
  store = s;
  claimed = if l.id == id then suc w.claimed else w.claimed;
}
after_claim id w (ok (s, none)) = record w { store = s }
after_claim id w (err e) = w

unfoldable pub step : Text → World → Call → World
unfolding after_write after_claim
step id w (enqueues ctx input clock) = after_write w (enqueue w.store ctx input clock)
step id w (authorizes ctx job auth) = after_write w (set_authorization w.store ctx job auth)
step id w (claims ctx now lease worker clock token) =
    after_claim id w (claim_job w.store ctx now lease worker clock (ok token))
step id w (finishes ctx l r now clock) = after_write w (finish_job w.store ctx l r now clock)

unfoldable pub run : Text → World → List Call → World
unfolding step
run id w [] = w
run id w (c ∷ cs) = run id (step id w c) cs

-- The random tokens are not empty.
abbrev pub HasToken : Call → Type 0
HasToken (claims ctx now lease worker clock token) = is_empty token ≡ false
HasToken _ = Unit

abbrev pub HaveTokens : List Call → Type 0
HaveTokens [] = Unit
HaveTokens (c ∷ cs) = HasToken c × HaveTokens cs

-- The claims so far are within the attempts that the job's entry counts.
abbrev Counted : ℕ → Option Entry → Type 0
Counted n none = n ≡ 0
Counted n (some e) = pos n ≤ℤ e.job.attempts

record Inv (id : Text) (w : World) : Type 0 where
  valid : IsValid w.store
  counted : Counted w.claimed (lookup id w.store)

Counted-new :
    (n : ℕ) (input : EnqueueInput) (clock : Time)
    → valid_enqueue input.job ≡ true
    → n ≡ 0
    → Counted n (some (new_entry input clock))
unfolding new_entry valid_enqueue
Counted-new n input clock h e = ground arith

Counted-claim :
    (n : ℕ) (e : Entry) (clock : Time) (lease : ℤ) (w t : Text)
    → Counted n (some e)
    → Counted (suc n) (some (claimed_entry e clock lease w t))
unfolding claimed_entry
Counted-claim n e clock lease w t h = ground arith

-- A write under `job` keeps the count, if its entry does.
Counted-insert :
    (id job : Text) (n : ℕ) (e : Entry) (s : Store)
    → Counted n (lookup id s)
    → (job ≡ id → Counted n (some e))
    → Counted n (lookup id (insert job e s))
Counted-insert id job n e s c k = elim (Bool-cases (job == id)) [
  | inl hit ↦ rw (lookup-insert job id e s, hit) (k ((==_iff job id).0 hit))
  | inr miss ↦ rw (lookup-insert job id e s, miss) c
]

module _ (id : Text) (w : World) (v : Inv id w) where
  enqueues-Inv :
      (ctx : Context) (input : EnqueueInput) (clock : Time) (r : Result Store)
      → enqueue w.store ctx input clock ≡ r
      → Inv id (after_write w r)
  unfolding after_write
  enqueues-Inv ctx input clock (err e) h = v
  enqueues-Inv ctx input clock (ok s) h =
      let (g, n, u) = enqueue-ok w.store ctx input clock h in
      record {
        valid = enqueue-IsValid w.store ctx v.valid input clock h;
        counted = rw u (
            Counted-insert id input.job.id w.claimed (new_entry input clock) w.store v.counted
              λ same.
                Counted-new w.claimed input clock g
                  (rw (ap (λ t. lookup t w.store) (sym same) ∙ n) at (v.counted)));
      }

  authorizes-Inv :
      (ctx : Context) (job : Text) (auth : JobAuthorization) (r : Result Store)
      → set_authorization w.store ctx job auth ≡ r
      → Inv id (after_write w r)
  unfolding after_write
  authorizes-Inv ctx job auth (err e) h = v
  authorizes-Inv ctx job auth (ok s) h =
      let (e, q, u) = set_authorization-ok w.store ctx job auth h in
      record {
        valid = set_authorization-IsValid w.store ctx v.valid job auth h;
        counted = rw u (
            Counted-insert id job w.claimed (record e { authorization = auth }) w.store v.counted
              λ same. rw (ap (λ t. lookup t w.store) (sym same) ∙ q) at (v.counted));
      }

  finishes-Inv :
      (ctx : Context) (l : Lease) (res : JobResult) (now clock : Time) (r : Result Store)
      → finish_job w.store ctx l res now clock ≡ r
      → Inv id (after_write w r)
  unfolding after_write
  finishes-Inv ctx l res now clock (err e) h = v
  finishes-Inv ctx l res now clock (ok s) h =
      let (e, q, m, run, a, b, u) = finish-ok w.store ctx l res now clock h in
      record {
        valid = finish_job-IsValid w.store ctx v.valid l res now clock h;
        counted = rw u (
            Counted-insert id l.id w.claimed (finished_entry e res) w.store v.counted λ same.
              unfold finished_entry in
              rw (ap (λ t. lookup t w.store) (sym same) ∙ q) at (v.counted));
      }

  claims-Inv :
      (ctx : Context) (now : Time) (lease : ℤ) (worker : Text) (clock : Time) (token : Text)
      → is_empty token ≡ false
      → (r : Result (Store × Option Lease))
      → claim_job w.store ctx now lease worker clock (ok token) ≡ r
      → Inv id (after_claim id w r)
  unfolding after_claim
  claims-Inv ctx now lease worker clock token ht (err e) h = v
  claims-Inv ctx now lease worker clock token ht (ok (s, none)) h =
      rw (claim-none w.store ctx now lease worker clock (ok token) h).0 v
  claims-Inv ctx now lease worker clock token ht (ok (s, some l)) h =
      let (e, q, y, first, count, until, here, others) =
        claim-first w.store v.valid ctx now lease worker clock (ok token) h in
      record {
        valid = claim_job-IsValid w.store ctx v.valid now lease worker clock token ht h;
        counted = elim (Bool-cases (l.id == id)) [
          | inl hit ↦
              let same : l.id ≡ id = (==_iff l.id id).0 hit in
              let old : lookup id w.store ≡ some e = rw same at q in
              let new : lookup id s ≡ some (claimed_entry e clock lease worker l.lease_token) =
                rw same at here in
              rw (hit, new)
                (Counted-claim w.claimed e clock lease worker l.lease_token (rw old at (v.counted)))
          | inr miss ↦ rw (miss, others id (λ m. ground (arith, ==_iff l.id id))) v.counted
        ];
      }

step-Inv : (id : Text) (w : World) (c : Call) → HasToken c → Inv id w → Inv id (step id w c)
unfolding step
step-Inv id w (enqueues ctx input clock) ht v =
    enqueues-Inv id w v ctx input clock (enqueue w.store ctx input clock) refl
step-Inv id w (authorizes ctx job auth) ht v =
    authorizes-Inv id w v ctx job auth (set_authorization w.store ctx job auth) refl
step-Inv id w (claims ctx now lease worker clock token) ht v =
    claims-Inv id w v ctx now lease worker clock token ht
      (claim_job w.store ctx now lease worker clock (ok token)) refl
step-Inv id w (finishes ctx l r now clock) ht v =
    finishes-Inv id w v ctx l r now clock (finish_job w.store ctx l r now clock) refl

run-Inv : (id : Text) (w : World) (cs : List Call) → HaveTokens cs → Inv id w → Inv id (run id w cs)
unfolding run
run-Inv id w [] ht v = v
run-Inv id w (c ∷ cs) ht v = run-Inv id (step id w c) cs ht.1 (step-Inv id w c ht.0 v)

abbrev pub fresh : World
fresh = record { store = []; claimed = 0 }

fresh-Inv : (id : Text) → Inv id fresh
unfolding lookup
fresh-Inv id = record { valid = empty-IsValid; counted = refl }

capped :
    (id : Text) (n : ℕ) (s : Store) (o : Option Entry)
    → IsValid s
    → lookup id s ≡ o
    → Counted n o
    → n ≤ max_attempts
capped id n s none v q c = omega arith
capped id n s (some e) v q c =
    let p : EntryIsValid (id, e) = All-lookup EntryIsValid id s v.entries q in
    omega (arith, c, p.capped)

-- From an empty store, over any sequence of calls by any number of workers, a job is claimed at
-- most six times, however often its leases run out or its results ask for another try; and the
-- store stays well-formed, so that an entry carries a lease exactly while it is running.
pub claimed-le :
    (id : Text) (cs : List Call)
    → HaveTokens cs
    → ((run id fresh cs).claimed ≤ max_attempts) × IsValid (run id fresh cs).store
claimed-le id cs ht =
    let v = run-Inv id fresh cs ht (fresh-Inv id) in
    let w = run id fresh cs in
    (capped id w.claimed w.store (lookup id w.store) v.valid refl v.counted, v.valid)
