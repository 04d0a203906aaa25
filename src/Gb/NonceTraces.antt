-- ===== src/Gb/NonceTraces.antt =====
-- internal/gb/nonce.go: the store over any sequence of calls.
use iolink.Base.{
  sym, ap, subst, ℕ, suc, ◌+◌, ◌≤◌, ◌≡◌, ◌≢◌, refl, inl, inr, ◌==◌, ==_iff, text_eq, Bool, true,
  false, not, if◌then◌else◌, Text, is_empty, List, [], ◌∷◌, all, Option, none, some, lookup, arith,
  Bool-cases, lookup-delete, lookup-insert, Result, ok, err, plain, gb, nonce_replay,
}
use iolink.Media.{Time, before, is_zero_time}
use iolink.Gb.Nonces.{
  invalid, NonceRecord, NonceStore, new_nonce_store, size, sweep, use_up, consume, issue,
  max_memory_nonces,
}
use iolink.Gb.NonceLaws.{IsValid}
use iolink.Gb.NonceCalls.{consume-Consumed, fits, issue-Issued, Issued-IsValid, issue-misfit}
use iolink.Gb.NonceLife.{
  consume-once, held, make_room-held, consumed-IsValid, consumed-le, consumed-held,
}

pub data Call : Type 0 where
  issues : NonceRecord → Option Text → Call
  consumes : Text → Time → Call

-- What `rand.Read` gives is encoded to a text that is not empty.
abbrev pub is_encoded : Call → Bool
is_encoded (issues r (some nonce)) = not (is_empty nonce)
is_encoded _ = true

-- The store, with the nonces that its calls gave out and those that they accepted.
pub record Ledger : Type 0 where
  pub store : NonceStore
  pub issued : List Text
  pub accepted : List Text

unfoldable pub after_issue : Ledger → NonceStore × Result Text → Ledger
after_issue l (s, ok nonce) = record l { store = s; issued = nonce ∷ l.issued }
after_issue l (s, err e) = record l { store = s }

unfoldable pub after_consume : Ledger → Text → NonceStore × Result NonceRecord → Ledger
after_consume l nonce (s, ok r) = record l { store = s; accepted = nonce ∷ l.accepted }
after_consume l nonce (s, err e) = record l { store = s }

unfoldable pub step : Ledger → Call → Ledger
unfolding after_issue after_consume
step l (issues r nonce) = after_issue l (issue l.store r nonce)
step l (consumes nonce now) = after_consume l nonce (consume l.store nonce now)

unfoldable pub run : Ledger → List Call → Ledger
unfolding step
run l [] = l
run l (c ∷ cs) = run (step l c) cs

unfoldable pub count_of : Text → List Text → ℕ
count_of k [] = 0
count_of k (j ∷ js) = let rest = count_of k js in if j == k then suc rest else rest

abbrev pub start : Ledger
start = record { store = new_nonce_store; issued = []; accepted = [] }

record Inv (l : Ledger) : Type 0 where
  valid : IsValid l.store
  bounded : size l.store ≤ max_memory_nonces
  counted : (k : Text) → count_of k l.accepted + held k l.store.entries ≤ count_of k l.issued

issues-Inv :
    (l : Ledger) (r : NonceRecord) (nonce : Text)
    → is_empty nonce ≡ false
    → fits r ≡ true
    → Inv l
    → Inv (after_issue l (issue l.store r (some nonce)))
unfolding after_issue count_of
issues-Inv l r nonce n f v =
    let (s', q, i) = issue-Issued l.store r nonce v.valid f in
    let (w, small) = Issued-IsValid n i in
    rw q (record {
      valid = w;
      bounded = small;
      counted = λ k.
          let less = make_room-held k (suc (size l.store)) l.store i.made in
          let fresh : held k s'.entries ≤ (if nonce == k then 1 else held k i.room.entries) =
            subst (λ x. held k x.entries ≤ (if nonce == k then 1 else held k i.room.entries))
              (sym i.after) (ground (arith, lookup-insert nonce k r i.room.entries)) in
          ground (arith, v.counted k, less, fresh);
    })

consumes-Inv :
    (l : Ledger) (nonce : Text) (now : Time)
    → Inv l
    → (p : NonceStore × Result NonceRecord) → consume l.store nonce now ≡ p
    → Inv (after_consume l nonce p)
unfolding after_consume count_of
consumes-Inv l nonce now v (s', err e) h = record {
  valid = consumed-IsValid l.store nonce now v.valid h;
  bounded = ground (arith, consumed-le l.store nonce now v.valid h, v.bounded);
  counted = λ k. ground (arith, consumed-held k l.store nonce now v.valid h, v.counted k);
}
consumes-Inv l nonce now v (s', ok r) h =
    let c = consume-Consumed l.store nonce now v.valid h in
    record {
      valid = consumed-IsValid l.store nonce now v.valid h;
      bounded = ground (arith, consumed-le l.store nonce now v.valid h, v.bounded);
      counted = λ k. elim (Bool-cases (nonce == k)) [
        | inr b ↦ ground (arith, b, consumed-held k l.store nonce now v.valid h, v.counted k)
        | inl b ↦
            let same : nonce ≡ k = (==_iff nonce k).0 b in
            let gone : held k s'.entries ≡ 0 =
              subst (λ x. held k x.entries ≡ 0) (sym c.after)
                (unfold use_up in
                  ground (arith, b, lookup-delete nonce k (sweep l.store now).entries)) in
            let had : held k l.store.entries ≡ 1 =
              subst (λ x. held x l.store.entries ≡ 1) same (ground (arith, c.issued)) in
            ground (arith, b, gone, had, v.counted k)
      ];
    }

step-Inv : (l : Ledger) (c : Call) → is_encoded c ≡ true → Inv l → Inv (step l c)
unfolding step after_issue after_consume count_of
step-Inv l (issues r none) n v = unfold issue in v
step-Inv l (issues r (some nonce)) n v = elim (Bool-cases (fits r)) [
  | inl f ↦ issues-Inv l r nonce (ground arith) f v
  | inr f ↦ rw (issue-misfit l.store r (some nonce) f) v
]
step-Inv l (consumes nonce now) n v = consumes-Inv l nonce now v (consume l.store nonce now) refl

run-Inv : (l : Ledger) (cs : List Call) → all is_encoded cs ≡ true → Inv l → Inv (run l cs)
unfolding run
run-Inv l [] n v = v
run-Inv l (c ∷ cs) n v = run-Inv (step l c) cs (ground arith) (step-Inv l c (ground arith) v)

start-Inv : Inv start
unfolding new_nonce_store lookup count_of
start-Inv = record {
  valid = record { keyed_entries = tt; keyed_used = tt; named_entries = tt; named_used = tt };
  bounded = omega arith;
  counted = λ k. omega arith;
}

-- After any sequence of calls on a new store, whose random nonces are not empty texts, no nonce was
-- accepted more often than it was given out.
pub accepted-le :
    (cs : List Call) (k : Text)
    → all is_encoded cs ≡ true
    → count_of k (run start cs).accepted ≤ count_of k (run start cs).issued
accepted-le cs k n = ground (arith, (run-Inv start cs n start-Inv).counted k)

-- After any sequence of calls on a new store, whose random nonces are not empty texts, the store
-- holds at most 4096 nonces, issued and used together, and it still gives a nonce for every record
-- that fits.
pub capacity :
    (cs : List Call) (r : NonceRecord) (nonce : Text)
    → all is_encoded cs ≡ true
    → fits r ≡ true
    → (size (run start cs).store ≤ max_memory_nonces)
      × ((issue (run start cs).store r (some nonce)).1 ≡ ok nonce)
capacity cs r nonce n f =
    let v = run-Inv start cs n start-Inv in
    let (s', q, i) = issue-Issued (run start cs).store r nonce v.valid f in
    (v.bounded, ap (λ x. x.1) q)

-- Whether a call may give the nonce out.
abbrev pub gives : Text → Call → Bool
gives k (issues r (some nonce)) = nonce == k
gives k _ = false

issues-held :
    (k : Text) (l : Ledger) (r : NonceRecord) (nonce : Text)
    → (nonce == k) ≡ false
    → fits r ≡ true
    → Inv l
    → held k l.store.entries ≡ 0
    → held k (after_issue l (issue l.store r (some nonce))).store.entries ≡ 0
unfolding after_issue
issues-held k l r nonce other f v gone =
    let (s', q, i) = issue-Issued l.store r nonce v.valid f in
    let less = make_room-held k (suc (size l.store)) l.store i.made in
    let same : held k s'.entries ≡ held k i.room.entries =
      subst (λ x. held k x.entries ≡ held k i.room.entries) (sym i.after)
        (ground (arith, other, lookup-insert nonce k r i.room.entries)) in
    rw q (omega (arith, less, same, gone))

consumes-held :
    (k : Text) (l : Ledger) (nonce : Text) (now : Time)
    → Inv l
    → held k l.store.entries ≡ 0
    → (p : NonceStore × Result NonceRecord) → consume l.store nonce now ≡ p
    → held k (after_consume l nonce p).store.entries ≡ 0
unfolding after_consume
consumes-held k l nonce now v gone (s', err e) h =
    omega (arith, consumed-held k l.store nonce now v.valid h, gone)
consumes-held k l nonce now v gone (s', ok r) h =
    omega (arith, consumed-held k l.store nonce now v.valid h, gone)

step-held :
    (k : Text) (l : Ledger) (c : Call)
    → is_encoded c ≡ true
    → gives k c ≡ false
    → Inv l
    → held k l.store.entries ≡ 0
    → held k (step l c).store.entries ≡ 0
unfolding step after_issue
step-held k l (issues r none) n g v gone = unfold issue in gone
step-held k l (issues r (some nonce)) n g v gone = elim (Bool-cases (fits r)) [
  | inl f ↦ issues-held k l r nonce g f v gone
  | inr f ↦ rw (issue-misfit l.store r (some nonce) f) gone
]
step-held k l (consumes nonce now) n g v gone =
    consumes-held k l nonce now v gone (consume l.store nonce now) refl

run-held :
    (k : Text) (l : Ledger) (cs : List Call)
    → all is_encoded cs ≡ true
    → all (λ c. not (gives k c)) cs ≡ true
    → Inv l
    → held k l.store.entries ≡ 0
    → held k (run l cs).store.entries ≡ 0
unfolding run
run-held k l [] n g v gone = gone
run-held k l (c ∷ cs) n g v gone =
    run-held k (step l c) cs (ground arith) (ground arith) (step-Inv l c (ground arith) v)
      (step-held k l c (ground arith) (ground arith) v gone)

consumed-gone :
    (l : Ledger) (nonce : Text) (now : Time) {s' : NonceStore} {r : NonceRecord}
    → Inv l
    → consume l.store nonce now ≡ (s', ok r)
    → held nonce (step l (consumes nonce now)).store.entries ≡ 0
unfolding step after_consume
consumed-gone l nonce now v h =
    let c = consume-Consumed l.store nonce now v.valid h in
    rw h (
      subst (λ x. held nonce x.entries ≡ 0) (sym c.after)
        (unfold use_up in
          ground
            (arith, ==_iff nonce nonce, lookup-delete nonce nonce (sweep l.store now).entries)))

-- A nonce that was accepted, after any sequence of calls on a new store whose random nonces are not
-- empty texts, is refused for good: asked for again at once it is a replay until its record runs out
-- and unknown from then on, and after any further calls that do not give the same nonce out again,
-- whatever they evict, it is not accepted.
pub consumed_for_good :
    (earlier later : List Call) (nonce : Text) (now at : Time) {s' : NonceStore} {r : NonceRecord}
    → all is_encoded earlier ≡ true
    → all is_encoded later ≡ true
    → all (λ c. not (gives nonce c)) later ≡ true
    → consume (run start earlier).store nonce now ≡ (s', ok r)
    → is_zero_time at ≡ false
    → let l = run (step (run start earlier) (consumes nonce now)) later in
      ((consume s' nonce at).1
        ≡ err (if before at r.expires_at then plain (gb nonce_replay) else invalid))
      × ((t : NonceRecord) → (consume l.store nonce at).1 ≢ ok t)
consumed_for_good earlier later nonce now at n m g h z =
    let v = run-Inv start earlier n start-Inv in
    let w = step-Inv (run start earlier) (consumes nonce now) refl v in
    let l = run (step (run start earlier) (consumes nonce now)) later in
    let x = run-Inv (step (run start earlier) (consumes nonce now)) later m w in
    let gone =
      run-held nonce (step (run start earlier) (consumes nonce now)) later m g w
        (consumed-gone (run start earlier) nonce now v h) in
    (
      consume-once (run start earlier).store nonce now at v.valid h z,
      λ t e.
          let again : consume l.store nonce at ≡ ((consume l.store nonce at).0, ok t) =
            ground (arith, e) in
          let c = consume-Consumed l.store nonce at x.valid again in ground (arith, c.issued, gone),
    )
