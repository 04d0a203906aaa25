-- ===== src/License/Traces.antt =====
-- internal/core/license_clock.go over any sequence of observations and reconciliations.
use iolink.Base.{
  ◌+◌, ◌≡◌, refl, subst, inl, inr, Bool, true, false, Bool-cases, leb, all, Option-cases, List, [],
  ◌∷◌, ℤ, Option, none, some, GoError, is_err, license, LicenseError, arith,
}
use iolink.Media.{Time}
use iolink.License.Status.{clock_slack}
use iolink.License.Clock.{
  ClockRow, Faults, observe_row, end_observation, observe, clear_latch, reconcile, runs_back,
}

abbrev marks : Option Time → Time → Bool
marks none t = false
marks (some seen) t = leb t seen

pub data ClockCall : Type 0 where
  observes : Time → Faults → ClockCall
  reconciles : Time → ℤ → Faults → ClockCall

-- The row, with the times of the observations that succeeded.
pub record ClockLog : Type 0 where
  pub row : ClockRow
  pub accepted : List Time

unfoldable pub after_observe : List Time → Time → ClockRow × Option GoError → ClockLog
after_observe ts now (row, none) = record { row = row; accepted = now ∷ ts }
after_observe ts now (row, some e) = record { row = row; accepted = ts }

unfoldable pub step : ClockLog → ClockCall → ClockLog
unfolding after_observe
step l (observes now f) = after_observe l.accepted now (observe l.row now f)
step l (reconciles now actor f) = record {
  row = (reconcile l.row now actor f).0;
  accepted = l.accepted;
}

unfoldable pub run : ClockLog → List ClockCall → ClockLog
unfolding step
run l [] = l
run l (c ∷ cs) = run (step l c) cs

abbrev pub fresh : ClockLog
fresh = record {
  row = record { max_seen = none; latched = false; reconciled_by = [] };
  accepted = [];
}

abbrev AreMarked : ClockLog → Type 0
AreMarked l = all (marks l.row.max_seen) l.accepted ≡ true

row-marks :
    (row : ClockRow) (now : Time) (f : Faults) (t : Time)
    → marks row.max_seen t ≡ true
    → marks (observe_row row now f).0.max_seen t ≡ true
unfolding observe_row
row-marks row now f t h = elim (Option-cases f.query) [
  | inr (e, q) ↦ ground (arith, q)
  | inl q ↦ elim (Option-cases row.max_seen) [
    | inl m ↦ ground (arith, q, m)
    | inr (seen, m) ↦ elim (Option-cases f.exec) [
      | inl x ↦ ground (arith, q, m, x)
      | inr (e, x) ↦ ground (arith, q, m, x)
    ]
  ]
]

end-marks :
    (row : ClockRow) (f : Faults) (t : Time) (p : ClockRow × Option GoError)
    → marks row.max_seen t ≡ true
    → marks p.0.max_seen t ≡ true
    → marks (end_observation row f p).0.max_seen t ≡ true
unfolding end_observation
end-marks row f t (new, none) h k = elim (Option-cases f.commit) [
  | inl c ↦ rw c k
  | inr (e, c) ↦ rw c h
]
end-marks row f t (new, some e) h k =
    elim (Bool-cases (is_err e (license LicenseError.clock_error))) [
      | inr b ↦ rw b h
      | inl b ↦ elim (Option-cases f.commit) [ inl c ↦ rw (b, c) k | inr (e', c) ↦ rw (b, c) h ]
    ]

observe-marks :
    (row : ClockRow) (now : Time) (f : Faults) (t : Time)
    → marks row.max_seen t ≡ true
    → marks (observe row now f).0.max_seen t ≡ true
unfolding observe
observe-marks row now f t h = elim (Option-cases f.begin) [
  | inr (e, b) ↦ rw b h
  | inl b ↦ rw b (end-marks row f t (observe_row row now f) h (row-marks row now f t h))
]

-- A committed end without an error is that of its transaction.
end-ok :
    (row : ClockRow) (f : Faults) (p : ClockRow × Option GoError) {row' : ClockRow}
    → end_observation row f p ≡ (row', none)
    → p ≡ (row', none)
unfolding end_observation
end-ok row f (new, none) h = elim (Option-cases f.commit) [
  | inl c ↦ ground (arith, c)
  | inr (e, c) ↦ absurd (ground (arith, c))
]
end-ok row f (new, some e) h =
    absurd
      (elim (Option-cases f.commit) [ inl c ↦ ground (arith, c) | inr (e', c) ↦ ground (arith, c) ])

row-ok :
    (row : ClockRow) (now : Time) (f : Faults) {row' : ClockRow}
    → observe_row row now f ≡ (row', none)
    → (row.latched ≡ false)
      × (runs_back row.max_seen now ≡ false)
      × (marks row'.max_seen now ≡ true)
unfolding observe_row
row-ok row now f h = elim (Option-cases f.query) [
  | inr (e, q) ↦ absurd (ground (arith, q))
  | inl q ↦ elim (Option-cases f.exec) [
    | inl x ↦ elim (Option-cases row.max_seen) [
      | inl m ↦ ground (arith, q, x, m)
      | inr (seen, m) ↦ ground (arith, q, x, m)
    ]
    | inr (e, x) ↦ elim (Option-cases row.max_seen) [
      | inl m ↦ absurd (ground (arith, q, x, m))
      | inr (seen, m) ↦ ground (arith, q, x, m)
    ]
  ]
]

observe-ok :
    (row : ClockRow) (now : Time) (f : Faults) {row' : ClockRow}
    → observe row now f ≡ (row', none)
    → (row.latched ≡ false)
      × (runs_back row.max_seen now ≡ false)
      × (marks row'.max_seen now ≡ true)
unfolding observe
observe-ok row now f {row'} h = elim (Option-cases f.begin) [
  | inr (e, b) ↦ absurd (ground (arith, b))
  | inl b ↦
      row-ok row now f {row' = row'}
        (end-ok row f (observe_row row now f) {row' = row'} (ground (arith, b)))
]

reconcile-max_seen :
    (row : ClockRow) (now : Time) (actor : ℤ) (f : Faults)
    → (reconcile row now actor f).0.max_seen ≡ row.max_seen
unfolding reconcile clear_latch
reconcile-max_seen row now actor f = elim (Option-cases f.begin) [
  | inr (e, b) ↦ ground (arith, b)
  | inl b ↦ elim (Option-cases f.query) [
    | inr (e, q) ↦ ground (arith, b, q)
    | inl q ↦ elim (Option-cases f.exec) [
      | inr (e, x) ↦ ground (arith, b, q, x)
      | inl x ↦ elim (Option-cases f.audit) [
        | inr (e, a) ↦ ground (arith, b, q, x, a)
        | inl a ↦ elim (Option-cases f.commit) [
          | inr (e, c) ↦ ground (arith, b, q, x, a, c)
          | inl c ↦ ground (arith, b, q, x, a, c)
        ]
      ]
    ]
  ]
]

all-marks :
    (old new : Option Time) (ts : List Time)
    → ((t : Time) → marks old t ≡ true → marks new t ≡ true)
    → all (marks old) ts ≡ true
    → all (marks new) ts ≡ true
all-marks old new [] k h = refl
all-marks old new (t ∷ ts) k h =
    ground (arith, k t (ground arith), all-marks old new ts k (ground arith))

observes-AreMarked :
    (l : ClockLog) (now : Time) (f : Faults) (p : ClockRow × Option GoError)
    → observe l.row now f ≡ p
    → AreMarked l
    → AreMarked (after_observe l.accepted now p)
unfolding after_observe
observes-AreMarked l now f (row', some e) q h =
    all-marks l.row.max_seen row'.max_seen l.accepted
      (λ t k. subst (λ x. marks x.0.max_seen t ≡ true) q (observe-marks l.row now f t k)) h
observes-AreMarked l now f (row', none) q h =
    let (live, slack, marked) = observe-ok l.row now f q in
    ground (
      arith,
      marked,
      all-marks l.row.max_seen row'.max_seen l.accepted
          (λ t k. subst (λ x. marks x.0.max_seen t ≡ true) q (observe-marks l.row now f t k)) h,
    )

step-AreMarked : (l : ClockLog) (c : ClockCall) → AreMarked l → AreMarked (step l c)
unfolding step
step-AreMarked l (observes now f) h = observes-AreMarked l now f (observe l.row now f) refl h
step-AreMarked l (reconciles now actor f) h = rw (reconcile-max_seen l.row now actor f) h

run-AreMarked : (l : ClockLog) (cs : List ClockCall) → AreMarked l → AreMarked (run l cs)
unfolding run
run-AreMarked l [] h = h
run-AreMarked l (c ∷ cs) h = run-AreMarked (step l c) cs (step-AreMarked l c h)

slack-all :
    (seen : Option Time) (now : Time) (ts : List Time)
    → runs_back seen now ≡ false
    → all (marks seen) ts ≡ true
    → all (λ t. leb t (now + clock_slack)) ts ≡ true
slack-all seen now [] r h = refl
slack-all none now (t ∷ ts) r h = cc
slack-all (some seen) now (t ∷ ts) r h =
    ground (arith, slack-all (some seen) now ts r (ground arith))

-- After any sequence of observations and reconciliations on a fresh row, whichever calls of the
-- database fail, an observation succeeds only if no latch is set and no earlier observation that
-- succeeded was more than five minutes later.
pub observe-accepted :
    (cs : List ClockCall) (now : Time) (f : Faults) {row' : ClockRow}
    → observe (run fresh cs).row now f ≡ (row', none)
    → ((run fresh cs).row.latched ≡ false)
      × (all (λ t. leb t (now + clock_slack)) (run fresh cs).accepted ≡ true)
observe-accepted cs now f h =
    let l = run fresh cs in
    let (live, slack, marked) = observe-ok l.row now f h in
    (live, slack-all l.row.max_seen now l.accepted slack (run-AreMarked fresh cs refl))
