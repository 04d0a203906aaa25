-- ===== src/Catalog/Traces.antt =====
-- internal/gbcatalog/catalog.go over any interleaving of the sections of any calls.
use iolink.Base.{
  suc, ◌≡◌, refl, sym, subst, inl, inr, ◌==◌, ==_iff, nat_eq, text_eq, int_eq, pair_eq, ◌||◌, not,
  Text, List, [], ◌∷◌, none, some, lookup, insert, delete, lookup-insert, lookup-delete, All-insert,
  All-delete, ℤ, if◌then◌else◌, true, CatalogError, Result, ok, err, arith, Bool-cases,
  Option-cases,
}
use iolink.Media.{Time}
use iolink.Catalog.Pages.{Page, Refresh, PageResult, failed, valid_page}
use iolink.Catalog.Coordinator.{
  Key, Pending, Coordinator, Commit, commits, key_of, new_coordinator, new_pending, start_look,
  start_record, page_look,
}
use iolink.Catalog.Calls.{Answers, start_refresh, accept_page}
use iolink.Catalog.Endings.{commit_failed, commit_done, reset_staling, set_stale, expire_look}
use iolink.Catalog.Merge.{IsFiled}
use iolink.Catalog.Commits.{Whole, page_look-Whole}
use iolink.Catalog.Sections.{
  IsSettled, Touches-IsSettled, Touches-completed, page_look-Touches, commit_failed-Touches,
  reset_staling-Touches, expire_look-Touches,
}

pub data Section : Type 0 where
  records : Refresh → Section
  looks : Page → Time → Section
  refuses : Commit → Section
  finishes : Commit → Section
  resets : Refresh → Section
  stales : Refresh → Section
  runs_out : Text → ℤ → Time → Section

unfoldable pub step : Coordinator → Section → Coordinator
step c (records r) = (start_record c r).0
step c (looks page now) = (page_look c page now).0
step c (refuses m) = commit_failed c m
step c (finishes m) = (commit_done c m).0
step c (resets r) = reset_staling c r
step c (stales r) = set_stale c r
step c (runs_out device_id sn now) = (expire_look c device_id sn now).0

unfoldable pub run : Coordinator → List Section → Coordinator
unfolding step
run c [] = c
run c (x ∷ xs) = run (step c x) xs

new-IsSettled :
    (c : Coordinator) (r : Refresh)
    → IsSettled c
    → lookup (key_of r) c.completed ≡ none
    → IsSettled (record c {
      next_ident = suc c.next_ident;
      pending = insert (key_of r) (new_pending c r) c.pending;
    })
new-IsSettled c r v d = record {
  filed =
      All-insert (λ x. IsFiled x.1.items) (key_of r) (new_pending c r) c.pending v.filed
        (record { keyed = tt; named = tt });
  settled = λ j x e. elim (Bool-cases (key_of r == j)) [
    | inr b ↦
        ground (arith, b, lookup-insert (key_of r) j (new_pending c r) c.pending, v.settled j x e)
    | inl b ↦
        let same : key_of r ≡ j = (==_iff (key_of r) j).0 b in
        let free = subst (λ y. lookup y c.completed ≡ none) same d in
        absurd (ground (arith, free, e))
  ];
}

delete-free :
    (k j : Key) (m : List (Key × Pending)) → lookup j m ≡ none → lookup j (delete k m) ≡ none
delete-free k j m h = ground (arith, h, lookup-delete k j m)

done-IsSettled :
    (c : Coordinator) (m : Commit)
    → IsSettled c
    → IsSettled (record c {
      pending = delete (key_of m.refresh) c.pending;
      completed = insert (key_of m.refresh) m.refresh c.completed;
    })
done-IsSettled c m v = record {
  filed = All-delete (λ x. IsFiled x.1.items) (key_of m.refresh) c.pending v.filed;
  settled = λ j x e. elim (Bool-cases (key_of m.refresh == j)) [
    | inl b ↦ ground (arith, b, lookup-delete (key_of m.refresh) j c.pending)
    | inr b ↦ delete-free (key_of m.refresh) j c.pending (
        v.settled j x (ground (arith, b, lookup-insert (key_of m.refresh) j m.refresh c.completed)))
  ];
}

start_record-IsSettled :
    (c : Coordinator) (r : Refresh) → IsSettled c → IsSettled (start_record c r).0
unfolding start_record
start_record-IsSettled c r v = elim (Option-cases (lookup (key_of r) c.pending)) [
  | inr (p, l) ↦ rw (l, start_record) v
  | inl l ↦ elim (Option-cases (lookup (key_of r) c.completed)) [
    | inr (done, d) ↦ rw (l, start_record, d) v
    | inl d ↦ rw (l, start_record, d) (new-IsSettled c r v d)
  ]
]

set_stale-IsSettled : (c : Coordinator) (r : Refresh) → IsSettled c → IsSettled (set_stale c r)
unfolding set_stale
set_stale-IsSettled c r v = record {
  filed = All-delete (λ x. IsFiled x.1.items) (key_of r) c.pending v.filed;
  settled = λ j x d. delete-free (key_of r) j c.pending (v.settled j x d);
}

commit_done-IsSettled : (c : Coordinator) (m : Commit) → IsSettled c → IsSettled (commit_done c m).0
unfolding commit_done
commit_done-IsSettled c m v = elim (Option-cases (lookup (key_of m.refresh) c.pending)) [
  | inl l ↦ rw (l, commit_done) v
  | inr (p, l) ↦ elim (Bool-cases (not (p.ident == m.ident) || not p.committing)) [
    | inl b ↦ rw (l, commit_done, b) v
    | inr b ↦ rw (l, commit_done, b) (done-IsSettled c m v)
  ]
]

step-IsSettled : (c : Coordinator) (x : Section) → IsSettled c → IsSettled (step c x)
unfolding step
step-IsSettled c (records r) v = start_record-IsSettled c r v
step-IsSettled c (looks page now) v =
    Touches-IsSettled c (page_look c page now).0 (page_look-Touches c page now v.filed) v
step-IsSettled c (refuses m) v =
    Touches-IsSettled c (commit_failed c m) (commit_failed-Touches c m v.filed) v
step-IsSettled c (finishes m) v = commit_done-IsSettled c m v
step-IsSettled c (resets r) v =
    Touches-IsSettled c (reset_staling c r) (reset_staling-Touches c r v.filed) v
step-IsSettled c (stales r) v = set_stale-IsSettled c r v
step-IsSettled c (runs_out device_id sn now) v =
    Touches-IsSettled c (expire_look c device_id sn now).0
      (expire_look-Touches c device_id sn now v.filed) v

run-IsSettled : (c : Coordinator) (xs : List Section) → IsSettled c → IsSettled (run c xs)
unfolding run
run-IsSettled c [] v = v
run-IsSettled c (x ∷ xs) v = run-IsSettled (step c x) xs (step-IsSettled c x v)

new_coordinator-IsSettled : IsSettled new_coordinator
unfolding new_coordinator lookup
new_coordinator-IsSettled = record { filed = tt; settled = λ k r h. refl }

commit_done-completed :
    (c : Coordinator) (m : Commit) (k : Key) (r : Refresh)
    → IsSettled c
    → lookup k c.completed ≡ some r
    → lookup k (commit_done c m).0.completed ≡ some r
unfolding commit_done
commit_done-completed c m k r v h = elim (Option-cases (lookup (key_of m.refresh) c.pending)) [
  | inl l ↦ ground (arith, l, h)
  | inr (p, l) ↦ elim (Bool-cases (key_of m.refresh == k)) [
    | inl b ↦
        let same : key_of m.refresh ≡ k = (==_iff (key_of m.refresh) k).0 b in
        let free = subst (λ x. lookup x c.pending ≡ none) (sym same) (v.settled k r h) in
        absurd (ground (arith, free, l))
    | inr b ↦ ground (arith, l, b, h, lookup-insert (key_of m.refresh) k m.refresh c.completed)
  ]
]

start_record-completed :
    (c : Coordinator) (r : Refresh) → (start_record c r).0.completed ≡ c.completed
unfolding start_record
start_record-completed c r = elim (Option-cases (lookup (key_of r) c.pending)) [
  | inr (p, l) ↦ ground (arith, l)
  | inl l ↦ elim (Option-cases (lookup (key_of r) c.completed)) [
    | inr (done, d) ↦ ground (arith, l, d)
    | inl d ↦ ground (arith, l, d)
  ]
]

step-completed :
    (c : Coordinator) (x : Section) (k : Key) (r : Refresh)
    → IsSettled c
    → lookup k c.completed ≡ some r
    → lookup k (step c x).completed ≡ some r
unfolding step
step-completed c (records a) k r v h = rw (start_record-completed c a) h
step-completed c (looks page now) k r v h =
    rw (Touches-completed c (page_look c page now).0 (page_look-Touches c page now v.filed)) h
step-completed c (refuses m) k r v h =
    rw (Touches-completed c (commit_failed c m) (commit_failed-Touches c m v.filed)) h
step-completed c (finishes m) k r v h = commit_done-completed c m k r v h
step-completed c (resets a) k r v h =
    rw (Touches-completed c (reset_staling c a) (reset_staling-Touches c a v.filed)) h
step-completed c (stales a) k r v h = unfold set_stale in h
step-completed c (runs_out device_id sn now) k r v h =
    rw
      (Touches-completed c (expire_look c device_id sn now).0
        (expire_look-Touches c device_id sn now v.filed))
      h

run-completed :
    (c : Coordinator) (xs : List Section) (k : Key) (r : Refresh)
    → IsSettled c
    → lookup k c.completed ≡ some r
    → lookup k (run c xs).completed ≡ some r
unfolding run
run-completed c [] k r v h = h
run-completed c (x ∷ xs) k r v h =
    run-completed (step c x) xs k r (step-IsSettled c x v) (step-completed c x k r v h)

-- What a page of a complete refresh is answered: a refresh that also stands among the stale ones has
-- missed its deadline, and another announced number is invalid.
abbrev pub complete_answer : Coordinator → Page → Refresh → Result PageResult
complete_answer c page r = elim (lookup (page.device_id, page.sn) c.stale) [
  | some old ↦ err (failed CatalogError.deadline)
  | none ↦
      if r.expected_count == page.sum_num
      then ok (record { refresh = r; complete = true; duplicate = true })
      else err (failed CatalogError.invalid)
]

accept_page_complete :
    (c : Coordinator) (page : Page) (now : Time) (a : Answers) (r : Refresh)
    → valid_page page ≡ true
    → lookup (page.device_id, page.sn) c.pending ≡ none
    → lookup (page.device_id, page.sn) c.completed ≡ some r
    → accept_page c page now a ≡ (c, complete_answer c page r)
unfolding accept_page start_refresh start_look page_look
accept_page_complete c page now a r valid free done =
    elim (Option-cases (lookup (page.device_id, page.sn) c.stale)) [
      | inr (old, s) ↦ ground (arith, s)
      | inl s ↦ elim (Bool-cases (r.expected_count == page.sum_num)) [
        | inl b ↦ ground (arith, s, b)
        | inr b ↦ ground (arith, s, b)
      ]
    ]

-- Once a refresh is complete it is complete for good, however the sections of later calls interleave: it
-- is never pending again, and `AcceptPage`, with no other call between its sections, changes nothing
-- on a valid page of it and asks the store nothing. The page is a duplicate of the same refresh if
-- it announces the same number of items and invalid if it announces another; if the refresh had run
-- out in another call before it was complete, its deadline is missed.
pub completed_for_good :
    (earlier later : List Section) (page : Page) (now : Time) (a : Answers) {r : Refresh}
    → valid_page page ≡ true
    → lookup (page.device_id, page.sn) (run new_coordinator earlier).completed ≡ some r
    → let c = run (run new_coordinator earlier) later in
      (lookup (page.device_id, page.sn) c.pending ≡ none)
      × (accept_page c page now a ≡ (c, complete_answer c page r))
completed_for_good earlier later page now a {r} valid h =
    let c0 = run new_coordinator earlier in
    let v0 = run-IsSettled new_coordinator earlier new_coordinator-IsSettled in
    let done = run-completed c0 later (page.device_id, page.sn) r v0 h in
    let free = (run-IsSettled c0 later v0).settled (page.device_id, page.sn) r done in
    (free, accept_page_complete (run c0 later) page now a r valid free done)

-- Whatever was done before, a catalogue is handed to the store only when it is whole: it is as long
-- as announced, holds each item exactly as often as the items that the pages of the refresh left, is
-- ordered by identifier, and is handed over by one page.
pub commits-Whole :
    (xs : List Section) (page : Page) (now : Time) {c' : Coordinator} {m : Commit}
    → page_look (run new_coordinator xs) page now ≡ (c', commits m)
    → Whole (run new_coordinator xs) c' page m
commits-Whole xs page now h =
    page_look-Whole (run new_coordinator xs) page now
      (run-IsSettled new_coordinator xs new_coordinator-IsSettled).filed h
