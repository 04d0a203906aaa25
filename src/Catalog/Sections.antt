-- ===== src/Catalog/Sections.antt =====
-- internal/gbcatalog/catalog.go: the sections that change at most one pending refresh.
use iolink.Base.{
  ◌≡◌, refl, sym, subst, ap, inl, inr, ◌==◌, ==_iff, nat_eq, text_eq, int_eq, pair_eq, Bool, true,
  false, ◌||◌, not, Text, length, none, some, lookup, lookup-insert, All-lookup, All-insert, ℤ, pos,
  ltb_ℤ, is_positive, arith, Bool-cases, Option-cases,
}
use iolink.Media.{Time, before}
use iolink.Catalog.Pages.{Page, Refresh}
use iolink.Catalog.Coordinator.{
  Key, Pending, Coordinator, Commit, key_of, put_pending, merge, collect, page_look,
}
use iolink.Catalog.Endings.{commit_failed, reset_staling, expire_look}
use iolink.Catalog.Merge.{Items, IsFiled, merge-IsFiled}
use iolink.Catalog.Commits.{AreFiled}
use iolink.Gb.Peers.{valid_device_id}

-- No refresh is pending once it is complete.
pub record IsSettled (c : Coordinator) : Type 0 where
  pub filed : AreFiled c
  pub settled : (k : Key) (r : Refresh) → lookup k c.completed ≡ some r → lookup k c.pending ≡ none

-- What a section that leaves the completed refreshes alone does to the pending ones: it changes one
-- that is there.
put-IsSettled :
    (c : Coordinator) (k : Key) (p p' : Pending)
    → lookup k c.pending ≡ some p
    → IsFiled p'.items
    → IsSettled c
    → IsSettled (put_pending c k p')
put-IsSettled c k p p' l f v = record {
  filed = All-insert (λ x. IsFiled x.1.items) k p' c.pending v.filed f;
  settled = λ j r d. elim (Bool-cases (k == j)) [
    | inr b ↦ ground (arith, b, lookup-insert k j p' c.pending, v.settled j r d)
    | inl b ↦
        let same : k ≡ j = (==_iff k j).0 b in
        let free = subst (λ x. lookup x c.pending ≡ none) (sym same) (v.settled j r d) in
        absurd (ground (arith, l, free))
  ];
}

IsFiled-lookup :
    (c : Coordinator) (k : Key) {p : Pending}
    → IsSettled c
    → lookup k c.pending ≡ some p
    → IsFiled p.items
IsFiled-lookup c k v l = All-lookup (λ x. IsFiled x.1.items) k c.pending v.filed l

-- A section that changes the pending refreshes at most at one that is there, and files its items.
pub data Touches (c c' : Coordinator) : Type 0 where
  nothing : c' ≡ c → Touches c c'
  one :
      (k : Key) (p p' : Pending)
      → lookup k c.pending ≡ some p
      → IsFiled p'.items
      → c' ≡ put_pending c k p'
      → Touches c c'

pub Touches-IsSettled : (c c' : Coordinator) → Touches c c' → IsSettled c → IsSettled c'
Touches-IsSettled c c' (nothing e) v = subst IsSettled (sym e) v
Touches-IsSettled c c' (one k p p' l f e) v = subst IsSettled (sym e) (put-IsSettled c k p p' l f v)

pub Touches-completed : (c c' : Coordinator) → Touches c c' → c'.completed ≡ c.completed
Touches-completed c c' (nothing e) = ap (λ x. x.completed) e
Touches-completed c c' (one k p p' l f e) = ap (λ x. x.completed) e

collect-put :
    (c : Coordinator) (k : Key) (p : Pending) (r : Items × Bool × Bool)
    → (p' : Pending) × (p'.items ≡ r.0) × ((collect c k p r).0 ≡ put_pending c k p')
unfolding collect
collect-put c k p (items, duplicate, conflict) =
    let kept : Pending = record p { items = items } in
    elim (Bool-cases conflict) [
      | inl b ↦ (kept, refl, ground (arith, b))
      | inr b ↦ elim (Bool-cases (ltb_ℤ p.refresh.expected_count (pos (length items)))) [
        | inl t ↦ (kept, refl, ground (arith, b, t))
        | inr t ↦ elim (Bool-cases (not (pos (length items) == p.refresh.expected_count))) [
          | inl u ↦ (kept, refl, ground (arith, b, t, u))
          | inr u ↦ (record kept { committing = true }, refl, ground (arith, b, t, u))
        ]
      ]
    ]

pub page_look-Touches :
    (c : Coordinator) (page : Page) (now : Time) → AreFiled c → Touches c (page_look c page now).0
unfolding page_look
page_look-Touches c page now f =
    let k : Key = (page.device_id, page.sn) in
    elim (Option-cases (lookup k c.completed)) [
      | inr (done, d) ↦ nothing (ground (arith, d))
      | inl d ↦ elim (Option-cases (lookup k c.pending)) [
        | inl l ↦ nothing (ground (arith, d, l))
        | inr (p, l) ↦
            let filed = All-lookup (λ x. IsFiled x.1.items) k c.pending f l in
            elim (Bool-cases (p.staling || p.committing)) [
              | inl b ↦ nothing (ground (arith, d, l, b))
              | inr b ↦ elim (Bool-cases (before now p.refresh.deadline)) [
                | inr t ↦ one k p (record p { staling = true }) l filed (ground (arith, d, l, b, t))
                | inl t ↦
                    let r = merge p.items true page.items in
                    let (p', kept, put) = collect-put c k p r in
                    one k p p' l
                      (subst IsFiled (sym kept) (merge-IsFiled p.items true page.items filed))
                      (ground (arith, d, l, b, t, put))
              ]
            ]
      ]
    ]

pub commit_failed-Touches :
    (c : Coordinator) (m : Commit) → AreFiled c → Touches c (commit_failed c m)
unfolding commit_failed
commit_failed-Touches c m f = elim (Option-cases (lookup (key_of m.refresh) c.pending)) [
  | inl l ↦ nothing (ground (arith, l))
  | inr (p, l) ↦ elim (Bool-cases (p.ident == m.ident)) [
    | inr b ↦ nothing (ground (arith, l, b))
    | inl b ↦
        one (key_of m.refresh) p (record p { committing = false }) l
          (All-lookup (λ x. IsFiled x.1.items) (key_of m.refresh) c.pending f l)
          (ground (arith, l, b))
  ]
]

pub reset_staling-Touches :
    (c : Coordinator) (r : Refresh) → AreFiled c → Touches c (reset_staling c r)
unfolding reset_staling
reset_staling-Touches c r f = elim (Option-cases (lookup (key_of r) c.pending)) [
  | inl l ↦ nothing (ground (arith, l))
  | inr (p, l) ↦
      one (key_of r) p (record p { staling = false }) l
        (All-lookup (λ x. IsFiled x.1.items) (key_of r) c.pending f l) (ground (arith, l))
]

pub expire_look-Touches :
    (c : Coordinator) (device_id : Text) (sn : ℤ) (now : Time)
    → AreFiled c
    → Touches c (expire_look c device_id sn now).0
unfolding expire_look
expire_look-Touches c device_id sn now f =
    let k : Key = (device_id, sn) in
    elim (Bool-cases (not (valid_device_id device_id) || not (is_positive sn))) [
      | inl b ↦ nothing (ground (arith, b))
      | inr b ↦ elim (Option-cases (lookup k c.pending)) [
        | inl l ↦ nothing (ground (arith, b, l))
        | inr (p, l) ↦
            elim (Bool-cases (before now p.refresh.deadline || p.committing || p.staling)) [
              | inl t ↦ nothing (ground (arith, b, l, t))
              | inr t ↦
                  one k p (record p { staling = true }) l
                    (All-lookup (λ x. IsFiled x.1.items) k c.pending f l) (ground (arith, b, l, t))
            ]
      ]
    ]
