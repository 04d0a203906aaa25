-- ===== src/Catalog/Coordinator.antt =====
-- internal/gbcatalog/catalog.go. Each definition that takes a coordinator is one critical section; the
-- calls of the store and of the context stand between them, and their answers are arguments. A pending
-- refresh is a pointer, so it has an identity, a number that is counted up; sections that hold the
-- pointer across a call of the store compare it.
use iolink.Base.{
  ℕ, suc, ◌+◌, ◌==◌, nat_eq, text_eq, int_eq, pair_eq, Bool, true, false, ◌&&◌, ◌||◌, not,
  if◌then◌else◌, Text, text_ltb, List, [], ◌∷◌, length, map, Option, none, some, lookup, insert, ℤ,
  pos, is_positive, ltb_ℤ, CatalogError, join_err, Result, ok, err,
}
use iolink.Media.{Time, before, is_zero_time}
use iolink.Gb.Peers.{valid_device_id}
use iolink.Catalog.Pages.{
  Item, item_eq, Page, Refresh, PageResult, refresh_timeout, max_items, failed,
}

abbrev pub Key : Type 0
Key = Text × ℤ

pub record Pending : Type 0 where
  pub ident : ℕ
  pub refresh : Refresh
  pub items : List (Text × Item)
  pub staling : Bool
  pub committing : Bool

pub record Coordinator : Type 0 where
  pub next_ident : ℕ
  pub pending : List (Key × Pending)
  pub completed : List (Key × Refresh)
  pub stale : List (Key × Refresh)

unfoldable pub new_coordinator : Coordinator
new_coordinator = record { next_ident = 0; pending = []; completed = []; stale = [] }

abbrev pub key_of : Refresh → Key
key_of r = (r.device_id, r.sn)

abbrev pub put_pending : Coordinator → Key → Pending → Coordinator
put_pending c k p = record c { pending = insert k p c.pending }

-- The checks of `Start`.
unfoldable pub new_refresh : Text → ℤ → ℤ → Time → Result Refresh
new_refresh device_id sn expected now =
    if not (valid_device_id device_id)
      || not (is_positive sn)
      || ltb_ℤ expected (pos 0)
      || ltb_ℤ (pos max_items) expected
    then err (failed CatalogError.invalid)
    else ok (record {
      device_id = device_id;
      sn = sn;
      expected_count = expected;
      deadline = now + refresh_timeout;
    })

abbrev agreed : Refresh → Refresh → Result Refresh
agreed known asked =
    if known.expected_count == asked.expected_count
    then ok known
    else err (failed CatalogError.invalid)

-- The first section of `start`; `none` where the store has to be asked.
unfoldable pub start_look : Coordinator → Refresh → Option (Result Refresh)
start_look c r = elim (lookup (key_of r) c.pending) [
  | some p ↦ some (agreed p.refresh r)
  | none ↦ elim (lookup (key_of r) c.stale) [
    | some old ↦ some (err (failed CatalogError.deadline))
    | none ↦ elim (lookup (key_of r) c.completed) [ some done ↦ some (agreed done r) | none ↦ none ]
  ]
]

-- The store's answer, between the sections.
unfoldable pub started : Refresh → Result Refresh → Result Refresh
started r (err e) = err (join_err (failed CatalogError.store) e)
started r (ok got) =
    if got.device_id == r.device_id
      && got.sn == r.sn
      && got.expected_count == r.expected_count
      && not (is_zero_time got.deadline)
    then ok got
    else err (failed CatalogError.store)

abbrev pub new_pending : Coordinator → Refresh → Pending
new_pending c r = record {
  ident = c.next_ident;
  refresh = r;
  items = [];
  staling = false;
  committing = false;
}

-- The last section of `start`.
unfoldable pub start_record : Coordinator → Refresh → Coordinator × Refresh
start_record c got = elim (lookup (key_of got) c.pending) [
  | some p ↦ (c, p.refresh)
  | none ↦ elim (lookup (key_of got) c.completed) [
    | some done ↦ (c, done)
    | none ↦ (
      record c {
        next_ident = suc c.next_ident;
        pending = insert (key_of got) (new_pending c got) c.pending;
      },
      got,
    )
  ]
]

-- The loop over a page's items: the items, whether all were known, and whether one was another item.
unfoldable pub merge : List (Text × Item) → Bool → List Item → List (Text × Item) × Bool × Bool
merge items duplicate [] = (items, duplicate, false)
merge items duplicate (item ∷ rest) =
    let added = merge (insert item.channel_id item items) false rest in
    let kept = merge items duplicate rest in
    elim (lookup item.channel_id items) [
      | none ↦ added
      | some old ↦ if old == item then kept else (items, duplicate, true)
    ]

-- `sort.Slice` by the channel's identifier.
unfoldable pub insert_item : Item → List Item → List Item
insert_item x [] = x ∷ []
insert_item x (y ∷ ys) =
    let rest = insert_item x ys in
    if text_ltb y.channel_id x.channel_id then y ∷ rest else x ∷ y ∷ ys

unfoldable pub sort_items : List Item → List Item
unfolding insert_item
sort_items [] = []
sort_items (x ∷ xs) = insert_item x (sort_items xs)

-- What a section of `AcceptPage` leaves to do: it has answered, it has to mark a refresh stale, or it
-- has to store a whole catalogue.
pub record Commit : Type 0 where
  pub refresh : Refresh
  pub ident : ℕ
  pub items : List Item
  pub duplicate : Bool

pub data Next : Type 0 where
  answers : Result PageResult → Next
  expires : Refresh → Next
  commits : Commit → Next

abbrev page_key : Page → Key
page_key page = (page.device_id, page.sn)

abbrev result : Refresh → Bool → Bool → Next
result r complete duplicate =
    answers (ok (record { refresh = r; complete = complete; duplicate = duplicate }))

-- The end of the section, with the merged items.
unfoldable pub collect :
    Coordinator → Key → Pending → List (Text × Item) × Bool × Bool → Coordinator × Next
unfolding sort_items
collect c k p (items, duplicate, conflict) =
    let p' : Pending = record p { items = items } in
    if conflict
    then (put_pending c k p', answers (err (failed CatalogError.duplicate_conflict)))
    else if ltb_ℤ p.refresh.expected_count (pos (length items))
    then (put_pending c k p', answers (err (failed CatalogError.invalid)))
    else if not (pos (length items) == p.refresh.expected_count)
    then (put_pending c k p', result p.refresh false duplicate)
    else (
      put_pending c k (record p' { committing = true }),
      commits (record {
        refresh = p.refresh;
        ident = p.ident;
        items = sort_items (map (λ x. x.1) items);
        duplicate = duplicate;
      }),
    )

-- The main section of `AcceptPage`.
unfoldable pub page_look : Coordinator → Page → Time → Coordinator × Next
unfolding collect merge
page_look c page now = elim (lookup (page_key page) c.completed) [
  | some done ↦ (c, result done true true)
  | none ↦ elim (lookup (page_key page) c.pending) [
    | none ↦ (c, answers (err (failed CatalogError.store)))
    | some p ↦
        if p.staling
        then (c, answers (err (failed CatalogError.deadline)))
        else if p.committing
        then (c, result p.refresh false true)
        else if not (before now p.refresh.deadline)
        then (put_pending c (page_key page) (record p { staling = true }), expires p.refresh)
        else collect c (page_key page) p (merge p.items true page.items)
  ]
]
