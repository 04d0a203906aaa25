-- ===== src/Catalog/Commits.antt =====
-- internal/gbcatalog/catalog.go: what is stored when a catalogue is complete, and what every section
-- keeps of a coordinator.
use iolink.Base.{
  suc, ◌≡◌, refl, sym, subst, ap, inl, inr, ==_iff, nat_eq, text_eq, int_eq, pair_eq, Bool, true,
  false, [], ◌∷◌, length, map, All, some, lookup, lookup-insert_self, All-lookup, Keyed-lookup, pos,
  arith, Option-cases,
}
use iolink.Media.{Time}
use iolink.Catalog.Pages.{Item, Page}
use iolink.Catalog.Coordinator.{
  Key, Pending, Coordinator, Commit, commits, put_pending, merge, sort_items, collect, page_look,
}
use iolink.Catalog.Merge.{
  Items, IsFiled, merge-IsFiled, IsOrdered, sort_items-IsOrdered, length-sort_items, sort_items-All,
  Collected, count_item, count_item-sort_items,
}

-- Every pending refresh files its items under their identifiers.
abbrev pub AreFiled : Coordinator → Type 0
AreFiled c = All (λ x. IsFiled x.1.items) c.pending

length-map : (m : Items) → length (map (λ x. x.1) m) ≡ length m
length-map [] = refl
length-map (x ∷ m) = ap suc (length-map m)

values-Collected :
    (items part : Items)
    → All (λ x. lookup x.0 items ≡ some x.1) part
    → All (λ x. x.0 ≡ x.1.channel_id) part
    → Collected items (map (λ x. x.1) part)
values-Collected items [] h k = tt
values-Collected items (x ∷ part) h k =
    (subst (λ i. lookup i items ≡ some x.1) k.0 h.0, values-Collected items part h.1 k.1)

-- The catalogue that is handed to the store: as many items as were announced, each item as often as
-- among those that the pages of the pending refresh left, which are filed under their identifiers,
-- each identifier once; they are ordered by identifier; and the refresh is marked, so that no other
-- page of it can hand a catalogue over.
pub record Whole (c c' : Coordinator) (page : Page) (m : Commit) : Type 0 where
  pub pending : Pending
  pub items : Items
  pub found : lookup (page.device_id, page.sn) c.pending ≡ some pending
  pub free : (pending.committing ≡ false) × (pending.staling ≡ false)
  pub merged : (merge pending.items true page.items).0 ≡ items
  pub identity : (m.refresh ≡ pending.refresh) × (m.ident ≡ pending.ident)
  pub counted : pos (length m.items) ≡ m.refresh.expected_count
  pub filed : IsFiled items
  pub gathered : (x : Item) → count_item x m.items ≡ count_item x (map (λ e. e.1) items)
  pub collected : Collected items m.items
  pub ordered : IsOrdered m.items
  pub marked :
      lookup (page.device_id, page.sn) c'.pending
      ≡ some (record pending { items = items; committing = true })

collect-Whole :
    (c : Coordinator) (page : Page) (p : Pending) (r : Items × Bool × Bool) {c' : Coordinator}
    {m : Commit}
    → lookup (page.device_id, page.sn) c.pending ≡ some p
    → (p.committing ≡ false) × (p.staling ≡ false)
    → merge p.items true page.items ≡ r
    → IsFiled p.items
    → collect c (page.device_id, page.sn) p r ≡ (c', commits m)
    → Whole c c' page m
unfolding collect
collect-Whole c page p (items, duplicate, conflict) {c'} {m} l n e f h =
    let f' : IsFiled items = subst (λ x. IsFiled x.0) e (merge-IsFiled p.items true page.items f) in
    let k : Key = (page.device_id, page.sn) in
    let p' : Pending = record p { items = items; committing = true } in
    let after : c' ≡ put_pending c k p' = ground arith in
    let stored : m.items ≡ sort_items (map (λ x. x.1) items) = ground arith in
    record {
      pending = p;
      items = items;
      found = l;
      free = n;
      merged = ap (λ x. x.0) e;
      identity = (ground arith, ground arith);
      counted = ground (
        arith,
        length-sort_items (map (λ x. x.1) items),
        length-map items,
        ap length stored,
        ==_iff (pos (length items)) p.refresh.expected_count,
      );
      filed = f';
      gathered = λ x.
          subst (λ y. count_item x y ≡ count_item x (map (λ e. e.1) items)) (sym stored)
            (count_item-sort_items x (map (λ e. e.1) items));
      collected =
          subst (λ x. Collected items x) (sym stored)
            (sort_items-All (λ item. lookup item.channel_id items ≡ some item)
              (map (λ x. x.1) items)
              (values-Collected items items (Keyed-lookup items f'.keyed) f'.named));
      ordered = subst IsOrdered (sym stored) (sort_items-IsOrdered (map (λ x. x.1) items));
      marked =
          subst (λ x. lookup k x.pending ≡ some p') (sym after) (lookup-insert_self k p' c.pending);
    }

-- A catalogue is handed to the store only when it is whole, and by one page.
pub page_look-Whole :
    (c : Coordinator) (page : Page) (now : Time) {c' : Coordinator} {m : Commit}
    → AreFiled c
    → page_look c page now ≡ (c', commits m)
    → Whole c c' page m
unfolding page_look
page_look-Whole c page now {c'} {m} f h =
    let k : Key = (page.device_id, page.sn) in
    elim (Option-cases (lookup k c.completed)) [
      | inr (done, d) ↦ absurd (ground (arith, d))
      | inl d ↦ elim (Option-cases (lookup k c.pending)) [
        | inl l ↦ absurd (ground (arith, d, l))
        | inr (p, l) ↦
            collect-Whole c page p (merge p.items true page.items) l (ground (arith, d, l)) refl
              (All-lookup (λ x. IsFiled x.1.items) k c.pending f l) (ground (arith, d, l))
      ]
    ]
