-- ===== src/Catalog/Merge.antt =====
-- internal/gbcatalog/catalog.go: the items that pages leave behind, and their order in the store.
use iolink.Base.{
  ℕ, suc, if◌then◌else◌, ◌+◌, ◌≡◌, refl, subst, inl, inr, ◌==◌, ==_iff, text_eq, Bool, true, false,
  Text, text_ltb, text_ltb_asymm, List, [], ◌∷◌, length, All, some, lookup, insert, lookup-insert,
  All-insert, Keyed, insert-Keyed, arith, Bool-cases, Option-cases,
}
use iolink.Catalog.Pages.{Item, item_eq}
use iolink.Catalog.Coordinator.{merge, insert_item, sort_items}

abbrev pub Items : Type 0
Items = List (Text × Item)

-- What a page without a conflict leaves: its own items, and all that were there.
pub merge-keeps :
    (items : Items) (d : Bool) (page : List Item) {items' : Items} {d' : Bool}
    → merge items d page ≡ (items', d', false)
    → (k : Text) (x : Item) → lookup k items ≡ some x
    → lookup k items' ≡ some x
unfolding merge
merge-keeps items d [] h k x l = ground arith
merge-keeps items d (item ∷ page) {items'} {d'} h k x l =
    elim (Option-cases (lookup item.channel_id items)) [
      | inl e ↦
          merge-keeps (insert item.channel_id item items) false page {items' = items'} {d' = d'}
            (ground (arith, e)) k x
            (ground
              (arith, l, e, lookup-insert item.channel_id k item items, ==_iff item.channel_id k))
      | inr (old, e) ↦ elim (Bool-cases (old == item)) [
        | inl b ↦ merge-keeps items d page {items' = items'} {d' = d'} (ground (arith, e, b)) k x l
        | inr b ↦ absurd (ground (arith, e, b, h))
      ]
    ]

abbrev pub Collected : Items → List Item → Type 0
Collected items page = All (λ item. lookup item.channel_id items ≡ some item) page

pub merge-Collected :
    (items : Items) (d : Bool) (page : List Item) {items' : Items} {d' : Bool}
    → merge items d page ≡ (items', d', false)
    → Collected items' page
unfolding merge
merge-Collected items d [] h = tt
merge-Collected items d (item ∷ page) {items'} {d'} h =
    elim (Option-cases (lookup item.channel_id items)) [
      | inl e ↦
          let h' : merge (insert item.channel_id item items) false page ≡ (items', d', false) =
            ground (arith, e) in
          (
            merge-keeps (insert item.channel_id item items) false page h' item.channel_id item (
                ground (
                  arith,
                  lookup-insert item.channel_id item.channel_id item items,
                  ==_iff item.channel_id item.channel_id,
                )),
            merge-Collected (insert item.channel_id item items) false page h',
          )
      | inr (old, e) ↦ elim (Bool-cases (old == item)) [
        | inl b ↦
            let h' : merge items d page ≡ (items', d', false) = ground (arith, e, b) in
            let same : old ≡ item = (==_iff old item).0 b in
            (
              merge-keeps items d page h' item.channel_id item
                  (subst (λ x. lookup item.channel_id items ≡ some x) same e),
              merge-Collected items d page h',
            )
        | inr b ↦ absurd (ground (arith, e, b, h))
      ]
    ]

Collected-merge :
    (items : Items) (d : Bool) (page : List Item)
    → Collected items page
    → merge items d page ≡ (items, d, false)
unfolding merge
Collected-merge items d [] c = refl
Collected-merge items d (item ∷ page) c =
    ground (arith, c.0, ==_iff item item, Collected-merge items d page c.1)

-- A page that was taken in without a conflict changes nothing when it comes again, and is known to
-- be a duplicate.
merge_again :
    (items : Items) (d : Bool) (page : List Item) {items' : Items} {d' : Bool}
    → merge items d page ≡ (items', d', false)
    → merge items' true page ≡ (items', true, false)
merge_again items d page {items'} h =
    Collected-merge items' true page (merge-Collected items d page h)

-- Every item stands under its own identifier, once.
pub record IsFiled (items : Items) : Type 0 where
  pub keyed : Keyed items
  pub named : All (λ x. x.0 ≡ x.1.channel_id) items

pub merge-IsFiled :
    (items : Items) (d : Bool) (page : List Item) → IsFiled items → IsFiled (merge items d page).0
unfolding merge
merge-IsFiled items d [] f = f
merge-IsFiled items d (item ∷ page) f = elim (Option-cases (lookup item.channel_id items)) [
  | inl e ↦
      rw (e, merge)
        (merge-IsFiled (insert item.channel_id item items) false page (record {
          keyed = insert-Keyed item.channel_id item items f.keyed;
          named = All-insert (λ x. x.0 ≡ x.1.channel_id) item.channel_id item items f.named refl;
        }))
  | inr (old, e) ↦ elim (Bool-cases (old == item)) [
    | inl b ↦ rw (e, merge, b) (merge-IsFiled items d page f)
    | inr b ↦ rw (e, merge, b) f
  ]
]

-- No item comes before its predecessor.
abbrev pub IsOrdered : List Item → Type 0
IsOrdered [] = Unit
IsOrdered (x ∷ []) = Unit
IsOrdered (x ∷ y ∷ ys) = (text_ltb y.channel_id x.channel_id ≡ false) × IsOrdered (y ∷ ys)

insert_item-IsOrdered : (x : Item) (ys : List Item) → IsOrdered ys → IsOrdered (insert_item x ys)
unfolding insert_item
insert_item-IsOrdered x [] h = tt
insert_item-IsOrdered x (y ∷ []) h = elim (Bool-cases (text_ltb y.channel_id x.channel_id)) [
  | inl b ↦ rw b (text_ltb_asymm y.channel_id x.channel_id b, tt)
  | inr b ↦ rw b (b, tt)
]
insert_item-IsOrdered x (y ∷ z ∷ ys) h =
    let rest = insert_item-IsOrdered x (z ∷ ys) h.1 in
    elim (Bool-cases (text_ltb y.channel_id x.channel_id)) [
      | inr b ↦ rw b (b, h)
      | inl b ↦ elim (Bool-cases (text_ltb z.channel_id x.channel_id)) [
        | inl c ↦ rw (b, c) (h.0, rw c at rest)
        | inr c ↦ rw (b, c) (text_ltb_asymm y.channel_id x.channel_id b, (c, h.1))
      ]
    ]

pub sort_items-IsOrdered : (xs : List Item) → IsOrdered (sort_items xs)
unfolding sort_items
sort_items-IsOrdered [] = tt
sort_items-IsOrdered (x ∷ xs) = insert_item-IsOrdered x (sort_items xs) (sort_items-IsOrdered xs)

length-insert_item : (x : Item) (ys : List Item) → length (insert_item x ys) ≡ length ys + 1
unfolding insert_item
length-insert_item x [] = omega arith
length-insert_item x (y ∷ ys) = ground (arith, length-insert_item x ys)

pub length-sort_items : (xs : List Item) → length (sort_items xs) ≡ length xs
unfolding sort_items
length-sort_items [] = refl
length-sort_items (x ∷ xs) =
    ground (arith, length-sort_items xs, length-insert_item x (sort_items xs))

insert_item-All {μ} :
    (P : Item → Type μ) (x : Item) (ys : List Item) → P x → All P ys → All P (insert_item x ys)
unfolding insert_item
insert_item-All P x [] p h = (p, tt)
insert_item-All P x (y ∷ ys) p h = elim (Bool-cases (text_ltb y.channel_id x.channel_id)) [
  | inl b ↦ rw b (h.0, insert_item-All P x ys p h.1)
  | inr b ↦ rw b (p, h)
]

pub sort_items-All {μ} : (P : Item → Type μ) (xs : List Item) → All P xs → All P (sort_items xs)
unfolding sort_items
sort_items-All P [] h = tt
sort_items-All P (x ∷ xs) h = insert_item-All P x (sort_items xs) h.0 (sort_items-All P xs h.1)

-- How often an item stands in a list.
abbrev pub count_item : Item → List Item → ℕ
count_item x [] = 0
count_item x (y ∷ ys) = if y == x then suc (count_item x ys) else count_item x ys

count_item-insert_item :
    (z x : Item) (ys : List Item) → count_item z (insert_item x ys) ≡ count_item z (x ∷ ys)
unfolding insert_item
count_item-insert_item z x [] = refl
count_item-insert_item z x (y ∷ ys) = ground (arith, count_item-insert_item z x ys)

pub count_item-sort_items :
    (z : Item) (xs : List Item) → count_item z (sort_items xs) ≡ count_item z xs
unfolding sort_items
count_item-sort_items z [] = refl
count_item-sort_items z (x ∷ xs) =
    ground (arith, count_item-insert_item z x (sort_items xs), count_item-sort_items z xs)
