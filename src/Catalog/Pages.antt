-- ===== src/Catalog/Pages.antt =====
-- internal/gbcatalog/contracts.go and validation.go.
use iolink.Base.{
  ℕ, ◌*◌, ◌≡◌, ◌↔◌, ◌==◌, Comparable, text_eq, bool_eq, int_eq, Bool, true, false, ◌&&◌, ◌||◌, not,
  if◌then◌else◌, leb, Text, is_empty, text_beq_iff, bool_beq_iff, List, [], ◌∷◌, length, Option,
  none, some, lookup, insert, ℤ, pos, is_positive, leb_ℤ, GoError, plain, catalog, CatalogError,
  arith,
}
use iolink.Media.{Time, second, after, is_zero_time}
use iolink.Gb.Peers.{valid_device_id}

abbrev pub refresh_timeout : ℕ
refresh_timeout = 10 * second

abbrev pub max_items : ℕ
max_items = 1000

abbrev pub max_name_bytes : ℕ
max_name_bytes = 128

pub record Item : Type 0 where
  pub channel_id : Text
  pub name : Text
  pub online : Bool

abbrev pub item_beq : Item → Item → Bool
item_beq a b = a.channel_id == b.channel_id && a.name == b.name && a.online == b.online

pub item_beq_iff : (a b : Item) → (item_beq a b ≡ true) ↔ (a ≡ b)
item_beq_iff a b = ground (
  arith,
  text_beq_iff a.channel_id b.channel_id,
  text_beq_iff a.name b.name,
  bool_beq_iff a.online b.online,
)

instance abbrev pub item_eq : Comparable Item
item_eq = record { same = item_beq; same_iff = item_beq_iff }

pub record Page : Type 0 where
  pub device_id : Text
  pub sn : ℤ
  pub sum_num : ℤ
  pub items : List Item

pub record Refresh : Type 0 where
  pub device_id : Text
  pub sn : ℤ
  pub expected_count : ℤ
  pub deadline : Time

pub record PageResult : Type 0 where
  pub refresh : Refresh
  pub complete : Bool
  pub duplicate : Bool

abbrev pub failed : CatalogError → GoError
failed e = plain (catalog e)

-- `boundedContext`; `ctx_error` is what the bounded context's `Err` answers.
unfoldable pub bounded_context : Time → Time → Option GoError → Option GoError
bounded_context deadline now ctx_error =
    if is_zero_time deadline || not (after deadline now)
    then some (failed CatalogError.deadline)
    else ctx_error

-- Whether another item is known under the identifier.
unfoldable pub conflicts : Item → Option Item → Bool
conflicts item none = false
conflicts item (some old) = not (old == item)

-- The loop of `validPage`.
unfoldable pub valid_items : List (Text × Item) → List Item → Bool
unfolding conflicts
valid_items seen [] = true
valid_items seen (item ∷ items) =
    let rest = valid_items (insert item.channel_id item seen) items in
    if not (valid_device_id item.channel_id)
      || is_empty item.name
      || not (leb (length item.name) max_name_bytes)
      || conflicts item (lookup item.channel_id seen)
    then false
    else rest

unfoldable pub valid_page : Page → Bool
unfolding valid_items
valid_page p =
    if not (valid_device_id p.device_id)
      || not (is_positive p.sn)
      || not (leb_ℤ (pos 0) p.sum_num)
      || not (leb_ℤ p.sum_num (pos max_items))
      || not (leb (length p.items) max_items)
      || not (leb_ℤ (pos (length p.items)) p.sum_num)
    then false
    else valid_items [] p.items
      && (if p.sum_num == pos 0 then leb (length p.items) 0 else leb 1 (length p.items))
