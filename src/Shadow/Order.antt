-- ===== src/Shadow/Order.antt =====
-- internal/core/pipeline.go: the order in which two reports arrive does not matter.
use iolink.Base.{
  ◌≡◌, refl, sym, ap, ◌∙◌, ◌≢◌, ==_iff, int_eq, text_eq, Text, Option, none, some, lookup, Keyed, ℤ,
  arith,
}
use iolink.Media.{Time}
use iolink.Shadow.Upsert.{Report, Row, is_fresh, latest, carried, shadow_upsert}
use iolink.Shadow.Cells.{Cell, cell, update, merge_properties-cell}
use iolink.Shadow.Newest.{Shown}

module _ {V : Type 0} where
  update_comm :
      (t u : Time) (o p : Option V) (c : Cell V)
      → t ≢ u
      → update t o (update u p c) ≡ update u p (update t o c)
  unfolding is_fresh
  update_comm t u none p c n = refl
  update_comm t u (some v) none c n = refl
  update_comm t u (some v) (some w) (none, x) n = ground arith
  update_comm t u (some v) (some w) (some s, x) n = ground arith

  -- A report of the same pond and product carries the row on.
  carried-upsert :
      (to_int : V → ℤ) (o : Option (Row V)) (r s : Report V)
      → r.pond ≡ s.pond
      → r.product_id ≡ s.product_id
      → let row = shadow_upsert to_int o r in
        carried (some row) s ≡ ((row.last, row.timestamps), row.ts)
  unfolding carried shadow_upsert
  carried-upsert to_int o r s p q =
      rw ((==_iff r.pond s.pond).1 p, (==_iff r.product_id s.product_id).1 q) refl

  carried-same_maps :
      (o : Option (Row V)) (r s : Report V)
      → r.pond ≡ s.pond
      → r.product_id ≡ s.product_id
      → (carried o r).0 ≡ (carried o s).0
  unfolding carried
  carried-same_maps none r s p q = refl
  carried-same_maps (some row) r s p q = ground (arith, p, q)

  carried-latest :
      (o : Option (Row V)) (r s : Report V)
      → r.pond ≡ s.pond
      → r.product_id ≡ s.product_id
      → latest s.ts (latest r.ts (carried o r).1) ≡ latest r.ts (latest s.ts (carried o s).1)
  unfolding carried
  carried-latest none r s p q = ground arith
  carried-latest (some row) r s p q = ground (arith, p, q)

  Shown-upsert :
      (to_int : V → ℤ) (k : Text) (o : Option (Row V)) (r : Report V)
      → Keyed r.properties
      → Shown (shadow_upsert to_int o r) k
        ≡ update r.ts (lookup k r.properties) (cell k (carried o r).0)
  unfolding shadow_upsert
  Shown-upsert to_int k o r u = merge_properties-cell k r.ts r.properties (carried o r).0 u

  Shown-two :
      (to_int : V → ℤ) (k : Text) (o : Option (Row V)) (r s : Report V)
      → Keyed r.properties
      → Keyed s.properties
      → r.pond ≡ s.pond
      → r.product_id ≡ s.product_id
      → Shown (shadow_upsert to_int (some (shadow_upsert to_int o r)) s) k
        ≡ update s.ts
            (lookup k s.properties)
            (update r.ts (lookup k r.properties) (cell k (carried o r).0))
  Shown-two to_int k o r s u v p q =
      let after = some (shadow_upsert to_int o r) in
      Shown-upsert to_int k after s v
      ∙ ap (λ c. update s.ts (lookup k s.properties) c)
          (ap (λ c. cell k c.0) (carried-upsert to_int o r s p q) ∙ Shown-upsert to_int k o r u)

  time-two :
      (to_int : V → ℤ) (o : Option (Row V)) (r s : Report V)
      → r.pond ≡ s.pond
      → r.product_id ≡ s.product_id
      → (shadow_upsert to_int (some (shadow_upsert to_int o r)) s).ts
        ≡ latest s.ts (latest r.ts (carried o r).1)
  unfolding shadow_upsert
  time-two to_int o r s p q = ap (λ c. latest s.ts c.1) (carried-upsert to_int o r s p q)

  -- Two reports from the same pond and product, taken at different times, leave the same shadow of
  -- every property, and the same time, in whichever order they arrive.
  pub shadow_upsert_comm :
      (to_int : V → ℤ) (k : Text) (o : Option (Row V)) (r s : Report V)
      → Keyed r.properties
      → Keyed s.properties
      → r.pond ≡ s.pond
      → r.product_id ≡ s.product_id
      → r.ts ≢ s.ts
      → let one = shadow_upsert to_int (some (shadow_upsert to_int o r)) s in
        let two = shadow_upsert to_int (some (shadow_upsert to_int o s)) r in
        (Shown one k ≡ Shown two k) × (one.ts ≡ two.ts)
  shadow_upsert_comm to_int k o r s u v p q n = (
    Shown-two to_int k o r s u v p q
        ∙ update_comm s.ts r.ts (lookup k s.properties) (lookup k r.properties)
            (cell k (carried o r).0) (λ e. n (sym e))
        ∙ ap
            (λ c.
              update r.ts (lookup k r.properties) (update s.ts (lookup k s.properties) (cell k c)))
            (carried-same_maps o r s p q)
        ∙ sym (Shown-two to_int k o s r v u (sym p) (sym q)),
    time-two to_int o r s p q
        ∙ carried-latest o r s p q
        ∙ sym (time-two to_int o s r (sym p) (sym q)),
  )
