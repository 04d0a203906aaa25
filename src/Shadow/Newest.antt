-- ===== src/Shadow/Newest.antt =====
-- internal/core/pipeline.go: the shadow shows the newest values that were reported.
use iolink.Base.{
  ℕ, suc, ◌≤◌, ◌≡◌, refl, sym, subst, ◌≢◌, ◌⊎◌, inl, inr, ◌==◌, ==_iff, int_eq, text_eq, Bool, true,
  false, ◌&&◌, if◌then◌else◌, Bool-cases, Text, List, [], ◌∷◌, get_elem?, All, All-map, Option,
  none, some, Option-cases, lookup, Keyed, ℤ, arith,
}
use iolink.Media.{Time}
use iolink.Shadow.Upsert.{Report, Row, Maps, is_fresh, latest, carried, shadow_upsert, shadow_of}
use iolink.Shadow.Cells.{
  Cell, cell, update, update-none, update-fresh, update-stale, merge_properties-cell,
}

is_fresh-le : (ts t : Time) → is_fresh ts (some t) ≡ true → t ≤ ts
unfolding is_fresh
is_fresh-le ts t h = ground arith

is_fresh-lt : (ts t : Time) → is_fresh ts (some t) ≡ false → ts ≤ t
unfolding is_fresh
is_fresh-lt ts t h = ground arith

latest-le : (ts known : Time) → (ts ≤ latest ts known) × (known ≤ latest ts known)
latest-le ts known = ground arith

le_trans : {a b c : Time} → a ≤ b → b ≤ c → a ≤ c
le_trans h k = omega arith

module _ {V : Type 0} where
  -- The reports since the device was last moved to this pond or became this product, the latest to
  -- arrive first.
  unfoldable pub since_move : ℤ → ℤ → List (Report V) → List (Report V)
  since_move pond product [] = []
  since_move pond product (r ∷ earlier) =
      let before_it = since_move pond product earlier in
      if r.pond == pond && r.product_id == product then r ∷ before_it else []

  -- A report that does not carry a property, or is no newer than a time.
  abbrev IsOld : Text → Time → Report V → Type 0
  IsOld k t r = (lookup k r.properties ≡ none) ⊎ (r.ts ≤ t)

  -- The value of a property is that of a report that no other with the property is newer than;
  -- without a value, no report carries the property.
  abbrev pub IsNewest : Text → List (Report V) → Cell V → Type 0
  IsNewest k reports (none, v) = (v ≡ none) × All (λ r. lookup k r.properties ≡ none) reports
  IsNewest k reports (some t, v) =
      ((i : ℕ) × (r : Report V) × (get_elem? reports i ≡ some r)
        × (r.ts ≡ t)
        × (lookup k r.properties ≡ v)
        × (v ≢ none))
      × All (IsOld k t) reports

  IsOld-later : (k : Text) (t u : Time) → t ≤ u → (r : Report V) → IsOld k t r → IsOld k u r
  IsOld-later k t u h r (inl n) = inl n
  IsOld-later k t u h r (inr l) = inr (omega arith)

  IsNewest-update :
      (k : Text) (reports : List (Report V)) (r : Report V) (c : Cell V)
      → IsNewest k reports c
      → IsNewest k (r ∷ reports) (update r.ts (lookup k r.properties) c)
  IsNewest-update k reports r (none, w) h = elim (Option-cases (lookup k r.properties)) [
    | inl e ↦
        subst (IsNewest k (r ∷ reports)) (sym (update-none r.ts _ (none, w) e)) (h.0, (e, h.1))
    | inr (v, e) ↦
        subst (IsNewest k (r ∷ reports))
          (sym (update-fresh r.ts _ v (none, w) e (unfold is_fresh in refl)))
          (
            (0, r, refl, refl, e, λ q. absurd (ground arith)),
            (inr (omega arith), All-map reports (λ s n. inl n) h.1),
          )
  ]
  IsNewest-update k reports r (some t, w) h = elim (Option-cases (lookup k r.properties)) [
    | inl e ↦
        let (i, s, at, time, val, some_val) = h.0 in
        subst (IsNewest k (r ∷ reports)) (sym (update-none r.ts _ (some t, w) e))
          ((suc i, s, at, time, val, some_val), (inl e, h.1))
    | inr (v, e) ↦ elim (Bool-cases (is_fresh r.ts (some t))) [
      | inl b ↦ subst (IsNewest k (r ∷ reports)) (sym (update-fresh r.ts _ v (some t, w) e b)) (
        (0, r, refl, refl, e, λ q. absurd (ground arith)),
        (inr (omega arith), All-map reports (IsOld-later k t r.ts (is_fresh-le r.ts t b)) h.1),
      )
      | inr b ↦
          let (i, s, at, time, val, some_val) = h.0 in
          subst (IsNewest k (r ∷ reports)) (sym (update-stale r.ts _ v (some t, w) e b))
            ((suc i, s, at, time, val, some_val), (inr (is_fresh-lt r.ts t b), h.1))
    ]
  ]

  abbrev pub Shown : Row V → Text → Cell V
  Shown row k = cell k (row.last, row.timestamps)

  -- What a shadow guarantees of the reports since the device was moved.
  abbrev pub IsShadow : Text → List (Report V) → Maps V → Time → Type 0
  IsShadow k reports maps ts = IsNewest k reports (cell k maps) × All (λ r. r.ts ≤ ts) reports

  shadow_upsert-IsShadow :
      (to_int : V → ℤ) (k : Text) (old : Option (Row V)) (r : Report V) (reports : List (Report V))
      → Keyed r.properties
      → IsShadow k reports (carried old r).0 (carried old r).1
      → let row = shadow_upsert to_int old r in
        IsShadow k (r ∷ reports) (row.last, row.timestamps) row.ts
  unfolding shadow_upsert
  shadow_upsert-IsShadow to_int k old r reports u h =
      let maps = (carried old r).0 in
      (
        subst (IsNewest k (r ∷ reports)) (sym (merge_properties-cell k r.ts r.properties maps u))
            (IsNewest-update k reports r (cell k maps) h.0),
        (
          (latest-le r.ts (carried old r).1).0,
          All-map reports (λ s l. le_trans l (latest-le r.ts (carried old r).1).1) h.1,
        ),
      )

  abbrev same_place : Report V → Report V → Bool
  same_place old r = old.pond == r.pond && old.product_id == r.product_id

  since_move-same :
      (old r : Report V) (earlier : List (Report V))
      → same_place old r ≡ true
      → since_move r.pond r.product_id (old ∷ earlier)
        ≡ old ∷ since_move old.pond old.product_id earlier
  unfolding since_move
  since_move-same old r earlier b =
      let p : old.pond ≡ r.pond = ground (arith, ==_iff old.pond r.pond) in
      let q : old.product_id ≡ r.product_id = ground (arith, ==_iff old.product_id r.product_id) in
      rw b (rw (p, q) refl)

  since_move-moved :
      (old r : Report V) (earlier : List (Report V))
      → same_place old r ≡ false
      → since_move r.pond r.product_id (old ∷ earlier) ≡ []
  unfolding since_move
  since_move-moved old r earlier b = rw b refl

  carried-same :
      (to_int : V → ℤ) (o : Option (Row V)) (old r : Report V)
      → same_place old r ≡ true
      → let row = shadow_upsert to_int o old in
        carried (some row) r ≡ ((row.last, row.timestamps), row.ts)
  unfolding carried shadow_upsert
  carried-same to_int o old r b = rw b refl

  carried-moved :
      (to_int : V → ℤ) (o : Option (Row V)) (old r : Report V)
      → same_place old r ≡ false
      → carried (some (shadow_upsert to_int o old)) r ≡ (([], []), r.ts)
  unfolding carried shadow_upsert
  carried-moved to_int o old r b = rw b refl

  abbrev IsStart : Text → List (Report V) → Maps V × Time → Type 0
  IsStart k reports start = IsShadow k reports start.0 start.1

  -- Nothing is carried on but from the reports since the move.
  carried-IsStart :
      (to_int : V → ℤ) (k : Text) (o : Option (Row V)) (old : Report V) (earlier : List (Report V))
      (r : Report V)
      → (let row = shadow_upsert to_int o old in
          IsShadow k
            (old ∷ since_move old.pond old.product_id earlier)
            (row.last, row.timestamps)
            row.ts)
      → IsStart k
          (since_move r.pond r.product_id (old ∷ earlier))
          (carried (some (shadow_upsert to_int o old)) r)
  carried-IsStart to_int k o old earlier r h = elim (Bool-cases (same_place old r)) [
    | inl b ↦
        subst (IsStart k (since_move r.pond r.product_id (old ∷ earlier)))
          (sym (carried-same to_int o old r b))
          (subst
            (λ seen. IsStart k seen (
              ((shadow_upsert to_int o old).last, (shadow_upsert to_int o old).timestamps),
              (shadow_upsert to_int o old).ts,
            ))
            (sym (since_move-same old r earlier b)) h)
    | inr b ↦
        subst (IsStart k (since_move r.pond r.product_id (old ∷ earlier)))
          (sym (carried-moved to_int o old r b))
          (subst (λ seen. IsStart k seen (([], []), r.ts)) (sym (since_move-moved old r earlier b))
            (unfold lookup in ((refl, tt), tt)))
  ]

  -- The shadow of a device shows, for every property, the value of a newest report since the device
  -- was moved or became another product, in whatever order the reports arrived, and no value of a
  -- property that none of them carries; its time is before none of theirs.
  pub shadow_of-IsShadow :
      (to_int : V → ℤ) (k : Text) (r : Report V) (earlier : List (Report V))
      → All (λ s. Keyed s.properties) (r ∷ earlier)
      → let row = shadow_upsert to_int (shadow_of to_int earlier) r in
        IsShadow k (r ∷ since_move r.pond r.product_id earlier) (row.last, row.timestamps) row.ts
  unfolding since_move shadow_of
  shadow_of-IsShadow to_int k r [] u =
      shadow_upsert-IsShadow to_int k none r [] u.0 (unfold carried lookup in ((refl, tt), tt))
  shadow_of-IsShadow to_int k r (old ∷ earlier) u =
      shadow_upsert-IsShadow to_int k (shadow_of to_int (old ∷ earlier)) r
        (since_move r.pond r.product_id (old ∷ earlier)) u.0
        (carried-IsStart to_int k (shadow_of to_int earlier) old earlier r
          (shadow_of-IsShadow to_int k old earlier u.1))
