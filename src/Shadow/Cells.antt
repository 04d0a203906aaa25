-- ===== src/Shadow/Cells.antt =====
-- internal/core/pipeline.go: what the shadow holds of one property.
use iolink.Base.{
  ◌≡◌, refl, sym, subst, inl, inr, ==_iff, text_eq, true, false, if◌then◌else◌, Bool-cases, Text,
  List, [], ◌∷◌, Option, none, some, lookup, insert, lookup-insert, Keyed, arith,
}
use iolink.Media.{Time}
use iolink.Shadow.Upsert.{Maps, is_fresh, merge_properties}

-- One property: the time of its value, and the value.
abbrev pub Cell : Type 0 → Type 0
Cell V = Option Time × Option V

module _ {V : Type 0} where
  abbrev pub cell : Text → Maps V → Cell V
  cell k maps = (lookup k maps.1, lookup k maps.0)

  abbrev pub update : Time → Option V → Cell V → Cell V
  update ts none c = c
  update ts (some v) c = if is_fresh ts c.0 then (some ts, some v) else c

  pub update-none : (ts : Time) (o : Option V) (c : Cell V) → o ≡ none → update ts o c ≡ c
  update-none ts o c e = subst (λ x. update ts x c ≡ c) (sym e) refl

  pub update-fresh :
      (ts : Time) (o : Option V) (v : V) (c : Cell V)
      → o ≡ some v
      → is_fresh ts c.0 ≡ true
      → update ts o c ≡ (some ts, some v)
  update-fresh ts o v c e b = subst (λ x. update ts x c ≡ (some ts, some v)) (sym e) (rw b refl)

  pub update-stale :
      (ts : Time) (o : Option V) (v : V) (c : Cell V)
      → o ≡ some v
      → is_fresh ts c.0 ≡ false
      → update ts o c ≡ c
  update-stale ts o v c e b = subst (λ x. update ts x c ≡ c) (sym e) (rw b refl)

  -- The loop over the properties of a report updates each of them for itself.
  pub merge_properties-cell :
      (k : Text) (ts : Time) (properties : List (Text × V)) (maps : Maps V)
      → Keyed properties
      → cell k (merge_properties ts properties maps) ≡ update ts (lookup k properties) (cell k maps)
  unfolding merge_properties lookup
  merge_properties-cell k ts [] maps u = refl
  merge_properties-cell k ts ((j, v) ∷ rest) maps u =
      elim (Bool-cases (is_fresh ts (lookup j maps.1))) [
        | inl b ↦ ground (
          arith,
          b,
          u.0,
          merge_properties-cell k ts rest (insert j v maps.0, insert j ts maps.1) u.1,
          lookup-insert j k ts maps.1,
          lookup-insert j k v maps.0,
          ==_iff j k,
        )
        | inr b ↦ ground (arith, b, u.0, merge_properties-cell k ts rest maps u.1, ==_iff j k)
      ]
