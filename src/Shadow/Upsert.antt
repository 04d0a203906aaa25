-- ===== src/Shadow/Upsert.antt =====
-- internal/core/pipeline.go: `shadowUpsert`, on the row of `device_shadows` that the query answers.
-- The JSON columns are the maps that they encode; what a value is is a parameter, since values are
-- only stored.
use iolink.Base.{
  ◌==◌, int_eq, text_eq, Bool, true, false, ◌&&◌, not, if◌then◌else◌, Text, text, List, [], ◌∷◌,
  Option, none, some, lookup, insert, ℤ,
}
use iolink.Media.{Time, before, after}

-- What `shadowUpsert` reads of an event, with the place of its device.
pub record Report (V : Type 0) : Type 0 where
  pub ts : Time
  pub properties : List (Text × V)
  pub pond : ℤ
  pub tenant : ℤ
  pub product_id : ℤ
  pub model_version : ℤ

pub record Row (V : Type 0) : Type 0 where
  pub last : List (Text × V)
  pub signal : Option ℤ
  pub ts : Time
  pub pond_id : Option ℤ
  pub tenant_id : ℤ
  pub timestamps : List (Text × Time)
  pub model_version : ℤ
  pub product_id : Option ℤ

-- `values` and `stamps`.
abbrev pub Maps : Type 0 → Type 0
Maps V = List (Text × V) × List (Text × Time)

-- A value is taken unless a later one is known.
unfoldable pub is_fresh : Time → Option Time → Bool
is_fresh ts none = true
is_fresh ts (some previous) = not (before ts previous)

abbrev pub is_id : Option ℤ → ℤ → Bool
is_id none id = false
is_id (some old) id = old == id

abbrev pub latest : Time → Time → Time
latest ts known = if after ts known then ts else known

module _ {V : Type 0} where
  -- The loop over the properties.
  unfoldable pub merge_properties : Time → List (Text × V) → Maps V → Maps V
  unfolding is_fresh
  merge_properties ts [] (values, stamps) = (values, stamps)
  merge_properties ts ((k, v) ∷ rest) (values, stamps) =
      let taken = merge_properties ts rest (insert k v values, insert k ts stamps) in
      let kept = merge_properties ts rest (values, stamps) in
      if is_fresh ts (lookup k stamps) then taken else kept

  -- A row of the same pond and product is carried on, and its time with it; otherwise the shadow
  -- starts anew.
  unfoldable pub carried : Option (Row V) → Report V → Maps V × Time
  carried none r = (([], []), r.ts)
  carried (some row) r =
      if is_id row.pond_id r.pond && is_id row.product_id r.product_id
      then ((row.last, row.timestamps), row.ts)
      else (([], []), r.ts)

  abbrev signal_of : (V → ℤ) → Option V → Option ℤ
  signal_of to_int none = none
  signal_of to_int (some v) = some (to_int v)

  -- The row that is written; `to_int` is the conversion of a value to an int.
  unfoldable pub shadow_upsert : (V → ℤ) → Option (Row V) → Report V → Row V
  unfolding carried merge_properties
  shadow_upsert to_int old r =
      let maps = merge_properties r.ts r.properties (carried old r).0 in
      record {
        last = maps.0;
        signal = signal_of to_int (lookup (text "signal") maps.0);
        ts = latest r.ts (carried old r).1;
        pond_id = some r.pond;
        tenant_id = r.tenant;
        timestamps = maps.1;
        model_version = r.model_version;
        product_id = some r.product_id;
      }

  -- The row after the reports of a device, the latest to arrive first.
  unfoldable pub shadow_of : (V → ℤ) → List (Report V) → Option (Row V)
  unfolding shadow_upsert
  shadow_of to_int [] = none
  shadow_of to_int (r ∷ earlier) = some (shadow_upsert to_int (shadow_of to_int earlier) r)
