-- ===== src/Shadow/Examples.antt =====
-- The shadow of a device whose second report is older than its first.
use iolink.Base.{
  none, arith, some, ℕ, ◌≡◌, refl, text, text_beq, Text, List, [], ◌∷◌, pos, lookup, insert,
}
use iolink.Media.{Time}
use iolink.Shadow.Upsert.{
  Report, Row, shadow_upsert, shadow_of, carried, merge_properties, is_fresh,
}
use iolink.Shadow.Newest.{since_move, IsShadow, shadow_of-IsShadow, Shown}
use iolink.Shadow.Order.{shadow_upsert_comm}

abbrev reported : Time → List (Text × ℕ) → Report ℕ
reported ts properties = record {
  ts = ts;
  properties = properties;
  pond = pos 1;
  tenant = pos 1;
  product_id = pos 1;
  model_version = pos 1;
}

abbrev newer : Report ℕ
newer = reported 50 ((text "ph", 7) ∷ [])

abbrev older : Report ℕ
older = reported 40 ((text "ph", 6) ∷ (text "salinity", 3) ∷ [])

abbrev row : Row ℕ
row = shadow_upsert pos (shadow_of pos (newer ∷ [])) older

row_maps :
    (row.last ≡ (text "ph", 7) ∷ (text "salinity", 3) ∷ [])
    × (row.timestamps ≡ (text "ph", 50) ∷ (text "salinity", 40) ∷ [])
    × (row.ts ≡ 50)
unfolding shadow_upsert shadow_of carried merge_properties is_fresh lookup insert text_beq
row_maps = (refl, refl, refl)

shadow_of-IsShadow_example :
    IsShadow
      (text "ph")
      (older ∷ since_move (pos 1) (pos 1) (newer ∷ []))
      (row.last, row.timestamps)
      row.ts
shadow_of-IsShadow_example =
    shadow_of-IsShadow pos (text "ph") older (newer ∷ [])
      (unfold lookup text_beq in ((refl, (refl, tt)), ((refl, tt), tt)))

shadow_upsert_comm_example :
    let one = shadow_upsert pos (some (shadow_upsert pos none newer)) older in
    let two = shadow_upsert pos (some (shadow_upsert pos none older)) newer in
    (Shown one (text "ph") ≡ Shown two (text "ph")) × (one.ts ≡ two.ts)
shadow_upsert_comm_example =
    shadow_upsert_comm pos (text "ph") none newer older (unfold lookup text_beq in (refl, tt))
      (unfold lookup text_beq in (refl, (refl, tt))) refl refl (λ e. absurd (omega (arith, e)))
