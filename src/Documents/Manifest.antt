-- ===== src/Documents/Manifest.antt =====
-- internal/manifest/manifest.go. The hash of a manifest, SHA-256 of its JSON, is a parameter.
use go_label.Base.{
  String, Bool, ◌||◌, Option, none, some, List, [], ◌∷◌, is_blank, any, if◌then◌else◌,
}
use go_label.Base.Results.{Result, ok, err, done, invalid, conflict}
use go_label.Base.Int64.{ℤ, pos, leb_ℤ, add64, mul64}
use go_label.Base.Instants.{Time}
use go_label.Base.Sorting.{sort_by}
use go_label.Base.Text.{text_before}

pub record Item : Type 0 where
  pub sku : String
  pub description : String
  pub quantity : ℤ
  pub weight_kg : ℤ
  pub hazardous : Bool

pub record Manifest : Type 0 where
  pub id : String
  pub shipment_id : String
  pub version : ℤ
  pub items : List Item
  pub sealed_at : Option Time
  pub hash : String

abbrev pub is_broken : Item → Bool
is_broken item = is_blank item.sku || (leb_ℤ item.quantity (pos 0) || leb_ℤ item.weight_kg (pos 0))

unfoldable pub validate : List Item → Result (Unit {0})
validate [] = err invalid
validate (item ∷ items) = if any is_broken (item ∷ items) then err invalid else done

abbrev pub sku_before : Item → Item → Bool
sku_before a b = text_before a.sku b.sku

-- `n += i.WeightKg * int64(i.Quantity)`.
unfoldable pub total_from : ℤ → List Item → ℤ
total_from n [] = n
total_from n (i ∷ items) = total_from (add64 n (mul64 i.weight_kg i.quantity)) items

unfoldable pub total_weight : Manifest → ℤ
unfolding total_from
total_weight m = total_from (pos 0) m.items

unfoldable pub hazardous_from : ℤ → List Item → ℤ
hazardous_from n [] = n
hazardous_from n (i ∷ items) = hazardous_from (if i.hazardous then add64 n i.quantity else n) items

unfoldable pub hazardous_count : Manifest → ℤ
unfolding hazardous_from
hazardous_count m = hazardous_from (pos 0) m.items

-- The parts of a manifest that `hash` covers.
module _ (digest : String → String → ℤ → List Item → String) where
  unfoldable pub hash_of : Manifest → String
  hash_of m = digest m.id m.shipment_id m.version m.items

  unfoldable pub build : String → String → List Item → Result Manifest
  unfolding validate hash_of
  build id shipment items = elim (validate items) [
    | err e ↦ err e
    | ok u ↦
        let m : Manifest = record {
          id = id;
          shipment_id = shipment;
          version = pos 1;
          items = sort_by sku_before items;
          sealed_at = none;
          hash = "";
        } in
        ok (record m { hash = hash_of m })
  ]

  unfoldable pub seal : Manifest → Time → Result Manifest
  unfolding hash_of
  seal m now = elim m.sealed_at [
    | some at ↦ err conflict
    | none ↦ ok (record m { sealed_at = some now; hash = hash_of m })
  ]
