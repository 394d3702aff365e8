-- ===== src/Documents/Examples.antt =====
-- A manifest of two items.
use go_label.Base.{◌≡◌, refl, String, true, false, List, [], ◌∷◌, arith}
use go_label.Base.Results.{ok}
use go_label.Base.Int64.{ℤ, pos}
use go_label.Documents.Manifest.{Item, Manifest, validate, build}
use go_label.Documents.Weights.{IsBuilt, build-IsBuilt}

abbrev digest : String → String → ℤ → List Item → String
digest id shipment version items = id

abbrev batteries : Item
batteries = record {
  sku = "B-2";
  description = "batteries";
  quantity = pos 4;
  weight_kg = pos 25;
  hazardous = true;
}

abbrev items : List Item
items =
    batteries ∷ record batteries { sku = "A-1"; description = "manuals"; hazardous = false } ∷ []

build-IsBuilt_example :
    (m : Manifest) × (build digest "m-1" "s-1" items ≡ ok m) × IsBuilt digest "m-1" "s-1" items m
unfolding validate
build-IsBuilt_example = build-IsBuilt digest "m-1" "s-1" items refl (omega arith)
