-- ===== src/Documents/Weights.antt =====
-- Weight and order of the manifests of internal/manifest/manifest.go.
use mathlib.Core.List.{Perm}
use go_label.Base.{
  ℕ, ◌+◌, ◌*◌, ◌^◌, ◌<◌, ◌≡◌, refl, ap, ◌∙◌, String, true, false, none, some, List, [], ◌∷◌, arith,
  any,
}
use go_label.Base.Results.{ok, err, done, conflict}
use go_label.Base.Int64.{
  ℤ, pos, pos_part, leb_ℤ, add64, mul64, wrap64, wrap64_fits, ◌+ℤ◌, ◌*ℤ◌, negsuc, +ℤ_parts,
}
use go_label.Base.Instants.{Time}
use go_label.Base.Sorting.{IsSorted, sort_by, insert_by, sort_by-IsSorted, sort_by-perm}
use go_label.Base.Text.{text_before_asymmetric, text_before_transitive}
use go_label.Documents.Manifest.{
  Item, Manifest, is_broken, validate, sku_before, total_from, total_weight, hash_of, build, seal,
}

-- The exact weight.
abbrev pub weight_of : List Item → ℕ
weight_of [] = 0
weight_of (i ∷ items) = pos_part i.weight_kg * pos_part i.quantity + weight_of items

weight_of-insert_by :
    (i : Item) (items : List Item)
    → weight_of (insert_by sku_before i items) ≡ weight_of (i ∷ items)
unfolding insert_by
weight_of-insert_by i [] = refl
weight_of-insert_by i (j ∷ items) = ground (arith, weight_of-insert_by i items)

weight_of-sort_by : (items : List Item) → weight_of (sort_by sku_before items) ≡ weight_of items
unfolding sort_by
weight_of-sort_by [] = refl
weight_of-sort_by (i ∷ items) =
    omega (arith, weight_of-insert_by i (sort_by sku_before items), weight_of-sort_by items)

product_of :
    (a b : ℤ)
    → leb_ℤ a (pos 0) ≡ false
    → leb_ℤ b (pos 0) ≡ false
    → a *ℤ b ≡ pos (pos_part a * pos_part b)
unfolding ◌*ℤ◌
product_of (pos a) (pos b) h k = ground arith
product_of (pos a) (negsuc b) h k = absurd (ground arith)
product_of (negsuc a) b h k = absurd (ground arith)

mul64_exact :
    (a b : ℤ)
    → leb_ℤ a (pos 0) ≡ false
    → leb_ℤ b (pos 0) ≡ false
    → pos_part a * pos_part b < 2 ^ 63
    → mul64 a b ≡ pos (pos_part a * pos_part b)
mul64_exact a b h k small =
    ap wrap64 (product_of a b h k) ∙ wrap64_fits (pos (pos_part a * pos_part b)) (omega arith)

add64_exact : (n p : ℕ) → n + p < 2 ^ 63 → add64 (pos n) (pos p) ≡ pos (n + p)
add64_exact n p small = ap wrap64 sum ∙ wrap64_fits (pos (n + p)) (omega arith)
  where
    sum : pos n +ℤ pos p ≡ pos (n + p)
    sum = ground (arith, +ℤ_parts (pos n) (pos p))

total_from_exact :
    (n : ℕ) (items : List Item)
    → any is_broken items ≡ false
    → n + weight_of items < 2 ^ 63
    → total_from (pos n) items ≡ pos (n + weight_of items)
unfolding total_from
total_from_exact n [] whole small = ap pos (omega arith)
total_from_exact n (i ∷ items) whole small =
    let weight = pos_part i.weight_kg * pos_part i.quantity in
    let product = mul64_exact i.weight_kg i.quantity (ground arith) (ground arith) (omega arith) in
    let first = ap (add64 (pos n)) product ∙ add64_exact n weight (omega arith) in
    ap (λ m. total_from m items) first
    ∙ total_from_exact (n + weight) items (ground arith) (omega arith)
    ∙ ap pos (omega arith)

sku_before_asymmetric : (x y : Item) → sku_before x y ≡ true → sku_before y x ≡ false
sku_before_asymmetric x y h = text_before_asymmetric x.sku y.sku h

sku_before_transitive :
    (x y z : Item) → sku_before x y ≡ false → sku_before y z ≡ false → sku_before x z ≡ false
sku_before_transitive x y z h k = text_before_transitive x.sku y.sku z.sku h k

any-insert_by :
    (i : Item) (items : List Item)
    → any is_broken (insert_by sku_before i items) ≡ any is_broken (i ∷ items)
unfolding insert_by
any-insert_by i [] = refl
any-insert_by i (j ∷ items) = ground (arith, any-insert_by i items)

any-sort_by : (items : List Item) → any is_broken (sort_by sku_before items) ≡ any is_broken items
unfolding sort_by
any-sort_by [] = refl
any-sort_by (i ∷ items) =
    ground (arith, any-insert_by i (sort_by sku_before items), any-sort_by items)

-- A manifest as it is built of some items.
pub record IsBuilt (digest : String → String → ℤ → List Item → String) (id shipment : String)
    (items : List Item) (m : Manifest) : Type 0 where
  pub in_order : IsSorted sku_before m.items
  pub same_items : Perm m.items items
  pub weight : total_weight m ≡ pos (weight_of items)
  pub hashed : m.hash ≡ digest id shipment (pos 1) m.items
  pub sealed_later : (now : Time) → seal digest m now ≡ ok (record m { sealed_at = some now })
  pub sealed_once :
      (now later : Time) → seal digest (record m { sealed_at = some now }) later ≡ err conflict

-- From items that pass the validation and weigh less than 2^63 kg in all, Build makes a manifest
-- with those items in the order of their SKUs, whose TotalWeight is their exact weight and whose
-- hash is that of its parts; it can be sealed at any time, which changes the time of sealing only,
-- and once it is sealed, sealing it is refused as a conflict.
pub build-IsBuilt :
    (digest : String → String → ℤ → List Item → String) (id shipment : String) (items : List Item)
    → validate items ≡ done
    → weight_of items < 2 ^ 63
    → (m : Manifest) × (build digest id shipment items ≡ ok m) × IsBuilt digest id shipment items m
unfolding build seal hash_of total_weight validate
build-IsBuilt digest id shipment items valid small =
    let sorted = sort_by sku_before items in
    (
      record {
        id = id;
        shipment_id = shipment;
        version = pos 1;
        items = sorted;
        sealed_at = none;
        hash = digest id shipment (pos 1) sorted;
      },
      ground arith,
      record {
        in_order = sort_by-IsSorted sku_before sku_before_asymmetric sku_before_transitive items;
        same_items = sort_by-perm sku_before items;
        weight =
            total_from_exact 0 sorted (any-sort_by items ∙ whole items valid)
              (omega (arith, weight_of-sort_by items))
            ∙ ap pos (omega (arith, weight_of-sort_by items));
        hashed = refl;
        sealed_later = λ now. refl;
        sealed_once = λ now later. refl;
      },
    )
  where
    whole : (items : List Item) → validate items ≡ done → any is_broken items ≡ false
    whole [] h = refl
    whole (i ∷ items) h = ground arith
