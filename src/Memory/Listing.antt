-- ===== src/Memory/Listing.antt =====
-- The listing of shipments by internal/repository/memory/store.go.
use Prim.Native.Nat.{min}
use go_label.Base.{
  ℕ, ◌≤◌, ◌≡◌, refl, ap, String, true, false, List, arith, eq_iff, str_eq, length, length-take,
  take, take_all, All, All-map, keep_if-All,
}
use go_label.Base.Results.{ok}
use go_label.Base.Int64.{pos, pos_part}
use go_label.Base.Maps.{values}
use go_label.Base.Sorting.{
  IsSorted, sort_by, sort_by-All, sort_by-IsSorted, take-All, take-IsSorted, length-sort_by,
}
use go_label.Domain.Types.{Shipment, PageRequest, Page, normalized}
use go_label.Memory.State.{Store}
use go_label.Memory.Shipments.{list_shipments, shipments_of, created_before, cut}

normalized_limit :
    (req : PageRequest)
    → (1 ≤ pos_part (normalized req).limit) × (pos_part (normalized req).limit ≤ 200)
unfolding normalized
normalized_limit req = ground arith

cut-take {ℓ} : {A : Type ℓ} (n : ℕ) (xs : List A) → cut n xs ≡ take n xs
cut-take n xs = ground (arith, take_all n xs)

created_before_asymmetric :
    (x y : Shipment) → created_before x y ≡ true → created_before y x ≡ false
created_before_asymmetric x y h = ground arith

created_before_transitive :
    (x y z : Shipment)
    → created_before x y ≡ false
    → created_before y z ≡ false
    → created_before x z ≡ false
created_before_transitive x y z h k = ground arith

-- What a page of a listing is.
pub record IsListing (s : Store) (tenant : String) (req : PageRequest) (page : Page Shipment)
    : Type 0 where
  pub own : All (λ v. v.tenant_id ≡ tenant) page.items
  pub in_order : IsSorted created_before page.items
  pub counted : page.total ≡ pos (length (shipments_of tenant s))
  pub filled :
      length page.items ≡ min (pos_part (normalized req).limit) (length (shipments_of tenant s))
  pub bounded : length page.items ≤ 200

-- ListShipments of the memory store always succeeds. Its page holds only shipments of the tenant,
-- in the order of their creation, as many as there are up to the limit of the normalized request
-- and never more than 200, and the number of all shipments of the tenant.
list_shipments-IsListing :
    (s : Store) (tenant : String) (req : PageRequest)
    → (page : Page Shipment) × (list_shipments s tenant req ≡ ok page) × IsListing s tenant req page
unfolding list_shipments
list_shipments-IsListing s tenant req =
    let own = shipments_of tenant s in
    let all = sort_by created_before own in
    let limit = pos_part (normalized req).limit in
    let owned =
      All-map _ (λ v. v.tenant_id ≡ tenant) (λ v e. (eq_iff v.tenant_id tenant).0 e) own
        (keep_if-All (λ v. str_eq v.tenant_id tenant) (values s.shipments)) in
    (
      record { items = cut limit all; next_cursor = ""; total = pos (length all) },
      refl,
      rw (cut-take limit all) (record {
        own = take-All _ limit all (sort_by-All created_before _ own owned);
        in_order = take-IsSorted created_before limit all (
            sort_by-IsSorted created_before created_before_asymmetric created_before_transitive
              own);
        counted = ap pos (length-sort_by created_before own);
        filled = omega (arith, length-take limit all, length-sort_by created_before own);
        bounded = omega (arith, length-take limit all, normalized_limit req);
      }),
    )
