-- ===== src/Memory/Shipments.antt =====
-- Shipments of internal/repository/memory/store.go.
use Prim.Native.String.{◌++◌}
use go_label.Base.{
  ℕ, String, Bool, not, Option, none, some, List, str_eq, is_blank, length, take, keep_if, ltb,
  if◌then◌else◌,
}
use go_label.Base.Results.{Result, ok, err, done, not_found, conflict}
use go_label.Base.Int64.{ℤ, pos, pos_part, eq_ℤ, add64}
use go_label.Base.Instants.{before}
use go_label.Base.Sorting.{sort_by}
use go_label.Base.Maps.{lookup, insert, has, values}
use go_label.Domain.Types.{Shipment, PageRequest, Page, normalized}
use go_label.Memory.State.{Store, zero_shipment}

-- `v.TenantID + "|" + v.IdempotencyKey`.
abbrev pub idem_key : String → String → String
idem_key tenant key = tenant ++ "|" ++ key

-- The part of CreateShipment below the idempotency check.
unfoldable pub store_new_shipment : Store → Shipment → Store × Result (Unit {0})
store_new_shipment s v = if has v.id s.shipments then (s, err conflict) else (
  record s {
    shipments = insert v.id v s.shipments;
    idem =
        if is_blank v.idempotency_key
        then s.idem
        else insert (idem_key v.tenant_id v.idempotency_key) v.id s.idem;
  },
  done,
)

unfoldable pub create_shipment : Store → Shipment → Store × Result (Unit {0})
unfolding store_new_shipment
create_shipment s v =
    if is_blank v.idempotency_key
    then store_new_shipment s v
    else elim (lookup (idem_key v.tenant_id v.idempotency_key) s.idem) [
      | none ↦ store_new_shipment s v
      | some old ↦ if str_eq old v.id then (s, done) else (s, err conflict)
    ]

unfoldable pub get_shipment : Store → String → String → Result Shipment
get_shipment s tenant id = elim (lookup id s.shipments) [
  | none ↦ err not_found
  | some v ↦ if not (str_eq v.tenant_id tenant) then err not_found else ok v
]

unfoldable pub update_shipment : Store → Shipment → ℤ → Store × Result (Unit {0})
update_shipment s v version = elim (lookup v.id s.shipments) [
  | none ↦ (s, err not_found)
  | some old ↦ if not (eq_ℤ old.version version) then (s, err conflict) else (
    record s { shipments = insert v.id (record v { version = add64 version (pos 1) }) s.shipments },
    done,
  )
]

abbrev pub shipments_of : String → Store → List Shipment
shipments_of tenant s = keep_if (λ v. str_eq v.tenant_id tenant) (values s.shipments)

abbrev pub created_before : Shipment → Shipment → Bool
created_before a b = before a.created_at b.created_at

-- `if len(all) > limit { all = all[:limit] }`.
abbrev pub cut {ℓ} : {A : Type ℓ} → ℕ → List A → List A
cut limit all = if ltb limit (length all) then take limit all else all

unfoldable pub list_shipments : Store → String → PageRequest → Result (Page Shipment)
list_shipments s tenant req =
    let all = sort_by created_before (shipments_of tenant s) in
    ok (record {
      items = cut (pos_part (normalized req).limit) all;
      next_cursor = "";
      total = pos (length all);
    })

abbrev or_zero : Option Shipment → Shipment
or_zero none = zero_shipment
or_zero (some v) = v

unfoldable pub find_by_idempotency : Store → String → String → Result Shipment
find_by_idempotency s tenant key = elim (lookup (idem_key tenant key) s.idem) [
  | none ↦ err not_found
  | some id ↦ ok (or_zero (lookup id s.shipments))
]
