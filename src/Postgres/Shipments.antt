-- ===== src/Postgres/Shipments.antt =====
-- Shipments of internal/repository/postgres/shipment.go. `text_before` is the order of texts of the
-- database.
use go_label.Base.{
  String, Bool, true, not, ◌&&◌, ◌||◌, Option, none, some, List, take, length, keep_if, str_eq,
  nat_eq, if◌then◌else◌,
}
use go_label.Base.Results.{Result, ok, err, done, not_found, conflict}
use go_label.Base.Int64.{ℤ, pos, pos_part, eq_ℤ, leb_ℤ, ◌+ℤ◌}
use go_label.Base.Instants.{before}
use go_label.Base.Maps.{lookup, insert, has, values}
use go_label.Base.Sorting.{sort_by}
use go_label.Domain.Types.{Shipment, PageRequest, Page, normalized}
use go_label.Postgres.Tables.{
  Database, queried, executed, duplicate_key, check_violation, foreign_key_violation, out_of_range,
  first_row, has_row, has_tenant, fits_integer, fits_bigint,
}
use go_label.Postgres.Accounts.{unique_as_conflict}

-- The checks of a row of shipments, `UNIQUE(tenant_id,idempotency_key)` and the references.
abbrev pub breaks_checks : Shipment → Bool
breaks_checks v = leb_ℤ v.weight_kg (pos 0) || leb_ℤ v.pieces (pos 0)

abbrev pub has_key : String → String → Shipment → Bool
has_key tenant key w = str_eq w.tenant_id tenant && str_eq w.idempotency_key key

abbrev has_leg : Option String → Database → Bool
has_leg none d = true
has_leg (some id) d = has id d.legs

-- The columns of type timestamptz.
abbrev pub shipment_row : Database → Shipment → Shipment
shipment_row d v = record v {
  created_at = d.column_time v.created_at;
  updated_at = d.column_time v.updated_at;
}

-- `INSERT INTO shipments`: the idempotency key is a text, also when it is empty.
unfoldable pub insert_shipment : Database → Shipment → Database × Result (Unit {0})
insert_shipment d v =
    if not (fits_integer v.pieces)
    then (d, err out_of_range)
    else if breaks_checks v
    then (d, err check_violation)
    else if has v.id d.shipments || has_row (has_key v.tenant_id v.idempotency_key) d.shipments
    then (d, err duplicate_key)
    else if not (has_tenant v.tenant_id d && has_leg v.leg_id d)
    then (d, err foreign_key_violation)
    else (record d { shipments = insert v.id (shipment_row d v) d.shipments }, done)

unfoldable pub create_shipment : Database → Shipment → Database × Result (Unit {0})
unfolding insert_shipment
create_shipment d v = unique_as_conflict (executed d (insert_shipment d v))

-- `shipment` on the row that its query finds.
abbrev shipment_of : Option Shipment → Result Shipment
shipment_of none = err not_found
shipment_of (some v) = ok v

-- `SELECT ... WHERE tenant_id=$1 AND id=$2`.
abbrev pub select_shipment : Database → String → String → Option Shipment
select_shipment d tenant id = elim (lookup id d.shipments) [
  | none ↦ none
  | some v ↦ if str_eq v.tenant_id tenant then some v else none
]

unfoldable pub get_shipment : Database → String → String → Result Shipment
get_shipment d tenant id = queried d (shipment_of (select_shipment d tenant id))

-- The row that the update writes: the id, tenant, key and creation time of `old` stay.
abbrev rewritten : Shipment → Shipment → Shipment
rewritten old v = record old {
  reference = v.reference;
  origin = v.origin;
  destination = v.destination;
  weight_kg = v.weight_kg;
  pieces = v.pieces;
  status = v.status;
  leg_id = v.leg_id;
  updated_at = v.updated_at;
  version = old.version +ℤ pos 1;
}

unfoldable pub update_shipment : Database → Shipment → ℤ → Database × Result (Unit {0})
update_shipment d v version = executed d (
    if not (fits_integer v.pieces)
    then (d, err out_of_range)
    else elim (select_shipment d v.tenant_id v.id) [
      | none ↦ (d, err conflict)
      | some old ↦
          if not (eq_ℤ old.version version)
          then (d, err conflict)
          else if not (fits_bigint (old.version +ℤ pos 1))
          then (d, err out_of_range)
          else if breaks_checks v
          then (d, err check_violation)
          else if not (has_leg v.leg_id d)
          then (d, err foreign_key_violation)
          else (
            record d { shipments = insert v.id (rewritten old (shipment_row d v)) d.shipments },
            done,
          )
    ])

unfoldable pub find_by_idempotency : Database → String → String → Result Shipment
find_by_idempotency d tenant key =
    queried d (shipment_of (first_row (has_key tenant key) (values d.shipments)))

abbrev pub shipments_of : String → Database → List Shipment
shipments_of tenant d = keep_if (λ v. str_eq v.tenant_id tenant) (values d.shipments)

module _ (text_before : String → String → Bool) where
  -- `ORDER BY created_at,id`.
  abbrev pub created_before : Shipment → Shipment → Bool
  created_before a b =
      before a.created_at b.created_at
      || (nat_eq a.created_at b.created_at && text_before a.id b.id)

  unfoldable pub list_shipments : Database → String → PageRequest → Result (Page Shipment)
  list_shipments d tenant req =
      let all = sort_by created_before (shipments_of tenant d) in
      queried d (
        ok (record {
          items = take (pos_part (normalized req).limit) all;
          next_cursor = "";
          total = pos (length all);
        }))
