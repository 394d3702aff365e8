-- ===== src/Postgres/Legs.antt =====
-- Flight legs of internal/repository/postgres/shipment.go, and the booking of booking.go.
use go_label.Base.{String, Bool, not, ◌&&◌, ◌||◌, Option, none, some, str_eq, nat_eq, if◌then◌else◌}
use go_label.Base.Results.{Result, ok, err, done, not_found, conflict, state, invalid}
use go_label.Base.Int64.{ℤ, pos, eq_ℤ, leb_ℤ, ltb_ℤ, ◌+ℤ◌}
use go_label.Base.Instants.{Time}
use go_label.Base.Maps.{lookup, insert, has}
use go_label.Domain.Types.{Shipment, ShipmentStatus, FlightLeg, LegStatus}
use go_label.Domain.Rules.{shipment_can_transition, is_open, validate_capacity}
use go_label.Memory.Legs.{booked}
use go_label.Postgres.Tables.{
  Database, queried, executed, duplicate_key, check_violation, foreign_key_violation, out_of_range,
  has_row, has_tenant, fits_bigint,
}
use go_label.Postgres.Shipments.{select_shipment}

-- `UNIQUE(tenant_id,flight_number,departure_at)`.
abbrev is_same_flight : FlightLeg → FlightLeg → Bool
is_same_flight v w =
    str_eq w.tenant_id v.tenant_id
    && (str_eq w.flight_number v.flight_number && nat_eq w.departure_at v.departure_at)

-- `CHECK(capacity_kg>0)` and `CHECK(reserved_kg>=0)`.
abbrev breaks_checks : FlightLeg → Bool
breaks_checks v = leb_ℤ v.capacity_kg (pos 0) || ltb_ℤ v.reserved_kg (pos 0)

-- The columns of type timestamptz.
abbrev pub leg_row : Database → FlightLeg → FlightLeg
leg_row d v = record v {
  departure_at = d.column_time v.departure_at;
  arrival_at = d.column_time v.arrival_at;
  created_at = d.column_time v.created_at;
}

unfoldable pub create_leg : Database → FlightLeg → Database × Result (Unit {0})
create_leg d v = executed d (
    if breaks_checks v
    then (d, err check_violation)
    else if has v.id d.legs || has_row (is_same_flight (leg_row d v)) d.legs
    then (d, err duplicate_key)
    else if not (has_tenant v.tenant_id d)
    then (d, err foreign_key_violation)
    else (record d { legs = insert v.id (leg_row d v) d.legs }, done))

-- `SELECT ... WHERE tenant_id=$1 AND id=$2`.
abbrev pub select_leg : Database → String → String → Option FlightLeg
select_leg d tenant id = elim (lookup id d.legs) [
  | none ↦ none
  | some v ↦ if str_eq v.tenant_id tenant then some v else none
]

abbrev leg_of : Option FlightLeg → Result FlightLeg
leg_of none = err not_found
leg_of (some v) = ok v

unfoldable pub get_leg : Database → String → String → Result FlightLeg
get_leg d tenant id = queried d (leg_of (select_leg d tenant id))

-- `SET reserved_kg=reserved_kg+$4,version=version+1`.
abbrev pub reserved : FlightLeg → ℤ → FlightLeg
reserved v weight = record v { reserved_kg = v.reserved_kg +ℤ weight; version = v.version +ℤ pos 1 }

unfoldable pub reserve_capacity : Database → String → String → ℤ → ℤ → Database × Result (Unit {0})
reserve_capacity d tenant id weight version = executed d (elim (select_leg d tenant id) [
  | none ↦ (d, err conflict)
  | some v ↦
      if not (eq_ℤ v.version version)
      then (d, err conflict)
      else if not (fits_bigint (v.reserved_kg +ℤ weight))
      then (d, err out_of_range)
      else if not (leb_ℤ (v.reserved_kg +ℤ weight) v.capacity_kg)
      then (d, err conflict)
      else if not (fits_bigint (v.version +ℤ pos 1))
      then (d, err out_of_range)
      else if breaks_checks (reserved v weight)
      then (d, err check_violation)
      else (record d { legs = insert id (reserved v weight) d.legs }, done)
])

unfoldable pub update_leg_status :
    Database → String → String → LegStatus → ℤ → Database × Result (Unit {0})
update_leg_status d tenant id status version = executed d (elim (select_leg d tenant id) [
  | none ↦ (d, err conflict)
  | some v ↦
      if not (eq_ℤ v.version version)
      then (d, err conflict)
      else if not (fits_bigint (v.version +ℤ pos 1))
      then (d, err out_of_range)
      else (
        record d {
          legs = insert id (record v { status = status; version = v.version +ℤ pos 1 }) d.legs;
        },
        done,
      )
])

-- The row of the shipment that the second UPDATE of BookShipment writes.
abbrev pub booked_row : Shipment → String → Time → Shipment
booked_row v leg at = record v {
  status = ShipmentStatus.booked;
  leg_id = some leg;
  updated_at = at;
  version = v.version +ℤ pos 1;
}

-- The two UPDATEs of BookShipment and its commit.
unfoldable pub write_booking :
    Database → Shipment → FlightLeg → String → String → Time → Database × Result Shipment
write_booking d shipment leg shipment_id leg_id at =
    if not (fits_bigint (leg.reserved_kg +ℤ shipment.weight_kg))
      || (not (fits_bigint (leg.version +ℤ pos 1)) || not (fits_bigint (shipment.version +ℤ pos 1)))
    then (d, err out_of_range)
    else if breaks_checks (reserved leg shipment.weight_kg)
    then (d, err check_violation)
    else (
      record d {
        legs = insert leg_id (reserved leg shipment.weight_kg) d.legs;
        shipments = insert shipment_id (booked_row shipment leg_id (d.column_time at)) d.shipments;
      },
      ok (booked shipment leg_id at),
    )

-- BookShipment once both rows are locked and read.
unfoldable pub book_rows :
    Database → Shipment → FlightLeg → String → String → ℤ → ℤ → Time → Database × Result Shipment
unfolding write_booking
book_rows d shipment leg shipment_id leg_id shipment_version leg_version at =
    if not (eq_ℤ shipment.version shipment_version) || not (eq_ℤ leg.version leg_version)
    then (d, err conflict)
    else if not (shipment_can_transition shipment.status ShipmentStatus.booked)
        || not (is_open leg.status)
    then (d, err state)
    else if not (str_eq shipment.origin leg.origin)
        || not (str_eq shipment.destination leg.destination)
    then (d, err invalid)
    else elim (validate_capacity leg shipment.weight_kg) [
      | err e ↦ (d, err e)
      | ok _ ↦ write_booking d shipment leg shipment_id leg_id at
    ]

unfoldable pub book_shipment :
    Database → String → String → String → ℤ → ℤ → Time → Database × Result Shipment
book_shipment d tenant shipment_id leg_id shipment_version leg_version at =
    executed d (elim (select_shipment d tenant shipment_id) [
      | none ↦ (d, err not_found)
      | some shipment ↦ elim (select_leg d tenant leg_id) [
        | none ↦ (d, err not_found)
        | some leg ↦ book_rows d shipment leg shipment_id leg_id shipment_version leg_version at
      ]
    ])
