-- ===== src/Memory/Legs.antt =====
-- Flight legs and the booking of a shipment of internal/repository/memory/store.go.
use go_label.Base.{String, not, ◌||◌, none, some, str_eq, if◌then◌else◌}
use go_label.Base.Results.{Result, ok, err, done, not_found, conflict, state, invalid}
use go_label.Base.Int64.{ℤ, pos, eq_ℤ, add64}
use go_label.Base.Instants.{Time}
use go_label.Base.Maps.{lookup, insert, has}
use go_label.Domain.Types.{Shipment, ShipmentStatus, FlightLeg, LegStatus}
use go_label.Domain.Rules.{shipment_can_transition, leg_can_transition, is_open, validate_capacity}
use go_label.Memory.State.{Store}

unfoldable pub create_leg : Store → FlightLeg → Store × Result (Unit {0})
create_leg s v =
    if has v.id s.legs then (s, err conflict) else (record s { legs = insert v.id v s.legs }, done)

unfoldable pub get_leg : Store → String → String → Result FlightLeg
get_leg s tenant id = elim (lookup id s.legs) [
  | none ↦ err not_found
  | some v ↦ if not (str_eq v.tenant_id tenant) then err not_found else ok v
]

-- `v.ReservedKg += weight; v.Version++`.
unfoldable pub reserved : FlightLeg → ℤ → FlightLeg
reserved v weight = record v {
  reserved_kg = add64 v.reserved_kg weight;
  version = add64 v.version (pos 1);
}

unfoldable pub reserve_capacity : Store → String → String → ℤ → ℤ → Store × Result (Unit {0})
reserve_capacity s tenant id weight version = elim (get_leg s tenant id) [
  | err e ↦ (s, err e)
  | ok v ↦
      if not (eq_ℤ v.version version)
      then (s, err conflict)
      else elim (validate_capacity v weight) [
        | err e ↦ (s, err e)
        | ok _ ↦ (record s { legs = insert id (reserved v weight) s.legs }, done)
      ]
]

unfoldable pub update_leg_status :
    Store → String → String → LegStatus → ℤ → Store × Result (Unit {0})
update_leg_status s tenant id status version = elim (get_leg s tenant id) [
  | err e ↦ (s, err e)
  | ok v ↦
      if not (eq_ℤ v.version version)
      then (s, err conflict)
      else if not (leg_can_transition v.status status)
      then (s, err state)
      else (
        record s {
          legs = insert id (record v { status = status; version = add64 v.version (pos 1) }) s.legs;
        },
        done,
      )
]

-- The fields that a booking sets.
unfoldable pub booked : Shipment → String → Time → Shipment
booked v leg at = record v {
  status = ShipmentStatus.booked;
  leg_id = some leg;
  updated_at = at;
  version = add64 v.version (pos 1);
}

-- BookShipment once both rows are read.
unfoldable pub book_on_leg :
    Store → Shipment → FlightLeg → String → String → ℤ → ℤ → Time → Store × Result Shipment
book_on_leg s shipment leg shipment_id leg_id shipment_version leg_version at =
    if not (eq_ℤ shipment.version shipment_version) || not (eq_ℤ leg.version leg_version)
    then (s, err conflict)
    else if not (shipment_can_transition shipment.status ShipmentStatus.booked)
        || not (is_open leg.status)
    then (s, err state)
    else if not (str_eq shipment.origin leg.origin)
        || not (str_eq shipment.destination leg.destination)
    then (s, err invalid)
    else elim (validate_capacity leg shipment.weight_kg) [
      | err e ↦ (s, err e)
      | ok _ ↦ (
        record s {
          legs = insert leg_id (reserved leg shipment.weight_kg) s.legs;
          shipments = insert shipment_id (booked shipment leg_id at) s.shipments;
        },
        ok (booked shipment leg_id at),
      )
    ]

unfoldable pub book_shipment :
    Store → String → String → String → ℤ → ℤ → Time → Store × Result Shipment
book_shipment s tenant shipment_id leg_id shipment_version leg_version at =
    elim (lookup shipment_id s.shipments) [
      | none ↦ (s, err not_found)
      | some shipment ↦
          if not (str_eq shipment.tenant_id tenant)
          then (s, err not_found)
          else elim (get_leg s tenant leg_id) [
            | err e ↦ (s, err e)
            | ok leg ↦ book_on_leg s shipment leg shipment_id leg_id shipment_version leg_version at
          ]
    ]
