-- ===== src/Memory/Booking.antt =====
-- When internal/repository/memory/store.go books a shipment on a leg, and what that changes.
use go_label.Base.{◌≡◌, ◌↔◌, String, some, arith, eq_iff}
use go_label.Base.Results.{ok, done}
use go_label.Base.Int64.{ℤ, pos, ◌+ℤ◌, wrap64, eq_ℤ_iff}
use go_label.Base.Instants.{Time}
use go_label.Base.Maps.{lookup, insert}
use go_label.Domain.Types.{Shipment, ShipmentStatus, FlightLeg, LegStatus}
use go_label.Domain.Rules.{shipment_can_transition, is_open, validate_capacity}
use go_label.Memory.State.{Store}
use go_label.Memory.Legs.{get_leg, book_shipment, book_on_leg, booked, reserved}

-- What the stored shipment and leg must be for a booking.
pub record IsBookable (tenant : String) (v : Shipment) (l : FlightLeg) (version leg_version : ℤ)
    : Type 0 where
  pub shipment_tenant : v.tenant_id ≡ tenant
  pub leg_tenant : l.tenant_id ≡ tenant
  pub shipment_fresh : v.version ≡ version
  pub leg_fresh : l.version ≡ leg_version
  pub is_draft : v.status ≡ ShipmentStatus.draft
  pub leg_open : l.status ≡ LegStatus.open_leg
  pub same_origin : v.origin ≡ l.origin
  pub same_destination : v.destination ≡ l.destination
  pub room : validate_capacity l v.weight_kg ≡ done

-- For a stored shipment and leg, BookShipment of the memory store adds the shipment's weight to
-- the reserved weight of the leg, sets the status of the shipment to booked, its leg to this one
-- and its time of change to that of the booking, advances both versions by one, with the wrap of
-- int64, changes nothing else and returns the shipment, exactly when both belong to the tenant and
-- have the expected versions, the shipment is a draft, the leg is open, both have one route, and
-- the capacity check passes.
pub book_shipment_iff :
    (s : Store) (tenant id leg_id : String) (version leg_version : ℤ) (at : Time) (v : Shipment)
    (l : FlightLeg)
    → lookup id s.shipments ≡ some v
    → lookup leg_id s.legs ≡ some l
    → let w = record v {
      status = ShipmentStatus.booked;
      leg_id = some leg_id;
      updated_at = at;
      version = wrap64 (v.version +ℤ pos 1);
    } in
      let m = record l {
        reserved_kg = wrap64 (l.reserved_kg +ℤ v.weight_kg);
        version = wrap64 (l.version +ℤ pos 1);
      } in
      (book_shipment s tenant id leg_id version leg_version at
        ≡ (record s { legs = insert leg_id m s.legs; shipments = insert id w s.shipments }, ok w))
      ↔ IsBookable tenant v l version leg_version
unfolding book_shipment book_on_leg get_leg shipment_can_transition is_open booked reserved
book_shipment_iff s tenant id leg_id version leg_version at v l stored found = ground (
  arith,
  eq_iff v.tenant_id tenant,
  eq_iff l.tenant_id tenant,
  eq_iff v.origin l.origin,
  eq_iff v.destination l.destination,
  eq_ℤ_iff v.version version,
  eq_ℤ_iff l.version leg_version,
)
