-- ===== src/Domain/Rules.antt =====
-- internal/domain/rules.go: the transition tables and the validation rules. A table lookup at a
-- missing key gives false, which is the last clause of each table.
use go_label.Base.{Bool, true, false, not, ◌||◌, none, some, str_eq, is_blank, if◌then◌else◌}
use go_label.Base.Results.{Result, err, done, invalid, capacity, revoked, expired}
use go_label.Base.Int64.{ℤ, pos, ltb_ℤ, leb_ℤ, add64}
use go_label.Base.Instants.{Time, before, after}
use go_label.Domain.Types.{
  ShipmentStatus, LegStatus, CustomsStatus, SecurityStatus, Shipment, FlightLeg, CustomsCase,
  SecurityCheck, Session,
}

unfoldable pub shipment_can_transition : ShipmentStatus → ShipmentStatus → Bool
shipment_can_transition ShipmentStatus.draft ShipmentStatus.booked = true
shipment_can_transition ShipmentStatus.draft ShipmentStatus.cancelled = true
shipment_can_transition ShipmentStatus.booked ShipmentStatus.screening = true
shipment_can_transition ShipmentStatus.booked ShipmentStatus.cancelled = true
shipment_can_transition ShipmentStatus.screening ShipmentStatus.cleared = true
shipment_can_transition ShipmentStatus.screening ShipmentStatus.cancelled = true
shipment_can_transition ShipmentStatus.cleared ShipmentStatus.loaded = true
shipment_can_transition ShipmentStatus.cleared ShipmentStatus.cancelled = true
shipment_can_transition ShipmentStatus.loaded ShipmentStatus.departed = true
shipment_can_transition _ _ = false

unfoldable pub leg_can_transition : LegStatus → LegStatus → Bool
leg_can_transition LegStatus.planned LegStatus.open_leg = true
leg_can_transition LegStatus.open_leg LegStatus.boarding = true
leg_can_transition LegStatus.open_leg LegStatus.closed = true
leg_can_transition LegStatus.boarding LegStatus.departed = true
leg_can_transition LegStatus.boarding LegStatus.closed = true
leg_can_transition LegStatus.departed LegStatus.closed = true
leg_can_transition _ _ = false

unfoldable pub customs_can_transition : CustomsStatus → CustomsStatus → Bool
customs_can_transition CustomsStatus.pending CustomsStatus.review = true
customs_can_transition CustomsStatus.pending CustomsStatus.held = true
customs_can_transition CustomsStatus.review CustomsStatus.released = true
customs_can_transition CustomsStatus.review CustomsStatus.held = true
customs_can_transition CustomsStatus.held CustomsStatus.review = true
customs_can_transition _ _ = false

unfoldable pub security_can_transition : SecurityStatus → SecurityStatus → Bool
security_can_transition SecurityStatus.pending SecurityStatus.passed = true
security_can_transition SecurityStatus.pending SecurityStatus.failed = true
security_can_transition SecurityStatus.failed SecurityStatus.pending = true
security_can_transition _ _ = false

-- `leg.Status == domain.LegOpen`.
unfoldable pub is_open : LegStatus → Bool
is_open LegStatus.open_leg = true
is_open _ = false

unfoldable pub validate_shipment : Shipment → Result (Unit {0})
validate_shipment s =
    if is_blank s.tenant_id
      || (is_blank s.reference
          || (is_blank s.origin
              || (is_blank s.destination || (leb_ℤ s.weight_kg (pos 0) || leb_ℤ s.pieces (pos 0)))))
    then err invalid
    else if str_eq s.origin s.destination
    then err invalid
    else done

unfoldable pub validate_leg : FlightLeg → Time → Result (Unit {0})
validate_leg l now =
    if is_blank l.tenant_id
      || (is_blank l.flight_number
          || (is_blank l.origin
              || (is_blank l.destination
                  || (leb_ℤ l.capacity_kg (pos 0)
                      || (not (after l.departure_at now)
                          || not (after l.arrival_at l.departure_at))))))
    then err invalid
    else done

unfoldable pub validate_capacity : FlightLeg → ℤ → Result (Unit {0})
validate_capacity l weight =
    if leb_ℤ weight (pos 0)
      || (ltb_ℤ l.reserved_kg (pos 0) || ltb_ℤ l.capacity_kg (add64 l.reserved_kg weight))
    then err capacity
    else done

unfoldable pub customs_allows_loading : CustomsCase → Bool
customs_allows_loading c = elim c.status [ CustomsStatus.released ↦ true | _ ↦ false ]

unfoldable pub security_allows_loading : SecurityCheck → Bool
security_allows_loading s = elim s.status [ SecurityStatus.passed ↦ true | _ ↦ false ]

unfoldable pub is_session_active : Session → Time → Result (Unit {0})
is_session_active s now = elim s.revoked_at [
  | some at ↦ err revoked
  | none ↦ if not (before now s.expires_at) then err expired else done
]
