-- ===== src/Domain/Examples.antt =====
-- The rules of internal/domain at concrete values.
use go_label.Base.{◌^◌, ◌-◌, ◌≡◌, arith}
use go_label.Base.Results.{done}
use go_label.Base.Int64.{pos, ◌+ℤ◌}
use go_label.Domain.Types.{LegStatus, FlightLeg}
use go_label.Domain.Rules.{validate_capacity}
use go_label.Domain.Validation.{validate_capacity_overflow}

abbrev leg : FlightLeg
leg = record {
  id = "leg-1";
  tenant_id = "tenant-demo";
  flight_number = "AB100";
  origin = "PVG";
  destination = "FRA";
  departure_at = 100;
  arrival_at = 200;
  capacity_kg = pos 1000;
  reserved_kg = pos 400;
  status = LegStatus.open_leg;
  version = pos 1;
  created_at = 0;
}

-- A weight near the greatest int64 passes the check of a leg with 600 kg left.
validate_capacity_overflow_example : validate_capacity leg (pos (2 ^ 63 - 1)) ≡ done
unfolding ◌+ℤ◌
validate_capacity_overflow_example =
    validate_capacity_overflow leg (pos (2 ^ 63 - 1)) (omega arith) (omega arith) (omega arith)
      (omega arith) (omega arith) (omega arith)
