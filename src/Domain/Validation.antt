-- ===== src/Domain/Validation.antt =====
-- What the validation rules of internal/domain/rules.go accept and refuse.
use go_label.Base.{◌^◌, ◌≡◌, arith}
use go_label.Base.Results.{done}
use go_label.Base.Int64.{ℤ, pos, ◌+ℤ◌, ◌≤ℤ◌, ◌<ℤ◌, IsInt64, wrap64_overflow, +ℤ_parts}
use go_label.Domain.Types.{FlightLeg}
use go_label.Domain.Rules.{validate_capacity}

-- When the reserved weight and the capacity of a leg are not negative and the weight is positive,
-- the reserved weight and the weight fit in an int64, and their sum is 2^63 or more, the capacity
-- check passes, because the sum wraps below zero.
pub validate_capacity_overflow :
    (l : FlightLeg) (weight : ℤ)
    → pos 0 ≤ℤ l.reserved_kg
    → pos 0 ≤ℤ l.capacity_kg
    → pos 0 <ℤ weight
    → IsInt64 l.reserved_kg
    → IsInt64 weight
    → pos (2 ^ 63) ≤ℤ l.reserved_kg +ℤ weight
    → validate_capacity l weight ≡ done
unfolding validate_capacity
validate_capacity_overflow l weight r c w fr fw over =
    ground (arith, wrap64_overflow (l.reserved_kg +ℤ weight), +ℤ_parts l.reserved_kg weight)
