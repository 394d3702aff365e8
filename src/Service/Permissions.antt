-- ===== src/Service/Permissions.antt =====
-- internal/permissions/permissions.go: the table of actions that a role may take.
use go_label.Base.{String, Bool, true, false, not, if◌then◌else◌}
use go_label.Base.Results.{Result, err, done, forbidden}
use go_label.Domain.Types.{Role}

pub data Action : Type 0 where
  create_shipment book_shipment review_customs scan_cargo view_summary : Action
  unknown : String → Action

unfoldable pub allows : Role → Action → Bool
allows Role.shipper Action.create_shipment = true
allows Role.coordinator Action.create_shipment = true
allows Role.coordinator Action.book_shipment = true
allows Role.coordinator Action.review_customs = true
allows Role.coordinator Action.view_summary = true
allows Role.ground_agent Action.scan_cargo = true
allows _ _ = false

unfoldable pub require : Role → Action → Result (Unit {0})
require role action = if not (allows role action) then err forbidden else done
