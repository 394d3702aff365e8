-- ===== src/Domain/Types.antt =====
-- internal/domain/types.go, clock.go and pagination.go. A status or role is a string in Go: one
-- constructor for each constant, and `unknown` for any other text that a request may carry.
use go_label.Base.{ℕ, String, Bool, Option, List, is_blank, if◌then◌else◌}
use go_label.Base.Int64.{ℤ, pos, ltb_ℤ}
use go_label.Base.Instants.{Time}

pub data Role : Type 0 where
  shipper coordinator ground_agent : Role
  unknown : String → Role

pub data ShipmentStatus : Type 0 where
  draft booked screening cleared loaded departed cancelled : ShipmentStatus
  unknown : String → ShipmentStatus

pub data LegStatus : Type 0 where
  planned open_leg boarding departed closed : LegStatus
  unknown : String → LegStatus

pub data CustomsStatus : Type 0 where
  pending review released held : CustomsStatus
  unknown : String → CustomsStatus

pub data SecurityStatus : Type 0 where
  pending passed failed : SecurityStatus
  unknown : String → SecurityStatus

pub record Tenant : Type 0 where
  pub id : String
  pub name : String
  pub active : Bool
  pub created_at : Time

pub record User : Type 0 where
  pub id : String
  pub tenant_id : String
  pub email : String
  pub password_hash : List ℕ
  pub role : Role
  pub active : Bool
  pub created_at : Time
  pub deactivated_at : Option Time

pub record Session : Type 0 where
  pub id : String
  pub user_id : String
  pub token_hash : String
  pub expires_at : Time
  pub revoked_at : Option Time
  pub created_at : Time

pub record Shipment : Type 0 where
  pub id : String
  pub tenant_id : String
  pub reference : String
  pub origin : String
  pub destination : String
  pub weight_kg : ℤ
  pub pieces : ℤ
  pub status : ShipmentStatus
  pub leg_id : Option String
  pub idempotency_key : String
  pub version : ℤ
  pub created_at : Time
  pub updated_at : Time

pub record FlightLeg : Type 0 where
  pub id : String
  pub tenant_id : String
  pub flight_number : String
  pub origin : String
  pub destination : String
  pub departure_at : Time
  pub arrival_at : Time
  pub capacity_kg : ℤ
  pub reserved_kg : ℤ
  pub status : LegStatus
  pub version : ℤ
  pub created_at : Time

pub record CustomsCase : Type 0 where
  pub id : String
  pub shipment_id : String
  pub status : CustomsStatus
  pub document_ref : String
  pub reviewed_by : Option String
  pub updated_at : Time

pub record SecurityCheck : Type 0 where
  pub id : String
  pub shipment_id : String
  pub status : SecurityStatus
  pub officer_id : Option String
  pub notes : String
  pub checked_at : Option Time

pub record AuditEvent : Type 0 where
  pub id : String
  pub tenant_id : String
  pub actor_id : String
  pub object_type : String
  pub object_id : String
  pub action : String
  pub result : String
  pub request_id : String
  pub occurred_at : Time

pub record OutboxEvent : Type 0 where
  pub id : String
  pub tenant_id : String
  pub topic : String
  pub aggregate_id : String
  pub payload : List ℕ
  pub attempts : ℤ
  pub available_at : Time
  pub claimed_at : Option Time
  pub published_at : Option Time
  pub last_error : String

pub record OperationsSummary : Type 0 where
  pub tenant_id : String
  pub draft : ℤ
  pub booked : ℤ
  pub in_flight : ℤ
  pub held : ℤ
  pub pending_outbox : ℤ
  pub failed_outbox : ℤ

pub record PageRequest : Type 0 where
  pub limit : ℤ
  pub cursor : String
  pub sort : String

pub record Page (A : Type 0) : Type 0 where
  pub items : List A
  pub next_cursor : String
  pub total : ℤ

-- The limits and the default order of a listing, one assignment after the other.
abbrev at_least_one : PageRequest → PageRequest
at_least_one p = if ltb_ℤ p.limit (pos 1) then record p { limit = pos 50 } else p

abbrev at_most_200 : PageRequest → PageRequest
at_most_200 p = if ltb_ℤ (pos 200) p.limit then record p { limit = pos 200 } else p

abbrev default_sort : PageRequest → PageRequest
default_sort p = if is_blank p.sort then record p { sort = "created_at" } else p

unfoldable pub normalized : PageRequest → PageRequest
normalized p = default_sort (at_most_200 (at_least_one p))
