-- ===== src/Memory/State.antt =====
-- The struct Store of internal/repository/memory/store.go, and the zero values that Go reads from
-- a map at a missing key.
use go_label.Base.{String, false, none, List, []}
use go_label.Base.Int64.{pos}
use go_label.Base.Instants.{zero_time}
use go_label.Base.Maps.{Map}
use go_label.Domain.Types.{
  Role, ShipmentStatus, User, Session, Shipment, FlightLeg, CustomsCase, SecurityCheck, AuditEvent,
  OutboxEvent,
}

pub record Store : Type 0 where
  pub users : Map User
  pub by_email : Map String
  pub sessions : Map Session
  pub shipments : Map Shipment
  pub idem : Map String
  pub legs : Map FlightLeg
  pub customs : Map CustomsCase
  pub security : Map SecurityCheck
  pub audit : List AuditEvent
  pub outbox : Map OutboxEvent

abbrev pub new : Store
new = record {
  users = [];
  by_email = [];
  sessions = [];
  shipments = [];
  idem = [];
  legs = [];
  customs = [];
  security = [];
  audit = [];
  outbox = [];
}

abbrev pub zero_user : User
zero_user = record {
  id = "";
  tenant_id = "";
  email = "";
  password_hash = [];
  role = Role.unknown "";
  active = false;
  created_at = zero_time;
  deactivated_at = none;
}

abbrev pub zero_shipment : Shipment
zero_shipment = record {
  id = "";
  tenant_id = "";
  reference = "";
  origin = "";
  destination = "";
  weight_kg = pos 0;
  pieces = pos 0;
  status = ShipmentStatus.unknown "";
  leg_id = none;
  idempotency_key = "";
  version = pos 0;
  created_at = zero_time;
  updated_at = zero_time;
}
