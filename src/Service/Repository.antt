-- ===== src/Service/Repository.antt =====
-- internal/repository/repository.go: the operations of a store that the service calls, and the
-- memory store as one.
use go_label.Base.{String}
use go_label.Base.Results.{Result, done}
use go_label.Base.Int64.{ℤ}
use go_label.Base.Instants.{Time}
use go_label.Domain.Types.{
  User, Session, Shipment, FlightLeg, LegStatus, CustomsCase, SecurityCheck, PageRequest, Page,
}
use go_label.Memory.State.{Store}
use go_label.Memory.Accounts
use go_label.Memory.Shipments
use go_label.Memory.Legs
use go_label.Memory.Compliance
use go_label.Memory.Outbox

pub record Repository (S : Type 0) : Type 0 where
  pub ping : S → Result (Unit {0})
  pub get_user_by_email : S → String → Result User
  pub get_user : S → String → Result User
  pub deactivate_user : S → String → Time → S × Result (Unit {0})
  pub create_session : S → Session → S × Result (Unit {0})
  pub get_session : S → String → Result Session
  pub revoke_session : S → String → Time → S × Result (Unit {0})
  pub create_shipment : S → Shipment → S × Result (Unit {0})
  pub get_shipment : S → String → String → Result Shipment
  pub update_shipment : S → Shipment → ℤ → S × Result (Unit {0})
  pub list_shipments : S → String → PageRequest → Result (Page Shipment)
  pub find_by_idempotency : S → String → String → Result Shipment
  pub create_leg : S → FlightLeg → S × Result (Unit {0})
  pub get_leg : S → String → String → Result FlightLeg
  pub update_leg_status : S → String → String → LegStatus → ℤ → S × Result (Unit {0})
  pub book_shipment : S → String → String → String → ℤ → ℤ → Time → S × Result Shipment
  pub get_customs : S → String → Result CustomsCase
  pub put_customs : S → CustomsCase → S × Result (Unit {0})
  pub get_security : S → String → Result SecurityCheck
  pub put_security : S → SecurityCheck → S × Result (Unit {0})
  pub summary : S → String → Result (ℤ × ℤ)

-- The memory store; `sha256_hex` hashes its tokens.
abbrev pub memory : (String → String) → Repository Store
memory sha256_hex = record {
  ping = λ s. done;
  get_user_by_email = Accounts.get_user_by_email;
  get_user = Accounts.get_user;
  deactivate_user = Accounts.deactivate_user;
  create_session = Accounts.create_session;
  get_session = Accounts.get_session sha256_hex;
  revoke_session = Accounts.revoke_session sha256_hex;
  create_shipment = Shipments.create_shipment;
  get_shipment = Shipments.get_shipment;
  update_shipment = Shipments.update_shipment;
  list_shipments = Shipments.list_shipments;
  find_by_idempotency = Shipments.find_by_idempotency;
  create_leg = Legs.create_leg;
  get_leg = Legs.get_leg;
  update_leg_status = Legs.update_leg_status;
  book_shipment = Legs.book_shipment;
  get_customs = Compliance.get_customs;
  put_customs = Compliance.put_customs;
  get_security = Compliance.get_security;
  put_security = Compliance.put_security;
  summary = Outbox.summary;
}
