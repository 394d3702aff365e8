-- ===== src/Postgres/Repository.antt =====
-- The store of internal/repository/postgres as the repository of the service.
use go_label.Base.{String, Bool}
use go_label.Service.Repository.{Repository}
use go_label.Postgres.Tables.{Database}
use go_label.Postgres.Accounts
use go_label.Postgres.Shipments
use go_label.Postgres.Legs
use go_label.Postgres.Compliance
use go_label.Postgres.Outbox

abbrev pub postgres : (String → String) → (String → String → Bool) → Repository Database
postgres sha256_hex text_before = record {
  ping = Accounts.ping;
  get_user_by_email = Accounts.get_user_by_email;
  get_user = Accounts.get_user;
  deactivate_user = Accounts.deactivate_user;
  create_session = Accounts.create_session;
  get_session = Accounts.get_session sha256_hex;
  revoke_session = Accounts.revoke_session sha256_hex;
  create_shipment = Shipments.create_shipment;
  get_shipment = Shipments.get_shipment;
  update_shipment = Shipments.update_shipment;
  list_shipments = Shipments.list_shipments text_before;
  find_by_idempotency = Shipments.find_by_idempotency;
  create_leg = Legs.create_leg;
  get_leg = Legs.get_leg;
  update_leg_status = Legs.update_leg_status;
  book_shipment = Legs.book_shipment;
  get_customs = Compliance.get_customs;
  put_customs = Compliance.put_customs;
  get_security = Compliance.get_security;
  put_security = Compliance.put_security;
  summary = Outbox.summary;
}
