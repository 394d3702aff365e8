-- ===== src/Service/Examples.antt =====
-- The service over the memory store at the concrete state of the store's examples.
use go_label.Base.{ℕ, ◌≡◌, ◌≢◌, refl, String, Bool, true, some, List, [], ◌∷◌, arith, eq_iff}
use go_label.Base.Results.{Result, ok, err, not_found}
use go_label.Base.Int64.{pos}
use go_label.Base.Maps.{lookup, insert, map_values}
use go_label.Base.Text.{trim_space, to_lower}
use go_label.Domain.Types.{
  Role, User, Shipment, ShipmentStatus, CustomsCase, CustomsStatus, SecurityCheck, SecurityStatus,
}
use go_label.Domain.Rules.{
  shipment_can_transition, validate_shipment, is_session_active, customs_allows_loading,
  security_allows_loading,
}
use go_label.Memory.State.{Store, new}
use go_label.Memory.Accounts
use go_label.Memory.Shipments
use go_label.Memory.Compliance
use go_label.Memory.Examples.{plain, operator, crate, leg, session, stocked}
use go_label.Service.Repository.{memory}
use go_label.Service.Accounts.{LoginResult, login, login_session, authenticate, deactivate_user}
use go_label.Service.Shipments.{create_shipment, prepared, transition_shipment, is_released}
use go_label.Service.Compliance.{put_customs, is_refused}
use go_label.Service.Access.{Request, serve}
use go_label.Service.Authentication.{UsersKeyed, deactivate_user_ends, authenticate-login}
use go_label.Service.Gate.{handover_needs_release, customs_under_case_id}
use go_label.Service.Replay.{create_shipment_replay}
use go_label.Service.Stored.{ShipmentsKeyed}
use go_label.Service.Isolation.{serve_keeps_shipments, serve_keeps_legs}

abbrev accept : List ℕ → String → Bool
accept hash password = true

abbrev agent : User
agent = record operator { id = "u-2"; role = Role.ground_agent }

abbrev other_user : User
other_user = record operator { id = "u-3"; email = "x@example.com"; role = Role.shipper }

abbrev two_users : Store
two_users = record stocked {
  users = ("u-1", operator) ∷ ("u-3", other_user) ∷ [];
  sessions = ("token", session) ∷ ("other", record session { user_id = "u-3" }) ∷ [];
}

abbrev without_other : Store
without_other = (deactivate_user (memory plain) two_users "token" "u-3" 20 21).0

deactivate_user_ends_example : ◌≢◌ {A = String} "u-1" "u-3"
unfolding deactivate_user authenticate Accounts.get_session Accounts.deactivate_user
    Accounts.get_user is_session_active lookup insert map_values Accounts.revoke_if_of
deactivate_user_ends_example =
    deactivate_user_ends plain two_users without_other "token" "u-3" "token" 20 21 30 operator
      session refl refl

stocked-UsersKeyed : UsersKeyed stocked
unfolding lookup
stocked-UsersKeyed k u h = ground (arith, eq_iff "u-1" k)

stocked-ShipmentsKeyed : ShipmentsKeyed stocked
unfolding lookup
stocked-ShipmentsKeyed k v h = ground (arith, eq_iff "s-1" k)

abbrev logged_in : Store × Result LoginResult
logged_in =
    login (memory plain) plain accept stocked " Ops@Example.com" "secret" (ok "fresh") "x-2"
      (pos 60) 20

authenticate-login_example :
    authenticate (memory plain) logged_in.0 "fresh" 30
    ≡ ok (operator, login_session (memory plain) plain accept operator "fresh" "x-2" (pos 60) 20)
unfolding login Accounts.get_user_by_email Accounts.create_session lookup insert trim_space to_lower
authenticate-login_example =
    authenticate-login plain accept stocked logged_in.0 " Ops@Example.com" "secret" "fresh" "x-2"
      (pos 60) 20 30 (record { token = "fresh"; expires_at = 80; user = operator })
      stocked-UsersKeyed (ground (arith, eq_iff "fresh" "")) refl

abbrev released_case : CustomsCase
released_case = record {
  id = "s-1";
  shipment_id = "s-1";
  status = CustomsStatus.released;
  document_ref = "D-1";
  reviewed_by = some "u-1";
  updated_at = 15;
}

abbrev passed_check : SecurityCheck
passed_check = record {
  id = "s-1";
  shipment_id = "s-1";
  status = SecurityStatus.passed;
  officer_id = some "u-2";
  notes = "";
  checked_at = some 15;
}

abbrev cleared : Shipment
cleared = record crate { status = ShipmentStatus.cleared; leg_id = some "leg-1" }

abbrev ready : Store
ready = record stocked {
  shipments = ("s-1", cleared) ∷ [];
  customs = ("s-1", released_case) ∷ [];
  security = ("s-1", passed_check) ∷ [];
}

handover_needs_release_example :
    (c : CustomsCase) × (sec : SecurityCheck) × (Compliance.get_customs ready "s-1" ≡ ok c)
    × (Compliance.get_security ready "s-1" ≡ ok sec)
    × (c.status ≡ CustomsStatus.released)
    × (sec.status ≡ SecurityStatus.passed)
unfolding transition_shipment is_released lookup Shipments.get_shipment Compliance.get_customs
    Compliance.get_security customs_allows_loading security_allows_loading shipment_can_transition
    Shipments.update_shipment
handover_needs_release_example =
    handover_needs_release (memory plain) ready agent "s-1" "leg-1" ShipmentStatus.loaded 20 cleared
      (record cleared { status = ShipmentStatus.loaded; updated_at = 20 }) refl refl refl refl

abbrev waiting : Store
waiting = record ready { customs = [] }

abbrev filed : Store
filed = (put_customs (memory plain) waiting operator (record released_case { id = "" }) "c-9" 20).0

customs_under_case_id_example : Compliance.get_customs filed "s-1" ≡ err not_found
unfolding put_customs is_refused lookup insert Shipments.get_shipment Compliance.get_customs
    Compliance.put_customs
customs_under_case_id_example =
    (customs_under_case_id plain waiting filed operator agent (record released_case { id = "" })
      (record released_case { id = "c-9"; updated_at = 20 }) "c-9" "leg-1" 20 30
      ShipmentStatus.loaded cleared refl (ground (arith, eq_iff "c-9" "s-1")) refl refl refl refl).0

abbrev first_request : Store × Result Shipment
first_request = create_shipment (memory plain) new operator crate "key-7" "s-9" 20

create_shipment_replay_example :
    create_shipment
      (memory plain)
      first_request.0
      operator
      (record crate { pieces = pos 4 })
      "key-7"
      "s-10"
      30
    ≡ (first_request.0, ok (prepared operator crate "key-7" "s-9" 20))
unfolding create_shipment prepared validate_shipment trim_space Shipments.find_by_idempotency
    Shipments.create_shipment lookup insert
create_shipment_replay_example =
    create_shipment_replay plain new first_request.0 operator crate
      (record crate { pieces = pos 4 }) "key-7" "s-9" "s-10" 20 30
      (prepared operator crate "key-7" "s-9" 20) (ground (arith, eq_iff "key-7" "")) refl refl

abbrev cancelled : Shipment
cancelled = record crate { status = ShipmentStatus.cancelled; updated_at = 20 }

abbrev stranger : User
stranger = record operator { id = "u-9"; tenant_id = "tenant-other" }

serve_keeps_shipments_example :
    lookup "s-1"
      (serve (memory plain) stocked stranger (Request.books_shipment "s-1" "leg-1" 20)).0.shipments
    ≡ some crate
unfolding lookup
serve_keeps_shipments_example =
    serve_keeps_shipments plain stocked stranger (Request.books_shipment "s-1" "leg-1" 20) "s-1"
      crate stocked-ShipmentsKeyed refl (ground (arith, eq_iff "tenant-demo" "tenant-other"))

serve_keeps_legs_example :
    lookup "leg-1" (serve (memory plain) stocked stranger (Request.opens_leg "leg-1")).0.legs
    ≡ some leg
unfolding lookup
serve_keeps_legs_example =
    serve_keeps_legs plain stocked stranger (Request.opens_leg "leg-1") "leg-1" leg refl
      (ground (arith, eq_iff "tenant-demo" "tenant-other"))
