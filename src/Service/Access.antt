-- ===== src/Service/Access.antt =====
-- Requests to internal/service/application.go as data, and which roles are served.
use go_label.Base.{if◌then◌else◌, ◌≡◌, String, false, arith}
use go_label.Base.Results.{Result, ok, err, forbidden}
use go_label.Base.Instants.{Time}
use go_label.Domain.Types.{
  Role, User, Shipment, ShipmentStatus, FlightLeg, CustomsCase, SecurityCheck,
}
use go_label.Service.Repository.{Repository}
use go_label.Service.Shipments.{create_shipment, prepared, book_shipment, transition_shipment}
use go_label.Service.Legs.{create_leg, open_leg}
use go_label.Service.Compliance.{signed, put_customs, put_security}
use go_label.Service.Permissions.{Action, allows}

-- The use cases that change the store, with the clock readings and random ids of the call.
pub data Request : Type 0 where
  creates_shipment : Shipment → String → String → Time → Request
  books_shipment : String → String → Time → Request
  transitions_shipment : String → ShipmentStatus → Time → Request
  creates_leg : FlightLeg → String → Time → Time → Request
  opens_leg : String → Request
  puts_customs : CustomsCase → String → Time → Request
  puts_security : SecurityCheck → String → Time → Request

-- The store after a request, and its error if it has one.
abbrev pub forget {ℓ κ} : {S : Type ℓ} {A : Type κ} → S × Result A → S × Result (Unit {0})
forget (s, ok _) = (s, ok tt)
forget (s, err e) = (s, err e)

-- The action of the permission table that a request is.
abbrev pub action_of : Request → Action
action_of (Request.creates_shipment v idem id now) = Action.create_shipment
action_of (Request.books_shipment id leg now) = Action.book_shipment
action_of (Request.puts_customs c id now) = Action.review_customs
action_of (Request.puts_security v id now) = Action.scan_cargo
action_of _ = Action.unknown ""

module _ {S : Type 0} (r : Repository S) where
  unfoldable pub serve : S → User → Request → S × Result (Unit {0})
  serve s u (Request.creates_shipment v idem id now) = forget (create_shipment r s u v idem id now)
  serve s u (Request.books_shipment id leg now) = forget (book_shipment r s u id leg now)
  serve s u (Request.transitions_shipment id next now) =
      forget (transition_shipment r s u id next now)
  serve s u (Request.creates_leg l id now later) = forget (create_leg r s u l id now later)
  serve s u (Request.opens_leg id) = forget (open_leg r s u id)
  serve s u (Request.puts_customs c id now) = forget (put_customs r s u c id now)
  serve s u (Request.puts_security v id now) = forget (put_security r s u v id now)

-- The requests that are actions of the permission table, but for scans.
abbrev IsTabled : Request → Type 0
IsTabled (Request.creates_shipment v idem id now) = Unit {0}
IsTabled (Request.books_shipment id leg now) = Unit {0}
IsTabled (Request.puts_customs c id now) = Unit {0}
IsTabled _ = ⊥

module _ {S : Type 0} (r : Repository S) where
  -- Over any store, a request to create or book a shipment or to file a customs case does, where
  -- the permission table allows the action to the user's role, what it does for a coordinator with
  -- the same id and tenant, and is otherwise refused as forbidden and changes nothing.
  serve_by_table :
      (s : S) (u : User) (q : Request)
      → IsTabled q
      → serve r s u q ≡ (
          if allows u.role (action_of q)
          then serve r s (record u { role = Role.coordinator }) q
          else (s, err forbidden))
  unfolding allows serve create_shipment book_shipment put_customs prepared
  serve_by_table s u (Request.creates_shipment v idem id now) h = ground arith
  serve_by_table s u (Request.books_shipment id leg now) h = ground arith
  serve_by_table s u (Request.puts_customs c id now) h = ground arith
  serve_by_table s u (Request.transitions_shipment id next now) h = absurd h
  serve_by_table s u (Request.creates_leg l id now later) h = absurd h
  serve_by_table s u (Request.opens_leg id) h = absurd h
  serve_by_table s u (Request.puts_security v id now) h = absurd h

  -- The permission table does not allow coordinators to scan cargo, yet over any store the service
  -- stores the security check that a coordinator files for a shipment of the tenant.
  pub coordinator_scans :
      (s : S) (u : User) (v : SecurityCheck) (w : Shipment) (random_id : String) (now : Time)
      → u.role ≡ Role.coordinator
      → r.get_shipment s u.tenant_id v.shipment_id ≡ ok w
      → (allows u.role Action.scan_cargo ≡ false)
        × ((put_security r s u v random_id now).0 ≡ (r.put_security s (signed u v random_id now)).0)
  unfolding allows put_security
  coordinator_scans s u v w random_id now role found = ground arith
