-- ===== src/Service/Isolation.antt =====
-- What a request of one tenant's user to internal/service/application.go can touch in the memory
-- store.
use go_label.Base.{◌≡◌, ap, Option-cases, ◌≢◌, String, some, arith, eq_iff, inl, inr}
use go_label.Base.Results.{ok, Result-cases}
use go_label.Base.Maps.{lookup}
use go_label.Domain.Types.{User, Shipment, FlightLeg, LegStatus}
use go_label.Memory.State.{Store}
use go_label.Memory.Shipments
use go_label.Memory.Legs
use go_label.Memory.Compliance
use go_label.Memory.Frames.{
  create_shipment_keeps, update_shipment_keeps, book_shipment_keeps, create_leg_keeps,
  update_leg_status_keeps, book_leg_keeps,
}
use go_label.Service.Repository.{memory}
use go_label.Service.Shipments.{
  create_shipment, store_prepared, prepared, book_shipment, transition_shipment,
}
use go_label.Service.Legs.{create_leg, open_leg, prepared_leg}
use go_label.Service.Compliance.{put_customs, put_security}
use go_label.Service.Access.{Request, serve}
use go_label.Service.Stored.{ShipmentsKeyed}

-- A shipment that the user can read is not one of another tenant.
own_other :
    (s : Store) (u : User) (id k : String) (v w : Shipment)
    → lookup k s.shipments ≡ some v
    → v.tenant_id ≢ u.tenant_id
    → ShipmentsKeyed s
    → Shipments.get_shipment s u.tenant_id id ≡ ok w
    → w.id ≢ k
unfolding Shipments.get_shipment
own_other s u id k v w stored foreign keyed found same =
    elim (Option-cases (lookup id s.shipments)) [
      | inl missing ↦ ground arith
      | inr (x, there) ↦ ground (
        arith,
        keyed id x there,
        eq_iff x.tenant_id u.tenant_id,
        ap (λ j. lookup j s.shipments) same,
      )
    ]

module _ (sha256_hex : String → String) (s : Store) (u : User) (k : String) where
  shipment_kept :
      (v : Shipment) (q : Request)
      → lookup k s.shipments ≡ some v
      → v.tenant_id ≢ u.tenant_id
      → ShipmentsKeyed s
      → lookup k (serve (memory sha256_hex) s u q).0.shipments ≡ some v
  unfolding serve create_shipment store_prepared book_shipment transition_shipment create_leg
      open_leg put_customs put_security Legs.create_leg Legs.update_leg_status
      Compliance.put_customs Compliance.put_security
  shipment_kept v (Request.creates_shipment w idem id now) stored foreign keyed =
      ground (arith, create_shipment_keeps s k v stored (prepared u w idem id now))
  shipment_kept v (Request.books_shipment id leg_id now) stored foreign keyed =
      elim (Result-cases (Shipments.get_shipment s u.tenant_id id)) [
        | inr (e, missing) ↦ ground arith
        | inl (w, found) ↦ elim (Result-cases (Legs.get_leg s u.tenant_id leg_id)) [
          | inr (e, missing) ↦ ground arith
          | inl (l, planned) ↦ ground (
            arith,
            book_shipment_keeps s k v stored u.tenant_id id leg_id w.version l.version now foreign,
          )
        ]
      ]
  shipment_kept v (Request.transitions_shipment id next now) stored foreign keyed =
      elim (Result-cases (Shipments.get_shipment s u.tenant_id id)) [
        | inr (e, missing) ↦ ground arith
        | inl (w, found) ↦
            let x = record w { status = next; updated_at = now } in
            ground (
              arith,
              update_shipment_keeps s k v stored x w.version
                  (own_other s u id k v w stored foreign keyed found),
            )
      ]
  shipment_kept v q stored foreign keyed = ground arith

  leg_kept :
      (l : FlightLeg) (q : Request)
      → lookup k s.legs ≡ some l
      → l.tenant_id ≢ u.tenant_id
      → lookup k (serve (memory sha256_hex) s u q).0.legs ≡ some l
  unfolding serve create_shipment store_prepared book_shipment transition_shipment create_leg
      open_leg put_customs put_security Shipments.create_shipment Shipments.store_new_shipment
      Shipments.update_shipment Compliance.put_customs Compliance.put_security
  leg_kept l (Request.creates_shipment w idem id now) stored foreign = ground arith
  leg_kept l (Request.books_shipment id leg_id now) stored foreign =
      elim (Result-cases (Shipments.get_shipment s u.tenant_id id)) [
        | inr (e, missing) ↦ ground arith
        | inl (w, found) ↦ elim (Result-cases (Legs.get_leg s u.tenant_id leg_id)) [
          | inr (e, missing) ↦ ground arith
          | inl (m, planned) ↦ ground (
            arith,
            book_leg_keeps s k l stored u.tenant_id id leg_id w.version m.version now foreign,
          )
        ]
      ]
  leg_kept l (Request.creates_leg m id now later) stored foreign =
      ground (arith, create_leg_keeps s k l stored (prepared_leg u m id now))
  leg_kept l (Request.opens_leg id) stored foreign =
      elim (Result-cases (Legs.get_leg s u.tenant_id id)) [
        | inr (e, missing) ↦ ground arith
        | inl (m, planned) ↦ ground (
          arith,
          update_leg_status_keeps s k l stored u.tenant_id id LegStatus.open_leg m.version foreign,
        )
      ]
  leg_kept l q stored foreign = ground arith

-- A request of a user of one tenant leaves every shipment of another tenant in the memory store as
-- it was, whether or not it succeeds, if shipments stand under their ids.
pub serve_keeps_shipments :
    (sha256_hex : String → String) (s : Store) (u : User) (q : Request) (k : String) (v : Shipment)
    → ShipmentsKeyed s
    → lookup k s.shipments ≡ some v
    → v.tenant_id ≢ u.tenant_id
    → lookup k (serve (memory sha256_hex) s u q).0.shipments ≡ some v
serve_keeps_shipments sha256_hex s u q k v keyed stored foreign =
    shipment_kept sha256_hex s u k v q stored foreign keyed

-- A request of a user of one tenant leaves every leg of another tenant in the memory store as it
-- was, whether or not it succeeds.
pub serve_keeps_legs :
    (sha256_hex : String → String) (s : Store) (u : User) (q : Request) (k : String) (l : FlightLeg)
    → lookup k s.legs ≡ some l
    → l.tenant_id ≢ u.tenant_id
    → lookup k (serve (memory sha256_hex) s u q).0.legs ≡ some l
serve_keeps_legs sha256_hex s u q k l stored foreign = leg_kept sha256_hex s u k l q stored foreign
