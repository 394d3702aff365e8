-- ===== src/Service/Safety.antt =====
-- Histories of requests to internal/service/application.go over the memory store: refused requests
-- change nothing, and legs stay within their capacity.
use go_label.Base.{◌≡◌, String, some, List, [], ◌∷◌, arith, All, inl, inr}
use go_label.Base.Results.{ok, err, Error, Result-cases}
use go_label.Base.Maps.{lookup}
use go_label.Domain.Types.{User, Shipment, LegStatus}
use go_label.Memory.State.{Store}
use go_label.Memory.Shipments
use go_label.Memory.Legs
use go_label.Memory.Compliance
use go_label.Memory.Capacity.{
  IsModest, IsSafeLeg, IsSafe, create_shipment-IsSafe, update_shipment-IsSafe, create_leg-IsSafe,
  update_leg_status-IsSafe, book_shipment-IsSafe, elsewhere-IsSafe,
}
use go_label.Service.Repository.{memory}
use go_label.Service.Shipments.{
  create_shipment, store_prepared, prepared, book_shipment, transition_shipment,
}
use go_label.Service.Legs.{create_leg, open_leg, prepared_leg}
use go_label.Service.Compliance.{put_customs, put_security}
use go_label.Service.Access.{Request, serve}

-- What is asked of the data of a request.
abbrev pub IsModestRequest : Request → Type 0
IsModestRequest (Request.creates_shipment v idem id now) = IsModest v.weight_kg
IsModestRequest (Request.creates_leg l id now later) = IsSafeLeg l
IsModestRequest _ = Unit {0}

get_shipment-lookup :
    (s : Store) (tenant id : String) {v : Shipment}
    → Shipments.get_shipment s tenant id ≡ ok v
    → lookup id s.shipments ≡ some v
unfolding Shipments.get_shipment
get_shipment-lookup s tenant id h = ground arith

create_shipment-error :
    (s : Store) (v : Shipment) (e : Error)
    → (Shipments.create_shipment s v).1 ≡ err e
    → (Shipments.create_shipment s v).0 ≡ s
unfolding Shipments.create_shipment Shipments.store_new_shipment
create_shipment-error s v e h = ground arith

module _ (sha256_hex : String → String) where
  -- A request that changes data, made to the service on the memory store, leaves the store as it
  -- was when it returns an error.
  pub serve_error_unchanged :
      (s : Store) (u : User) (q : Request) {e : Error}
      → (serve (memory sha256_hex) s u q).1 ≡ err e
      → (serve (memory sha256_hex) s u q).0 ≡ s
  unfolding serve create_shipment store_prepared book_shipment transition_shipment create_leg
      open_leg put_customs put_security Shipments.update_shipment Legs.book_shipment
      Legs.book_on_leg Legs.create_leg Legs.update_leg_status Compliance.put_customs
      Compliance.put_security
  serve_error_unchanged s u (Request.creates_shipment v idem id now) {e} h =
      ground (arith, create_shipment-error s (prepared u v idem id now) e)
  serve_error_unchanged s u (Request.books_shipment id leg now) h = ground arith
  serve_error_unchanged s u q h = ground arith

  pub serve-IsSafe :
      (s : Store) (u : User) (q : Request)
      → IsModestRequest q
      → IsSafe s
      → IsSafe (serve (memory sha256_hex) s u q).0
  unfolding serve create_shipment store_prepared prepared prepared_leg book_shipment
      transition_shipment create_leg open_leg put_customs put_security Compliance.put_customs
      Compliance.put_security
  serve-IsSafe s u (Request.creates_shipment v idem id now) m h =
      ground (arith, create_shipment-IsSafe s (prepared u v idem id now) m h)
  serve-IsSafe s u (Request.books_shipment id leg_id now) m h =
      elim (Result-cases (Shipments.get_shipment s u.tenant_id id)) [
        | inr (e, missing) ↦ ground arith
        | inl (v, stored) ↦ elim (Result-cases (Legs.get_leg s u.tenant_id leg_id)) [
          | inr (e, missing) ↦ ground arith
          | inl (l, found) ↦
              ground (arith, book_shipment-IsSafe s u.tenant_id id leg_id v.version l.version now h)
        ]
      ]
  serve-IsSafe s u (Request.transitions_shipment id next now) m h =
      elim (Result-cases (Shipments.get_shipment s u.tenant_id id)) [
        | inr (e, missing) ↦ ground arith
        | inl (v, stored) ↦
            let light = h.weights_modest id v (get_shipment-lookup s u.tenant_id id stored) in
            let w = record v { status = next; updated_at = now } in
            ground (arith, update_shipment-IsSafe s w v.version light h)
      ]
  serve-IsSafe s u (Request.creates_leg l id now later) m h =
      ground (arith, create_leg-IsSafe s (prepared_leg u l id now) (ground arith) h)
  serve-IsSafe s u (Request.opens_leg id) m h =
      elim (Result-cases (Legs.get_leg s u.tenant_id id)) [
        | inr (e, missing) ↦ ground arith
        | inl (l, found) ↦
            ground (arith, update_leg_status-IsSafe s u.tenant_id id LegStatus.open_leg l.version h)
      ]
  serve-IsSafe s u (Request.puts_customs c id now) m h =
      elsewhere-IsSafe s _ (ground arith) (ground arith) h
  serve-IsSafe s u (Request.puts_security c id now) m h =
      elsewhere-IsSafe s _ (ground arith) (ground arith) h

  -- The store after the requests of several users, one after the other.
  unfoldable pub serve_all : Store → List (User × Request) → Store
  serve_all s [] = s
  serve_all s ((u, q) ∷ rest) = serve_all (serve (memory sha256_hex) s u q).0 rest

  -- Over any sequence of requests of any users to the service on the memory store, every leg keeps
  -- a reserved weight between zero and its capacity. It is asked that the store starts so, with
  -- capacities and weights below 2^62, that shipments are created with weights below 2^62, and
  -- that each leg comes in with a reserved weight between zero and its capacity, and a capacity
  -- below 2^62.
  serve_all-IsSafe :
      (s : Store) (qs : List (User × Request))
      → All (λ (u, q). IsModestRequest q) qs
      → IsSafe s
      → IsSafe (serve_all s qs)
  unfolding serve_all
  serve_all-IsSafe s [] m h = h
  serve_all-IsSafe s ((u, q) ∷ rest) m h =
      serve_all-IsSafe (serve (memory sha256_hex) s u q).0 rest m.1 (serve-IsSafe s u q m.0 h)
