-- ===== src/Service/Stored.antt =====
-- Whether the shipment that a use case of internal/service/application.go returns is the
-- one that the memory store then holds.
use go_label.Base.{◌≡◌, ◌≢◌, String, true, some, arith, inl, inr, Option-cases, str_eq}
use go_label.Base.Results.{ok}
use go_label.Base.Int64.{pos, add64, add64_one_ne, eq_ℤ_iff}
use go_label.Base.Instants.{Time}
use go_label.Base.Maps.{lookup, insert, lookup-insert_self}
use go_label.Domain.Types.{User, Shipment, ShipmentStatus}
use go_label.Memory.State.{Store}
use go_label.Memory.Shipments
use go_label.Memory.Legs
use go_label.Service.Repository.{memory}
use go_label.Service.Shipments.{transition_shipment, book_shipment}

-- Every shipment of the store stands under the shipment's id.
abbrev pub ShipmentsKeyed : Store → Type 0
ShipmentsKeyed s = (k : String) (v : Shipment) → lookup k s.shipments ≡ some v → v.id ≡ k

module _ (sha256_hex : String → String) where
  -- The shipment that the service returns from a booking on the memory store is the one that the
  -- store then holds, is booked, and names the leg.
  pub get_shipment-book_shipment :
      (s t : Store) (u : User) (id leg_id : String) (now : Time) (b : Shipment)
      → book_shipment (memory sha256_hex) s u id leg_id now ≡ (t, ok b)
      → (Shipments.get_shipment t u.tenant_id id ≡ ok b)
        × (b.status ≡ ShipmentStatus.booked)
        × (b.leg_id ≡ some leg_id)
  unfolding book_shipment Shipments.get_shipment Legs.book_shipment Legs.book_on_leg Legs.get_leg
      Legs.booked
  get_shipment-book_shipment s t u id leg_id now b h = elim (Option-cases (lookup id s.shipments)) [
    | inl missing ↦ absurd (ground arith)
    | inr (v, stored) ↦ elim (Option-cases (lookup leg_id s.legs)) [
      | inl missing ↦ absurd (ground arith)
      | inr (l, found) ↦
          ground (arith, lookup-insert_self id (Legs.booked v leg_id now) s.shipments)
    ]
  ]

  -- The shipment that a transition stores.
  abbrev moved : Shipment → ShipmentStatus → Time → Shipment
  moved v next now = record v { status = next; updated_at = now; version = add64 v.version (pos 1) }

  transition_shipment_inv :
      (s t : Store) (u : User) (id : String) (next : ShipmentStatus) (now : Time) (v w : Shipment)
      → lookup id s.shipments ≡ some v
      → v.id ≡ id
      → transition_shipment (memory sha256_hex) s u id next now ≡ (t, ok w)
      → (str_eq v.tenant_id u.tenant_id ≡ true)
        × (w ≡ record v { status = next; updated_at = now })
        × (t.shipments ≡ insert id (moved v next now) s.shipments)
  unfolding transition_shipment Shipments.get_shipment Shipments.update_shipment
  transition_shipment_inv s t u id next now v w stored keyed h =
      (ground arith, ground arith, ground (arith, eq_ℤ_iff v.version v.version))

  -- When the service moves a shipment of the memory store, the shipment that it returns has the
  -- new status but the old version: the stored one is equal but for the version, which is one
  -- further on and so different; shipments stand under their ids.
  pub transition_shipment_stale :
      (s t : Store) (u : User) (id : String) (next : ShipmentStatus) (now : Time) (w : Shipment)
      → ShipmentsKeyed s
      → transition_shipment (memory sha256_hex) s u id next now ≡ (t, ok w)
      → (Shipments.get_shipment t u.tenant_id id
          ≡ ok (record w { version = add64 w.version (pos 1) }))
        × (add64 w.version (pos 1) ≢ w.version)
        × (w.status ≡ next)
  unfolding Shipments.get_shipment
  transition_shipment_stale s t u id next now w keyed h =
      elim (Option-cases (lookup id s.shipments)) [
        | inl missing ↦ absurd (unfold transition_shipment in ground arith)
        | inr (v, stored) ↦
            let (own, same, after) =
              transition_shipment_inv s t u id next now v w stored (keyed id v stored) h in
            (
              ground
                  (arith, own, same, after, lookup-insert_self id (moved v next now) s.shipments),
              add64_one_ne w.version,
              ground (arith, same),
            )
      ]
