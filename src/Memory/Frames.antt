-- ===== src/Memory/Frames.antt =====
-- What the calls of internal/repository/memory/store.go leave alone.
use go_label.Base.{◌≡◌, ◌≢◌, String, some, arith, eq_iff, inl, inr, Option-cases}
use go_label.Base.Int64.{ℤ, pos, add64}
use go_label.Base.Instants.{Time}
use go_label.Base.Maps.{lookup, lookup-insert}
use go_label.Domain.Types.{Shipment, FlightLeg, LegStatus}
use go_label.Memory.State.{Store}
use go_label.Memory.Shipments.{create_shipment, store_new_shipment, update_shipment}
use go_label.Memory.Legs.{
  create_leg, get_leg, update_leg_status, book_shipment, book_on_leg, booked, reserved,
}

module _ (s : Store) (k : String) (v : Shipment) (stored : lookup k s.shipments ≡ some v) where
  pub create_shipment_keeps : (w : Shipment) → lookup k (create_shipment s w).0.shipments ≡ some v
  unfolding create_shipment store_new_shipment
  create_shipment_keeps w = ground (arith, lookup-insert w.id k w s.shipments, eq_iff w.id k)

  pub update_shipment_keeps :
      (w : Shipment) (version : ℤ)
      → w.id ≢ k
      → lookup k (update_shipment s w version).0.shipments ≡ some v
  unfolding update_shipment
  update_shipment_keeps w version other = ground (
    arith,
    lookup-insert w.id k (record w { version = add64 version (pos 1) }) s.shipments,
    eq_iff w.id k,
  )

  pub book_shipment_keeps :
      (tenant id leg_id : String) (version leg_version : ℤ) (at : Time)
      → v.tenant_id ≢ tenant
      → lookup k (book_shipment s tenant id leg_id version leg_version at).0.shipments ≡ some v
  unfolding book_shipment book_on_leg
  book_shipment_keeps tenant id leg_id version leg_version at foreign =
      elim (Option-cases (lookup id s.shipments)) [
        | inl missing ↦ ground arith
        | inr (w, found) ↦ ground (
          arith,
          lookup-insert id k (booked w leg_id at) s.shipments,
          eq_iff id k,
          eq_iff w.tenant_id tenant,
        )
      ]

module _ (s : Store) (k : String) (l : FlightLeg) (stored : lookup k s.legs ≡ some l) where
  pub create_leg_keeps : (m : FlightLeg) → lookup k (create_leg s m).0.legs ≡ some l
  unfolding create_leg
  create_leg_keeps m = ground (arith, lookup-insert m.id k m s.legs, eq_iff m.id k)

  pub update_leg_status_keeps :
      (tenant id : String) (status : LegStatus) (version : ℤ)
      → l.tenant_id ≢ tenant
      → lookup k (update_leg_status s tenant id status version).0.legs ≡ some l
  unfolding update_leg_status get_leg
  update_leg_status_keeps tenant id status version foreign =
      elim (Option-cases (lookup id s.legs)) [
        | inl missing ↦ ground arith
        | inr (m, found) ↦
            let new = record m { status = status; version = add64 m.version (pos 1) } in
            ground (arith, lookup-insert id k new s.legs, eq_iff id k, eq_iff m.tenant_id tenant)
      ]

  pub book_leg_keeps :
      (tenant id leg_id : String) (version leg_version : ℤ) (at : Time)
      → l.tenant_id ≢ tenant
      → lookup k (book_shipment s tenant id leg_id version leg_version at).0.legs ≡ some l
  unfolding book_shipment book_on_leg get_leg
  book_leg_keeps tenant id leg_id version leg_version at foreign =
      elim (Option-cases (lookup leg_id s.legs)) [
        | inl missing ↦ ground arith
        | inr (m, found) ↦ elim (Option-cases (lookup id s.shipments)) [
          | inl missing ↦ ground arith
          | inr (w, known) ↦ ground (
            arith,
            lookup-insert leg_id k (reserved m w.weight_kg) s.legs,
            eq_iff leg_id k,
            eq_iff m.tenant_id tenant,
          )
        ]
      ]
