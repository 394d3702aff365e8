-- ===== src/Memory/Locking.antt =====
-- The version checks of internal/repository/memory/store.go.
use go_label.Base.{◌≡◌, inl, inr, ◌⊎◌, Option-cases, String, arith}
use go_label.Base.Results.{ok, err, done, conflict}
use go_label.Base.Int64.{ℤ, pos, add64, add64_one_ne, eq_ℤ_iff}
use go_label.Base.Maps.{lookup, lookup-insert_self}
use go_label.Domain.Types.{Shipment, FlightLeg, LegStatus}
use go_label.Memory.State.{Store}
use go_label.Memory.Shipments.{update_shipment}
use go_label.Memory.Legs.{
  get_leg, reserve_capacity, update_leg_status, reserved, book_shipment, book_on_leg,
}
use go_label.Base.Instants.{Time}

-- After an update of a shipment at some version has succeeded in the memory store, another update
-- of that shipment at the same version is refused as a conflict and changes nothing.
update_shipment_once :
    (s t : Store) (v w : Shipment) (version : ℤ)
    → w.id ≡ v.id
    → update_shipment s v version ≡ (t, done)
    → update_shipment t w version ≡ (t, err conflict)
unfolding update_shipment
update_shipment_once s t v w version same h = ground (
  arith,
  lookup-insert_self v.id (record v { version = add64 version (pos 1) }) s.shipments,
  add64_one_ne version,
  eq_ℤ_iff (add64 version (pos 1)) version,
)

-- What a leg call leaves behind: the leg one version further on.
abbrev Advanced : Store → String → String → ℤ → Type 0
Advanced t tenant id version =
    (l : FlightLeg) × (get_leg t tenant id ≡ ok l) × (l.version ≡ add64 version (pos 1))

reserve_capacity-Advanced :
    (s t : Store) (tenant id : String) (weight version : ℤ)
    → reserve_capacity s tenant id weight version ≡ (t, done)
    → Advanced t tenant id version
unfolding reserve_capacity get_leg reserved
reserve_capacity-Advanced s t tenant id weight version h = elim (Option-cases (lookup id s.legs)) [
  | inl missing ↦ absurd (ground arith)
  | inr (l, found) ↦ (
    reserved l weight,
    ground (arith, lookup-insert_self id (reserved l weight) s.legs),
    ground (arith, eq_ℤ_iff l.version version),
  )
]

update_leg_status-Advanced :
    (s t : Store) (tenant id : String) (status : LegStatus) (version : ℤ)
    → update_leg_status s tenant id status version ≡ (t, done)
    → Advanced t tenant id version
unfolding update_leg_status get_leg
update_leg_status-Advanced s t tenant id status version h = elim (Option-cases (lookup id s.legs)) [
  | inl missing ↦ absurd (ground arith)
  | inr (l, found) ↦
      let l' = record l { status = status; version = add64 l.version (pos 1) } in
      (
        l',
        ground (arith, lookup-insert_self id l' s.legs),
        ground (arith, eq_ℤ_iff l.version version),
      )
]

book_shipment-Advanced :
    (s t : Store) (tenant id leg_id : String) (version leg_version : ℤ) (at : Time) {b : Shipment}
    → book_shipment s tenant id leg_id version leg_version at ≡ (t, ok b)
    → Advanced t tenant leg_id leg_version
unfolding book_shipment book_on_leg get_leg reserved
book_shipment-Advanced s t tenant id leg_id version leg_version at h =
    elim (Option-cases (lookup leg_id s.legs)) [
      | inl missing ↦ absurd (ground arith)
      | inr (l, found) ↦ elim (Option-cases (lookup id s.shipments)) [
        | inl missing ↦ absurd (ground arith)
        | inr (v, stored) ↦ (
          reserved l v.weight_kg,
          ground (arith, lookup-insert_self leg_id (reserved l v.weight_kg) s.legs),
          ground (arith, eq_ℤ_iff l.version leg_version),
        )
      ]
    ]

-- A call that changed the leg when it was at this version.
abbrev ChangesLeg : Store → Store → String → String → ℤ → Type 0
ChangesLeg s t tenant leg_id version =
    ((weight : ℤ) × (reserve_capacity s tenant leg_id weight version ≡ (t, done)))
    ⊎ ((status : LegStatus) × (update_leg_status s tenant leg_id status version ≡ (t, done)))
    ⊎ ((id : String) × (own : ℤ) × (at : Time) × (b : Shipment) × (book_shipment s tenant id leg_id
            own version at
          ≡ (t, ok b)))

ChangesLeg-Advanced :
    (s t : Store) (tenant leg_id : String) (version : ℤ)
    → ChangesLeg s t tenant leg_id version
    → Advanced t tenant leg_id version
ChangesLeg-Advanced s t tenant leg_id version (inl (weight, h)) =
    reserve_capacity-Advanced s t tenant leg_id weight version h
ChangesLeg-Advanced s t tenant leg_id version (inr (inl (status, h))) =
    update_leg_status-Advanced s t tenant leg_id status version h
ChangesLeg-Advanced s t tenant leg_id version (inr (inr (id, own, at, b, h))) =
    book_shipment-Advanced s t tenant id leg_id own version at h

-- Once a reservation, a change of status or a booking has changed a leg of the memory store at
-- some version, a reservation and a change of status at that version are refused as conflicts, and
-- a booking at that version changes nothing.
pub leg_version_once :
    (s t : Store) (tenant leg_id : String) (version : ℤ)
    → ChangesLeg s t tenant leg_id version
    → (weight : ℤ) (status : LegStatus) (id : String) (own : ℤ) (later : Time)
    → (reserve_capacity t tenant leg_id weight version ≡ (t, err conflict))
      × (update_leg_status t tenant leg_id status version ≡ (t, err conflict))
      × ((book_shipment t tenant id leg_id own version later).0 ≡ t)
unfolding reserve_capacity update_leg_status book_shipment book_on_leg
leg_version_once s t tenant leg_id version h weight status id own later =
    let (l, found, moved) = ChangesLeg-Advanced s t tenant leg_id version h in
    let stale = eq_ℤ_iff l.version version in
    let ne = add64_one_ne version in
    (
      ground (arith, found, moved, stale, ne),
      ground (arith, found, moved, stale, ne),
      ground (arith, found, moved, stale, ne),
    )
