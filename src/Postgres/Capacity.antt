-- ===== src/Postgres/Capacity.antt =====
-- The legs of the database of internal/repository/postgres are never overbooked.
use go_label.Base.{
  ◌≡◌, ◌⊎◌, sym, subst, String, some, List, [], ◌∷◌, All, arith, inl, inr, Option-cases,
}
use go_label.Base.Results.{ok, Result-cases}
use go_label.Base.Int64.{ℤ, pos, ◌≤ℤ◌, ◌+ℤ◌, +ℤ_parts, wrap64_fits}
use go_label.Base.Instants.{Time}
use go_label.Base.Maps.{lookup, Each, Writes-Each}
use go_label.Domain.Types.{Shipment, FlightLeg, LegStatus}
use go_label.Domain.Rules.{validate_capacity}
use go_label.Postgres.Tables.{Database}
use go_label.Postgres.Shipments.{create_shipment, insert_shipment, update_shipment, select_shipment}
use go_label.Postgres.Legs.{
  create_leg, leg_row, reserve_capacity, update_leg_status, reserved, book_shipment, book_rows,
  write_booking,
}

pub record IsWithin (l : FlightLeg) : Type 0 where
  pub not_negative : pos 0 ≤ℤ l.reserved_kg
  pub within : l.reserved_kg ≤ℤ l.capacity_kg

-- The statements on shipments and legs.
pub data Call : Type 0 where
  creates_leg : FlightLeg → Call
  reserves : String → String → ℤ → ℤ → Call
  sets_status : String → String → LegStatus → ℤ → Call
  creates_shipment : Shipment → Call
  updates_shipment : Shipment → ℤ → Call
  books : String → String → String → ℤ → ℤ → Time → Call

unfoldable pub step : Database → Call → Database
step d (Call.creates_leg l) = (create_leg d l).0
step d (Call.reserves tenant id weight version) = (reserve_capacity d tenant id weight version).0
step d (Call.sets_status tenant id status version) =
    (update_leg_status d tenant id status version).0
step d (Call.creates_shipment v) = (create_shipment d v).0
step d (Call.updates_shipment v version) = (update_shipment d v version).0
step d (Call.books tenant id leg version leg_version at) =
    (book_shipment d tenant id leg version leg_version at).0

unfoldable pub run : Database → List Call → Database
run d [] = d
run d (c ∷ cs) = run (step d c) cs

-- A leg comes in with a reserved weight within its capacity.
abbrev pub BringsWithin : Call → Type 0
BringsWithin (Call.creates_leg l) = l.reserved_kg ≤ℤ l.capacity_kg
BringsWithin _ = Unit {0}

create_leg-Each :
    (d : Database) (l : FlightLeg)
    → l.reserved_kg ≤ℤ l.capacity_kg
    → Each IsWithin d.legs
    → Each IsWithin (create_leg d l).0.legs
unfolding create_leg
create_leg-Each d l m h = Writes-Each IsWithin l.id (leg_row d l) d.legs _ (ground arith) h

reserve-Each :
    (d : Database) (tenant id : String) (weight version : ℤ)
    → Each IsWithin d.legs
    → Each IsWithin (reserve_capacity d tenant id weight version).0.legs
unfolding reserve_capacity
reserve-Each d tenant id weight version h = elim (Option-cases (lookup id d.legs)) [
  | inl missing ↦ subst (Each IsWithin) {x = d.legs} (ground arith) h
  | inr (v, found) ↦
      Writes-Each IsWithin id (reserved v weight) d.legs _ (ground (arith, h id v found)) h
]

status-Each :
    (d : Database) (tenant id : String) (status : LegStatus) (version : ℤ)
    → Each IsWithin d.legs
    → Each IsWithin (update_leg_status d tenant id status version).0.legs
unfolding update_leg_status
status-Each d tenant id status version h = elim (Option-cases (lookup id d.legs)) [
  | inl missing ↦ subst (Each IsWithin) {x = d.legs} (ground arith) h
  | inr (v, found) ↦
      Writes-Each IsWithin id (record v { status = status; version = v.version +ℤ pos 1 }) d.legs _
        (ground (arith, h id v found)) h
]

-- The capacity check wraps at 64 bits, and the column refuses what would wrap.
write_booking-Each :
    (d : Database) (v : Shipment) (l : FlightLeg) (id leg : String) (at : Time)
    → validate_capacity l v.weight_kg ≡ ok tt
    → IsWithin l
    → Each IsWithin d.legs
    → Each IsWithin (write_booking d v l id leg at).0.legs
unfolding write_booking validate_capacity
write_booking-Each d v l id leg at room w h =
    Writes-Each IsWithin leg (reserved l v.weight_kg) d.legs _
      (ground
        (arith, wrap64_fits (l.reserved_kg +ℤ v.weight_kg), +ℤ_parts l.reserved_kg v.weight_kg))
      h

book_rows-Each :
    (d : Database) (v : Shipment) (l : FlightLeg) (id leg : String) (version leg_version : ℤ)
    (at : Time)
    → IsWithin l
    → Each IsWithin d.legs
    → Each IsWithin (book_rows d v l id leg version leg_version at).0.legs
unfolding book_rows
book_rows-Each d v l id leg version leg_version at w h =
    elim (Result-cases (validate_capacity l v.weight_kg)) [
      | inr (e, full) ↦ subst (Each IsWithin) {x = d.legs} (ground arith) h
      | inl (u, room) ↦ elim (rows_cases d v l id leg version leg_version at room) [
        | inl same ↦ subst (Each IsWithin) (sym same) h
        | inr written ↦
            subst (Each IsWithin) (sym written) (write_booking-Each d v l id leg at room w h)
      ]
    ]
  where
    rows_cases :
        (d : Database) (v : Shipment) (l : FlightLeg) (id leg : String) (version leg_version : ℤ)
        (at : Time)
        → validate_capacity l v.weight_kg ≡ ok tt
        → ((book_rows d v l id leg version leg_version at).0.legs ≡ d.legs)
          ⊎ ((book_rows d v l id leg version leg_version at).0.legs
              ≡ (write_booking d v l id leg at).0.legs)
    rows_cases d v l id leg version leg_version at room = ground arith

book-Each :
    (d : Database) (tenant id leg : String) (version leg_version : ℤ) (at : Time)
    → Each IsWithin d.legs
    → Each IsWithin (book_shipment d tenant id leg version leg_version at).0.legs
unfolding book_shipment
book-Each d tenant id leg version leg_version at h =
    elim (Option-cases (select_shipment d tenant id)) [
      | inl missing ↦ subst (Each IsWithin) {x = d.legs} (ground arith) h
      | inr (v, stored) ↦ elim (Option-cases (lookup leg d.legs)) [
        | inl missing ↦ subst (Each IsWithin) {x = d.legs} (ground arith) h
        | inr (l, found) ↦
            elim (booking_cases d tenant id leg version leg_version at v l stored found) [
              | inl same ↦ subst (Each IsWithin) (sym same) h
              | inr through ↦
                  subst (Each IsWithin) (sym through)
                    (book_rows-Each d v l id leg version leg_version at (h leg l found) h)
            ]
      ]
    ]
  where
    booking_cases :
        (d : Database) (tenant id leg : String) (version leg_version : ℤ) (at : Time) (v : Shipment)
        (l : FlightLeg)
        → select_shipment d tenant id ≡ some v
        → lookup leg d.legs ≡ some l
        → ((book_shipment d tenant id leg version leg_version at).0.legs ≡ d.legs)
          ⊎ ((book_shipment d tenant id leg version leg_version at).0.legs
              ≡ (book_rows d v l id leg version leg_version at).0.legs)
    booking_cases d tenant id leg version leg_version at v l stored found = ground arith

step-Each :
    (d : Database) (c : Call)
    → BringsWithin c
    → Each IsWithin d.legs
    → Each IsWithin (step d c).legs
unfolding step create_shipment insert_shipment update_shipment
step-Each d (Call.creates_leg l) m h = create_leg-Each d l m h
step-Each d (Call.reserves tenant id weight version) m h = reserve-Each d tenant id weight version h
step-Each d (Call.sets_status tenant id status version) m h =
    status-Each d tenant id status version h
step-Each d (Call.creates_shipment v) m h = subst (Each IsWithin) {x = d.legs} (ground arith) h
step-Each d (Call.updates_shipment v version) m h =
    subst (Each IsWithin) {x = d.legs} (ground arith) h
step-Each d (Call.books tenant id leg version leg_version at) m h =
    book-Each d tenant id leg version leg_version at h

-- Over any history of the statements of the database on shipments and legs, every leg keeps a
-- reserved weight between zero and its capacity, whatever the weights, when it does so at the
-- start and new legs come in with a reserved weight not above the capacity.
pub run-IsWithin :
    (d : Database) (cs : List Call)
    → All BringsWithin cs
    → Each IsWithin d.legs
    → Each IsWithin (run d cs).legs
unfolding run
run-IsWithin d [] m h = h
run-IsWithin d (c ∷ cs) m h = run-IsWithin (step d c) cs m.1 (step-Each d c m.0 h)
