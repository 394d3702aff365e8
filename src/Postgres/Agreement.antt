-- ===== src/Postgres/Agreement.antt =====
-- Where the store of internal/repository/postgres does what the memory store does: a booking.
use mathlib.Core.Option
use go_label.Base.{◌≡◌, ◌⊎◌, subst, sym, String, none, arith, inl, inr, Option-cases, refl}
use go_label.Base.Results.{Result, ok, err}
use go_label.Base.Int64.{ℤ, pos, ◌+ℤ◌, +ℤ_parts, ◌≤ℤ◌, ◌<ℤ◌, IsInt64, wrap64_fits}
use go_label.Base.Instants.{Time}
use go_label.Base.Maps.{Map, lookup, insert, lookup-insert, Each}
use go_label.Domain.Types.{Shipment, FlightLeg}
use go_label.Domain.Rules.{validate_capacity}
use go_label.Memory.State.{Store}
use go_label.Memory.Legs
use go_label.Memory.Capacity.{IsSafe, IsSafeLeg, IsModest}
use go_label.Postgres.Tables.{Database}
use go_label.Postgres.Shipments.{shipment_row}
use go_label.Postgres.Legs.{book_shipment, book_rows, write_booking, leg_row, reserved, booked_row}

-- The first map holds what the columns make of the values of the second.
abbrev pub HasRows {ℓ} : {V : Type ℓ} → (V → V) → Map V → Map V → Type ℓ
HasRows row m n = (k : String) → lookup k m ≡ Option.map row (lookup k n)

-- The database that runs, and holds the rows of the shipments and legs of a memory store.
pub record Represents (d : Database) (s : Store) : Type 0 where
  pub up : d.down ≡ none
  pub shipment_rows : HasRows (shipment_row d) d.shipments s.shipments
  pub leg_rows : HasRows (leg_row d) d.legs s.legs

-- A shipment whose creation time has been read from its column.
abbrev pub read_created : Database → Result Shipment → Result Shipment
read_created d (err e) = err e
read_created d (ok v) = ok (record v { created_at = d.column_time v.created_at })

-- Versions that can still be advanced.
pub record IsYoung (s : Store) : Type 0 where
  pub shipments : Each (λ v. IsInt64 (v.version +ℤ pos 1)) s.shipments
  pub legs : Each (λ l. IsInt64 (l.version +ℤ pos 1)) s.legs

HasRows-insert {ℓ} :
    {V : Type ℓ} (row : V → V) (k : String) (v : V) (m n : Map V)
    → HasRows row m n
    → HasRows row (insert k (row v) m) (insert k v n)
HasRows-insert row k v m n h j =
    ground (arith, lookup-insert k j (row v) m, lookup-insert k j v n, h j)

-- Both stores after a booking: as they were, or with the rows of the same two values.
abbrev BothBook :
    Database → Store → Shipment → FlightLeg → String → String → Time → Database → Store → Type 0
BothBook d s v l id leg at d' s' =
    ((d' ≡ d) × (s' ≡ s))
    ⊎ ((d' ≡ record d {
      legs = insert leg (leg_row d (Legs.reserved l v.weight_kg)) d.legs;
      shipments = insert id (shipment_row d (Legs.booked v leg at)) d.shipments;
    })
        × (s' ≡ record s {
          legs = insert leg (Legs.reserved l v.weight_kg) s.legs;
          shipments = insert id (Legs.booked v leg at) s.shipments;
        }))

-- The bigint columns hold what the int64 fields hold, where nothing wraps.
row_agrees :
    (d : Database) (v : Shipment) (l : FlightLeg) (leg : String) (at : Time)
    → IsInt64 (l.reserved_kg +ℤ v.weight_kg)
    → IsInt64 (l.version +ℤ pos 1)
    → IsInt64 (v.version +ℤ pos 1)
    → (reserved (leg_row d l) v.weight_kg ≡ leg_row d (Legs.reserved l v.weight_kg))
      × (booked_row (shipment_row d v) leg (d.column_time at)
          ≡ shipment_row d (Legs.booked v leg at))
unfolding Legs.reserved Legs.booked
row_agrees d v l leg at weight legs shipments = (
  ground (arith, wrap64_fits (l.reserved_kg +ℤ v.weight_kg), wrap64_fits (l.version +ℤ pos 1)),
  ground (arith, wrap64_fits (v.version +ℤ pos 1)),
)

-- What a passed capacity check means on a safe leg.
passed_check :
    (l : FlightLeg) (weight : ℤ)
    → IsSafeLeg l
    → IsModest weight
    → validate_capacity l weight ≡ ok tt
    → IsInt64 (l.reserved_kg +ℤ weight)
      × (pos 0 ≤ℤ l.reserved_kg +ℤ weight)
      × (pos 0 <ℤ l.capacity_kg)
unfolding validate_capacity
passed_check l weight h m passed =
    ground (arith, wrap64_fits (l.reserved_kg +ℤ weight), +ℤ_parts l.reserved_kg weight)

-- The two UPDATEs write the rows of the memory store when every column holds its number.
write_booking_fits :
    (d : Database) (v : Shipment) (l : FlightLeg) (id leg : String) (at : Time)
    → IsInt64 (l.reserved_kg +ℤ v.weight_kg)
    → IsInt64 (l.version +ℤ pos 1)
    → IsInt64 (v.version +ℤ pos 1)
    → pos 0 ≤ℤ l.reserved_kg +ℤ v.weight_kg
    → pos 0 <ℤ l.capacity_kg
    → write_booking d (shipment_row d v) (leg_row d l) id leg at ≡ (
      record d {
        legs = insert leg (leg_row d (Legs.reserved l v.weight_kg)) d.legs;
        shipments = insert id (shipment_row d (Legs.booked v leg at)) d.shipments;
      },
      read_created d (ok (Legs.booked v leg at)),
    )
unfolding write_booking Legs.booked
write_booking_fits d v l id leg at weight legs shipments low capacity =
    let rows = row_agrees d v l leg at weight legs shipments in ground (arith, rows.0, rows.1)

-- The fields that the guards of BookShipment read are the same in a value and in its row.
record SameGuards (v w : Shipment) (l m : FlightLeg) : Type 0 where
  version : w.version ≡ v.version
  leg_version : m.version ≡ l.version
  status : w.status ≡ v.status
  leg_status : m.status ≡ l.status
  origin : w.origin ≡ v.origin
  leg_origin : m.origin ≡ l.origin
  destination : w.destination ≡ v.destination
  leg_destination : m.destination ≡ l.destination
  room : validate_capacity m w.weight_kg ≡ validate_capacity l v.weight_kg

guarded_alike :
    (d : Database) (s : Store) (v w : Shipment) (l m : FlightLeg) (id leg : String) (sv lv : ℤ)
    (at : Time)
    → SameGuards v w l m
    → (validate_capacity l v.weight_kg ≡ ok tt
        → write_booking d w m id leg at ≡ (
          record d {
            legs = insert leg (leg_row d (Legs.reserved l v.weight_kg)) d.legs;
            shipments = insert id (shipment_row d (Legs.booked v leg at)) d.shipments;
          },
          read_created d (ok (Legs.booked v leg at)),
        ))
    → ((book_rows d w m id leg sv lv at).1
        ≡ read_created d (Legs.book_on_leg s v l id leg sv lv at).1)
      × BothBook d s v l id leg at
          (book_rows d w m id leg sv lv at).0
          (Legs.book_on_leg s v l id leg sv lv at).0
unfolding book_rows Legs.book_on_leg
guarded_alike d s v w l m id leg sv lv at g writes = ground (
  arith, g.version, g.leg_version, g.status, g.leg_status, g.origin, g.leg_origin, g.destination,
  g.leg_destination, g.room,
)

book_rows-BothBook :
    (d : Database) (s : Store) (v : Shipment) (l : FlightLeg) (id leg : String) (sv lv : ℤ)
    (at : Time)
    → IsSafeLeg l
    → IsModest v.weight_kg
    → IsInt64 (l.version +ℤ pos 1)
    → IsInt64 (v.version +ℤ pos 1)
    → ((book_rows d (shipment_row d v) (leg_row d l) id leg sv lv at).1
        ≡ read_created d (Legs.book_on_leg s v l id leg sv lv at).1)
      × BothBook d s v l id leg at
          (book_rows d (shipment_row d v) (leg_row d l) id leg sv lv at).0
          (Legs.book_on_leg s v l id leg sv lv at).0
unfolding validate_capacity
book_rows-BothBook d s v l id leg sv lv at h m legs shipments =
    guarded_alike d s v (shipment_row d v) l (leg_row d l) id leg sv lv at
      record {
        version = refl;
        leg_version = refl;
        status = refl;
        leg_status = refl;
        origin = refl;
        leg_origin = refl;
        destination = refl;
        leg_destination = refl;
        room = refl;
      }
      (λ passed.
        let (weight, low, capacity) = passed_check l v.weight_kg h m passed in
        write_booking_fits d v l id leg at weight legs shipments low capacity)

BothBook-Represents :
    (d : Database) (s : Store) (v : Shipment) (l : FlightLeg) (id leg : String) (at : Time)
    {d' : Database} {s' : Store}
    → Represents d s
    → BothBook d s v l id leg at d' s'
    → Represents d' s'
BothBook-Represents d s v l id leg at r (inl same) =
    subst (λ (x : Database × Store). Represents x.0 x.1) (λ i. (sym same.0 i, sym same.1 i)) r
BothBook-Represents d s v l id leg at r (inr wrote) =
    subst (λ (x : Database × Store). Represents x.0 x.1) (λ i. (sym wrote.0 i, sym wrote.1 i))
      record {
        up = r.up;
        shipment_rows =
            HasRows-insert (shipment_row d) id (Legs.booked v leg at) d.shipments s.shipments
              r.shipment_rows;
        leg_rows =
            HasRows-insert (leg_row d) leg (Legs.reserved l v.weight_kg) d.legs s.legs r.leg_rows;
      }

-- The results are the same but for the column of the creation time, and the states still agree.
abbrev pub Agrees : Database × Result Shipment → Store × Result Shipment → Type 0
Agrees p q = (p.1 ≡ read_created p.0 q.1) × Represents p.0 q.0

-- While the database runs and holds the shipments and legs of a memory store, their times as the
-- columns keep them, a booking in the database and in the memory store give the same result, but
-- for a creation time as its column keeps it, and afterwards the database again holds what the
-- memory store holds, the time of the booking as its column keeps it. It is asked that in the
-- memory store the reserved weights are between zero and the capacities, capacities and shipment
-- weights are below 2^62, and versions can be advanced without wrapping.
pub book_shipment-Represents :
    (d : Database) (s : Store) (tenant id leg : String) (sv lv : ℤ) (at : Time)
    → Represents d s
    → IsSafe s
    → IsYoung s
    → Agrees (book_shipment d tenant id leg sv lv at) (Legs.book_shipment s tenant id leg sv lv at)
unfolding book_shipment Legs.book_shipment Legs.get_leg
book_shipment-Represents d s tenant id leg sv lv at r safe young =
    elim (Option-cases (lookup id s.shipments)) [
      | inl no_shipment ↦ ground (arith, r.up, r.shipment_rows id)
      | inr (v, found) ↦ elim (Option-cases (lookup leg s.legs)) [
        | inl no_leg ↦ ground (arith, r.up, r.shipment_rows id, r.leg_rows leg)
        | inr (l, leg_found) ↦
            let both =
              book_rows-BothBook d s v l id leg sv lv at (safe.legs_safe leg l leg_found)
                (safe.weights_modest id v found) (young.legs leg l leg_found)
                (young.shipments id v found) in
            let agree = BothBook-Represents d s v l id leg at r both.1 in
            ground (arith, r.up, r.shipment_rows id, r.leg_rows leg, both.0, agree)
      ]
    ]
