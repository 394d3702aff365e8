-- ===== src/Postgres/Examples.antt =====
-- The store over tables at a concrete state: one tenant, a draft shipment and an open leg.
use go_label.Base.{◌*◌, ◌/◌, ◌≡◌, refl, true, none, some, List, [], ◌∷◌, arith}
use go_label.Base.Results.{ok, err, conflict, state}
use go_label.Base.Int64.{pos, ◌+ℤ◌}
use go_label.Base.Maps.{lookup, insert, Each}
use go_label.Domain.Types.{Shipment, FlightLeg, LegStatus}
use go_label.Domain.Rules.{leg_can_transition}
use go_label.Memory.State.{Store, new}
use go_label.Memory.Legs
use go_label.Memory.Capacity.{IsSafe}
use go_label.Memory.Examples.{plain, operator, crate, leg}
use go_label.Service.Repository.{memory}
use go_label.Service.Legs.{open_leg}
use go_label.Postgres.Tables.{Database}
use go_label.Postgres.Shipments.{shipment_row, create_shipment, insert_shipment}
use go_label.Postgres.Legs.{leg_row, book_shipment}
use go_label.Postgres.Repository.{postgres}
use go_label.Postgres.Capacity.{Call, run, IsWithin, run-IsWithin}
use go_label.Postgres.Divergence.{same_key_conflicts, open_leg-reopens, opened}
use go_label.Postgres.Agreement.{Represents, IsYoung, Agrees, book_shipment-Represents}

abbrev tables : Database
tables = record {
  down = none;
  column_time = λ t. 1000 * (t / 1000);
  tenants = "tenant-demo" ∷ [];
  users = [];
  sessions = [];
  shipments = [];
  legs = [];
  customs = [];
  security = [];
  audit = [];
  outbox = [];
}

abbrev history : List Call
history =
    Call.creates_leg leg
    ∷ Call.creates_shipment crate
    ∷ Call.books "tenant-demo" "s-1" "leg-1" (pos 1) (pos 1) 20
    ∷ []

none-IsWithin : Each IsWithin []
unfolding lookup
none-IsWithin k l h = absurd (ground arith)

run-IsWithin_example : Each IsWithin (run tables history).legs
run-IsWithin_example = run-IsWithin tables history (omega arith, (tt, (tt, tt))) none-IsWithin

abbrev keyless : Shipment
keyless = record crate { idempotency_key = "" }

abbrev with_keyless : Database
with_keyless = record tables { shipments = ("s-1", shipment_row tables keyless) ∷ [] }

same_key_conflicts_example :
    create_shipment with_keyless (record keyless { id = "s-2"; reference = "REF-2" })
    ≡ (with_keyless, err conflict)
unfolding create_shipment insert_shipment lookup insert
same_key_conflicts_example =
    same_key_conflicts tables with_keyless keyless
      (record keyless { id = "s-2"; reference = "REF-2" }) refl refl refl refl refl

abbrev departed : FlightLeg
departed = record leg { status = LegStatus.departed }

open_leg-reopens_example :
    ((open_leg
        (postgres plain (λ s t. true))
        (record tables { legs = ("leg-1", departed) ∷ [] })
        operator
        "leg-1").1
      ≡ ok (opened departed))
    × (lookup "leg-1"
          (open_leg
            (postgres plain (λ s t. true))
            (record tables { legs = ("leg-1", departed) ∷ [] })
            operator
            "leg-1").0.legs
        ≡ some (opened departed))
    × (open_leg (memory plain) (record new { legs = ("leg-1", departed) ∷ [] }) operator "leg-1"
        ≡ (record new { legs = ("leg-1", departed) ∷ [] }, err state))
unfolding lookup Legs.get_leg leg_can_transition ◌+ℤ◌
open_leg-reopens_example =
    open_leg-reopens plain (λ s t. true) (record new { legs = ("leg-1", departed) ∷ [] })
      (record tables { legs = ("leg-1", departed) ∷ [] }) operator "leg-1" departed refl refl refl
      refl refl (omega arith)

abbrev rows_db : Database
rows_db = record tables {
  shipments = ("s-1", shipment_row tables crate) ∷ [];
  legs = ("leg-1", leg_row tables leg) ∷ [];
}

abbrev rows_store : Store
rows_store = record new { shipments = ("s-1", crate) ∷ []; legs = ("leg-1", leg) ∷ [] }

rows_store-IsSafe : IsSafe rows_store
unfolding lookup
rows_store-IsSafe = record {
  legs_safe = λ k l h. ground arith;
  weights_modest = λ k v h. ground arith;
}

rows_store-IsYoung : IsYoung rows_store
unfolding lookup ◌+ℤ◌
rows_store-IsYoung = record { shipments = λ k v h. ground arith; legs = λ k l h. ground arith }

rows_db-Represents : Represents rows_db rows_store
unfolding lookup
rows_db-Represents = record {
  up = refl;
  shipment_rows = λ k. ground arith;
  leg_rows = λ k. ground arith;
}

book_shipment-Represents_example :
    Agrees
      (book_shipment rows_db "tenant-demo" "s-1" "leg-1" (pos 1) (pos 1) 20)
      (Legs.book_shipment rows_store "tenant-demo" "s-1" "leg-1" (pos 1) (pos 1) 20)
book_shipment-Represents_example =
    book_shipment-Represents rows_db rows_store "tenant-demo" "s-1" "leg-1" (pos 1) (pos 1) 20
      rows_db-Represents rows_store-IsSafe rows_store-IsYoung
