-- ===== src/Ground/Examples.antt =====
-- Slots and vehicles at concrete values.
use go_label.Base.{◌*◌, ◌<◌, Bool, ◌≡◌, ◌≢◌, refl, false, List, [], ◌∷◌, arith}
use go_label.Base.Results.{ok, done}
use go_label.Base.Int64.{pos, wrap64, ◌+ℤ◌, ◌*ℤ◌}
use go_label.Base.Instants.{minute}
use go_label.Base.Sorting.{sort_by, insert_by}
use go_label.Base.Maps.{lookup, insert}
use go_label.Ground.Warehouse.{Slot, Booking, Calendar, add, book, cancel, overlaps}
use go_label.Ground.Spacing.{Call, run, run_never_overlaps}
use go_label.Ground.Warehouse
use go_label.Ground.Route
use go_label.Ground.Route.Journeys.{Explains, plan-Explains}
use go_label.Ground.Transport

abbrev dock : Slot
dock = record {
  id = "dock";
  terminal = "T1";
  zone = "A";
  max_kg = pos 1000;
  used_kg = pos 0;
  open_at = 10;
  close_at = 90;
}

abbrev first : Booking
first = record {
  id = "b-1";
  shipment_id = "s-1";
  slot_id = "dock";
  weight_kg = pos 300;
  start = 20;
  end = 30;
}

abbrev second : Booking
second = record first { id = "b-2"; start = 30; end = 40 }

abbrev overlapping : Booking
overlapping = record first { id = "b-3"; start = 25; end = 35 }

abbrev calls : List Call
calls =
    Call.adds dock
    ∷ Call.books false first
    ∷ Call.books false overlapping
    ∷ Call.books false second
    ∷ []

run_never_overlaps_example : overlaps first second ≡ false
unfolding run add book Warehouse.new lookup insert wrap64 ◌+ℤ◌
run_never_overlaps_example = run_never_overlaps calls "b-1" "b-2" first second refl refl refl

abbrev built : Calendar
built = record { slots = ("dock", dock) ∷ []; bookings = [] }

abbrev van : Transport.Vehicle
van = record {
  id = "van";
  registration = "R-1";
  carrier = "";
  max_kg = pos 900;
  available_from = 10;
  available_to = 90;
}

abbrev ride : Transport.Assignment
ride = record {
  id = "a-1";
  shipment_id = "s-1";
  vehicle_id = "van";
  weight_kg = pos 300;
  status = "";
  assigned_at = 0;
}

abbrev garage : Transport.Planner
garage = record { vehicles = ("van", van) ∷ []; assignments = [] }

abbrev driven : Transport.Planner
driven =
    Transport.run (Transport.assign false garage ride 20).0 (Transport.Call.completes "a-1" ∷ [])

assigned_vehicle_stays_taken_example :
    ((Transport.assign false driven (record ride { id = "a-2" }) 50).1 ≢ done)
    × ((Transport.assign false driven (record ride { id = "a-2" }) 50).0 ≡ driven)
unfolding Transport.assign lookup
assigned_vehicle_stays_taken_example =
    Transport.assigned_vehicle_stays_taken false false garage
      (Transport.assign false garage ride 20).0 ride (record ride { id = "a-2" }) 20 50
      (Transport.Call.completes "a-1" ∷ []) refl (tt, tt) refl

abbrev first_hop : Route.Segment
first_hop = record {
  from = "PVG";
  to = "FRA";
  depart = 10 * minute;
  arrive = 700 * minute;
  flight = "AB1";
  available_kg = pos 900;
}

abbrev next_hop : Route.Segment
next_hop = record first_hop {
  from = "FRA";
  to = "JFK";
  depart = 800 * minute;
  arrive = 1300 * minute;
}

abbrev frankfurt : Route.Hub
frankfurt = record {
  code = "FRA";
  timezone = "CET";
  open_at = pos 0;
  close_at = pos 1;
  handling_minutes = pos 60;
}

abbrev network : Route.Planner
network = record { hubs = ("FRA", frankfurt) ∷ []; segments = next_hop ∷ first_hop ∷ [] }

abbrev never : Route.Segment → Route.Segment → Bool
never _ _ = false

plan-Explains_example :
    Explains
      (λ s. s.depart < s.arrive)
      network
      "PVG"
      "JFK"
      (pos 300)
      0
      never
      (Route.starts network "PVG" (pos 300) 0)
      (Route.plan never network "s-1" "PVG" "JFK" (pos 300) 0)
plan-Explains_example =
    plan-Explains (λ s. s.depart < s.arrive) never network "s-1" "PVG" "JFK" (pos 300) 0
      (ground arith, (ground arith, tt))

one_stop :
    Route.plan never network "s-1" "PVG" "JFK" (pos 300) 0
    ≡ ok (Route.with_stop "s-1" first_hop next_hop)
unfolding Route.plan Route.try_first Route.find_second Route.connects Route.can_start lookup sort_by
    insert_by wrap64 ◌*ℤ◌
one_stop = refl
