-- ===== src/Memory/Examples.antt =====
-- The memory store at a concrete state: one draft shipment, one open leg, one user with a session,
-- and two events in the outbox.
use Prim.Native.Nat.{min}
use go_label.Base.{
  str_eq, Bool, ◌+◌, ◌≡◌, ◌↔◌, refl, inl, String, true, false, none, some, List, [], ◌∷◌, arith,
  All, length, count_if,
}
use go_label.Base.Results.{ok, err, conflict}
use go_label.Base.Int64.{pos, wrap64, ◌+ℤ◌}
use go_label.Base.Maps.{Each, lookup, insert, values}
use go_label.Domain.Types.{
  Role, User, Session, Shipment, ShipmentStatus, FlightLeg, LegStatus, OutboxEvent,
}
use go_label.Domain.Rules.{validate_capacity}
use go_label.Memory.State.{Store, new}
use go_label.Memory.Legs.{get_leg, reserve_capacity, book_shipment}
use go_label.Memory.Outbox.{is_claimable, claim}
use go_label.Memory.Steps.{Call}
use go_label.Memory.Capacity.{IsSafe, IsSafeLeg}
use go_label.Memory.Locking.{leg_version_once}
use go_label.Memory.Booking.{IsBookable, book_shipment_iff}
use go_label.Memory.Holding.{is_settled}
use go_label.Memory.Settling.{Happening, happen_all, happen_all-settles}
use go_label.Memory.Worker.{Published, tick, tick_publishes}
use go_label.Memory.Delivery.{claim_lem}

abbrev pub plain : String → String
plain token = token

abbrev pub operator : User
operator = record {
  id = "u-1";
  tenant_id = "tenant-demo";
  email = "ops@example.com";
  password_hash = [];
  role = Role.coordinator;
  active = true;
  created_at = 1;
  deactivated_at = none;
}

abbrev pub crate : Shipment
crate = record {
  id = "s-1";
  tenant_id = "tenant-demo";
  reference = "REF-1";
  origin = "PVG";
  destination = "FRA";
  weight_kg = pos 300;
  pieces = pos 2;
  status = ShipmentStatus.draft;
  leg_id = none;
  idempotency_key = "key-1";
  version = pos 1;
  created_at = 10;
  updated_at = 10;
}

abbrev pub leg : FlightLeg
leg = record {
  id = "leg-1";
  tenant_id = "tenant-demo";
  flight_number = "AB100";
  origin = "PVG";
  destination = "FRA";
  departure_at = 100;
  arrival_at = 200;
  capacity_kg = pos 1000;
  reserved_kg = pos 400;
  status = LegStatus.open_leg;
  version = pos 1;
  created_at = 0;
}

abbrev event : OutboxEvent
event = record {
  id = "e-1";
  tenant_id = "tenant-demo";
  topic = "booked";
  aggregate_id = "s-1";
  payload = [];
  attempts = pos 1;
  available_at = 5;
  claimed_at = none;
  published_at = none;
  last_error = "";
}

abbrev pub session : Session
session = record {
  id = "x-1";
  user_id = "u-1";
  token_hash = "token";
  expires_at = 90;
  revoked_at = none;
  created_at = 10;
}

abbrev pub stocked : Store
stocked = record new {
  users = ("u-1", operator) ∷ [];
  by_email = ("ops@example.com", "u-1") ∷ [];
  sessions = ("token", session) ∷ [];
  shipments = ("s-1", crate) ∷ [];
  legs = ("leg-1", leg) ∷ [];
  outbox = ("e-1", event) ∷ ("e-2", record event { id = "e-2"; available_at = 70 }) ∷ [];
}

pub new-IsSafe : IsSafe new
unfolding lookup
new-IsSafe = record {
  legs_safe = λ k l h. absurd (ground arith);
  weights_modest = λ k v h. absurd (ground arith);
}

abbrev history : List Call
history =
    Call.creates_leg leg
    ∷ Call.creates_shipment crate
    ∷ Call.books_shipment "tenant-demo" "s-1" "leg-1" (pos 1) (pos 1) 20
    ∷ []

pub leg-IsSafeLeg : IsSafeLeg leg
leg-IsSafeLeg = omega arith

abbrev after_reserve : Store
after_reserve = (reserve_capacity stocked "tenant-demo" "leg-1" (pos 50) (pos 1)).0

leg_version_once_example :
    reserve_capacity after_reserve "tenant-demo" "leg-1" (pos 60) (pos 1)
    ≡ (after_reserve, err conflict)
unfolding reserve_capacity get_leg lookup validate_capacity wrap64 ◌+ℤ◌
leg_version_once_example =
    (leg_version_once stocked after_reserve "tenant-demo" "leg-1" (pos 1) (inl (pos 50, refl))
      (pos 60) LegStatus.closed "s-1" (pos 1) 30).0

abbrev leg_with_crate : FlightLeg
leg_with_crate = record leg {
  reserved_kg = wrap64 (leg.reserved_kg +ℤ crate.weight_kg);
  version = wrap64 (leg.version +ℤ pos 1);
}

abbrev booked_crate : Shipment
booked_crate = record crate {
  status = ShipmentStatus.booked;
  leg_id = some "leg-1";
  updated_at = 20;
  version = wrap64 (crate.version +ℤ pos 1);
}

book_shipment_iff_example :
    (book_shipment stocked "tenant-demo" "s-1" "leg-1" (pos 1) (pos 1) 20 ≡ (
      record stocked {
        legs = insert "leg-1" leg_with_crate stocked.legs;
        shipments = insert "s-1" booked_crate stocked.shipments;
      },
      ok booked_crate,
    ))
    ↔ IsBookable "tenant-demo" crate leg (pos 1) (pos 1)
unfolding lookup
book_shipment_iff_example =
    book_shipment_iff stocked "tenant-demo" "s-1" "leg-1" (pos 1) (pos 1) 20 crate leg refl refl

claim_lem_example :
    (out : List OutboxEvent) × ((claim stocked 20 (pos 5)).1 ≡ ok out)
    × (length out ≡ min 5 (count_if (is_claimable 20) (values stocked.outbox)))
    × All (λ v. is_claimable 99 v ≡ false) out
    × (count_if (is_claimable 20) (values (claim stocked 20 (pos 5)).0.outbox) + length out
        ≡ count_if (is_claimable 20) (values stocked.outbox))
claim_lem_example = claim_lem stocked 20 99 5

abbrev alive : OutboxEvent → Bool
alive _ = false

tick_publishes_example :
    (out : List OutboxEvent) × (((claim stocked 20 (pos 20)).1 ≡ ok out)
      × All (Published 20 (tick alive "" stocked 20)) out)
tick_publishes_example = tick_publishes alive "" stocked 20 (λ d. refl) (refl, (refl, tt))

-- A tick in which the first event fails, a new event, and a tick in which all goes well.
abbrev happenings : List Happening
happenings =
    Happening.ticks (λ e. str_eq e.id "e-1") "context canceled" 10
    ∷ Happening.enqueues (record event { id = "e-3" })
    ∷ Happening.ticks (λ e. false) "" 80
    ∷ []

stocked_settled : Each (λ v. is_settled v ≡ true) stocked.outbox
unfolding lookup
stocked_settled k v found = ground arith

happen_all-settles_example : Each (λ v. is_settled v ≡ true) (happen_all stocked happenings).outbox
unfolding lookup
happen_all-settles_example =
    happen_all-settles stocked happenings (refl, (refl, tt)) (refl, (refl, tt)) stocked_settled
      (tt, (refl, (tt, tt)))
