-- ===== src/Ledgers/Booking.antt =====
-- internal/booking/booking.go: weight reserved on legs by allocations. `ended` says whether the
-- context of the call is done; the id of an allocation and the clock readings are arguments.
use go_label.Base.{
  ◌≡◌, String, Bool, true, false, ◌||◌, none, some, List, arith, is_blank, str_eq, if◌then◌else◌,
  keep_if,
}
use go_label.Base.Results.{Result, ok, err, done, invalid, conflict, not_found, capacity, cancelled}
use go_label.Base.Int64.{ℤ, pos, ltb_ℤ, leb_ℤ, add64, sub64, sub64-add64, IsInt64}
use go_label.Base.Instants.{Time, before, zero_time}
use go_label.Base.Maps.{Map, lookup, insert, has, values, lookup-insert_self}
use go_label.Base.Sorting.{sort_by}

pub record Request : Type 0 where
  pub tenant_id : String
  pub shipment_id : String
  pub leg_id : String
  pub weight_kg : ℤ
  pub priority : ℤ
  pub requested_at : Time

pub record Allocation : Type 0 where
  pub id : String
  pub request : Request
  pub accepted : Bool
  pub reason : String
  pub created_at : Time

pub record Ledger : Type 0 where
  pub capacities : Map ℤ
  pub reserved : Map ℤ
  pub allocations : Map Allocation

abbrev zero_request : Request
zero_request = record {
  tenant_id = "";
  shipment_id = "";
  leg_id = "";
  weight_kg = pos 0;
  priority = pos 0;
  requested_at = zero_time;
}

abbrev zero_allocation : Allocation
zero_allocation = record {
  id = "";
  request = zero_request;
  accepted = false;
  reason = "";
  created_at = zero_time;
}

-- `m[k]` of a map of numbers.
abbrev pub amount_at : String → Map ℤ → ℤ
amount_at k m = elim (lookup k m) [ none ↦ pos 0 | some n ↦ n ]

unfoldable pub define_leg : Ledger → String → ℤ → Ledger × Result (Unit {0})
define_leg l id limit =
    if is_blank id || leb_ℤ limit (pos 0)
    then (l, err invalid)
    else if has id l.capacities
    then (l, err conflict)
    else (
      record l {
        capacities = insert id limit l.capacities;
        reserved = insert id (pos 0) l.reserved;
      },
      done,
    )

abbrev pub accepted_as : String → Request → Time → Allocation
accepted_as id r now = record {
  id = id;
  request = r;
  accepted = true;
  reason = "";
  created_at = now;
}

abbrev pub refused_as : Request → Time → Allocation
refused_as r now = record {
  id = "";
  request = r;
  accepted = false;
  reason = "capacity";
  created_at = now;
}

-- A refusal for want of capacity returns the allocation too.
unfoldable pub reserve :
    Bool → Ledger → Request → String → Time → Ledger × Allocation × Result (Unit {0})
reserve ended l r id now =
    if ended
    then (l, zero_allocation, err cancelled)
    else if is_blank r.leg_id || leb_ℤ r.weight_kg (pos 0)
    then (l, zero_allocation, err invalid)
    else elim (lookup r.leg_id l.capacities) [
      | none ↦ (l, zero_allocation, err not_found)
      | some limit ↦
          if ltb_ℤ limit (add64 (amount_at r.leg_id l.reserved) r.weight_kg)
          then (l, refused_as r now, err capacity)
          else (
            record l {
              reserved =
                  insert r.leg_id (add64 (amount_at r.leg_id l.reserved) r.weight_kg) l.reserved;
              allocations = insert id (accepted_as id r now) l.allocations;
            },
            accepted_as id r now,
            done,
          )
    ]

abbrev pub released : Allocation → Allocation
released a = record a { accepted = false; reason = "released" }

unfoldable pub release : Ledger → String → Ledger × Result (Unit {0})
release l id = elim (lookup id l.allocations) [
  | none ↦ (l, err not_found)
  | some a ↦
      if a.accepted
      then (
        record l {
          reserved =
              insert a.request.leg_id
                (sub64 (amount_at a.request.leg_id l.reserved) a.request.weight_kg) l.reserved;
          allocations = insert id (released a) l.allocations;
        },
        done,
      )
      else (l, done)
]

unfoldable pub available : Ledger → String → Result ℤ
available l id = elim (lookup id l.capacities) [
  | none ↦ err not_found
  | some limit ↦ ok (sub64 limit (amount_at id l.reserved))
]

unfoldable pub list : Ledger → String → List Allocation
list l tenant =
    sort_by (λ a b. before a.created_at b.created_at)
      (keep_if (λ a. str_eq a.request.tenant_id tenant) (values l.allocations))

-- What a successful reservation writes.
reserve_inv :
    (l t : Ledger) (r : Request) (id : String) (now : Time) (a : Allocation)
    → reserve false l r id now ≡ (t, a, done)
    → (a ≡ accepted_as id r now)
      × (t.capacities ≡ l.capacities)
      × (t.reserved
          ≡ insert r.leg_id (add64 (amount_at r.leg_id l.reserved) r.weight_kg) l.reserved)
      × (t.allocations ≡ insert id (accepted_as id r now) l.allocations)
unfolding reserve
reserve_inv l t r id now a h = (ground arith, ground arith, ground arith, ground arith)

-- After a reservation of the booking ledger has succeeded, releasing it succeeds and gives back
-- the weight that was available on the leg, and releasing it again changes nothing. It is asked
-- that the reserved weight and the weight of the request fit in an int64.
available-release-reserve :
    (l t : Ledger) (r : Request) (id : String) (now : Time) (a : Allocation)
    → IsInt64 (amount_at r.leg_id l.reserved)
    → IsInt64 r.weight_kg
    → reserve false l r id now ≡ (t, a, done)
    → ((release t id).1 ≡ done)
      × (available (release t id).0 r.leg_id ≡ available l r.leg_id)
      × (release (release t id).0 id ≡ ((release t id).0, done))
unfolding release available
available-release-reserve l t r id now a fits weight h =
    let (same, limits, weights, kept) = reserve_inv l t r id now a h in
    let first = accepted_as id r now in
    let stored : lookup id t.allocations ≡ some first =
      rw kept (lookup-insert_self id first l.allocations) in
    let old = amount_at r.leg_id l.reserved in
    let sum : lookup r.leg_id t.reserved ≡ some (add64 old r.weight_kg) =
      rw weights (lookup-insert_self r.leg_id (add64 old r.weight_kg) l.reserved) in
    let back = sub64-add64 old r.weight_kg fits weight in
    let once = lookup-insert_self r.leg_id (sub64 (add64 old r.weight_kg) r.weight_kg) t.reserved in
    let gone = lookup-insert_self id (released first) t.allocations in
    (ground arith, ground (arith, once, back), ground (arith, gone))
