-- ===== src/Ground/Transport.antt =====
-- internal/transport/assignment.go: vehicles and the shipments assigned to them. `ended` says
-- whether the context of the call is done.
use go_label.Base.{
  ◌≢◌, All, ◌≡◌, String, Bool, true, false, not, ◌||◌, ◌&&◌, none, some, List, [], ◌∷◌, arith,
  is_blank, str_eq, if◌then◌else◌, any, keep_if, inl, inr, Option-cases, Bool-cases, eq_iff,
  eq_refl,
}
use go_label.Base.Results.{
  Result, ok, err, done, invalid, conflict, not_found, capacity, cancelled, state,
}
use go_label.Base.Int64.{ℤ, pos, ltb_ℤ, leb_ℤ}
use go_label.Base.Instants.{Time, before, after}
use go_label.Base.Maps.{Map, lookup, insert, has, values, lookup-insert, lookup-insert_self}
use go_label.Base.Sorting.{sort_by}

pub record Vehicle : Type 0 where
  pub id : String
  pub registration : String
  pub carrier : String
  pub max_kg : ℤ
  pub available_from : Time
  pub available_to : Time

pub record Assignment : Type 0 where
  pub id : String
  pub shipment_id : String
  pub vehicle_id : String
  pub weight_kg : ℤ
  pub status : String
  pub assigned_at : Time

pub record Planner : Type 0 where
  pub vehicles : Map Vehicle
  pub assignments : Map Assignment

unfoldable pub new : Planner
new = record { vehicles = []; assignments = [] }

unfoldable pub add_vehicle : Planner → Vehicle → Planner × Result (Unit {0})
add_vehicle p v =
    if is_blank v.id
      || (is_blank v.registration
          || (leb_ℤ v.max_kg (pos 0) || not (after v.available_to v.available_from)))
    then (p, err invalid)
    else if has v.id p.vehicles
    then (p, err conflict)
    else (record p { vehicles = insert v.id v p.vehicles }, done)

-- The test of the loop of Assign.
unfoldable pub occupies : String → Assignment → Bool
occupies vehicle old = str_eq old.vehicle_id vehicle && not (str_eq old.status "cancelled")

abbrev pub assigned_at_time : Assignment → Time → Assignment
assigned_at_time a at = record a { status = "assigned"; assigned_at = at }

unfoldable pub assign : Bool → Planner → Assignment → Time → Planner × Result (Unit {0})
assign ended p a at =
    if ended
    then (p, err cancelled)
    else if is_blank a.id
        || (is_blank a.shipment_id || (is_blank a.vehicle_id || leb_ℤ a.weight_kg (pos 0)))
    then (p, err invalid)
    else elim (lookup a.vehicle_id p.vehicles) [
      | none ↦ (p, err not_found)
      | some v ↦
          if ltb_ℤ v.max_kg a.weight_kg
            || (before at v.available_from || not (before at v.available_to))
          then (p, err capacity)
          else if any (occupies a.vehicle_id) (values p.assignments)
          then (p, err conflict)
          else (record p { assignments = insert a.id (assigned_at_time a at) p.assignments }, done)
    ]

unfoldable pub complete : Planner → String → Planner × Result (Unit {0})
complete p id = elim (lookup id p.assignments) [
  | none ↦ (p, err not_found)
  | some a ↦ if not (str_eq a.status "assigned") then (p, err state) else (
    record p { assignments = insert id (record a { status = "completed" }) p.assignments },
    done,
  )
]

unfoldable pub list : Planner → String → List Assignment
list p vehicle =
    sort_by (λ a b. before a.assigned_at b.assigned_at)
      (keep_if (λ a. is_blank vehicle || str_eq a.vehicle_id vehicle) (values p.assignments))

unfoldable pub describe : Planner → String → Result Assignment
describe p id = elim (lookup id p.assignments) [ none ↦ err not_found | some a ↦ ok a ]

pub data Call : Type 0 where
  adds : Vehicle → Call
  assigns : Bool → Assignment → Time → Call
  completes : String → Call

unfoldable pub step : Planner → Call → Planner
step p (Call.adds v) = (add_vehicle p v).0
step p (Call.assigns ended a at) = (assign ended p a at).0
step p (Call.completes id) = (complete p id).0

unfoldable pub run : Planner → List Call → Planner
run p [] = p
run p (c ∷ cs) = run (step p c) cs

-- Calls that do not use the id of an assignment for another one.
abbrev pub Spares : String → Call → Type 0
Spares id (Call.adds v) = Unit {0}
Spares id (Call.assigns ended a at) = str_eq a.id id ≡ false
Spares id (Call.completes other) = Unit {0}

-- The assignment under an id occupies the vehicle.
abbrev Holds : String → String → Planner → Type 0
Holds id vehicle p =
    (a : Assignment) × ((lookup id p.assignments ≡ some a) × (occupies vehicle a ≡ true))

any-lookup :
    (t : Assignment → Bool) (m : Map Assignment) (k : String) (v : Assignment)
    → lookup k m ≡ some v
    → t v ≡ true
    → any t (values m) ≡ true
unfolding lookup
any-lookup t [] k v f h = ground arith
any-lookup t ((j, w) ∷ m) k v f h = ground (arith, any-lookup t m k v)

complete-Holds :
    (p : Planner) (id vehicle other : String)
    → Holds id vehicle p
    → Holds id vehicle (complete p other).0
unfolding complete occupies
complete-Holds p id vehicle other (a, (found, occupied)) =
    elim (Bool-cases (str_eq other id && str_eq a.status "assigned")) [
      | inl changes ↦ (
        record a { status = "completed" },
        (
          ground (
            arith,
            eq_iff other id,
            lookup-insert_self id (record a { status = "completed" }) p.assignments,
          ),
          ground arith,
        ),
      )
      | inr stays ↦ (
        a,
        (
          elim (Option-cases (lookup other p.assignments)) [
            | inl missing ↦ ground arith
            | inr (b, known) ↦ ground (
              arith,
              eq_iff other id,
              lookup-insert other id (record b { status = "completed" }) p.assignments,
            )
          ],
          occupied,
        ),
      )
    ]

step-Holds :
    (p : Planner) (id vehicle : String) (c : Call)
    → Spares id c
    → Holds id vehicle p
    → Holds id vehicle (step p c)
unfolding step add_vehicle assign
step-Holds p id vehicle (Call.adds v) s (a, (found, occupied)) = (a, (ground arith, occupied))
step-Holds p id vehicle (Call.assigns ended b at) s (a, (found, occupied)) =
    (a, (ground (arith, lookup-insert b.id id (assigned_at_time b at) p.assignments), occupied))
step-Holds p id vehicle (Call.completes other) s h = complete-Holds p id vehicle other h

run-Holds :
    (p : Planner) (id vehicle : String) (cs : List Call)
    → All (Spares id) cs
    → Holds id vehicle p
    → Holds id vehicle (run p cs)
unfolding run
run-Holds p id vehicle [] s h = h
run-Holds p id vehicle (c ∷ cs) s h =
    run-Holds (step p c) id vehicle cs s.1 (step-Holds p id vehicle c s.0 h)

assign-Holds :
    (ended : Bool) (p t : Planner) (a : Assignment) (at : Time)
    → assign ended p a at ≡ (t, done)
    → Holds a.id a.vehicle_id t
unfolding assign occupies
assign-Holds ended p t a at h =
    let written : t.assignments ≡ insert a.id (assigned_at_time a at) p.assignments =
      ground arith in
    (
      assigned_at_time a at,
      (
        rw written (lookup-insert_self a.id (assigned_at_time a at) p.assignments),
        ground (arith, eq_refl a.vehicle_id),
      ),
    )

-- After a vehicle has been assigned, and whatever calls follow, completions included, that do not
-- assign anything under the same id again, every further assignment of the vehicle is refused and
-- changes nothing.
pub assigned_vehicle_stays_taken :
    (ended later : Bool) (p t : Planner) (a b : Assignment) (at next : Time) (cs : List Call)
    → assign ended p a at ≡ (t, done)
    → All (Spares a.id) cs
    → str_eq b.vehicle_id a.vehicle_id ≡ true
    → ((assign later (run t cs) b next).1 ≢ done) × ((assign later (run t cs) b next).0 ≡ run t cs)
unfolding assign
assigned_vehicle_stays_taken ended later p t a b at next cs h spare same =
    let (c, (found, occupied)) =
      run-Holds t a.id a.vehicle_id cs spare (assign-Holds ended p t a at h) in
    let taken = any-lookup (occupies a.vehicle_id) (run t cs).assignments a.id c found occupied in
    (
      ground (arith, eq_iff b.vehicle_id a.vehicle_id),
      ground (arith, eq_iff b.vehicle_id a.vehicle_id),
    )
