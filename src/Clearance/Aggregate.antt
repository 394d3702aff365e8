-- ===== src/Clearance/Aggregate.antt =====
-- internal/aggregate/aggregate.go: shipments with a log of their states, under a version.
use go_label.Base.{
  ◌≤◌, ◌+◌, length, length-append, ◌≡◌, refl, String, true, not, ◌||◌, ◌&&◌, none, some, List, [],
  ◌∷◌, ◌++◌, map, append-nil, append_assoc, ◌⊎◌, ◌∙◌, sym, arith, is_blank, str_eq, if◌then◌else◌,
  inl, inr, Option-cases, Bool-cases, eq_iff,
}
use go_label.Base.Results.{Result, ok, err, done, invalid, conflict, not_found, state}
use go_label.Base.Int64.{ℤ, pos, eq_ℤ, ltb_ℤ, add64}
use go_label.Base.Maps.{Map, lookup, insert, has, lookup-insert, lookup-insert_self}
use go_label.Domain.Types.{ShipmentStatus}
use go_label.Domain.Types.ShipmentStatus.{
  draft, booked, screening, cleared, loaded, departed, cancelled, unknown,
}
use go_label.Domain.Rules.{shipment_can_transition}
use go_label.Domain.Transitions.{Follows, transitions_bounded}

pub record Shipment : Type 0 where
  pub id : String
  pub status : ShipmentStatus
  pub version : ℤ
  pub events : List String

-- `string(status)`.
abbrev pub status_text : ShipmentStatus → String
status_text draft = "draft"
status_text booked = "booked"
status_text screening = "screening"
status_text cleared = "cleared"
status_text loaded = "loaded"
status_text departed = "departed"
status_text cancelled = "cancelled"
status_text (unknown s) = s

unfoldable pub create : Map Shipment → Shipment → Map Shipment × Result (Unit {0})
create m v =
    if is_blank v.id || ltb_ℤ v.version (pos 1)
    then (m, err invalid)
    else if has v.id m
    then (m, err conflict)
    else (insert v.id v m, done)

abbrev pub moved : Shipment → ShipmentStatus → Shipment
moved v next = record v {
  status = next;
  version = add64 v.version (pos 1);
  events = v.events ++ status_text next ∷ [];
}

unfoldable pub transition :
    Map Shipment → String → ShipmentStatus → ℤ → Map Shipment × Result (Unit {0})
transition m id next version = elim (lookup id m) [
  | none ↦ (m, err not_found)
  | some v ↦
      if not (eq_ℤ v.version version)
      then (m, err conflict)
      else if not (shipment_can_transition v.status next)
      then (m, err state)
      else (insert id (moved v next) m, done)
]

unfoldable pub get : Map Shipment → String → Result Shipment
get m id = elim (lookup id m) [ none ↦ err not_found | some v ↦ ok v ]

pub data Call : Type 0 where
  creates : Shipment → Call
  transitions : String → ShipmentStatus → ℤ → Call

unfoldable pub run : Map Shipment → List Call → Map Shipment
run m [] = m
run m (Call.creates v ∷ cs) = run (create m v).0 cs
run m (Call.transitions id next version ∷ cs) = run (transition m id next version).0 cs

-- A shipment after a call: it stays, or makes a move that the table has.
abbrev Stays : String → Shipment → Map Shipment → Type 0
Stays id v m =
    (lookup id m ≡ some v)
    ⊎ ((next : ShipmentStatus) × (shipment_can_transition v.status next ≡ true)
        × (lookup id m ≡ some (moved v next)))

create-stays :
    (m : Map Shipment) (id : String) (v w : Shipment)
    → lookup id m ≡ some v
    → lookup id (create m w).0 ≡ some v
unfolding create
create-stays m id v w h = ground (arith, lookup-insert w.id id w m, eq_iff w.id id)

transition-Stays :
    (m : Map Shipment) (id : String) (v : Shipment) (at : String) (next : ShipmentStatus)
    (version : ℤ)
    → lookup id m ≡ some v
    → Stays id v (transition m at next version).0
unfolding transition
transition-Stays m id v at next version h = elim (Bool-cases (str_eq at id)) [
  | inl same ↦ elim (Bool-cases (eq_ℤ v.version version && shipment_can_transition v.status next)) [
    | inl moves ↦
        inr
          (next, ground arith, ground (arith, eq_iff at id, lookup-insert_self id (moved v next) m))
    | inr blocked ↦ inl (ground (arith, eq_iff at id))
  ]
  | inr differ ↦ inl (elim (Option-cases (lookup at m)) [
    | inl missing ↦ ground arith
    | inr (w, found) ↦ ground (arith, lookup-insert at id (moved w next) m)
  ])
]

-- How a shipment got from one record to another.
pub record Log (v w : Shipment) : Type 0 where
  pub path : List ShipmentStatus
  pub logged : w.events ≡ v.events ++ map status_text path
  pub follows : Follows shipment_can_transition v.status path w.status

Log-step :
    (v w : Shipment) (next : ShipmentStatus)
    → shipment_can_transition v.status next ≡ true
    → Log (moved v next) w
    → Log v w
Log-step v w next h l = record {
  path = next ∷ l.path;
  logged = l.logged ∙ append_assoc v.events (status_text next ∷ []) (map status_text l.path);
  follows = (h, l.follows);
}

run-Log :
    (m : Map Shipment) (cs : List Call) (id : String) (v : Shipment)
    → lookup id m ≡ some v
    → (w : Shipment) × ((get (run m cs) id ≡ ok w) × Log v w)
unfolding run get
run-Log m [] id v h =
    (v, (ground arith, record { path = []; logged = sym (append-nil v.events); follows = refl }))
run-Log m (Call.creates u ∷ cs) id v h = run-Log (create m u).0 cs id v (create-stays m id v u h)
run-Log m (Call.transitions at next version ∷ cs) id v h =
    elim (transition-Stays m id v at next version h) [
      | inl same ↦ run-Log (transition m at next version).0 cs id v same
      | inr (to, allowed, changed) ↦
          let (w, (found, l)) =
            run-Log (transition m at next version).0 cs id (moved v to) changed in
          (w, (found, Log-step v w to allowed l))
    ]

length-map_text : (path : List ShipmentStatus) → length (map status_text path) ≡ length path
length-map_text [] = ground arith
length-map_text (s ∷ path) = ground (arith, length-map_text path)

-- Over any history of Create and Transition calls, a stored aggregate shipment stays stored, the
-- texts added to its event log are those of a path of the transition table from its old status to
-- its new one, and they are at most five.
pub run_logs_transitions :
    (m : Map Shipment) (cs : List Call) (id : String) (v : Shipment)
    → lookup id m ≡ some v
    → (w : Shipment) × ((get (run m cs) id ≡ ok w)
        × (Log v w × (length w.events ≤ length v.events + 5)))
run_logs_transitions m cs id v h =
    let (w, (found, l)) = run-Log m cs id v h in
    let few = transitions_bounded v.status w.status l.path l.follows in
    (
      w,
      (
        found,
        (
          l,
          rw l.logged (
              omega (
                arith,
                few,
                length-append v.events (map status_text l.path),
                length-map_text l.path,
              )),
        ),
      ),
    )
