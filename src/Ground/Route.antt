-- ===== src/Ground/Route.antt =====
-- internal/route/planner.go: hubs, the segments flown between them, and plans of one or two
-- segments. Minutes, a division of floats in the source, are a division that drops the rest: the two
-- agree on spans of up to 91 days.
mod Starts
pub mod Journeys
use go_label.Base.{
  length, ◌≢◌, sym, ◌⊎◌, subst, ◌≡◌, ◌≤◌, ◌-◌, ◌/◌, ◌<◌, refl, String, Bool, true, false, not, ◌||◌,
  ◌&&◌, none, some, Option, List, [], ◌∷◌, ◌++◌, arith, is_blank, str_eq, if◌then◌else◌, keep_if,
  All, inl, inr, Option-cases, Bool-cases, eq_iff,
}
use go_label.Base.Results.{
  Result, ok, err, done, Error, invalid, conflict, not_found, cancelled, other, forbidden, expired,
  revoked, capacity, state,
}
use go_label.Base.Int64.{ℤ, pos, ltb_ℤ, leb_ℤ, mul64, ◌≤ℤ◌}
use go_label.Base.Instants.{Time, before, after, add_duration, minute}
use go_label.Base.Maps.{Map, lookup, insert, has}
use go_label.Base.Sorting.{sort_by, sort_by-All, length-sort_by}

pub record Hub : Type 0 where
  pub code : String
  pub timezone : String
  pub open_at : ℤ
  pub close_at : ℤ
  pub handling_minutes : ℤ

pub record Segment : Type 0 where
  pub from : String
  pub to : String
  pub depart : Time
  pub arrive : Time
  pub flight : String
  pub available_kg : ℤ

pub record Plan : Type 0 where
  pub shipment_id : String
  pub segments : List Segment
  pub total_minutes : ℤ
  pub total_stops : ℤ

pub record Planner : Type 0 where
  pub hubs : Map Hub
  pub segments : List Segment

unfoldable pub new : Planner
new = record { hubs = []; segments = [] }

unfoldable pub add_hub : Planner → Hub → Planner × Result (Unit {0})
add_hub p h =
    if is_blank h.code || (ltb_ℤ h.handling_minutes (pos 0) || leb_ℤ h.close_at h.open_at)
    then (p, err invalid)
    else if has h.code p.hubs
    then (p, err conflict)
    else (record p { hubs = insert h.code h p.hubs }, done)

unfoldable pub add_segment : Planner → Segment → Planner × Result (Unit {0})
add_segment p s =
    if is_blank s.from
      || (is_blank s.to
          || (str_eq s.from s.to
              || (not (after s.arrive s.depart) || ltb_ℤ s.available_kg (pos 0))))
    then (p, err invalid)
    else if not (has s.from p.hubs)
    then (p, err not_found)
    else if not (has s.to p.hubs)
    then (p, err not_found)
    else (record p { segments = p.segments ++ s ∷ [] }, done)

-- `int(end.Sub(start).Minutes())` of an end that is not before the start.
abbrev pub minutes_between : Time → Time → ℤ
minutes_between start end = pos ((end - start) / minute)

-- `p.hubs[code].HandlingMinutes`.
abbrev handling_at : String → Map Hub → ℤ
handling_at code hubs = elim (lookup code hubs) [ none ↦ pos 0 | some h ↦ h.handling_minutes ]

-- The test of the first loop of Plan.
unfoldable pub can_start : String → ℤ → Time → Segment → Bool
can_start from weight earliest s =
    str_eq s.from from && (leb_ℤ weight s.available_kg && not (before s.depart earliest))

-- When a shipment that came in on a segment has been handled.
abbrev pub ready_at : Map Hub → Segment → Time
ready_at hubs first = add_duration first.arrive (mul64 (handling_at first.to hubs) (pos minute))

-- The test of the inner loop of Plan.
unfoldable pub connects : Map Hub → String → ℤ → Segment → Segment → Bool
connects hubs to weight first second =
    str_eq second.from first.to
    && (str_eq second.to to
        && (after second.depart (ready_at hubs first) && leb_ℤ weight second.available_kg))

-- The inner loop of Plan. `ended` says whether the context is done when a pair is looked at.
unfoldable pub find_second :
    (Segment → Segment → Bool)
    → Map Hub
    → String
    → ℤ
    → Segment
    → List Segment
    → Result (Option Segment)
find_second ended hubs to weight first [] = ok none
find_second ended hubs to weight first (second ∷ rest) = elim (ended first second) [
  | true ↦ err cancelled
  | false ↦ elim (connects hubs to weight first second) [
    | true ↦ ok (some second)
    | false ↦ find_second ended hubs to weight first rest
  ]
]

abbrev pub direct : String → Segment → Plan
direct shipment first = record {
  shipment_id = shipment;
  segments = first ∷ [];
  total_minutes = minutes_between first.depart first.arrive;
  total_stops = pos 0;
}

abbrev pub with_stop : String → Segment → Segment → Plan
with_stop shipment first second = record {
  shipment_id = shipment;
  segments = first ∷ second ∷ [];
  total_minutes = minutes_between first.depart second.arrive;
  total_stops = pos 1;
}

-- The outer loop of Plan.
unfoldable pub try_first :
    (Segment → Segment → Bool) → Planner → String → String → ℤ → List Segment → Result Plan
try_first ended p shipment to weight [] = err (other "no feasible route")
try_first ended p shipment to weight (first ∷ rest) = elim (str_eq first.to to) [
  | true ↦ ok (direct shipment first)
  | false ↦ elim (find_second ended p.hubs to weight first p.segments) [
    | err e ↦ err e
    | ok (some second) ↦ ok (with_stop shipment first second)
    | ok none ↦ try_first ended p shipment to weight rest
  ]
]

-- The segments that the outer loop of Plan goes through.
abbrev pub starts : Planner → String → ℤ → Time → List Segment
starts p from weight earliest =
    sort_by (λ a b. before a.arrive b.arrive) (keep_if (can_start from weight earliest) p.segments)

unfoldable pub plan :
    (Segment → Segment → Bool) → Planner → String → String → String → ℤ → Time → Result Plan
plan ended p shipment from to weight earliest =
    if leb_ℤ weight (pos 0) then err invalid else elim (starts p from weight earliest) [
      | [] ↦ err not_found
      | _ ∷ _ ↦ try_first ended p shipment to weight (starts p from weight earliest)
    ]
