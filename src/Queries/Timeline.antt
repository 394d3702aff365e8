-- ===== src/Queries/Timeline.antt =====
-- internal/timeline/timeline.go.
use go_label.Base.{
  ℕ, ◌-◌, ◌^◌, ◌≡◌, ◌⊎◌, inl, inr, subst, String, Bool, true, false, not, ◌&&◌, ◌||◌, Option, none,
  some, List, [], ◌∷◌, ◌++◌, arith, eq_iff, str_eq, nat_eq, is_blank, any, keep_if, All, All-map,
  if◌then◌else◌, Bool-cases, Option-cases,
}
use Prim.Native.Nat.{min}
use go_label.Base.Results.{Result, ok, err, done, not_found, conflict, state, invalid}
use go_label.Base.Instants.{Time, before, is_zero}
use go_label.Base.Sorting.{
  IsSorted, sort_by, insert_by, insert_by-All, sort_by-All, sort_by-IsSorted,
}

pub record Event : Type 0 where
  pub kind : String
  pub at : Time
  pub actor : String
  pub details : String

pub record Timeline : Type 0 where
  pub events : List Event

abbrev pub new : Timeline
new = record { events = [] }

abbrev pub event_before : Event → Event → Bool
event_before a b = before a.at b.at

abbrev pub is_same : Event → Event → Bool
is_same a b = str_eq a.kind b.kind && nat_eq a.at b.at

unfoldable pub append : Timeline → Event → Timeline × Result (Unit {0})
append t e =
    if is_blank e.kind || (is_blank e.actor || is_zero e.at)
    then (t, err invalid)
    else if any (λ old. is_same old e) t.events
    then (t, err conflict)
    else (record { events = sort_by event_before (t.events ++ (e ∷ [])) }, done)

unfoldable pub between : Timeline → Time → Time → List Event
between t start end = keep_if (λ e. not (before e.at start) && before e.at end) t.events

-- The loop of Latest, from the last event to the first.
unfoldable pub last_of : String → List Event → Option Event
last_of kind [] = none
last_of kind (e ∷ es) = elim (last_of kind es) [
  | some later ↦ some later
  | none ↦ if str_eq e.kind kind then some e else none
]

unfoldable pub latest : Timeline → String → Result Event
unfolding last_of
latest t kind = elim (last_of kind t.events) [ some e ↦ ok e | none ↦ err not_found ]

-- `b.At.Sub(a.At)` of an instant that is not before the other: it stops at the longest duration.
abbrev pub elapsed : Time → Time → ℕ
elapsed a b = min (b - a) (2 ^ 63 - 1)

unfoldable pub duration : Timeline → String → String → Result ℕ
unfolding latest
duration t start_kind end_kind = elim (latest t start_kind) [
  | err e ↦ err e
  | ok a ↦ elim (latest t end_kind) [
    | err e ↦ err e
    | ok b ↦ if before b.at a.at then err state else ok (elapsed a.at b.at)
  ]
]

-- No two events of one kind at one time.
abbrev pub AreDistinct : List Event → Type 0
AreDistinct [] = Unit {0}
AreDistinct (e ∷ es) = All (λ x. is_same x e ≡ false) es × AreDistinct es

-- The events after a history of calls of Append, refused ones included.
unfoldable pub append_all : Timeline → List Event → Timeline
append_all t [] = t
append_all t (e ∷ es) = append_all (append t e).0 es

pub record IsTimeline (t : Timeline) : Type 0 where
  pub in_order : IsSorted event_before t.events
  pub distinct : AreDistinct t.events

insert_by-AreDistinct :
    (e : Event) (es : List Event)
    → All (λ x. is_same x e ≡ false) es
    → AreDistinct es
    → AreDistinct (insert_by event_before e es)
unfolding insert_by
insert_by-AreDistinct e [] h d = (tt, tt)
insert_by-AreDistinct e (x ∷ es) h d = elim (Bool-cases (event_before x e)) [
  | inl earlier ↦ rw earlier (
    insert_by-All event_before (λ y. is_same y x ≡ false) e es
        (ground (arith, h.0, eq_iff e.kind x.kind, eq_iff x.kind e.kind)) d.0,
    insert_by-AreDistinct e es h.1 d.1,
  )
  | inr later ↦ rw later (h, d)
]

sort_by-AreDistinct : (es : List Event) → AreDistinct es → AreDistinct (sort_by event_before es)
unfolding sort_by
sort_by-AreDistinct [] d = tt
sort_by-AreDistinct (e ∷ es) d =
    insert_by-AreDistinct e (sort_by event_before es)
      (sort_by-All event_before (λ x. is_same x e ≡ false) es d.0) (sort_by-AreDistinct es d.1)

snoc-All :
    (P : Event → Type 0) (e : Event) (es : List Event) → P e → All P es → All P (es ++ (e ∷ []))
snoc-All P e [] p h = (p, tt)
snoc-All P e (x ∷ es) p h = (h.0, snoc-All P e es p h.1)

AreDistinct-snoc :
    (e : Event) (es : List Event)
    → any (λ old. is_same old e) es ≡ false
    → AreDistinct es
    → AreDistinct (es ++ (e ∷ []))
AreDistinct-snoc e [] h d = (tt, tt)
AreDistinct-snoc e (x ∷ es) h d = (
  snoc-All (λ y. is_same y x ≡ false) e es
      (ground (arith, eq_iff e.kind x.kind, eq_iff x.kind e.kind)) d.0,
  AreDistinct-snoc e es (ground arith) d.1,
)

event_before_asymmetric : (x y : Event) → event_before x y ≡ true → event_before y x ≡ false
event_before_asymmetric x y h = ground arith

event_before_transitive :
    (x y z : Event) → event_before x y ≡ false → event_before y z ≡ false → event_before x z ≡ false
event_before_transitive x y z h k = ground arith

append-IsTimeline : (t : Timeline) (e : Event) → IsTimeline t → IsTimeline (append t e).0
unfolding append
append-IsTimeline t e h = elim (Bool-cases (any (λ old. is_same old e) t.events)) [
  | inl taken ↦ subst IsTimeline {x = t} (ground arith) h
  | inr fresh ↦ elim (Bool-cases (is_blank e.kind || (is_blank e.actor || is_zero e.at))) [
    | inl refused ↦ subst IsTimeline {x = t} (ground arith) h
    | inr valid ↦
        subst IsTimeline {x = record { events = sort_by event_before (t.events ++ (e ∷ [])) }}
          (ground arith)
          (record {
            in_order =
                sort_by-IsSorted event_before event_before_asymmetric event_before_transitive _;
            distinct = sort_by-AreDistinct _ (AreDistinct-snoc e t.events fresh h.distinct);
          })
  ]
]

-- After any calls of Append, refused ones included, the events of a timeline are in the order of
-- their times and no two have the same kind and time, when that holds at the start.
pub append_all-IsTimeline :
    (es : List Event) (t : Timeline) → IsTimeline t → IsTimeline (append_all t es)
unfolding append_all
append_all-IsTimeline [] t h = h
append_all-IsTimeline (e ∷ es) t h =
    append_all-IsTimeline es (append t e).0 (append-IsTimeline t e h)

last_of-none :
    (kind : String) (es : List Event)
    → last_of kind es ≡ none
    → All (λ x. str_eq x.kind kind ≡ false) es
unfolding last_of
last_of-none kind [] h = tt
last_of-none kind (e ∷ es) h = elim (Option-cases (last_of kind es)) [
  | inl nothing ↦ (ground arith, last_of-none kind es nothing)
  | inr (x, later) ↦ absurd (ground arith)
]

-- The latest event of a kind: of that kind, and no other of the kind stands later.
abbrev pub IsLatest : String → List Event → Event → Type 0
IsLatest kind es e =
    (e.kind ≡ kind) × All (λ x. str_eq x.kind kind ≡ true → before e.at x.at ≡ false) es

-- It is not before an event that follows all of these in the order.
abbrev IsUpTo : List Event → Event → Type 0
IsUpTo es e = (x : Event) → All (λ y. event_before y x ≡ false) es → before e.at x.at ≡ false

last_of-IsLatest :
    (kind : String) (es : List Event) (e : Event)
    → IsSorted event_before es
    → last_of kind es ≡ some e
    → IsLatest kind es e × IsUpTo es e
unfolding last_of
last_of-IsLatest kind [] e s h = absurd (ground arith)
last_of-IsLatest kind (x ∷ es) e s h = elim (Option-cases (last_of kind es)) [
  | inl nothing ↦
      let here : x ≡ e = ground arith in
      subst (λ v. IsLatest kind (x ∷ es) v × IsUpTo (x ∷ es) v) here
        (
          (
            ground (arith, eq_iff x.kind kind),
            (
              λ same. ground arith,
              All-map (λ y. str_eq y.kind kind ≡ false) _ (λ y no same. absurd (ground arith)) es
                  (last_of-none kind es nothing),
            ),
          ),
          λ y all. all.0,
        )
  | inr (v, later) ↦
      let ((is_kind, all), bound) = last_of-IsLatest kind es e s.1 (ground arith) in
      ((is_kind, (λ same. bound x s.0, all)), λ y after_y. bound y after_y.1)
]

-- Latest gives an event of the kind, with none of the kind after it, or there is none of the kind.
latest-IsLatest :
    (t : Timeline) (kind : String)
    → IsTimeline t
    → ((e : Event) × (latest t kind ≡ ok e) × IsLatest kind t.events e)
      ⊎ ((latest t kind ≡ err not_found) × All (λ x. str_eq x.kind kind ≡ false) t.events)
unfolding latest
latest-IsLatest t kind h = elim (Option-cases (last_of kind t.events)) [
  | inl nothing ↦ inr (ground arith, last_of-none kind t.events nothing)
  | inr (e, found) ↦ inl (e, ground arith, (last_of-IsLatest kind t.events e h.in_order found).0)
]
