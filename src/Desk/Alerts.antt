-- ===== src/Desk/Alerts.antt =====
-- internal/alerts/alerts.go.
use go_label.Base.{
  ◌≡◌, ◌⊎◌, inl, inr, subst, sym, String, Bool, false, ◌&&◌, ◌||◌, Option, none, some, List, [],
  ◌∷◌, arith, str_eq, is_blank, is_some, is_none, keep_if, All, if◌then◌else◌, Option-cases,
}
use go_label.Base.Results.{Result, err, done, invalid, conflict, not_found, state}
use go_label.Base.Instants.{Time, before, is_zero}
use go_label.Base.Maps.{Map, lookup, insert, values, Each, insert-Each}

pub record Alert : Type 0 where
  pub id : String
  pub tenant_id : String
  pub severity : String
  pub code : String
  pub message : String
  pub opened_at : Time
  pub closed_at : Option Time

abbrev is_open : Option Alert → Bool
is_open none = false
is_open (some a) = is_none a.closed_at

-- `Open`.
unfoldable pub open_alert : Map Alert → Alert → Map Alert × Result (Unit {0})
open_alert m a =
    if is_blank a.id
      || (is_blank a.tenant_id || (is_blank a.code || (is_blank a.message || is_zero a.opened_at)))
    then (m, err invalid)
    else if is_open (lookup a.id m)
    then (m, err conflict)
    else (insert a.id a m, done)

-- `Close`.
unfoldable pub close : Map Alert → String → Time → Map Alert × Result (Unit {0})
close m id at = elim (lookup id m) [
  | none ↦ (m, err not_found)
  | some a ↦
      if is_some a.closed_at || before at a.opened_at
      then (m, err state)
      else (insert id (record a { closed_at = some at }) m, done)
]

unfoldable pub active : Map Alert → String → List Alert
active m tenant = keep_if (λ a. str_eq a.tenant_id tenant && is_none a.closed_at) (values m)

pub data Call : Type 0 where
  opens : Alert → Call
  closes : String → Time → Call

unfoldable pub step : Map Alert → Call → Map Alert
step m (Call.opens a) = (open_alert m a).0
step m (Call.closes id at) = (close m id at).0

unfoldable pub run : Map Alert → List Call → Map Alert
run m [] = m
run m (c ∷ cs) = run (step m c) cs

-- An alert is closed at its opening or later, if it is.
abbrev pub ClosesLater : Alert → Type 0
ClosesLater a = (at : Time) → a.closed_at ≡ some at → before at a.opened_at ≡ false

abbrev OpensUnclosed : Call → Type 0
OpensUnclosed (Call.opens a) = a.closed_at ≡ none
OpensUnclosed (Call.closes id at) = Unit {0}

open_cases :
    (m : Map Alert) (a : Alert) → ((open_alert m a).0 ≡ m) ⊎ ((open_alert m a).0 ≡ insert a.id a m)
unfolding open_alert
open_cases m a = ground arith

close_cases :
    (m : Map Alert) (id : String) (at : Time) (a : Alert)
    → lookup id m ≡ some a
    → ((close m id at).0 ≡ m)
      ⊎ ((before at a.opened_at ≡ false)
          × ((close m id at).0 ≡ insert id (record a { closed_at = some at }) m))
unfolding close
close_cases m id at a found = ground arith

step-Each :
    (m : Map Alert) (c : Call) → OpensUnclosed c → Each ClosesLater m → Each ClosesLater (step m c)
unfolding step close
step-Each m (Call.opens a) h each = elim (open_cases m a) [
  | inl same ↦ subst (Each ClosesLater) (sym same) each
  | inr wrote ↦
      subst (Each ClosesLater) (sym wrote)
        (insert-Each ClosesLater a.id a m (λ at e. absurd (ground (arith, h))) each)
]
step-Each m (Call.closes id at) h each = elim (Option-cases (lookup id m)) [
  | inl missing ↦ subst (Each ClosesLater) {x = m} (ground arith) each
  | inr (a, found) ↦ elim (close_cases m id at a found) [
    | inl same ↦ subst (Each ClosesLater) (sym same) each
    | inr (in_time, wrote) ↦ subst (Each ClosesLater) (sym wrote) (
        insert-Each ClosesLater id (record a { closed_at = some at }) m
          (λ later e. ground (arith, e, in_time)) each)
  ]
]

-- Over any history of calls that open alerts unclosed, an alert is never closed before its opening.
pub run-Each :
    (m : Map Alert) (cs : List Call)
    → All OpensUnclosed cs
    → Each ClosesLater m
    → Each ClosesLater (run m cs)
unfolding run
run-Each m [] h each = each
run-Each m (c ∷ cs) h each = run-Each (step m c) cs h.1 (step-Each m c h.0 each)
