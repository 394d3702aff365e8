-- ===== src/Clearance/Approvals.antt =====
-- internal/approvals/approval.go: requests that a second person decides once.
use go_label.Base.{
  ◌≡◌, refl, String, Bool, true, false, not, ◌||◌, none, some, Option, List, [], ◌∷◌, arith,
  is_blank, str_eq, if◌then◌else◌, inl, inr, Option-cases, eq_iff,
}
use go_label.Base.Results.{Result, ok, err, done, invalid, conflict, not_found, state}
use go_label.Base.Instants.{Time, before, is_zero}
use go_label.Base.Maps.{Map, lookup, insert, has, lookup-insert, lookup-insert_self}

pub record Request : Type 0 where
  pub id : String
  pub tenant_id : String
  pub object_id : String
  pub requested_by : String
  pub approved_by : String
  pub status : String
  pub created_at : Time
  pub decided_at : Option Time

unfoldable pub submit : Map Request → Request → Map Request × Result (Unit {0})
submit q v =
    if is_blank v.id
      || (is_blank v.tenant_id
          || (is_blank v.object_id || (is_blank v.requested_by || is_zero v.created_at)))
    then (q, err invalid)
    else if has v.id q
    then (q, err conflict)
    else (insert v.id (record v { status = "pending" }) q, done)

abbrev pub decision : Bool → String
decision approve = if approve then "approved" else "rejected"

abbrev decided : Request → String → Bool → Time → Request
decided v actor approve at = record v {
  status = decision approve;
  approved_by = actor;
  decided_at = some at;
}

unfoldable pub decide :
    Map Request → String → String → Bool → Time → Map Request × Result (Unit {0})
decide q id actor approve at = elim (lookup id q) [
  | none ↦ (q, err not_found)
  | some v ↦
      if not (str_eq v.status "pending")
        || (is_blank actor || (str_eq actor v.requested_by || before at v.created_at))
      then (q, err state)
      else (insert id (decided v actor approve at) q, done)
]

unfoldable pub get : Map Request → String → Result Request
get q id = elim (lookup id q) [ none ↦ err not_found | some v ↦ ok v ]

pub data Call : Type 0 where
  submits : Request → Call
  decides : String → String → Bool → Time → Call

unfoldable pub run : Map Request → List Call → Map Request
run q [] = q
run q (Call.submits v ∷ cs) = run (submit q v).0 cs
run q (Call.decides id actor approve at ∷ cs) = run (decide q id actor approve at).0 cs

-- What a settled request keeps.
abbrev IsSettled : String → Request → Map Request → Type 0
IsSettled id v q = (lookup id q ≡ some v) × (str_eq v.status "pending" ≡ false)

submit-IsSettled :
    (q : Map Request) (id : String) (v w : Request)
    → IsSettled id v q
    → IsSettled id v (submit q w).0
unfolding submit
submit-IsSettled q id v w h =
    ground (arith, lookup-insert w.id id (record w { status = "pending" }) q, eq_iff w.id id)

decide-IsSettled :
    (q : Map Request) (id : String) (v : Request) (other actor : String) (approve : Bool)
    (at : Time)
    → IsSettled id v q
    → IsSettled id v (decide q other actor approve at).0
unfolding decide
decide-IsSettled q id v other actor approve at h = elim (Option-cases (lookup other q)) [
  | inl missing ↦ ground arith
  | inr (w, found) ↦
      ground (arith, lookup-insert other id (decided w actor approve at) q, eq_iff other id)
]

run-IsSettled :
    (q : Map Request) (cs : List Call) (id : String) (v : Request)
    → IsSettled id v q
    → IsSettled id v (run q cs)
unfolding run
run-IsSettled q [] id v h = h
run-IsSettled q (Call.submits w ∷ cs) id v h =
    run-IsSettled (submit q w).0 cs id v (submit-IsSettled q id v w h)
run-IsSettled q (Call.decides other actor approve at ∷ cs) id v h =
    run-IsSettled (decide q other actor approve at).0 cs id v
      (decide-IsSettled q id v other actor approve at h)

decision_not_pending : (approve : Bool) → str_eq (decision approve) "pending" ≡ false
decision_not_pending true = refl
decision_not_pending false = refl

-- When a decision on a stored approval request succeeds, the actor is not the one who requested
-- it, and whatever submissions and decisions follow, the request keeps that decision, its actor
-- and its time.
pub decided_by_another_for_good :
    (q t : Map Request) (id actor : String) (approve : Bool) (at : Time) (cs : List Call)
    (v : Request)
    → lookup id q ≡ some v
    → decide q id actor approve at ≡ (t, done)
    → (str_eq actor v.requested_by ≡ false)
      × (get (run t cs) id
          ≡ ok (record v { status = decision approve; approved_by = actor; decided_at = some at }))
unfolding decide get
decided_by_another_for_good q t id actor approve at cs v found h =
    let written : t ≡ insert id (decided v actor approve at) q = ground arith in
    let stored : lookup id t ≡ some (decided v actor approve at) =
      rw written (lookup-insert_self id (decided v actor approve at) q) in
    let kept =
      run-IsSettled t cs id (decided v actor approve at) (stored, decision_not_pending approve) in
    (ground arith, ground (arith, kept.0))
