-- ===== src/Ground/Route/Journeys.antt =====
-- What the plans of internal/route/planner.go promise, answer by answer.
use go_label.Base.{
  ◌≢◌, sym, ◌⊎◌, subst, ◌≡◌, ◌≤◌, ◌<◌, refl, String, Bool, true, false, none, some, Option, List,
  [], ◌∷◌, arith, str_eq, keep_if, All, inl, inr, Bool-cases, eq_iff,
}
use go_label.Base.Results.{
  Result, ok, err, Error, invalid, conflict, not_found, cancelled, other, forbidden, expired,
  revoked, capacity, state,
}
use go_label.Base.Int64.{ℤ, pos, leb_ℤ, ◌≤ℤ◌}
use go_label.Base.Instants.{Time, before}
use go_label.Base.Sorting.{sort_by-All}
use go_label.Ground.Route.Starts.{no_starts, plan_cases}
use go_label.Ground.Route.{
  Segment, Plan, Planner, can_start, ready_at, connects, find_second, direct, with_stop, try_first,
  starts, plan,
}

-- A journey of one or two segments, and what its plan must respect. Any fact `Q` about the segments
-- of the planner holds of those of the plan.
-- A journey of one or two segments, and what its plan must respect. Any fact `Q` about the segments
-- of the planner holds of those of the plan.
second_cases :
    (r : Result (Option Segment))
    → (r ≡ ok none) ⊎ (((s : Segment) × (r ≡ ok (some s))) ⊎ ((e : Error) × (r ≡ err e)))
second_cases (ok none) = inl refl
second_cases (ok (some s)) = inr (inl (s, refl))
second_cases (err e) = inr (inr (e, refl))

module _ (Q : Segment → Type 0) (p : Planner) (from to : String) (weight : ℤ)
    (earliest : Time) where
  pub record Departs (first : Segment) : Type 0 where
    pub known : Q first
    pub at_origin : first.from ≡ from
    pub has_room : weight ≤ℤ first.available_kg
    pub in_time : earliest ≤ first.depart

  pub record Continues (first second : Segment) : Type 0 where
    pub known : Q second
    pub same_hub : second.from ≡ first.to
    pub arrives : second.to ≡ to
    pub handled : ready_at p.hubs first < second.depart
    pub has_room : weight ≤ℤ second.available_kg

  abbrev pub Journey : List Segment → Type 0
  Journey (first ∷ []) = Departs first × (first.to ≡ to)
  Journey (first ∷ second ∷ []) = Departs first × Continues first second
  Journey _ = true ≡ false

  can_start-Departs : (s : Segment) → Q s → can_start from weight earliest s ≡ true → Departs s
  unfolding can_start
  can_start-Departs s q h = record {
    known = q;
    at_origin = ground (arith, eq_iff s.from from);
    has_room = ground arith;
    in_time = ground arith;
  }

  starts-Departs : All Q p.segments → All Departs (starts p from weight earliest)
  starts-Departs q =
      sort_by-All (λ a b. before a.arrive b.arrive) Departs
        (keep_if (can_start from weight earliest) p.segments) (kept p.segments q)
    where
      kept :
          (ss : List Segment) → All Q ss → All Departs (keep_if (can_start from weight earliest) ss)
      kept [] q = tt
      kept (s ∷ ss) q = elim (Bool-cases (can_start from weight earliest s)) [
        | inl goes ↦ rw goes (can_start-Departs s q.0 goes, kept ss q.1)
        | inr stays ↦ rw stays (kept ss q.1)
      ]

  connects-Continues :
      (first second : Segment)
      → Q second
      → connects p.hubs to weight first second ≡ true
      → Continues first second
  unfolding connects
  connects-Continues first second q h = record {
    known = q;
    same_hub = ground (arith, eq_iff second.from first.to);
    arrives = ground (arith, eq_iff second.to to);
    handled = ground arith;
    has_room = ground arith;
  }

  -- What each answer of Plan says when the outer loop goes through `ss`.
  abbrev pub Explains : (Segment → Segment → Bool) → List Segment → Result Plan → Type 0
  Explains ended ss (ok found) = Journey found.segments
  Explains ended ss (err (other text)) =
      All
        (λ first.
          (first.to ≢ to)
          × All (λ second. connects p.hubs to weight first second ≡ false) p.segments)
        ss
  Explains ended ss (err invalid) = weight ≤ℤ pos 0
  Explains ended ss (err not_found) = All (λ s. can_start from weight earliest s ≡ false) p.segments
  Explains ended ss (err cancelled) =
      (first : Segment) × ((second : Segment) × (ended first second ≡ true))
  Explains ended ss (err e) = true ≡ false

  abbrev FindsSecond :
      (Segment → Segment → Bool) → Segment → List Segment → Result (Option Segment) → Type 0
  FindsSecond ended first ss (ok (some second)) = Continues first second
  FindsSecond ended first ss (ok none) =
      All (λ second. connects p.hubs to weight first second ≡ false) ss
  FindsSecond ended first ss (err e) =
      (e ≡ cancelled) × ((second : Segment) × (ended first second ≡ true))

  FindsSecond-step :
      (ended : Segment → Segment → Bool) (first s : Segment) (ss : List Segment)
      (r : Result (Option Segment))
      → connects p.hubs to weight first s ≡ false
      → FindsSecond ended first ss r
      → FindsSecond ended first (s ∷ ss) r
  FindsSecond-step ended first s ss (ok (some second)) m h = h
  FindsSecond-step ended first s ss (ok none) m h = (m, h)
  FindsSecond-step ended first s ss (err e) m h = h

  find_second-FindsSecond :
      (ended : Segment → Segment → Bool) (first : Segment) (ss : List Segment)
      → All Q ss
      → FindsSecond ended first ss (find_second ended p.hubs to weight first ss)
  unfolding find_second
  find_second-FindsSecond ended first [] q = tt
  find_second-FindsSecond ended first (s ∷ ss) q = elim (Bool-cases (ended first s)) [
    | inl stops ↦
        let out : find_second ended p.hubs to weight first (s ∷ ss) ≡ err cancelled =
          ground arith in
        subst (FindsSecond ended first (s ∷ ss)) (sym out) (refl, (s, stops))
    | inr goes ↦ elim (Bool-cases (connects p.hubs to weight first s)) [
      | inl fits ↦
          let out : find_second ended p.hubs to weight first (s ∷ ss) ≡ ok (some s) =
            ground arith in
          subst (FindsSecond ended first (s ∷ ss)) (sym out) (connects-Continues first s q.0 fits)
      | inr misses ↦
          let later = find_second ended p.hubs to weight first ss in
          let out : find_second ended p.hubs to weight first (s ∷ ss) ≡ later = ground arith in
          subst (FindsSecond ended first (s ∷ ss)) (sym out) (
            FindsSecond-step ended first s ss later misses
              (find_second-FindsSecond ended first ss q.1))
    ]
  ]

  Explains-step :
      (ended : Segment → Segment → Bool) (first : Segment) (ss : List Segment) (r : Result Plan)
      → first.to ≢ to
      → All (λ second. connects p.hubs to weight first second ≡ false) p.segments
      → Explains ended ss r
      → Explains ended (first ∷ ss) r
  Explains-step ended first ss (ok found) n m h = h
  Explains-step ended first ss (err (other text)) n m h = ((n, m), h)
  Explains-step ended first ss (err invalid) n m h = h
  Explains-step ended first ss (err not_found) n m h = h
  Explains-step ended first ss (err cancelled) n m h = h
  Explains-step ended first ss (err conflict) n m h = h
  Explains-step ended first ss (err forbidden) n m h = h
  Explains-step ended first ss (err expired) n m h = h
  Explains-step ended first ss (err revoked) n m h = h
  Explains-step ended first ss (err capacity) n m h = h
  Explains-step ended first ss (err state) n m h = h

  -- The plan by way of what the inner loop has found.
  abbrev onward : String → Segment → Result Plan → Result (Option Segment) → Result Plan
  onward shipment first later (ok (some second)) = ok (with_stop shipment first second)
  onward shipment first later (ok none) = later
  onward shipment first later (err e) = err e

  onward-Explains :
      (ended : Segment → Segment → Bool) (shipment : String) (first : Segment) (rest : List Segment)
      (later : Result Plan) (r : Result (Option Segment))
      → first.to ≢ to
      → Departs first
      → Explains ended rest later
      → FindsSecond ended first p.segments r
      → Explains ended (first ∷ rest) (onward shipment first later r)
  onward-Explains ended shipment first rest later (ok (some second)) away d l h = (d, h)
  onward-Explains ended shipment first rest later (ok none) away d l h =
      Explains-step ended first rest later away h l
  onward-Explains ended shipment first rest later (err e) away d l h =
      subst (λ x. Explains ended (first ∷ rest) (err x)) (sym h.0) (first, h.1)

  try_first-onward :
      (ended : Segment → Segment → Bool) (shipment : String) (first : Segment) (rest : List Segment)
      (r : Result (Option Segment))
      → str_eq first.to to ≡ false
      → find_second ended p.hubs to weight first p.segments ≡ r
      → try_first ended p shipment to weight (first ∷ rest)
        ≡ onward shipment first (try_first ended p shipment to weight rest) r
  unfolding try_first
  try_first-onward ended shipment first rest (ok (some second)) away e = ground arith
  try_first-onward ended shipment first rest (ok none) away e = ground arith
  try_first-onward ended shipment first rest (err x) away e = ground arith

  try_first-Explains :
      (ended : Segment → Segment → Bool) (shipment : String) (ss : List Segment)
      → All Q p.segments
      → All Departs ss
      → Explains ended ss (try_first ended p shipment to weight ss)
  unfolding try_first
  try_first-Explains ended shipment [] q d = tt
  try_first-Explains ended shipment (first ∷ rest) q d =
      let later = try_first ended p shipment to weight rest in
      let seconds = find_second ended p.hubs to weight first p.segments in
      elim (Bool-cases (str_eq first.to to)) [
        | inl there ↦
            let out : try_first ended p shipment to weight (first ∷ rest)
                ≡ ok (direct shipment first) =
              ground arith in
            subst (Explains ended (first ∷ rest)) (sym out)
              (d.0, ground (arith, eq_iff first.to to))
        | inr away ↦
            subst (Explains ended (first ∷ rest))
              (sym (try_first-onward ended shipment first rest seconds away refl))
              (onward-Explains ended shipment first rest later seconds
                (ground (arith, eq_iff first.to to)) d.0
                (try_first-Explains ended shipment rest q d.1)
                (find_second-FindsSecond ended first p.segments q))
      ]

-- Every answer of Plan of the route planner is right. A plan is one segment from the origin to the
-- destination, or two that meet at a hub where the second departs after the handling of the first;
-- each has room for the weight, the first departs no earlier than asked, and both keep any fact
-- that holds of all segments of the planner. The answer that no route is feasible is given only
-- when no segment that can start reaches the destination or connects to another that does; not
-- found only when no segment can start; invalid only for a weight that is not positive; and the
-- end of the context only when it had ended at some pair of segments. There is no other answer.
pub plan-Explains :
    (Q : Segment → Type 0) (ended : Segment → Segment → Bool) (p : Planner)
    (shipment from to : String) (weight : ℤ) (earliest : Time)
    → All Q p.segments
    → Explains Q p from to weight earliest ended
        (starts p from weight earliest)
        (plan ended p shipment from to weight earliest)
plan-Explains Q ended p shipment from to weight earliest q =
    let ss = starts p from weight earliest in
    let good = Explains Q p from to weight earliest ended ss in
    elim (Bool-cases (leb_ℤ weight (pos 0))) [
      | inl nothing ↦
          let out : plan ended p shipment from to weight earliest ≡ err invalid =
            unfold plan in ground arith in
          subst good (sym out) (ground arith)
      | inr some_weight ↦
          elim (plan_cases ended p shipment from to weight earliest ss some_weight refl) [
            | inl (empty, out) ↦ subst good (sym out) (no_starts p from weight earliest empty)
            | inr out ↦ subst good (sym out) (
                try_first-Explains Q p from to weight earliest ended shipment ss q
                  (starts-Departs Q p from to weight earliest q))
          ]
    ]
