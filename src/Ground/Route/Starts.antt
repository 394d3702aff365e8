-- ===== src/Ground/Route/Starts.antt =====
-- What Plan of internal/route/planner.go does with the segments that it starts from.
use go_label.Base.{
  keep_if_none, length, ◌⊎◌, ◌≡◌, refl, String, Bool, false, List, [], ◌∷◌, arith, keep_if, All,
  inl, inr,
}
use go_label.Base.Results.{err, not_found}
use go_label.Base.Int64.{ℤ, pos, leb_ℤ}
use go_label.Base.Instants.{Time, before}
use go_label.Base.Sorting.{length-sort_by}
use go_label.Ground.Route.{Segment, Planner, can_start, try_first, starts, plan}

pub no_starts :
    (p : Planner) (from : String) (weight : ℤ) (earliest : Time)
    → length (starts p from weight earliest) ≡ 0
    → All (λ s. can_start from weight earliest s ≡ false) p.segments
no_starts p from weight earliest h =
    let kept = keep_if (can_start from weight earliest) p.segments in
    keep_if_none (can_start from weight earliest) p.segments
      (omega (arith, h, length-sort_by (λ a b. before a.arrive b.arrive) kept))

-- `plan` once the list of starts is known.
pub plan_cases :
    (ended : Segment → Segment → Bool) (p : Planner) (shipment from to : String) (weight : ℤ)
    (earliest : Time) (ss : List Segment)
    → leb_ℤ weight (pos 0) ≡ false
    → starts p from weight earliest ≡ ss
    → ((length (starts p from weight earliest) ≡ 0)
        × (plan ended p shipment from to weight earliest ≡ err not_found))
      ⊎ (plan ended p shipment from to weight earliest
          ≡ try_first ended p shipment to weight (starts p from weight earliest))
unfolding plan
plan_cases ended p shipment from to weight earliest [] h e = inl (rw e refl, ground arith)
plan_cases ended p shipment from to weight earliest (s ∷ ss) h e = inr (ground arith)
