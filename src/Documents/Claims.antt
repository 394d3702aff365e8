-- ===== src/Documents/Claims.antt =====
-- internal/claims/claims.go.
use go_label.Base.{
  ◌≡◌, ◌⊎◌, inl, inr, refl, subst, sym, String, Bool, false, ◌||◌, Option, some, arith, str_eq,
  is_blank, if◌then◌else◌,
}
use go_label.Base.Results.{Result, ok, err, done, invalid, state}
use go_label.Base.Instants.{Time, before, is_zero}
use go_label.Base.Text.{trim_space}

pub record Claim : Type 0 where
  pub id : String
  pub tenant_id : String
  pub shipment_id : String
  pub filed_by : String
  pub reason : String
  pub status : String
  pub filed_at : Time
  pub resolved_at : Option Time

unfoldable pub open_claim : Claim → Result (Unit {0})
open_claim c =
    if is_blank c.id
      || (is_blank c.tenant_id
          || (is_blank c.shipment_id
              || (is_blank c.filed_by || (is_blank (trim_space c.reason) || is_zero c.filed_at))))
    then err invalid
    else done

abbrev pub is_closed : Claim → Bool
is_closed c = str_eq c.status "resolved" || str_eq c.status "rejected"

unfoldable pub resolve : Claim → Time → Result Claim
resolve c at =
    if is_closed c
    then err state
    else if before at c.filed_at
    then err invalid
    else ok (record c { status = "resolved"; resolved_at = some at })

unfoldable pub reject : Claim → Time → Result Claim
reject c at =
    if is_closed c
    then err state
    else if before at c.filed_at
    then err invalid
    else ok (record c { status = "rejected"; resolved_at = some at })

unfoldable pub is_open : Claim → Bool
is_open c = str_eq c.status "open" || str_eq c.status "investigating"

-- A decision ends a claim, and is not made before the claim was filed.
abbrev decided : Claim → String → Time → Claim
decided c status at = record c { status = status; resolved_at = some at }

decision_of :
    (c d : Claim) (at : Time)
    → ((resolve c at ≡ ok d) ⊎ (reject c at ≡ ok d))
    → ((d ≡ decided c "resolved" at) ⊎ (d ≡ decided c "rejected" at))
      × (before at c.filed_at ≡ false)
unfolding resolve reject
decision_of c d at (inl resolved) = (inl (ground arith), ground arith)
decision_of c d at (inr rejected) = (inr (ground arith), ground arith)

-- Nothing more can be done with a claim.
abbrev pub IsDecided : Time → Claim → Type 0
IsDecided at d =
    ((later : Time) → (resolve d later ≡ err state) × (reject d later ≡ err state))
    × (is_open d ≡ false)
    × (before at d.filed_at ≡ false)

pub decision-IsDecided :
    (c d : Claim) (at : Time) → ((resolve c at ≡ ok d) ⊎ (reject c at ≡ ok d)) → IsDecided at d
unfolding resolve reject is_open
decision-IsDecided c d at h =
    let (which, filed) = decision_of c d at h in
    elim which [
      | inl e ↦ subst (IsDecided at) (sym e) (λ later. (refl, refl), refl, filed)
      | inr e ↦ subst (IsDecided at) (sym e) (λ later. (refl, refl), refl, filed)
    ]
