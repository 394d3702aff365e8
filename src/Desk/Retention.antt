-- ===== src/Desk/Retention.antt =====
-- internal/retention/retention.go and internal/expiry/expiry.go.
use Prim.Native.Nat.{min}
use go_label.Base.{
  ◌-◌, ◌^◌, ℕ, ◌+◌, ◌≤◌, ◌<◌, ◌≡◌, ◌↔◌, String, Bool, true, false, not, ◌&&◌, ◌||◌, Option, none,
  some, arith, is_blank, if◌then◌else◌,
}
use go_label.Base.Results.{Result, ok, err, invalid, state}
use go_label.Base.Int64.{ℤ, pos, pos_part, leb_ℤ, ltb_ℤ}
use go_label.Base.Instants.{Time, before, after, is_zero, add_duration}

pub record Policy : Type 0 where
  pub name : String
  pub keep : ℤ
  pub legal_hold : Bool

pub record Record : Type 0 where
  pub id : String
  pub created_at : Time
  pub deleted_at : Option Time
  pub hold : Bool

unfoldable pub expired : Policy → Record → Time → Bool
expired p r now =
    if is_blank p.name
      || (leb_ℤ p.keep (pos 0) || (is_zero r.created_at || (r.hold || p.legal_hold)))
    then false
    else not (before now (add_duration r.created_at p.keep))

unfoldable pub mark_deleted : Policy → Record → Time → Result Record
unfolding expired
mark_deleted p r now =
    if not (expired p r now) then err state else ok (record r { deleted_at = some now })

abbrev day : ℕ
day = 86_400_000_000_000

unfoldable pub purgeable : Record → Time → Bool
purgeable r now = elim r.deleted_at [ none ↦ false | some at ↦ after now (at + day) ]

-- A record that was deleted under a policy can be purged at an instant exactly when more than a day
-- has passed since, and is neither held nor younger than the policy keeps records.
pub purgeable-mark_deleted :
    (p : Policy) (r t : Record) (now later : Time)
    → mark_deleted p r now ≡ ok t
    → ((purgeable t later ≡ true) ↔ (now + day < later))
      × (t.hold ≡ false)
      × (t.created_at + pos_part p.keep ≤ now)
unfolding purgeable mark_deleted expired
purgeable-mark_deleted p r t now later h = (ground arith, ground arith, ground arith)

pub record Value : Type 0 where
  pub issued_at : Time
  pub expires_at : Time
  pub grace : ℤ

unfoldable pub new_value : Time → ℤ → ℤ → Result Value
new_value issued ttl grace =
    if is_zero issued || (leb_ℤ ttl (pos 0) || ltb_ℤ grace (pos 0))
    then err invalid
    else ok (record { issued_at = issued; expires_at = add_duration issued ttl; grace = grace })

unfoldable pub is_active : Value → Time → Bool
is_active v at = before at v.expires_at

unfoldable pub is_within_grace : Value → Time → Bool
is_within_grace v at = not (before at v.expires_at) && before at (add_duration v.expires_at v.grace)

unfoldable pub remaining : Value → Time → ℕ
remaining v at = if not (before at v.expires_at) then 0 else min (v.expires_at - at) (2 ^ 63 - 1)

-- A new value is active at first, and from its end on within grace for as long as the grace lasts.
pub new_value_lem :
    (issued : Time) (ttl grace : ℤ) (v : Value)
    → new_value issued ttl grace ≡ ok v
    → (is_active v issued ≡ true)
      × ((at : Time)
          → ((is_active v at || is_within_grace v at) ≡ true)
            ↔ (at < issued + pos_part ttl + pos_part grace))
unfolding new_value is_active is_within_grace
new_value_lem issued ttl grace v h = (ground arith, λ at. ground arith)
