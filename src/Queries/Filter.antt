-- ===== src/Queries/Filter.antt =====
-- internal/filter/filter.go.
use go_label.Base.{
  ◌≡◌, refl, String, Bool, true, not, ◌&&◌, ◌||◌, Option, none, some, List, [], ◌∷◌, arith, str_eq,
  is_blank, keep_if, keep_if-All, All, if◌then◌else◌,
}
use go_label.Base.Int64.{ℤ, pos, ltb_ℤ}
use go_label.Base.Instants.{Time, before}
use go_label.Base.Text.{trim_space, to_lower, to_upper, contains_text}
use go_label.Domain.Types.{ShipmentStatus}
use go_label.Queries.Search.{has_status, no_statuses}

pub record Shipment : Type 0 where
  pub id : String
  pub tenant_id : String
  pub reference : String
  pub status : ShipmentStatus
  pub origin : String
  pub destination : String
  pub weight_kg : ℤ
  pub created_at : Time

pub record Input : Type 0 where
  pub tenant_id : String
  pub text : String
  pub statuses : List ShipmentStatus
  pub origin : String
  pub destination : String
  pub min_weight : ℤ
  pub max_weight : ℤ
  pub since : Option Time
  pub until : Option Time

abbrev is_since : Option Time → Time → Bool
is_since none at = true
is_since (some since) at = not (before at since)

abbrev is_until : Option Time → Time → Bool
is_until none at = true
is_until (some until) at = before at until

-- The tests of the loop that do not skip an item.
unfoldable pub is_wanted : Input → Shipment → Bool
unfolding has_status
is_wanted input v =
    let text = to_lower (trim_space input.text) in
    (is_blank input.tenant_id || str_eq v.tenant_id input.tenant_id)
    && ((is_blank text || contains_text (to_lower v.reference) text)
        && ((no_statuses input.statuses || has_status input.statuses v.status)
            && ((is_blank input.origin || str_eq v.origin input.origin)
                && ((is_blank input.destination || str_eq v.destination input.destination)
                    && (not (ltb_ℤ (pos 0) input.min_weight && ltb_ℤ v.weight_kg input.min_weight)
                        && (not
                              (ltb_ℤ (pos 0) input.max_weight && ltb_ℤ input.max_weight v.weight_kg)
                            && (is_since input.since v.created_at
                                && is_until input.until v.created_at)))))))

unfoldable pub apply : List Shipment → Input → List Shipment
unfolding is_wanted
apply items input = keep_if (is_wanted input) items

abbrev not_negative : ℤ → ℤ
not_negative n = if ltb_ℤ n (pos 0) then pos 0 else n

unfoldable pub normalize : Input → Input
normalize input = record input {
  text = trim_space input.text;
  origin = to_upper (trim_space input.origin);
  destination = to_upper (trim_space input.destination);
  min_weight = not_negative input.min_weight;
  max_weight = not_negative input.max_weight;
}

keep_if_kept {ℓ} :
    {A : Type ℓ} (p : A → Bool) (xs : List A) → All (λ x. p x ≡ true) xs → keep_if p xs ≡ xs
keep_if_kept p [] h = refl
keep_if_kept p (x ∷ xs) h = ground (arith, h.0, keep_if_kept p xs h.1)

-- Filtering a second time changes nothing.
pub apply-apply :
    (items : List Shipment) (input : Input) → apply (apply items input) input ≡ apply items input
unfolding apply
apply-apply items input = keep_if_kept (is_wanted input) _ (keep_if-All (is_wanted input) items)
