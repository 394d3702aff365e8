-- ===== src/Queries/Search.antt =====
-- internal/search/query.go. strings.EqualFold is modelled on ASCII letters, as ToLower is.
use go_label.Base.{
  ℕ, ◌+◌, String, Bool, true, false, ◌&&◌, ◌||◌, List, [], ◌∷◌, str_eq, nat_eq, ltb, is_blank, any,
  keep_if, map, length, take, if◌then◌else◌,
}
use go_label.Base.Int64.{ℤ, pos, pos_part, ltb_ℤ}
use go_label.Base.Sorting.{sort_by}
use go_label.Base.Text.{trim_space, to_lower, contains_text, text_before}
use go_label.Domain.Types.{ShipmentStatus}
use go_label.Clearance.Aggregate.{status_text}

pub record Query : Type 0 where
  pub term : String
  pub statuses : List ShipmentStatus
  pub origin : String
  pub destination : String
  pub limit : ℤ

pub record Item : Type 0 where
  pub id : String
  pub reference : String
  pub origin : String
  pub destination : String
  pub status : ShipmentStatus
  pub score : ℕ

-- `status[v.Status]` of the set made of q.Statuses.
unfoldable pub has_status : List ShipmentStatus → ShipmentStatus → Bool
has_status statuses status = any (λ s. str_eq (status_text s) (status_text status)) statuses

abbrev pub no_statuses : List ShipmentStatus → Bool
no_statuses [] = true
no_statuses (s ∷ ss) = false

unfoldable pub score : Item → String → ℕ
score v term =
    if is_blank term
    then 0
    else (if str_eq (to_lower v.reference) (to_lower term) then 100 else 0)
      + (if contains_text (to_lower v.reference) term then 10 else 0)

-- The tests of the loop that do not skip an item.
unfoldable pub is_match : Query → String → Item → Bool
unfolding has_status
is_match q term v =
    (is_blank term || contains_text (to_lower v.reference) term)
    && ((is_blank q.origin || str_eq v.origin q.origin)
        && ((is_blank q.destination || str_eq v.destination q.destination)
            && (no_statuses q.statuses || has_status q.statuses v.status)))

abbrev pub scored : String → Item → Item
scored term v = record v { score = score v term }

-- The order of the results.
abbrev pub ranks_before : Item → Item → Bool
ranks_before a b = if nat_eq a.score b.score then text_before a.id b.id else ltb b.score a.score

abbrev pub matches : List Item → Query → List Item
matches items q =
    let term = to_lower (trim_space q.term) in map (scored term) (keep_if (is_match q term) items)

unfoldable pub filter : List Item → Query → List Item
unfolding is_match score
filter items q =
    let out = sort_by ranks_before (matches items q) in
    if ltb_ℤ (pos 0) q.limit && ltb (pos_part q.limit) (length out)
    then take (pos_part q.limit) out
    else out
