-- ===== src/Queries/Answers.antt =====
-- What the answers of internal/search/query.go are.
use Prim.Native.Nat.{min}
use mathlib.Core.List.{Perm}
use go_label.Base.{
  ℕ, zero, suc, ◌<◌, ◌≤◌, ◌≡◌, ◌⊎◌, ◌↔◌, refl, ap, sym, subst, String, true, false, List, [], ◌∷◌,
  ◌++◌, arith, eq_iff, str_eq, is_blank, keep_if, keep_if-All, All, All-map, map, length,
  length-take, take, take_all, if◌then◌else◌, inl, inr, Bool-cases, ltb, ◌&&◌,
}
use go_label.Base.Int64.{ℤ, pos, pos_part, ltb_ℤ}
use go_label.Base.Sorting.{IsSorted, sort_by, sort_by-IsSorted, sort_by-perm}
use go_label.Base.Text.{
  trim_space, to_lower, contains_text, text_before, text_before_asymmetric, text_before_transitive,
}
use go_label.Domain.Types.{ShipmentStatus}
use go_label.Clearance.Aggregate.{status_text}
use go_label.Queries.Search.{
  Query, Item, has_status, no_statuses, is_match, score, scored, ranks_before, matches, filter,
}

-- The text that the query searches for.
abbrev pub term_of : Query → String
term_of q = to_lower (trim_space q.term)

abbrev pub IsAmong : String → List ShipmentStatus → Type 0
IsAmong text [] = ⊥
IsAmong text (s ∷ ss) = (status_text s ≡ text) ⊎ IsAmong text ss

-- The reference has the term, the places are those asked for and the status is one of those asked
-- for; what is empty in the query asks for nothing.
abbrev pub IsMatch : Query → Item → Type 0
IsMatch q v =
    ((term_of q ≡ "") ⊎ (contains_text (to_lower v.reference) (term_of q) ≡ true))
    × ((q.origin ≡ "") ⊎ (v.origin ≡ q.origin))
    × ((q.destination ≡ "") ⊎ (v.destination ≡ q.destination))
    × ((q.statuses ≡ []) ⊎ IsAmong (status_text v.status) q.statuses)

-- The points of an item that has the term: 110 for a reference that is the term but for case, 10
-- for any other, none without a term.
abbrev pub points : String → Item → ℕ
points term v =
    if is_blank term then 0 else if str_eq (to_lower v.reference) (to_lower term) then 110 else 10

abbrev pub with_points : String → Item → Item
with_points term v = record v { score = points term v }

-- Higher scores first, then smaller ids.
abbrev pub IsRanked : Item → Item → Type 0
IsRanked v w = (w.score < v.score) ⊎ ((w.score ≡ v.score) × (text_before w.id v.id ≡ false))

abbrev pub AreRanked : List Item → Type 0
AreRanked [] = Unit {0}
AreRanked (v ∷ vs) = All (IsRanked v) vs × AreRanked vs

-- The number of results for a limit: none is set by a limit that is not positive.
abbrev pub shown : ℤ → ℕ → ℕ
shown limit n = if ltb_ℤ (pos 0) limit then min (pos_part limit) n else n

pub record IsAnswer (items : List Item) (q : Query) (out : List Item) : Type 0 where
  pub cut_off : List Item
  pub tests : (v : Item) → (is_match q (term_of q) v ≡ true) ↔ IsMatch q v
  pub complete :
      Perm (out ++ cut_off) (map (with_points (term_of q)) (keep_if (is_match q (term_of q)) items))
  pub ranked : AreRanked (out ++ cut_off)
  pub filled : length out ≡ shown q.limit (length (out ++ cut_off))

has_status_iff :
    (ss : List ShipmentStatus) (s : ShipmentStatus)
    → (has_status ss s ≡ true) ↔ IsAmong (status_text s) ss
unfolding has_status
has_status_iff [] s = ground arith
has_status_iff (x ∷ ss) s =
    ground (arith, eq_iff (status_text x) (status_text s), has_status_iff ss s)

no_statuses_iff : (ss : List ShipmentStatus) → (no_statuses ss ≡ true) ↔ (ss ≡ [])
no_statuses_iff [] = ground arith
no_statuses_iff (s ∷ ss) = ground arith

is_match_iff : (q : Query) (v : Item) → (is_match q (term_of q) v ≡ true) ↔ IsMatch q v
unfolding is_match
is_match_iff q v = ground (
  arith,
  eq_iff (term_of q) "",
  eq_iff q.origin "",
  eq_iff q.destination "",
  eq_iff v.origin q.origin,
  eq_iff v.destination q.destination,
  no_statuses_iff q.statuses,
  has_status_iff q.statuses v.status,
)

scored_points :
    (q : Query) (term : String) (v : Item)
    → is_match q term v ≡ true
    → scored term v ≡ with_points term v
unfolding is_match score
scored_points q term v h = ground arith

map-scored :
    (q : Query) (term : String) (vs : List Item)
    → All (λ v. is_match q term v ≡ true) vs
    → map (scored term) vs ≡ map (with_points term) vs
map-scored q term [] h = refl
map-scored q term (v ∷ vs) h = ground (arith, scored_points q term v h.0, map-scored q term vs h.1)

ranks_before_asymmetric : (x y : Item) → ranks_before x y ≡ true → ranks_before y x ≡ false
ranks_before_asymmetric x y h = ground (arith, text_before_asymmetric x.id y.id)

ranks_before_transitive :
    (x y z : Item) → ranks_before x y ≡ false → ranks_before y z ≡ false → ranks_before x z ≡ false
ranks_before_transitive x y z h k = ground (arith, text_before_transitive x.id y.id z.id)

IsSorted-AreRanked : (vs : List Item) → IsSorted ranks_before vs → AreRanked vs
IsSorted-AreRanked [] h = tt
IsSorted-AreRanked (v ∷ vs) h = (
  All-map (λ w. ranks_before w v ≡ false) (IsRanked v) (λ w later. ground arith) vs h.0,
  IsSorted-AreRanked vs h.1,
)

abbrev drop : ℕ → List Item → List Item
drop zero vs = vs
drop (suc n) [] = []
drop (suc n) (v ∷ vs) = drop n vs

take-drop : (n : ℕ) (vs : List Item) → take n vs ++ drop n vs ≡ vs
take-drop zero vs = refl
take-drop (suc n) [] = refl
take-drop (suc n) (v ∷ vs) = ap (λ ws. v ∷ ws) (take-drop n vs)

cut_shown :
    (limit : ℤ) (out : List Item)
    → (if ltb_ℤ (pos 0) limit && ltb (pos_part limit) (length out)
        then take (pos_part limit) out
        else out)
      ≡ take (shown limit (length out)) out
cut_shown limit out = elim (Bool-cases (ltb_ℤ (pos 0) limit && ltb (pos_part limit) (length out))) [
  | inl cut ↦ rw cut (ap (λ n. take n out) (ground arith))
  | inr whole ↦ rw whole (sym (take_all (shown limit (length out)) out (ground arith)))
]

shown-le : (limit : ℤ) (n : ℕ) → shown limit n ≤ n
shown-le limit n = ground arith

-- The search returns the items that have the term of the query in their references and the places
-- and one of the statuses that it asks for, each with its score, by score from the highest and
-- then by id: all of them, or as many of the first as a positive limit allows.
pub filter-IsAnswer : (items : List Item) (q : Query) → IsAnswer items q (filter items q)
unfolding filter
filter-IsAnswer items q =
    let found = matches items q in
    let out = sort_by ranks_before found in
    let n = shown q.limit (length out) in
    let sorted =
      sort_by-IsSorted ranks_before ranks_before_asymmetric ranks_before_transitive found in
    let pointed =
      map-scored q (term_of q) (keep_if (is_match q (term_of q)) items)
        (keep_if-All (is_match q (term_of q)) items) in
    rw (cut_shown q.limit out) (record {
      cut_off = drop n out;
      tests = is_match_iff q;
      complete = rw (take-drop n out) (subst (Perm out) pointed (sort_by-perm ranks_before found));
      ranked = rw (take-drop n out) (IsSorted-AreRanked out sorted);
      filled =
          rw (take-drop n out) (omega (arith, length-take n out, shown-le q.limit (length out)));
    })
