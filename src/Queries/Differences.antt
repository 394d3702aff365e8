-- ===== src/Queries/Differences.antt =====
-- What internal/reconciliation/reconcile.go reports.
use go_label.Base.{
  ◌↔◌, ◌≤◌, ◌∙◌, ℕ, inl, inr, ◌≡◌, refl, String, Bool, true, false, ◌&&◌, ◌||◌, Option, none, some,
  List, [], ◌∷◌, arith, eq_iff, str_eq, All-append, All-map, All, count_if, count_if-append,
  is_some, if◌then◌else◌, Bool-cases,
}
use go_label.Base.Int64.{eq_ℤ_iff}
use go_label.Base.Maps.{Map, lookup, insert, lookup-insert, has}
use go_label.Base.Sorting.{sort_by, sort_by-All}
use go_label.Base.Text.{text_before}
use go_label.Queries.Reconciliation.{
  Entry, Reason, Difference, by_external_id, has_other_values, difference, differences, all_keys,
  compare,
}
use go_label.Queries.Keys.{
  times, times-sort_by, times-all_keys, AreKeys, AreKeys-all_keys, by_external_id-Distinct,
}

abbrev pub is_about : String → Difference → Bool
is_about k d = str_eq d.external_id k

-- Two entries that are not the same record of one event: one is missing, or a value is another.
abbrev differ : Option Entry → Option Entry → Bool
differ none none = false
differ none (some r) = true
differ (some l) none = true
differ (some l) (some r) = has_other_values l r

count_difference :
    (j k : String) (a b : Option Entry)
    → (is_some a || is_some b) ≡ true
    → count_if (is_about k) (difference j a b) ≡ (if str_eq j k && differ a b then 1 else 0)
unfolding difference
count_difference j k none none h = ground arith
count_difference j k none (some r) h = ground arith
count_difference j k (some l) none h = ground arith
count_difference j k (some l) (some r) h = ground arith

count_differences :
    (k : String) (lm rm : Map Entry) (ks : List String)
    → AreKeys lm rm ks
    → count_if (is_about k) (differences lm rm ks)
      ≡ (if differ (lookup k lm) (lookup k rm) then times k ks else 0)
count_differences k lm rm [] h = ground arith
count_differences k lm rm (j ∷ ks) h = ground (
  arith,
  count_if-append (is_about k) (difference j (lookup j lm) (lookup j rm)) (differences lm rm ks),
  count_difference j k (lookup j lm) (lookup j rm) h.0,
  count_differences k lm rm ks h.1,
  eq_iff j k,
)

-- The reason for two entries that are not the same.
abbrev pub reason_of : Option Entry → Option Entry → Reason
reason_of none _ = Reason.missing_local
reason_of (some l) none = Reason.missing_remote
reason_of (some l) (some r) = Reason.different_values

-- A difference shows the entries that the two sides have under its id, and the reason for them.
abbrev Shows : Map Entry → Map Entry → Difference → Type 0
Shows lm rm d =
    (d.local ≡ lookup d.external_id lm)
    × (d.remote ≡ lookup d.external_id rm)
    × (d.reason ≡ reason_of d.local d.remote)

difference-Shows :
    (lm rm : Map Entry) (k : String) (a b : Option Entry)
    → a ≡ lookup k lm
    → b ≡ lookup k rm
    → All (Shows lm rm) (difference k a b)
unfolding difference
difference-Shows lm rm k none none f g = ((f, g, refl), tt)
difference-Shows lm rm k none (some r) f g = ((f, g, refl), tt)
difference-Shows lm rm k (some l) none f g = ((f, g, refl), tt)
difference-Shows lm rm k (some l) (some r) f g = elim (Bool-cases (has_other_values l r)) [
  | inl other ↦ rw other ((f, g, refl), tt)
  | inr same ↦ rw same tt
]

differences-Shows :
    (lm rm : Map Entry) (ks : List String) → All (Shows lm rm) (differences lm rm ks)
differences-Shows lm rm [] = tt
differences-Shows lm rm (k ∷ ks) =
    All-append (Shows lm rm) (difference k (lookup k lm) (lookup k rm)) (differences lm rm ks)
      (difference-Shows lm rm k (lookup k lm) (lookup k rm) refl refl) (differences-Shows lm rm ks)

differ_has : (a b : Option Entry) → differ a b ≡ true → (is_some a || is_some b) ≡ true
differ_has none none h = ground arith
differ_has none (some r) h = refl
differ_has (some l) none h = refl
differ_has (some l) (some r) h = refl

-- The last entry under an external id.
abbrev pub last_under : String → List Entry → Option Entry
last_under k [] = none
last_under k (v ∷ vs) = elim (last_under k vs) [
  | some w ↦ some w
  | none ↦ if str_eq v.external_id k then some v else none
]

lookup-by_external_id :
    (k : String) (vs : List Entry) (m : Map Entry)
    → lookup k (by_external_id vs m)
      ≡ elim (last_under k vs) [ some w ↦ some w | none ↦ lookup k m ]
unfolding by_external_id
lookup-by_external_id k [] m = refl
lookup-by_external_id k (v ∷ vs) m = ground (
  arith,
  lookup-by_external_id k vs (insert v.external_id v m),
  lookup-insert v.external_id k v m,
)

found_last : (k : String) (vs : List Entry) → lookup k (by_external_id vs []) ≡ last_under k vs
unfolding lookup
found_last k vs = ground (arith, lookup-by_external_id k vs [])

-- Nothing on both sides, or two entries with one kind, amount and time.
abbrev pub AreSame : Option Entry → Option Entry → Type 0
AreSame none none = Unit {0}
AreSame (some l) (some r) =
    (l.kind ≡ r.kind) × (l.amount ≡ r.amount) × (l.occurred_at ≡ r.occurred_at)
AreSame _ _ = ⊥

differ-AreSame : (a b : Option Entry) → (differ a b ≡ false) ↔ AreSame a b
unfolding has_other_values
differ-AreSame none none = ground arith
differ-AreSame none (some r) = ground arith
differ-AreSame (some l) none = ground arith
differ-AreSame (some l) (some r) = ground (arith, eq_iff l.kind r.kind, eq_ℤ_iff l.amount r.amount)

-- A difference has the last entries under its id on the two sides, and the reason for them.
abbrev pub ShowsLast : List Entry → List Entry → Difference → Type 0
ShowsLast local remote d =
    (d.local ≡ last_under d.external_id local)
    × (d.remote ≡ last_under d.external_id remote)
    × (d.reason ≡ reason_of d.local d.remote)

counted_iff :
    (n : ℕ) (a b : Option Entry)
    → n ≡ (if differ a b then 1 else 0)
    → (n ≤ 1) × ((n ≡ 0) ↔ AreSame a b)
counted_iff n a b h = elim (Bool-cases (differ a b)) [
  | inl other ↦ (
    ground arith,
    (
      (λ zero. absurd (ground arith)),
      λ same. let equal = (differ-AreSame a b).1 same in ground arith,
    ),
  )
  | inr equal ↦ (ground arith, ((λ zero. (differ-AreSame a b).0 equal), λ same. ground arith))
]

-- For each external id, Compare of two lists of entries reports no difference when neither list
-- has an entry under the id or the last ones under it have the same kind, amount and time, and
-- reports exactly one otherwise. Every difference shows the last entries under its id on the two
-- sides, and its reason says which one is missing or that their values differ.
pub compare_reports :
    (local remote : List Entry) (k : String)
    → let n = count_if (is_about k) (compare local remote) in
      (n ≤ 1)
      × ((n ≡ 0) ↔ AreSame (last_under k local) (last_under k remote))
      × All (ShowsLast local remote) (compare local remote)
unfolding compare
compare_reports local remote k =
    let lm = by_external_id local [] in
    let rm = by_external_id remote [] in
    let keys = all_keys lm rm in
    let sorted =
      sort_by-All text_before (λ k. (has k lm || has k rm) ≡ true) keys (AreKeys-all_keys lm rm) in
    let (once, none_iff) = counted_iff _ (last_under k local) (last_under k remote) (
      ground (
        arith,
        count_differences k lm rm (sort_by text_before keys) sorted,
        times-sort_by k keys,
        times-all_keys k lm rm (by_external_id-Distinct local [] tt)
            (by_external_id-Distinct remote [] tt),
        differ_has (lookup k lm) (lookup k rm),
        found_last k local,
        found_last k remote,
      )) in
    (
      once,
      none_iff,
      All-map (Shows lm rm) (ShowsLast local remote)
          (λ d h.
            (h.0 ∙ found_last d.external_id local, h.1 ∙ found_last d.external_id remote, h.2))
          _ (differences-Shows lm rm (sort_by text_before keys)),
    )
