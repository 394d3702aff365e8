-- ===== src/Queries/Keys.antt =====
-- The keys that internal/reconciliation/reconcile.go goes through: each stands there once.
use go_label.Base.{
  ℕ, ◌≡◌, refl, ap, String, Bool, true, not, ◌||◌, List, [], ◌∷◌, arith, eq_iff, str_eq, All-append,
  All-keep_if, All-map, keep_if, All, count_if, count_if-append, if◌then◌else◌,
}
use go_label.Base.Maps.{Map, lookup, insert, has, Distinct, insert-Distinct}
use go_label.Base.Sorting.{sort_by, insert_by}
use go_label.Base.Text.{text_before}
use go_label.Queries.Reconciliation.{Entry, by_external_id, keys_of, all_keys}

abbrev pub times : String → List String → ℕ
times k ks = count_if (λ j. str_eq j k) ks

times-insert_by :
    (k x : String) (xs : List String) → times k (insert_by text_before x xs) ≡ times k (x ∷ xs)
unfolding insert_by
times-insert_by k x [] = refl
times-insert_by k x (y ∷ ys) = ground (arith, times-insert_by k x ys)

pub times-sort_by : (k : String) (xs : List String) → times k (sort_by text_before xs) ≡ times k xs
unfolding sort_by
times-sort_by k [] = refl
times-sort_by k (x ∷ xs) =
    ground (arith, times-insert_by k x (sort_by text_before xs), times-sort_by k xs)

times-keys_of :
    (k : String) (m : Map Entry) → Distinct m → times k (keys_of m) ≡ (if has k m then 1 else 0)
unfolding lookup
times-keys_of k [] d = refl
times-keys_of k ((j, v) ∷ m) d = ground (arith, times-keys_of k m d.1, eq_iff j k)

times-keep_if :
    (k : String) (p : String → Bool) (ks : List String)
    → times k (keep_if p ks) ≡ (if p k then times k ks else 0)
times-keep_if k p [] = ground arith
times-keep_if k p (j ∷ ks) = ground (arith, times-keep_if k p ks, ap p, eq_iff j k)

pub times-all_keys :
    (k : String) (lm rm : Map Entry)
    → Distinct lm
    → Distinct rm
    → times k (all_keys lm rm) ≡ (if has k lm || has k rm then 1 else 0)
times-all_keys k lm rm d e = ground (
  arith,
  count_if-append (λ j. str_eq j k) (keys_of lm) (keep_if (λ j. not (has j lm)) (keys_of rm)),
  times-keys_of k lm d,
  times-keys_of k rm e,
  times-keep_if k (λ j. not (has j lm)) (keys_of rm),
)

-- Keys of one of the two maps.
abbrev pub AreKeys : Map Entry → Map Entry → List String → Type 0
AreKeys lm rm ks = All (λ k. (has k lm || has k rm) ≡ true) ks

keys_of-All : (m : Map Entry) → All (λ k. has k m ≡ true) (keys_of m)
unfolding lookup
keys_of-All [] = tt
keys_of-All ((j, v) ∷ m) = (
  ground (arith, eq_iff j j),
  All-map (λ k. has k m ≡ true) _ (λ k h. ground arith) (keys_of m) (keys_of-All m),
)

pub AreKeys-all_keys : (lm rm : Map Entry) → AreKeys lm rm (all_keys lm rm)
AreKeys-all_keys lm rm =
    All-append (λ k. (has k lm || has k rm) ≡ true) (keys_of lm) _
      (All-map (λ k. has k lm ≡ true) _ (λ k h. ground arith) (keys_of lm) (keys_of-All lm))
      (All-keep_if _ (λ k. not (has k lm)) (keys_of rm)
        (All-map (λ k. has k rm ≡ true) _ (λ k h. ground arith) (keys_of rm) (keys_of-All rm)))

pub by_external_id-Distinct :
    (vs : List Entry) (m : Map Entry) → Distinct m → Distinct (by_external_id vs m)
unfolding by_external_id
by_external_id-Distinct [] m d = d
by_external_id-Distinct (v ∷ vs) m d =
    by_external_id-Distinct vs (insert v.external_id v m) (insert-Distinct v.external_id v m d)
