-- ===== src/Queries/Reconciliation.antt =====
-- internal/reconciliation/reconcile.go.
use go_label.Base.{
  String, Bool, not, ◌||◌, Option, none, some, List, [], ◌∷◌, ◌++◌, str_eq, nat_eq, is_blank,
  keep_if, map, if◌then◌else◌,
}
use go_label.Base.Results.{Result, err, done, invalid}
use go_label.Base.Int64.{ℤ, eq_ℤ}
use go_label.Base.Instants.{Time, is_zero}
use go_label.Base.Maps.{Map, lookup, insert, has}
use go_label.Base.Sorting.{sort_by}
use go_label.Base.Text.{text_before}

pub record Entry : Type 0 where
  pub id : String
  pub external_id : String
  pub kind : String
  pub amount : ℤ
  pub occurred_at : Time

pub data Reason : Type 0 where
  missing_local missing_remote different_values : Reason

pub record Difference : Type 0 where
  pub external_id : String
  pub reason : Reason
  pub local : Option Entry
  pub remote : Option Entry

-- `for _, v := range entries { m[v.ExternalID] = v }`.
unfoldable pub by_external_id : List Entry → Map Entry → Map Entry
by_external_id [] m = m
by_external_id (v ∷ vs) m = by_external_id vs (insert v.external_id v m)

abbrev pub keys_of : Map Entry → List String
keys_of m = map (λ e. e.0) m

unfoldable pub has_other_values : Entry → Entry → Bool
has_other_values l r =
    not (str_eq l.kind r.kind)
    || (not (eq_ℤ l.amount r.amount) || not (nat_eq l.occurred_at r.occurred_at))

-- One turn of the last loop of Compare, whose keys stand in one of the two maps at least.
unfoldable pub difference : String → Option Entry → Option Entry → List Difference
unfolding has_other_values
difference k none none =
    record { external_id = k; reason = Reason.missing_local; local = none; remote = none } ∷ []
difference k none (some r) =
    record { external_id = k; reason = Reason.missing_local; local = none; remote = some r } ∷ []
difference k (some l) none =
    record { external_id = k; reason = Reason.missing_remote; local = some l; remote = none } ∷ []
difference k (some l) (some r) =
    if has_other_values l r
    then record {
      external_id = k;
      reason = Reason.different_values;
      local = some l;
      remote = some r;
    }
      ∷ []
    else []

abbrev pub differences : Map Entry → Map Entry → List String → List Difference
differences lm rm [] = []
differences lm rm (k ∷ ks) = difference k (lookup k lm) (lookup k rm) ++ differences lm rm ks

abbrev pub all_keys : Map Entry → Map Entry → List String
all_keys lm rm = keys_of lm ++ keep_if (λ k. not (has k lm)) (keys_of rm)

unfoldable pub compare : List Entry → List Entry → List Difference
unfolding difference by_external_id
compare local remote =
    let lm = by_external_id local [] in
    let rm = by_external_id remote [] in differences lm rm (sort_by text_before (all_keys lm rm))

unfoldable pub validate : Entry → Result (Unit {0})
validate e =
    if is_blank e.external_id || (is_blank e.kind || is_zero e.occurred_at)
    then err invalid
    else done
