-- ===== src/Documents/Pricing.antt =====
-- Rates and quotes of internal/pricing/rules.go.
use go_label.Base.{
  ◌≡◌, subst, String, Bool, true, false, not, ◌&&◌, ◌||◌, List, [], ◌∷◌, ◌++◌, arith, str_eq,
  is_blank, keep_if, keep_if-All, All, if◌then◌else◌,
}
use go_label.Base.Results.{Result, ok, err, done, invalid, not_found}
use go_label.Base.Int64.{ℤ, pos, leb_ℤ, ltb_ℤ, add64, mul64}
use go_label.Base.Instants.{Time, before, after}
use go_label.Base.Sorting.{IsSorted, sort_by, sort_by-IsSorted, sort_by-All, sort_by-All_back}

pub record Rate : Type 0 where
  pub origin : String
  pub destination : String
  pub min_kg : ℤ
  pub max_kg : ℤ
  pub cents_per_kg : ℤ
  pub fuel_cents : ℤ
  pub effective_from : Time
  pub effective_to : Time

pub record Quote : Type 0 where
  pub currency : String
  pub base_cents : ℤ
  pub fuel_cents : ℤ
  pub surcharges : ℤ
  pub total_cents : ℤ
  pub rate : Rate

pub record Table : Type 0 where
  pub rates : List Rate

unfoldable pub add : Table → Rate → Table × Result (Unit {0})
add t r =
    if is_blank r.origin
      || (is_blank r.destination
          || (leb_ℤ r.min_kg (pos 0)
              || (ltb_ℤ r.max_kg r.min_kg
                  || (ltb_ℤ r.cents_per_kg (pos 0)
                      || not (after r.effective_to r.effective_from)))))
    then (t, err invalid)
    else (record { rates = t.rates ++ (r ∷ []) }, done)

unfoldable pub applies : String → String → ℤ → Time → Rate → Bool
applies origin destination weight at r =
    str_eq r.origin origin
    && (str_eq r.destination destination
        && (leb_ℤ r.min_kg weight
            && (leb_ℤ weight r.max_kg
                && (not (before at r.effective_from) && before at r.effective_to))))

abbrev pub newer : Rate → Rate → Bool
newer a b = after a.effective_from b.effective_from

-- The quote of a rate. No int64 is above math.MaxInt64.
unfoldable pub priced : Rate → ℤ → Result Quote
priced r weight =
    let base = mul64 r.cents_per_kg weight in
    let total = add64 base r.fuel_cents in
    if ltb_ℤ total (pos 0)
    then err invalid
    else ok (record {
      currency = "CNY";
      base_cents = base;
      fuel_cents = r.fuel_cents;
      surcharges = pos 0;
      total_cents = total;
      rate = r;
    })

unfoldable pub quote : Table → String → String → ℤ → Time → Result Quote
unfolding applies priced
quote t origin destination weight at =
    if leb_ℤ weight (pos 0)
    then err invalid
    else elim (sort_by newer (keep_if (applies origin destination weight at) t.rates)) [
      | [] ↦ err not_found
      | r ∷ rest ↦ priced r weight
    ]

newer_asymmetric : (x y : Rate) → newer x y ≡ true → newer y x ≡ false
newer_asymmetric x y h = ground arith

newer_transitive : (x y z : Rate) → newer x y ≡ false → newer y z ≡ false → newer x z ≡ false
newer_transitive x y z h k = ground arith

-- What is asked of the quote at a rate of a list: the rate applies, none of the list is newer, and
-- the price is that of the rate.
abbrev pub IsBest : (Rate → Bool) → List Rate → ℤ → Quote → Type 0
IsBest p rs weight q =
    (p q.rate ≡ true) × All (λ r. newer r q.rate ≡ false) rs × (priced q.rate weight ≡ ok q)

first-IsBest :
    (p : Rate → Bool) (r : Rate) (rs : List Rate) (weight : ℤ) (q : Quote)
    → IsSorted newer (r ∷ rs)
    → p r ≡ true
    → priced r weight ≡ ok q
    → IsBest p (r ∷ rs) weight q
unfolding priced
first-IsBest p r rs weight q sorted applied price =
    subst (λ x. (p x ≡ true) × All (λ y. newer y x ≡ false) (r ∷ rs) × (priced x weight ≡ ok q))
      rate_of (applied, (ground arith, sorted.0), price)
  where
    rate_of : r ≡ q.rate
    rate_of = ground arith

pub quote-IsBest :
    (t : Table) (origin destination : String) (weight : ℤ) (at : Time) (q : Quote)
    → quote t origin destination weight at ≡ ok q
    → let p = applies origin destination weight at in IsBest p (keep_if p t.rates) weight q
unfolding quote
quote-IsBest t origin destination weight at q h =
    let p = applies origin destination weight at in
    let found = keep_if p t.rates in
    let best =
      of_sorted (sort_by newer found)
        (sort_by-IsSorted newer newer_asymmetric newer_transitive found)
        (sort_by-All newer _ found (keep_if-All p t.rates)) (ground arith) in
    (best.0, sort_by-All_back newer _ found best.1, best.2)
  where
    of_sorted :
        (rs : List Rate)
        → IsSorted newer rs
        → All (λ r. applies origin destination weight at r ≡ true) rs
        → elim rs [ [] ↦ err not_found | r ∷ rest ↦ priced r weight ] ≡ ok q
        → IsBest (applies origin destination weight at) rs weight q
    of_sorted [] sorted all e = absurd (ground arith)
    of_sorted (r ∷ rs) sorted all e =
        first-IsBest (applies origin destination weight at) r rs weight q sorted all.0 e
