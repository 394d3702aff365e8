-- ===== src/Ledgers/Capacity.antt =====
-- internal/capacity/capacity.go: buckets with a limit, held and released under a version.
use go_label.Base.{
  ◌≡◌, ◌^◌, ◌<◌, String, false, not, ◌||◌, none, some, List, [], ◌∷◌, arith, All, is_blank,
  if◌then◌else◌, inl, inr, Option-cases,
}
use go_label.Base.Results.{Result, ok, err, done, invalid, conflict, not_found, capacity}
use go_label.Base.Int64.{
  ℤ, pos, pos_part, eq_ℤ, ltb_ℤ, leb_ℤ, add64, sub64, wrap64_fits, ◌+ℤ◌, ◌-ℤ◌, ◌≤ℤ◌, +ℤ_parts,
  -ℤ_parts,
}
use go_label.Base.Maps.{Map, lookup, insert, has, Each, Writes, Writes-Each}

pub record Bucket : Type 0 where
  pub limit : ℤ
  pub used : ℤ
  pub version : ℤ

unfoldable pub define : Map Bucket → String → ℤ → Map Bucket × Result (Unit {0})
define b key limit =
    if is_blank key || leb_ℤ limit (pos 0)
    then (b, err invalid)
    else if has key b
    then (b, err conflict)
    else (insert key (record { limit = limit; used = pos 0; version = pos 1 }) b, done)

unfoldable pub hold : Map Bucket → String → ℤ → ℤ → Map Bucket × Result (Unit {0})
hold b key amount version = if leb_ℤ amount (pos 0) then (b, err invalid) else elim (lookup key b) [
  | none ↦ (b, err not_found)
  | some v ↦
      if not (eq_ℤ v.version version)
      then (b, err conflict)
      else if ltb_ℤ v.limit (add64 v.used amount)
      then (b, err capacity)
      else (
        insert key (record v { used = add64 v.used amount; version = add64 v.version (pos 1) }) b,
        done,
      )
]

unfoldable pub release : Map Bucket → String → ℤ → Map Bucket × Result (Unit {0})
release b key amount = if leb_ℤ amount (pos 0) then (b, err invalid) else elim (lookup key b) [
  | none ↦ (b, err not_found)
  | some v ↦ if ltb_ℤ v.used amount then (b, err invalid) else (
    insert key (record v { used = sub64 v.used amount; version = add64 v.version (pos 1) }) b,
    done,
  )
]

unfoldable pub get : Map Bucket → String → Result Bucket
get b key = elim (lookup key b) [ none ↦ err not_found | some v ↦ ok v ]

pub data Call : Type 0 where
  defines : String → ℤ → Call
  holds : String → ℤ → ℤ → Call
  releases : String → ℤ → Call

unfoldable pub run : Map Bucket → List Call → Map Bucket
run b [] = b
run b (Call.defines key limit ∷ cs) = run (define b key limit).0 cs
run b (Call.holds key amount version ∷ cs) = run (hold b key amount version).0 cs
run b (Call.releases key amount ∷ cs) = run (release b key amount).0 cs

-- Limits and amounts below 2^62 do not overflow an int64 when they are added.
abbrev pub IsModestCall : Call → Type 0
IsModestCall (Call.defines key limit) = pos_part limit < 2 ^ 62
IsModestCall (Call.holds key amount version) = pos_part amount < 2 ^ 62
IsModestCall (Call.releases key amount) = Unit {0}

pub record IsSound (v : Bucket) : Type 0 where
  pub not_negative : pos 0 ≤ℤ v.used
  pub within : v.used ≤ℤ v.limit
  pub modest : pos_part v.limit < 2 ^ 62

-- The buckets that the calls write.
abbrev defined : ℤ → Bucket
defined limit = record { limit = limit; used = pos 0; version = pos 1 }

abbrev held : Bucket → ℤ → Bucket
held v amount = record v { used = add64 v.used amount; version = add64 v.version (pos 1) }

abbrev released : Bucket → ℤ → Bucket
released v amount = record v { used = sub64 v.used amount; version = add64 v.version (pos 1) }

define-Writes :
    (b : Map Bucket) (key : String) (limit : ℤ)
    → pos_part limit < 2 ^ 62
    → Writes IsSound key (defined limit) b (define b key limit).0
unfolding define
define-Writes b key limit m = ground arith

held-IsSound :
    (v : Bucket) (amount : ℤ)
    → pos_part amount < 2 ^ 62
    → leb_ℤ amount (pos 0) ≡ false
    → ltb_ℤ v.limit (add64 v.used amount) ≡ false
    → IsSound v
    → IsSound (held v amount)
held-IsSound v amount m positive room h =
    ground (arith, wrap64_fits (v.used +ℤ amount), +ℤ_parts v.used amount)

released-IsSound :
    (v : Bucket) (amount : ℤ)
    → leb_ℤ amount (pos 0) ≡ false
    → ltb_ℤ v.used amount ≡ false
    → IsSound v
    → IsSound (released v amount)
released-IsSound v amount positive enough h =
    ground (arith, wrap64_fits (v.used -ℤ amount), -ℤ_parts v.used amount)

hold-Each :
    (b : Map Bucket) (key : String) (amount version : ℤ)
    → pos_part amount < 2 ^ 62
    → Each IsSound b
    → Each IsSound (hold b key amount version).0
unfolding hold
hold-Each b key amount version m h = elim (Option-cases (lookup key b)) [
  | inl missing ↦ Writes-Each IsSound key (defined amount) b _ (inl (ground arith)) h
  | inr (v, found) ↦
      Writes-Each IsSound key (held v amount) b _
        (ground (arith, held-IsSound v amount m, h key v found)) h
]

release-Each :
    (b : Map Bucket) (key : String) (amount : ℤ)
    → Each IsSound b
    → Each IsSound (release b key amount).0
unfolding release
release-Each b key amount h = elim (Option-cases (lookup key b)) [
  | inl missing ↦ Writes-Each IsSound key (defined amount) b _ (inl (ground arith)) h
  | inr (v, found) ↦
      Writes-Each IsSound key (released v amount) b _
        (ground (arith, released-IsSound v amount, h key v found)) h
]

-- Over any history of Define, Hold and Release on the capacity buckets, with limits and held
-- amounts below 2^62, every bucket keeps an amount in use between zero and its limit, when it does
-- so at the start.
pub run-IsSound :
    (b : Map Bucket) (cs : List Call)
    → All IsModestCall cs
    → Each IsSound b
    → Each IsSound (run b cs)
unfolding run
run-IsSound b [] m h = h
run-IsSound b (Call.defines key limit ∷ cs) m h =
    run-IsSound (define b key limit).0 cs m.1
      (Writes-Each IsSound key (defined limit) b _ (define-Writes b key limit m.0) h)
run-IsSound b (Call.holds key amount version ∷ cs) m h =
    run-IsSound (hold b key amount version).0 cs m.1 (hold-Each b key amount version m.0 h)
run-IsSound b (Call.releases key amount ∷ cs) m h =
    run-IsSound (release b key amount).0 cs m.1 (release-Each b key amount h)
