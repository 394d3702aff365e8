-- ===== src/Base/Maps.antt =====
-- Go maps keyed by strings, as association lists. Their order is one order in which `range` may
-- visit the entries; theorems range over all lists.
use Prim.Native.String.{String}
use mathlib.Core.Path.{◌≡◌, sym, subst, refl}
use mathlib.Core.Bool.{Bool, false}
use mathlib.Core.Option
use mathlib.Core.Option.{Option, none, some, some-injective}
use mathlib.Core.Logic.{◌⊎◌, inl, inr}
use mathlib.Core.List.{List, [], ◌∷◌}
use native.Mathlib.Omega.{arith}
use text.Mathlib.TextEquality.{eq_iff}
use text.Mathlib.TextPositions.{eq_refl}
use go_label.Base.Tests.{Bool-cases, str_eq, is_some, if◌then◌else◌}

abbrev pub Map {ℓ} : Type ℓ → Type ℓ
Map V = List (String × V)

module _ {ℓ} {V : Type ℓ} where
  -- `v, ok := m[wanted]`.
  unfoldable pub lookup : String → Map V → Option V
  lookup wanted [] = none
  lookup wanted (entry ∷ rest) = if str_eq entry.0 wanted then some entry.1 else lookup wanted rest

  -- `m[at] = value`.
  unfoldable pub insert : String → V → Map V → Map V
  insert at value [] = (at, value) ∷ []
  insert at value (entry ∷ rest) =
      if str_eq entry.0 at then (entry.0, value) ∷ rest else entry ∷ insert at value rest

  -- `delete(m, gone)`.
  unfoldable pub delete : String → Map V → Map V
  delete gone [] = []
  delete gone (entry ∷ rest) =
      let kept = delete gone rest in if str_eq entry.0 gone then kept else entry ∷ kept

  -- `for k, v := range m { m[k] = f(v) }`.
  unfoldable pub map_values : (V → V) → Map V → Map V
  map_values f [] = []
  map_values f ((k, v) ∷ m) = (k, f v) ∷ map_values f m

  abbrev pub values : Map V → List V
  values [] = []
  values ((k, v) ∷ m) = v ∷ values m

  abbrev pub has : String → Map V → Bool
  has k m = is_some (lookup k m)

  pub lookup-insert :
      (at wanted : String) (value : V) (entries : Map V)
      → lookup wanted (insert at value entries)
        ≡ (if str_eq at wanted then some value else lookup wanted entries)
  unfolding lookup insert
  lookup-insert at wanted value [] = refl
  lookup-insert at wanted value (entry ∷ rest) =
      let later = lookup-insert at wanted value rest in
      ground (arith, later, eq_iff entry.0 wanted, eq_iff entry.0 at, eq_iff at wanted)

  pub lookup-insert_self :
      (at : String) (value : V) (entries : Map V) → lookup at (insert at value entries) ≡ some value
  lookup-insert_self at value entries = rw (lookup-insert at at value entries, eq_refl at)

  pub lookup-delete :
      (gone wanted : String) (entries : Map V)
      → lookup wanted (delete gone entries)
        ≡ (if str_eq gone wanted then none else lookup wanted entries)
  unfolding lookup delete
  lookup-delete gone wanted [] = ground arith
  lookup-delete gone wanted (entry ∷ rest) =
      let later = lookup-delete gone wanted rest in
      ground (arith, later, eq_iff entry.0 wanted, eq_iff entry.0 gone, eq_iff gone wanted)

  -- Every key stands once, as in a Go map.
  abbrev pub Distinct : Map V → Type ℓ
  Distinct [] = Unit
  Distinct ((k, v) ∷ m) = (lookup k m ≡ none) × Distinct m

  lookup-insert_absent :
      (k j : String) (v : V) (m : Map V)
      → str_eq k j ≡ false
      → lookup j m ≡ none
      → lookup j (insert k v m) ≡ none
  lookup-insert_absent k j v m ne h = rw (lookup-insert k j v m, ne) h

  pub insert-Distinct : (k : String) (v : V) (m : Map V) → Distinct m → Distinct (insert k v m)
  unfolding insert lookup
  insert-Distinct k v [] d = (refl, tt)
  insert-Distinct k v ((j, w) ∷ m) d = elim (Bool-cases (str_eq j k)) [
    | inl e ↦ rw e d
    | inr ne ↦ rw ne (
      lookup-insert_absent k j v m (ground (arith, ne, eq_iff j k, eq_iff k j)) d.0,
      insert-Distinct k v m d.1,
    )
  ]

  pub delete-Distinct : (k : String) (m : Map V) → Distinct m → Distinct (delete k m)
  unfolding delete
  delete-Distinct k [] d = tt
  delete-Distinct k ((j, v) ∷ m) d = ground (arith, delete-Distinct k m d.1, lookup-delete k j m)

  pub lookup-map_values :
      (f : V → V) (k : String) (m : Map V) → lookup k (map_values f m) ≡ Option.map f (lookup k m)
  unfolding lookup map_values
  lookup-map_values f k [] = refl
  lookup-map_values f k ((j, v) ∷ m) = ground (arith, lookup-map_values f k m)

  pub map_values-Distinct : (f : V → V) (m : Map V) → Distinct m → Distinct (map_values f m)
  unfolding map_values
  map_values-Distinct f [] d = tt
  map_values-Distinct f ((k, v) ∷ m) d =
      (rw (lookup-map_values f k m, d.0), map_values-Distinct f m d.1)

  -- A predicate on every entry that a lookup can find.
  abbrev pub Each {κ} : (V → Type κ) → Map V → Type (ℓ ⊔ κ)
  Each P m = (k : String) (v : V) → lookup k m ≡ some v → P v

  pub insert-Each {κ} :
      (P : V → Type κ) (k : String) (v : V) (m : Map V) → P v → Each P m → Each P (insert k v m)
  insert-Each P k v m p each j w h = elim (Bool-cases (str_eq k j)) [
    | inl e ↦ subst P {x = v} {y = w} (ground (arith, lookup-insert k j v m)) p
    | inr ne ↦ each j w (ground (arith, lookup-insert k j v m))
  ]

  -- A map after a call that leaves it alone or writes a value with a property.
  abbrev pub Writes {κ} : (V → Type κ) → String → V → Map V → Map V → Type (ℓ ⊔ κ)
  Writes P k v m m' = (m' ≡ m) ⊎ (P v × (m' ≡ insert k v m))

  pub Writes-Each {κ} :
      (P : V → Type κ) (k : String) (v : V) (m m' : Map V)
      → Writes P k v m m'
      → Each P m
      → Each P m'
  Writes-Each P k v m m' (inl same) each = subst (Each P) (sym same) each
  Writes-Each P k v m m' (inr (p, written)) each =
      subst (Each P) (sym written) (insert-Each P k v m p each)
