-- ===== src/Base/Sorting.antt =====
-- sort.SliceStable as an insertion sort. sort.Slice may leave equal elements in any order: over
-- the entries of a map, which `range` gives in any order, its results are those of the stable sort.
use Prim.Native.Nat.{ℕ, zero, suc}
use mathlib.Core.Path.{◌≡◌, refl, subst}
use mathlib.Core.Bool.{Bool, true, false}
use mathlib.Core.List.{List, [], ◌∷◌, Perm}
use mathlib.Core.List.Perm
use native.Mathlib.Omega.{arith}
use go_label.Base.Tests.{Bool-cases, if◌then◌else◌}
use go_label.Base.Lists.{All, length, take}
use mathlib.Core.Logic.{inl, inr}

module _ {ℓ} {A : Type ℓ} (less : A → A → Bool) where
  unfoldable pub insert_by : A → List A → List A
  insert_by x [] = x ∷ []
  insert_by x (y ∷ ys) = if less y x then y ∷ insert_by x ys else x ∷ y ∷ ys

  unfoldable pub sort_by : List A → List A
  unfolding insert_by
  sort_by [] = []
  sort_by (x ∷ xs) = insert_by x (sort_by xs)

  insert_by-perm : (x : A) (ys : List A) → Perm (insert_by x ys) (x ∷ ys)
  unfolding insert_by
  insert_by-perm x [] = Perm.refl (x ∷ [])
  insert_by-perm x (y ∷ ys) = elim (Bool-cases (less y x)) [
    | inl e ↦ rw e (Perm.trans (Perm.cons y (insert_by-perm x ys)) (Perm.swap x y ys))
    | inr e ↦ rw e (Perm.refl (x ∷ y ∷ ys))
  ]

  -- Nothing is lost or made up.
  pub sort_by-perm : (xs : List A) → Perm (sort_by xs) xs
  unfolding sort_by
  sort_by-perm [] = Perm.refl []
  sort_by-perm (x ∷ xs) = Perm.trans (insert_by-perm x (sort_by xs)) (Perm.cons x (sort_by-perm xs))

  length-insert_by : (x : A) (ys : List A) → length (insert_by x ys) ≡ suc (length ys)
  unfolding insert_by
  length-insert_by x [] = refl
  length-insert_by x (y ∷ ys) = ground (arith, length-insert_by x ys)

  pub length-sort_by : (xs : List A) → length (sort_by xs) ≡ length xs
  unfolding sort_by
  length-sort_by [] = refl
  length-sort_by (x ∷ xs) = omega (arith, length-insert_by x (sort_by xs), length-sort_by xs)

  -- No element is less than one that stands before it.
  abbrev pub IsSorted : List A → Type ℓ
  IsSorted [] = Unit
  IsSorted (x ∷ xs) = All (λ y. less y x ≡ false) xs × IsSorted xs

  insert_by-later :
      (x y : A) (ys : List A) → less y x ≡ true → insert_by x (y ∷ ys) ≡ y ∷ insert_by x ys
  unfolding insert_by
  insert_by-later x y ys e = rw e

  insert_by-here : (x y : A) (ys : List A) → less y x ≡ false → insert_by x (y ∷ ys) ≡ x ∷ y ∷ ys
  unfolding insert_by
  insert_by-here x y ys e = rw e

  module _ {κ} (P : A → Type κ) where
    pub insert_by-All : (x : A) (ys : List A) → P x → All P ys → All P (insert_by x ys)
    unfolding insert_by
    insert_by-All x [] p h = (p, tt)
    insert_by-All x (y ∷ ys) p h = elim (Bool-cases (less y x)) [
      | inl e ↦ rw e (h.0, insert_by-All x ys p h.1)
      | inr e ↦ rw e (p, h)
    ]

    pub sort_by-All : (xs : List A) → All P xs → All P (sort_by xs)
    unfolding sort_by
    sort_by-All [] h = tt
    sort_by-All (x ∷ xs) h = insert_by-All x (sort_by xs) h.0 (sort_by-All xs h.1)

    insert_by-All_back : (x : A) (ys : List A) → All P (insert_by x ys) → P x × All P ys
    unfolding insert_by
    insert_by-All_back x [] h = h
    insert_by-All_back x (y ∷ ys) h = elim (Bool-cases (less y x)) [
      | inl e ↦
          let all = subst (All P) (insert_by-later x y ys e) h in
          let (p, rest) = insert_by-All_back x ys all.1 in (p, (all.0, rest))
      | inr e ↦ subst (All P) (insert_by-here x y ys e) h
    ]

    pub sort_by-All_back : (xs : List A) → All P (sort_by xs) → All P xs
    unfolding sort_by
    sort_by-All_back [] h = tt
    sort_by-All_back (x ∷ xs) h =
        let (p, rest) = insert_by-All_back x (sort_by xs) h in (p, sort_by-All_back xs rest)

-- For an order in which `less` is asymmetric and its negation transitive, the result is sorted.
module _ {ℓ} {A : Type ℓ} (less : A → A → Bool)
    (asymmetric : (x y : A) → less x y ≡ true → less y x ≡ false)
    (transitive : (x y z : A) → less x y ≡ false → less y z ≡ false → less x z ≡ false) where
  All-transitive :
      (x y : A) (ys : List A)
      → less y x ≡ false
      → All (λ z. less z y ≡ false) ys
      → All (λ z. less z x ≡ false) ys
  All-transitive x y [] h all = tt
  All-transitive x y (z ∷ zs) h all = (transitive z y x all.0 h, All-transitive x y zs h all.1)

  insert_by-IsSorted :
      (x : A) (ys : List A) → IsSorted less ys → IsSorted less (insert_by less x ys)
  unfolding insert_by
  insert_by-IsSorted x [] h = (tt, tt)
  insert_by-IsSorted x (y ∷ ys) h = elim (Bool-cases (less y x)) [
    | inl e ↦ rw e (
      insert_by-All less (λ z. less z y ≡ false) x ys (asymmetric y x e) h.0,
      insert_by-IsSorted x ys h.1,
    )
    | inr e ↦ rw e ((e, All-transitive x y ys e h.0), h)
  ]

  pub sort_by-IsSorted : (xs : List A) → IsSorted less (sort_by less xs)
  unfolding sort_by
  sort_by-IsSorted [] = tt
  sort_by-IsSorted (x ∷ xs) = insert_by-IsSorted x (sort_by less xs) (sort_by-IsSorted xs)

module _ {ℓ} {A : Type ℓ} where
  pub take-All {κ} : (P : A → Type κ) (n : ℕ) (xs : List A) → All P xs → All P (take n xs)
  take-All P zero xs h = tt
  take-All P (suc n) [] h = tt
  take-All P (suc n) (x ∷ xs) h = (h.0, take-All P n xs h.1)

  pub take-IsSorted :
      (less : A → A → Bool) (n : ℕ) (xs : List A) → IsSorted less xs → IsSorted less (take n xs)
  take-IsSorted less zero xs h = tt
  take-IsSorted less (suc n) [] h = tt
  take-IsSorted less (suc n) (x ∷ xs) h =
      (take-All (λ y. less y x ≡ false) n xs h.0, take-IsSorted less n xs h.1)
