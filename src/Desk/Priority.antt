-- ===== src/Desk/Priority.antt =====
-- internal/priority/queue.go. Of container/heap it is used that Push adds an item and that Pop takes
-- out one that no other is less than; the positions that it keeps in the items are left out.
use mathlib.Core.List.{Perm}
use mathlib.Core.List.Perm
use go_label.Base.{
  ◌≡◌, ◌⊎◌, inl, inr, refl, subst, sym, String, Bool, true, false, ◌||◌, Option, none, some, List,
  [], ◌∷◌, arith, is_blank, is_none, All, length, if◌then◌else◌, Bool-cases,
}
use go_label.Base.Results.{Result, ok, err, done, invalid, not_found}
use go_label.Base.Int64.{ℤ, pos, eq_ℤ, ltb_ℤ}
use go_label.Base.Text.{text_before, text_before_asymmetric, text_before_transitive}

pub record Item (V : Type 0) : Type 0 where
  pub id : String
  pub priority : ℤ
  pub value : Option V

module _ {V : Type 0} where
  -- `Less`.
  unfoldable pub goes_before : Item V → Item V → Bool
  goes_before a b =
      if eq_ℤ a.priority b.priority then text_before a.id b.id else ltb_ℤ b.priority a.priority

  -- `heap.Pop`.
  unfoldable pub pop : List (Item V) → Option (Item V × List (Item V))
  unfolding goes_before
  pop [] = none
  pop (x ∷ xs) = elim (pop xs) [
    | none ↦ some (x, xs)
    | some (y, rest) ↦ if goes_before y x then some (y, x ∷ rest) else some (x, y ∷ rest)
  ]

  unfoldable pub add : List (Item V) → Item V → List (Item V) × Result (Unit {0})
  add q v = if is_blank v.id || is_none v.value then (q, err invalid) else (v ∷ q, done)

  unfoldable pub take : List (Item V) → List (Item V) × Result (Item V)
  unfolding pop
  take q = elim (pop q) [ none ↦ (q, err not_found) | some (x, rest) ↦ (rest, ok x) ]

  -- `Len`.
  abbrev pub size : List (Item V) → ℤ
  size q = pos (length q)

  goes_before_transitive :
      (x y z : Item V) → goes_before x y ≡ false → goes_before y z ≡ false → goes_before x z ≡ false
  unfolding goes_before
  goes_before_transitive x y z h k = ground (arith, text_before_transitive x.id y.id z.id)

  goes_before_asymmetric : (x y : Item V) → goes_before x y ≡ true → goes_before y x ≡ false
  unfolding goes_before
  goes_before_asymmetric x y h = ground (arith, text_before_asymmetric x.id y.id)

  -- `x` leaves the queue with these others in it, and none of them goes before it.
  abbrev pub Leaves : List (Item V) → Item V → List (Item V) → Type 0
  Leaves q x rest = Perm (x ∷ rest) q × All (λ y. goes_before y x ≡ false) rest

  later-All :
      (x y : Item V) (ys : List (Item V))
      → goes_before y x ≡ false
      → All (λ z. goes_before z y ≡ false) ys
      → All (λ z. goes_before z x ≡ false) ys
  later-All x y [] h all = tt
  later-All x y (z ∷ zs) h all = (goes_before_transitive z y x all.0 h, later-All x y zs h all.1)

  abbrev Pops : List (Item V) → Type 0
  Pops q =
      ((q ≡ []) × (pop q ≡ none))
      ⊎ ((x : Item V) × (rest : List (Item V)) × (pop q ≡ some (x, rest)) × Leaves q x rest)

  pop-Pops : (q : List (Item V)) → Pops q
  unfolding pop
  pop-Pops [] = inl (refl, refl)
  pop-Pops (v ∷ vs) = elim (pop-Pops vs) [
    | inl (last, nothing) ↦ inr (
      v,
      vs,
      ground arith,
      (Perm.refl (v ∷ vs), subst (All (λ z. goes_before z v ≡ false)) (sym last) tt),
    )
    | inr (y, others, popped, (perm, all)) ↦ elim (Bool-cases (goes_before y v)) [
      | inl sooner ↦ inr (
        y,
        v ∷ others,
        ground arith,
        (
          Perm.trans (Perm.swap v y others) (Perm.cons v perm),
          (goes_before_asymmetric y v sooner, all),
        ),
      )
      | inr later ↦
          inr (
            v,
            y ∷ others,
            ground arith,
            (Perm.cons v perm, (later, later-All v y others later all)),
          )
    ]
  ]

  -- Take gives the item of the highest priority, and of these the one with the least id, and leaves
  -- the others; it fails on an empty queue only.
  pub take-Leaves :
      (q : List (Item V))
      → ((x : Item V) × ((take q).1 ≡ ok x) × Leaves q x (take q).0)
        ⊎ ((q ≡ []) × (take q ≡ ([], err not_found)))
  unfolding take
  take-Leaves q = elim (pop-Pops q) [
    | inl (empty, nothing) ↦ inr (empty, ground arith)
    | inr (x, rest, popped, leaves) ↦
        inl (x, ground arith, subst (Leaves q x) {x = rest} (ground arith) leaves)
  ]
