-- ===== src/Postgres/Migration/Startup.antt =====
-- Several start-ups at once that run the migrations of internal/repository/postgres/migration.go on
-- one database. A turn is what a start-up does up to its next statement that others can see: it asks
-- for one version and tells the observer, or it runs one transaction, of which the others see the
-- commit only.
use go_label.Base.{
  ℕ, ◌≡◌, ◌≢◌, ◌⊎◌, inl, inr, refl, sym, subst, String, true, false, Option, none, some, List, [],
  ◌∷◌, ◌++◌, nat_eq, eq_iff, arith, if◌then◌else◌,
}
use go_label.Base.Results.{Result, ok, err, Error}
use go_label.Postgres.Migration.{
  Migration, Stage, Failure, failed, History, has_version, apply, is_applied,
}
use go_label.Postgres.Migration.Truth.{
  AreDistinct, IsTruthful, IsTruthful-refl, apply-IsTruthful, apply_taken, apply_fresh,
  has_version-append,
}

-- Where a start-up stands in the loop of run.
pub data Phase : Type 0 where
  looping : List Migration → Phase
  entered : Migration → List Migration → Phase
  stopped : Option Failure → Phase

-- The database, the start-ups by number, and what they have told their observers, the latest first.
pub record World (S : Type 0) : Type 0 where
  pub history : History S
  pub phase : ℕ → Phase
  pub arrivals : List (ℕ × String)

abbrev set_phase : (ℕ → Phase) → ℕ → Phase → ℕ → Phase
set_phase f i p j = if nat_eq i j then p else f j

module _ {S : Type 0} (sql : String → S → Result S) where
  abbrev look : (Stage → String → Option Error) → World S → ℕ → Migration → List Migration → World S
  look driver w i m ms = elim (is_applied sql driver w.history m.version) [
    | err e ↦ record w {
      phase = set_phase w.phase i (stopped (some (failed Stage.inspect m.version e)));
    }
    | ok true ↦ record w { phase = set_phase w.phase i (looping ms) }
    | ok false ↦ record w {
      phase = set_phase w.phase i (entered m ms);
      arrivals = (i, m.version) ∷ w.arrivals;
    }
  ]

  abbrev transact :
      (Stage → String → Option Error) → World S → ℕ → Migration → List Migration → World S
  transact driver w i m ms =
      let (t, out) = apply sql driver w.history m in
      elim out [
        | some f ↦ record w { history = t; phase = set_phase w.phase i (stopped (some f)) }
        | none ↦ record w { history = t; phase = set_phase w.phase i (looping ms) }
      ]

  -- The errors of the driver are those of this turn.
  unfoldable pub turn_in : (Stage → String → Option Error) → World S → ℕ → Phase → World S
  unfolding is_applied apply
  turn_in driver w i (looping []) = record w { phase = set_phase w.phase i (stopped none) }
  turn_in driver w i (looping (m ∷ ms)) = look driver w i m ms
  turn_in driver w i (entered m ms) = transact driver w i m ms
  turn_in driver w i (stopped out) = w

  unfoldable pub turn : (Stage → String → Option Error) → World S → ℕ → World S
  unfolding turn_in
  turn driver w i = turn_in driver w i (w.phase i)

  -- What some turns, of any start-ups in any order, with any errors of the driver, lead to.
  pub data Reach (w : World S) : World S → Type 0 where
    start : Reach w w
    next :
        {v : World S} (driver : Stage → String → Option Error) (i : ℕ)
        → Reach w v
        → Reach w (turn driver v i)

  -- Only a transaction changes the database.
  turn_in-history :
      (driver : Stage → String → Option Error) (w : World S) (i : ℕ) (p : Phase)
      → ((turn_in driver w i p).history ≡ w.history)
        ⊎ ((m : Migration) × ((turn_in driver w i p).history ≡ (apply sql driver w.history m).0))
  unfolding turn_in is_applied
  turn_in-history driver w i (looping []) = inl refl
  turn_in-history driver w i (looping (m ∷ ms)) = inl (ground arith)
  turn_in-history driver w i (entered m ms) = inr (m, ground arith)
  turn_in-history driver w i (stopped out) = inl refl

  -- However the turns of any number of start-ups interleave, and whatever errors the driver gives
  -- in each of them, the history of the database tells the truth: no version has two rows, and the
  -- tables are those that the bodies of some migrations made, one after the other, whose versions
  -- are the rows added since the beginning, in their order. It is asked that no version has two
  -- rows at the beginning.
  pub Reach-IsTruthful :
      {w v : World S}
      → Reach w v
      → AreDistinct w.history.applied
      → IsTruthful sql w.history v.history
  unfolding turn
  Reach-IsTruthful {w} start d = IsTruthful-refl sql w.history d
  Reach-IsTruthful {w} (next {v} driver i r) d = elim (turn_in-history driver v i (v.phase i)) [
    | inl same ↦ subst (IsTruthful sql w.history) (sym same) (Reach-IsTruthful r d)
    | inr (m, applied) ↦
        subst (IsTruthful sql w.history) (sym applied)
          (apply-IsTruthful sql driver w.history v.history m (Reach-IsTruthful r d))
  ]

  -- When two start-ups have the same migration next and it has no row, some turns lead to where
  -- both have told their observer of it and both are about to execute its body.
  pub both_enter :
      (driver : Stage → String → Option Error) (w : World S) (i j : ℕ) (m : Migration)
      (ms ns : List Migration)
      → i ≢ j
      → w.phase i ≡ looping (m ∷ ms)
      → w.phase j ≡ looping (m ∷ ns)
      → is_applied sql driver w.history m.version ≡ ok false
      → (v : World S) × Reach w v
        × (v.phase i ≡ entered m ms)
        × (v.phase j ≡ entered m ns)
        × (v.arrivals ≡ (j, m.version) ∷ (i, m.version) ∷ w.arrivals)
  unfolding turn
  both_enter driver w i j m ms ns different at_i at_j absent = (
    turn driver (turn driver w i) j,
    next driver j (next driver i start),
    ground arith,
    ground arith,
    ground arith,
  )

  -- When two start-ups are about to execute the body of one migration that has no row, no error
  -- comes from the driver in the first turn, and the body can be executed, the one that has its
  -- turn first commits the tables that the body makes and a row for the version, and goes on, and
  -- the other then stops with an error and changes nothing.
  pub second_fails :
      (driver other : Stage → String → Option Error) (w : World S) (i j : ℕ) (m : Migration)
      (ms ns : List Migration) (t : S)
      → i ≢ j
      → w.phase i ≡ entered m ms
      → w.phase j ≡ entered m ns
      → ((stage : Stage) (version : String) → driver stage version ≡ none)
      → has_version w.history.applied m.version ≡ false
      → sql m.body w.history.tables ≡ ok t
      → (f : Failure) × ((turn other (turn driver w i) j).phase i ≡ looping ms)
        × ((turn other (turn driver w i) j).phase j ≡ stopped (some f))
        × ((turn other (turn driver w i) j).history ≡ (turn driver w i).history)
        × ((turn driver w i).history
            ≡ record { tables = t; applied = w.history.applied ++ (m.version ∷ []) })
  unfolding turn turn_in
  second_fails driver other w i j m ms ns t different at_i at_j up fresh made =
      let done : History S = record {
        tables = t;
        applied = w.history.applied ++ (m.version ∷ []);
      } in
      let first = apply_fresh sql driver w.history m t up fresh made in
      let there : has_version done.applied m.version ≡ true = ground (
        arith,
        has_version-append m.version m.version w.history.applied,
        eq_iff m.version m.version,
      ) in
      let (f, refused) = apply_taken sql other done m there in
      (f, ground arith, ground arith, ground arith, ground arith)
