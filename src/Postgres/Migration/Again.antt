-- ===== src/Postgres/Migration/Again.antt =====
-- A second start-up after one that ended well, in internal/repository/postgres/migration.go.
use go_label.Base.{
  ◌≡◌, ◌⊎◌, inl, inr, refl, sym, ap, ◌∙◌, subst, String, Bool, true, Option, none, List, [], ◌∷◌,
  arith, eq_iff, Bool-cases, Option-cases, some, All,
}
use go_label.Base.Results.{Result, Error}
use go_label.Base.Maps.{Map}
use go_label.Postgres.Migration.{
  Entry, Migration, Stage, Failure, History, has_version, Outcome, failed, recorded, apply,
  is_applied, migrate, run, ensure_version_table, discover, migration_root,
}
use go_label.Postgres.Migration.Truth.{has_version-append}
use go_label.Postgres.Migration.Alone.{migrate_skip}

module _ {S : Type 0} (sql : String → S → Result S) (driver : Stage → String → Option Error) where
  -- What is recorded stays recorded.
  apply_keeps :
      (h : History S) (m : Migration) (v : String)
      → has_version h.applied v ≡ true
      → has_version (apply sql driver h m).0.applied v ≡ true
  unfolding apply recorded
  apply_keeps h m v there = ground (arith, has_version-append m.version v h.applied)

  migrate_keeps :
      (h : History S) (ms : List Migration) (v : String)
      → has_version h.applied v ≡ true
      → has_version (migrate sql driver h ms).history.applied v ≡ true
  unfolding migrate is_applied
  migrate_keeps h [] v there = there
  migrate_keeps h (m ∷ ms) v there = ground (
    arith,
    apply_keeps h m v there,
    migrate_keeps h ms v there,
    migrate_keeps (apply sql driver h m).0 ms v,
  )

  -- Every version is recorded.
  abbrev AreRecorded : History S → List Migration → Type 0
  AreRecorded h ms = All (λ m. has_version h.applied m.version ≡ true) ms

  -- A run without an error passes each migration, and goes on with its version recorded.
  migrate_passes :
      (h : History S) (m : Migration) (ms : List Migration)
      → (migrate sql driver h (m ∷ ms)).failure ≡ none
      → (t : History S) × (has_version t.applied m.version ≡ true)
        × ((migrate sql driver h (m ∷ ms)).history ≡ (migrate sql driver t ms).history)
        × ((migrate sql driver t ms).failure ≡ none)
  unfolding migrate is_applied apply recorded
  migrate_passes h m ms e = elim (Bool-cases (has_version h.applied m.version)) [
    | inl there ↦ (h, there, ground arith, ground arith)
    | inr fresh ↦ (
      (apply sql driver h m).0,
      ground (arith, has_version-append m.version m.version h.applied, eq_iff m.version m.version),
      ground arith,
      ground arith,
    )
  ]

  migrate-AreRecorded :
      (h : History S) (ms : List Migration)
      → (migrate sql driver h ms).failure ≡ none
      → AreRecorded (migrate sql driver h ms).history ms
  migrate-AreRecorded h [] e = tt
  migrate-AreRecorded h (m ∷ ms) e =
      let (t, there, same, rest) = migrate_passes h m ms e in
      subst (λ x. AreRecorded x (m ∷ ms)) (sym same)
        (migrate_keeps t ms m.version there, migrate-AreRecorded t ms rest)

  -- The error of a run, if it has one, is one that the driver gives.
  abbrev pub IsDrivers : Option Failure → Type 0
  IsDrivers none = Unit {0}
  IsDrivers (some f) = driver f.stage f.version ≡ some f.error

  -- A run that changes nothing and tells nothing, and fails only when the driver does.
  abbrev pub IsIdle : History S → Outcome S → Type 0
  IsIdle h o =
      (out : Option Failure) × (o ≡ record { history = h; observed = []; failure = out })
      × IsDrivers out

  migrate_recorded :
      (h : History S) (ms : List Migration) → AreRecorded h ms → IsIdle h (migrate sql driver h ms)
  unfolding migrate is_applied
  migrate_recorded h [] r = (none, refl, tt)
  migrate_recorded h (m ∷ ms) r = elim (Option-cases (driver Stage.inspect m.version)) [
    | inl up ↦
        let (out, same, drivers) = migrate_recorded h ms r.1 in
        (out, migrate_skip sql driver h m ms up r.0 ∙ same, drivers)
    | inr (e, broken) ↦ (some (failed Stage.inspect m.version e), ground (arith, r.0), broken)
  ]

  module _ (text_before : String → String → Bool) (dirs : Map (List Entry)) where
    run-migrate :
        (h : History S) (ms : List Migration)
        → ensure_version_table sql driver ≡ none
        → discover text_before dirs (migration_root dirs) ≡ inr ms
        → run sql driver text_before dirs h ≡ migrate sql driver h ms
    unfolding run
    run-migrate h ms ready found = ground arith

    -- A run without an error has read the directory.
    run_found :
        (h : History S)
        → (run sql driver text_before dirs h).failure ≡ none
        → (ensure_version_table sql driver ≡ none)
          × (ms : List Migration) × (discover text_before dirs (migration_root dirs) ≡ inr ms)
    unfolding run
    run_found h e = elim (Sum-cases (discover text_before dirs (migration_root dirs))) [
      | inl (f, lost) ↦ absurd (ground arith)
      | inr (ms, found) ↦ (ground arith, ms, found)
    ]
      where
        Sum-cases :
            (x : Failure ⊎ List Migration)
            → ((f : Failure) × (x ≡ inl f)) ⊎ ((ms : List Migration) × (x ≡ inr ms))
        Sum-cases (inl f) = inl (f, refl)
        Sum-cases (inr ms) = inr (ms, refl)

module _ {S : Type 0} (sql : String → S → Result S) (text_before : String → String → Bool)
    (dirs : Map (List Entry)) where
  -- Over files that can be read, a run on a database that has their versions is idle.
  run_recorded :
      (driver : Stage → String → Option Error) (h : History S) (ms : List Migration)
      → discover text_before dirs (migration_root dirs) ≡ inr ms
      → AreRecorded sql driver h ms
      → IsIdle sql driver h (run sql driver text_before dirs h)
  unfolding run ensure_version_table
  run_recorded driver h ms found r = elim (Option-cases (driver Stage.prepare "")) [
    | inl up ↦
        let (out, same, drivers) = migrate_recorded sql driver h ms r in
        (out, ground arith ∙ same, drivers)
    | inr (e, broken) ↦ (some (failed Stage.prepare "" e), ground arith, broken)
  ]

  -- After a run of the migrations without an error, a run over the same files on the database that
  -- it left changes nothing and tells the observer nothing, and returns no error but one that the
  -- driver gives in that run, whatever errors it gives.
  pub run_again :
      (driver other : Stage → String → Option Error) (h : History S)
      → (run sql driver text_before dirs h).failure ≡ none
      → IsIdle sql other
          (run sql driver text_before dirs h).history
          (run sql other text_before dirs (run sql driver text_before dirs h).history)
  run_again driver other h e =
      let (ready, ms, found) = run_found sql driver text_before dirs h e in
      let first = run-migrate sql driver text_before dirs h ms ready found in
      let settled = migrate-AreRecorded sql driver h ms (ap (λ o. o.failure) (sym first) ∙ e) in
      run_recorded other (run sql driver text_before dirs h).history ms found
        (subst (λ (o : Outcome S). AreRecorded sql other o.history ms) (sym first) settled)
