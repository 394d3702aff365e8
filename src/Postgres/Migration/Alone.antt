-- ===== src/Postgres/Migration/Alone.antt =====
-- One start-up that runs the migrations of internal/repository/postgres/migration.go by itself.
use go_label.Base.{
  ◌≡◌, inl, inr, refl, sym, ap, ◌∙◌, String, true, false, not, Option, none, List, [], ◌∷◌, ◌++◌,
  append_assoc, append-nil, arith, eq_iff, Bool-cases, keep_if,
}
use go_label.Base.Results.{Result, ok, Error, Result-cases}
use go_label.Postgres.Migration.{
  Migration, Stage, History, Outcome, has_version, is_applied, migrate,
}
use go_label.Postgres.Migration.Truth.{
  versions, AreDistinct, has_version-append, apply_fresh, run_sql,
}

-- The migrations whose version has no row yet.
abbrev pub pending : List String → List Migration → List Migration
pending applied ms = keep_if (λ m. not (has_version applied m.version)) ms

-- A row for a version that is not among these leaves them pending.
pending-append :
    (applied : List String) (v : String) (ms : List Migration)
    → has_version (versions ms) v ≡ false
    → pending (applied ++ (v ∷ [])) ms ≡ pending applied ms
pending-append applied v [] h = refl
pending-append applied v (m ∷ ms) h = ground (
  arith,
  pending-append applied v ms,
  has_version-append v m.version applied,
  eq_iff v m.version,
  eq_iff m.version v,
)

pending-there :
    (applied : List String) (m : Migration) (ms : List Migration)
    → has_version applied m.version ≡ true
    → pending applied (m ∷ ms) ≡ pending applied ms
pending-there applied m ms there = ground arith

pending-fresh :
    (applied : List String) (m : Migration) (ms : List Migration)
    → has_version applied m.version ≡ false
    → pending applied (m ∷ ms) ≡ m ∷ pending applied ms
pending-fresh applied m ms fresh = ground arith

module _ {S : Type 0} (sql : String → S → Result S) (driver : Stage → String → Option Error) where
  -- A run without an error: these tables, and a row and a notice for each of these migrations.
  abbrev pub ran : S → List String → List Migration → Outcome S
  ran tables applied ms = record {
    history = record { tables = tables; applied = applied ++ versions ms };
    observed = versions ms;
    failure = none;
  }

  run_sql-cons :
      (m : Migration) (ms : List Migration) (t u : S)
      → run_sql sql (m ∷ ms) t ≡ ok u
      → (w : S) × (sql m.body t ≡ ok w) × (run_sql sql ms w ≡ ok u)
  run_sql-cons m ms t u h = elim (Result-cases (sql m.body t)) [
    | inl (w, e) ↦ (w, e, ground arith)
    | inr (x, e) ↦ absurd (ground arith)
  ]

  ran-cons :
      (m : Migration) (ms : List Migration) (t : S) (applied : List String)
      → ◌≡◌ {A = Outcome S}
          (record (ran t (applied ++ (m.version ∷ [])) ms) { observed = m.version ∷ versions ms })
          (ran t applied (m ∷ ms))
  ran-cons m ms t applied =
      ap
        (λ vs. record {
          history = record { tables = t; applied = vs };
          observed = m.version ∷ versions ms;
          failure = none;
        })
        (append_assoc applied (m.version ∷ []) (versions ms))

  -- A migration that has a row is passed over, any other is applied before the rest.
  migrate_step :
      (h : History S) (m : Migration) (ms : List Migration) (u : S)
      → ((stage : Stage) (version : String) → driver stage version ≡ none)
      → has_version h.applied m.version ≡ false
      → sql m.body h.tables ≡ ok u
      → migrate sql driver h (m ∷ ms) ≡ (
          let rest =
            migrate sql driver
              (record { tables = u; applied = h.applied ++ (m.version ∷ []) })
              ms in
          record rest { observed = m.version ∷ rest.observed })
  unfolding migrate is_applied
  migrate_step h m ms u up fresh made =
      ground (arith, up Stage.inspect m.version, apply_fresh sql driver h m u up fresh made)

  pub migrate_skip :
      (h : History S) (m : Migration) (ms : List Migration)
      → driver Stage.inspect m.version ≡ none
      → has_version h.applied m.version ≡ true
      → migrate sql driver h (m ∷ ms) ≡ migrate sql driver h ms
  unfolding migrate is_applied
  migrate_skip h m ms up there = ground arith

  -- A start-up that is alone, whose migrations have different versions, and to which the driver
  -- gives no error, runs exactly the migrations whose version has no row, in their order, when
  -- their bodies can be executed one after the other: it leaves the tables that they make, adds a
  -- row and tells the observer for each of them, and returns no error.
  pub migrate_applies_pending :
      (h : History S) (ms : List Migration) (t : S)
      → ((stage : Stage) (version : String) → driver stage version ≡ none)
      → AreDistinct (versions ms)
      → run_sql sql (pending h.applied ms) h.tables ≡ ok t
      → migrate sql driver h ms ≡ ran t h.applied (pending h.applied ms)
  unfolding migrate
  migrate_applies_pending h [] t up d made = ground (arith, append-nil h.applied)
  migrate_applies_pending h (m ∷ ms) t up d made =
      elim (Bool-cases (has_version h.applied m.version)) [
        | inl there ↦
            let same = pending-there h.applied m ms there in
            migrate_skip h m ms (up Stage.inspect m.version) there
            ∙ migrate_applies_pending h ms t up d.1 (rw same at made)
            ∙ ap (ran t h.applied) (sym same)
        | inr fresh ↦
            let first = pending-fresh h.applied m ms fresh in
            let (u, body, others) =
              run_sql-cons m (pending h.applied ms) h.tables t (rw first at made) in
            let next : History S = record { tables = u; applied = h.applied ++ (m.version ∷ []) } in
            let left = pending-append h.applied m.version ms d.0 in
            migrate_step h m ms u up fresh body
            ∙ ap (λ (o : Outcome S). record o { observed = m.version ∷ o.observed })
                (migrate_applies_pending next ms t up d.1 (rw left others)
                  ∙ ap (ran t next.applied) left)
            ∙ ran-cons m (pending h.applied ms) t h.applied
            ∙ ap (ran t h.applied) (sym first)
      ]
