-- ===== src/Postgres/Migration/Examples.antt =====
-- Two migrations on a database that keeps the bodies that ran.
use go_label.Base.{◌≡◌, refl, String, false, Option, none, some, List, [], ◌∷◌, ◌++◌, arith}
use go_label.Base.Results.{Result, ok, Error, conflict}
use go_label.Base.Maps.{Map, lookup}
use go_label.Base.Sorting.{sort_by, insert_by}
use go_label.Postgres.Migration.{
  Entry, Migration, Stage, Failure, History, recorded, apply, is_applied, migrate, run,
  ensure_version_table, discover, migration_root, read_all, ext,
}
use go_label.Postgres.Migration.Truth.{IsTruthful}
use go_label.Postgres.Migration.Alone.{migrate_applies_pending, ran}
use go_label.Postgres.Migration.Again.{IsIdle, run_again}
use go_label.Postgres.Migration.Startup.{
  Phase, World, turn, Reach, Reach-IsTruthful, both_enter, second_fails,
}

abbrev keep : String → List String → Result (List String)
keep body ran = ok (ran ++ (body ∷ []))

abbrev quiet : Stage → String → Option Error
quiet stage version = none

abbrev core : Migration
core = record { version = "001_core.sql"; path = "migrations/001_core.sql"; body = "create" }

abbrev seed : Migration
seed = record { version = "002_seed.sql"; path = "migrations/002_seed.sql"; body = "insert" }

abbrev fresh : History (List String)
fresh = record { tables = "create" ∷ []; applied = "001_core.sql" ∷ [] }

migrate_applies_pending_example :
    migrate keep quiet fresh (core ∷ seed ∷ [])
    ≡ ran keep quiet ("create" ∷ "insert" ∷ []) ("001_core.sql" ∷ []) (seed ∷ [])
migrate_applies_pending_example =
    migrate_applies_pending keep quiet fresh (core ∷ seed ∷ []) ("create" ∷ "insert" ∷ [])
      (λ stage version. refl) (refl, (refl, tt)) refl

abbrev directory : Map (List Entry)
directory =
    (
      "migrations",
      record { name = "001_core.sql"; is_dir = false; content = ok "create" }
          ∷ record { name = "002_seed.sql"; is_dir = false; content = ok "insert" }
          ∷ record { name = "notes.txt"; is_dir = false; content = ok "" }
          ∷ [],
    )
    ∷ []

-- A driver that cannot read the versions.
abbrev deaf : Stage → String → Option Error
deaf Stage.inspect version = some conflict
deaf stage version = none

run_again_example :
    IsIdle keep deaf (run keep quiet (λ v w. false) directory fresh).history (
      run keep deaf
        (λ v w. false)
        directory
        (run keep quiet (λ v w. false) directory fresh).history)
unfolding run ensure_version_table discover migration_root read_all ext migrate is_applied apply
    recorded lookup sort_by insert_by
run_again_example = run_again keep (λ v w. false) directory quiet deaf fresh refl

abbrev two_starts : World (List String)
two_starts = record { history = fresh; phase = λ i. Phase.looping (seed ∷ []); arrivals = [] }

both_looked : Reach keep two_starts (turn keep deaf (turn keep quiet two_starts 0) 1)
both_looked = Reach.next deaf 1 (Reach.next quiet 0 Reach.start)

Reach-IsTruthful_example :
    IsTruthful keep fresh (turn keep deaf (turn keep quiet two_starts 0) 1).history
Reach-IsTruthful_example = Reach-IsTruthful keep both_looked (refl, tt)

both_enter_example :
    (v : World (List String)) × Reach keep two_starts v
    × (v.phase 0 ≡ Phase.entered seed [])
    × (v.phase 1 ≡ Phase.entered seed [])
    × (v.arrivals ≡ (1, "002_seed.sql") ∷ (0, "002_seed.sql") ∷ [])
unfolding is_applied
both_enter_example = both_enter keep quiet two_starts 0 1 seed [] [] (omega arith) refl refl refl

abbrev both_entered : World (List String)
both_entered = record two_starts { phase = λ i. Phase.entered seed [] }

second_fails_example :
    (f : Failure) × ((turn keep deaf (turn keep quiet both_entered 0) 1).phase 0 ≡ Phase.looping [])
    × ((turn keep deaf (turn keep quiet both_entered 0) 1).phase 1 ≡ Phase.stopped (some f))
    × ((turn keep deaf (turn keep quiet both_entered 0) 1).history
        ≡ (turn keep quiet both_entered 0).history)
    × ((turn keep quiet both_entered 0).history ≡ record {
      tables = "create" ∷ "insert" ∷ [];
      applied = "001_core.sql" ∷ "002_seed.sql" ∷ [];
    })
second_fails_example =
    second_fails keep quiet deaf both_entered 0 1 seed [] [] ("create" ∷ "insert" ∷ [])
      (omega arith) refl refl (λ stage version. refl) refl refl

abbrev both_files : World (List String)
both_files = record two_starts { phase = λ i. Phase.looping (core ∷ seed ∷ []) }
