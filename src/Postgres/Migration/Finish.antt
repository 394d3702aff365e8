-- ===== src/Postgres/Migration/Finish.antt =====
-- A start-up that has its turns in a row, in the loop of internal/repository/postgres/migration.go.
use go_label.Base.{ℕ, zero, suc, ◌≡◌, String, Option, List, [], ◌∷◌}
use go_label.Base.Results.{Result, Error}
use go_label.Postgres.Migration.{Migration, Stage, Failure, History, Outcome}
use go_label.Postgres.Migration.Startup.{World, turn, stopped}

-- Two turns for each migration, one to stop, and n more.
abbrev pub enough : ℕ → List Migration → ℕ
enough n [] = suc n
enough n (m ∷ ms) = suc (suc (enough n ms))

module _ {S : Type 0} (sql : String → S → Result S) (driver : Stage → String → Option Error) where
  -- Turns of one start-up, with no other between them.
  abbrev pub turns : World S → ℕ → ℕ → World S
  turns w i zero = w
  turns w i (suc n) = turns (turn sql driver w i) i n

  -- The start-up has stopped, with this history and error.
  abbrev HasStopped : World S → ℕ → History S → Option Failure → Type 0
  HasStopped w i h out = (w.history ≡ h) × (w.phase i ≡ stopped out)

  -- The start-up has stopped, with the history and the error of this outcome.
  abbrev EndsAs : World S → ℕ → Outcome S → Type 0
  EndsAs w i o = HasStopped w i o.history o.failure
