-- ===== src/Traffic/Examples.antt =====
-- Rate limits and replayed calls at concrete values.
use Prim.Native.Nat.{min}
use go_label.Base.{ℕ, Option, none, ltb, ◌≡◌, refl, [], ◌∷◌, arith, if◌then◌else◌}
use go_label.Base.Results.{Result, Error, err, done, conflict}
use go_label.Base.Int64.{pos, pos_part}
use go_label.Base.Maps.{Map, lookup}
use go_label.Traffic.Ratelimit.{Limiter, IsSound, remaining, admitted, admitted_exactly}
use go_label.Traffic.Retry.{Policy, normalize, run, run_succeeds}
use go_label.Traffic.Idempotency.{Record, begun}

abbrev fresh : Limiter
fresh = record { limit = pos 3; duration = pos 100; windows = [] }

fresh-IsSound : IsSound fresh
unfolding lookup
fresh-IsSound = record {
  some_calls = ground arith;
  machine = ground arith;
  lasts = ground arith;
  counted = λ k v found. ground (arith, found);
}

admitted_exactly_example :
    admitted fresh "10.0.0.1" 40 5 ≡ min 5 (pos_part (remaining fresh "10.0.0.1" 40))
admitted_exactly_example = admitted_exactly fresh "10.0.0.1" 40 5 refl fresh-IsSound

abbrev kept : Map Record
kept =
    ("t|k", begun "t" "k" "f" 10) ∷ ("t|j", record (begun "t" "j" "f" 10) { expires_at = 15 }) ∷ []

-- An attempt that fails twice and then works.
abbrev flaky : ℕ → Result (Unit {0})
flaky n = if ltb n 3 then err conflict else done

abbrev never : ℕ → Option Error
never n = none

abbrev five_times : Policy
five_times = record { max_attempts = pos 5; initial_delay = pos 0; max_delay = pos 0 }

run_succeeds_example : run never flaky never five_times ≡ (1 ∷ 2 ∷ 3 ∷ [], done)
unfolding normalize
run_succeeds_example =
    run_succeeds never flaky never five_times 3 (omega arith) (omega arith)
      (λ i low high. (refl, refl, (conflict, ground arith, refl))) refl refl
