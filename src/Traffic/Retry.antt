-- ===== src/Traffic/Retry.antt =====
-- Do of internal/retry/policy.go. Whether the context has ended before an attempt or ends in the wait
-- after it, and what the function returns at an attempt, are oracles on the number of the attempt.
-- The length of a wait is a float and is left out.
use go_label.Base.{
  ℕ, zero, suc, ◌+◌, ◌≤◌, ◌<◌, ◌≡◌, ap, ◌∙◌, Bool, true, false, ◌||◌, Option, none, some, List, [],
  ◌∷◌, arith, nat_eq, length, if◌then◌else◌,
}
use go_label.Base.Results.{Result, ok, err, done, Error}
use go_label.Base.Int64.{ℤ, pos, pos_part, ltb_ℤ, leb_ℤ}

pub record Policy : Type 0 where
  pub max_attempts : ℤ
  pub initial_delay : ℤ
  pub max_delay : ℤ

unfoldable pub normalize : Policy → Policy
normalize p = record {
  max_attempts = if ltb_ℤ p.max_attempts (pos 1) then pos 1 else p.max_attempts;
  initial_delay = if leb_ℤ p.initial_delay (pos 0) then pos 100_000_000 else p.initial_delay;
  max_delay = if leb_ℤ p.max_delay (pos 0) then pos 10_000_000_000 else p.max_delay;
}

-- `errors.Is(err, context.Canceled) || errors.Is(err, context.DeadlineExceeded)`.
abbrev pub is_end : Error → Bool
is_end Error.cancelled = true
is_end _ = false

abbrev called : ℕ → List ℕ × Result (Unit {0}) → List ℕ × Result (Unit {0})
called n out = (n ∷ out.0, out.1)

-- The attempts `n`, `n + 1` and so on.
abbrev pub from : ℕ → ℕ → List ℕ
from n zero = []
from n (suc k) = n ∷ from (suc n) k

module _ (ended : ℕ → Option Error) (fn : ℕ → Result (Unit {0}))
    (interrupted : ℕ → Option Error) where
  -- The loop of Do from attempt `n` on, with so many left: the attempts made and the result.
  unfoldable pub attempts : ℕ → ℕ → List ℕ × Result (Unit {0})
  attempts zero n = ([], done)
  attempts (suc left) n = elim (ended n) [
    | some e ↦ ([], err e)
    | none ↦ elim (fn n) [
      | ok u ↦ (n ∷ [], done)
      | err e ↦ if is_end e || nat_eq left 0 then (n ∷ [], err e) else elim (interrupted n) [
        | some x ↦ (n ∷ [], err x)
        | none ↦ called n (attempts left (suc n))
      ]
    ]
  ]

  -- `Do` of a policy.
  unfoldable pub run : Policy → List ℕ × Result (Unit {0})
  unfolding attempts normalize
  run p = attempts (pos_part (normalize p).max_attempts) 1

  abbrev pub limit : Policy → ℕ
  limit p = pos_part (normalize p).max_attempts

  -- An attempt after which the loop goes on.
  abbrev pub Fails : ℕ → Type 0
  Fails n =
      (ended n ≡ none)
      × (interrupted n ≡ none)
      × ((e : Error) × (fn n ≡ err e) × (is_end e ≡ false))

  attempts_bounded : (left n : ℕ) → length (attempts left n).0 ≤ left
  unfolding attempts
  attempts_bounded zero n = omega arith
  attempts_bounded (suc left) n = ground (arith, attempts_bounded left (suc n))

  attempts_fail :
      (left n : ℕ) → 1 ≤ left → Fails n → attempts (suc left) n ≡ called n (attempts left (suc n))
  unfolding attempts
  attempts_fail left n some_left (up, waits, (e, failed, goes_on)) = ground arith

  attempts_succeed :
      (k left n m : ℕ)
      → k < left
      → m ≡ n + k
      → ((i : ℕ) → n ≤ i → i < m → Fails i)
      → ended m ≡ none
      → fn m ≡ done
      → attempts left n ≡ (from n (suc k), done)
  unfolding attempts
  attempts_succeed k zero n m h e fails up works = absurd (omega arith)
  attempts_succeed zero (suc left) n m h e fails up works =
      let here : n ≡ m = omega arith in ground (arith, ap ended here, ap fn here)
  attempts_succeed (suc k) (suc left) n m h e fails up works =
      attempts_fail left n (omega arith) (fails n (omega arith) (omega arith))
      ∙ ap (called n) (
          attempts_succeed k left (suc n) m (omega arith) (omega arith)
            (λ i low high. fails i (omega arith) high) up works)

  -- When the m-th attempt is allowed by the policy, works, and finds the context running, and
  -- every attempt before it fails with an error other than the end of a context, with the context
  -- running before it and through the wait after it, Do makes the attempts 1 to m and no other,
  -- and returns no error.
  pub run_succeeds :
      (p : Policy) (m : ℕ)
      → 1 ≤ m
      → m ≤ limit p
      → ((i : ℕ) → 1 ≤ i → i < m → Fails i)
      → ended m ≡ none
      → fn m ≡ done
      → run p ≡ (from 1 m, done)
  unfolding run
  run_succeeds p zero some_one few fails up works = absurd (omega arith)
  run_succeeds p (suc k) some_one few fails up works =
      attempts_succeed k (limit p) 1 (suc k) (omega arith) (omega arith) fails up works

  attempts_exhaust :
      (left n m : ℕ)
      → m ≡ n + left
      → ((i : ℕ) → n ≤ i → i ≤ m → Fails i)
      → attempts (suc left) n ≡ (from n (suc left), fn m)
  unfolding attempts
  attempts_exhaust zero n m e fails =
      let here : n ≡ m = omega arith in
      let (up, waits, (x, failed, goes_on)) = fails n (omega arith) (omega arith) in
      ground (arith, ap fn here)
  attempts_exhaust (suc left) n m e fails =
      attempts_fail (suc left) n (omega arith) (fails n (omega arith) (omega arith))
      ∙ ap (called n)
          (attempts_exhaust left (suc n) m (omega arith) (λ i low high. fails i (omega arith) high))

  limit_positive : (p : Policy) → 1 ≤ limit p
  unfolding normalize
  limit_positive p = ground arith

  all_fail : (l : ℕ) → 1 ≤ l → ((i : ℕ) → 1 ≤ i → i ≤ l → Fails i) → attempts l 1 ≡ (from 1 l, fn l)
  all_fail zero h fails = absurd (omega arith)
  all_fail (suc left) h fails = attempts_exhaust left 1 (suc left) (omega arith) fails

  -- When every attempt that is allowed fails with an error other than the end of a context, and the
  -- context goes on, all of them are made and the error of the last is returned.
  pub run_exhausts :
      (p : Policy)
      → ((i : ℕ) → 1 ≤ i → i ≤ limit p → Fails i)
      → run p ≡ (from 1 (limit p), fn (limit p))
  unfolding run
  run_exhausts p fails = all_fail (limit p) (limit_positive p) fails

  -- No more attempts are made than the policy allows.
  pub run_bounded : (p : Policy) → length (run p).0 ≤ limit p
  unfolding run
  run_bounded p = attempts_bounded (limit p) 1
