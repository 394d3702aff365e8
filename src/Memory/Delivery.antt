-- ===== src/Memory/Delivery.antt =====
-- What the outbox of internal/repository/memory/store.go hands out, and when.
use Prim.Native.Nat.{min}
use go_label.Base.{
  ℕ, suc, ◌+◌, ◌-◌, ◌*◌, ◌≤◌, ◌<◌, ◌^◌, ◌≡◌, refl, ◌↔◌, String, false, true, none, some, List, [],
  ◌∷◌, arith, length, All, count_if,
}
use go_label.Base.Results.{ok}
use go_label.Base.Int64.{ℤ, pos, ◌*ℤ◌, wrap64}
use go_label.Base.Instants.{Time, minute}
use go_label.Base.Maps.{Map, lookup, values, lookup-insert_self}
use go_label.Domain.Types.{OutboxEvent}
use go_label.Memory.State.{Store}
use go_label.Memory.Outbox.{is_claimable, claimed, claim_loop, claim, put_back, mark_failed}

claim_loop-length :
    (now : Time) (n taken : ℕ) (m : Map OutboxEvent)
    → length (claim_loop now (pos n) taken m).1
      ≡ min (n - taken) (count_if (is_claimable now) (values m))
unfolding claim_loop
claim_loop-length now n taken [] = omega arith
claim_loop-length now n taken ((id, v) ∷ m) =
    ground (arith, claim_loop-length now n taken m, claim_loop-length now n (suc taken) m)

claim_loop-rest :
    (now : Time) (n : ℤ) (taken : ℕ) (m : Map OutboxEvent)
    → count_if (is_claimable now) (values (claim_loop now n taken m).0)
        + length (claim_loop now n taken m).1
      ≡ count_if (is_claimable now) (values m)
unfolding claim_loop is_claimable claimed
claim_loop-rest now n taken [] = omega arith
claim_loop-rest now n taken ((id, v) ∷ m) =
    ground (arith, claim_loop-rest now n taken m, claim_loop-rest now n (suc taken) m)

claim_loop-All :
    (now later : Time) (n : ℤ) (taken : ℕ) (m : Map OutboxEvent)
    → All (λ v. is_claimable later v ≡ false) (claim_loop now n taken m).1
unfolding claim_loop is_claimable claimed
claim_loop-All now later n taken [] = tt
claim_loop-All now later n taken ((id, v) ∷ m) =
    ground (arith, claim_loop-All now later n taken m, claim_loop-All now later n (suc taken) m)

-- Claim of the memory store with a limit n hands out as many events as can be claimed, up to n;
-- none of those that it hands out can be claimed at any later time as it stands; and the outbox is
-- left with as many events that can be claimed as it had, less those handed out.
pub claim_lem :
    (s : Store) (now later : Time) (n : ℕ)
    → (out : List OutboxEvent) × ((claim s now (pos n)).1 ≡ ok out)
      × (length out ≡ min n (count_if (is_claimable now) (values s.outbox)))
      × All (λ v. is_claimable later v ≡ false) out
      × (count_if (is_claimable now) (values (claim s now (pos n)).0.outbox) + length out
          ≡ count_if (is_claimable now) (values s.outbox))
unfolding claim
claim_lem s now later n = (
  (claim_loop now (pos n) 0 s.outbox).1,
  refl,
  omega (arith, claim_loop-length now n 0 s.outbox),
  claim_loop-All now later (pos n) 0 s.outbox,
  claim_loop-rest now (pos n) 0 s.outbox,
)

-- MarkFailed of the memory store puts an unpublished event with fewer than 2^20 attempts back
-- under its id with the same attempts, to be claimed from a minute for each attempt after the
-- failure on, and not before.
mark_failed_backoff :
    (s : Store) (id message : String) (at later : Time) (v : OutboxEvent) (attempts : ℕ)
    → lookup id s.outbox ≡ some v
    → v.published_at ≡ none
    → v.attempts ≡ pos attempts
    → attempts < 2 ^ 20
    → (w : OutboxEvent) × (lookup id (mark_failed s id at message).0.outbox ≡ some w)
      × (w.attempts ≡ v.attempts)
      × ((is_claimable later w ≡ true) ↔ (at + minute * attempts ≤ later))
unfolding mark_failed put_back is_claimable ◌*ℤ◌ wrap64
mark_failed_backoff s id message at later v attempts h open_still count small = (
  put_back v at message,
  ground (arith, lookup-insert_self id (put_back v at message) s.outbox),
  refl,
  ground arith,
)
