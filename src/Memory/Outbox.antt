-- ===== src/Memory/Outbox.antt =====
-- The outbox of internal/repository/memory/store.go: events wait, are claimed by a worker, and are
-- published or put back.
use go_label.Base.{
  ℕ, suc, String, Bool, not, ◌&&◌, none, some, List, [], ◌∷◌, str_eq, is_none, if◌then◌else◌,
}
use go_label.Base.Results.{Result, ok, err, done, not_found}
use go_label.Base.Int64.{ℤ, pos, ltb_ℤ, leb_ℤ, add64, mul64}
use go_label.Base.Instants.{Time, after, minute, add_duration}
use go_label.Base.Maps.{Map, lookup, insert, values}
use go_label.Domain.Types.{OutboxEvent}
use go_label.Memory.State.{Store}

unfoldable pub enqueue : Store → OutboxEvent → Store × Result (Unit {0})
enqueue s v = (record s { outbox = insert v.id v s.outbox }, done)

unfoldable pub is_claimable : Time → OutboxEvent → Bool
is_claimable now v =
    is_none v.published_at && (is_none v.claimed_at && not (after v.available_at now))

unfoldable pub claimed : Time → OutboxEvent → OutboxEvent
claimed now v = record v { claimed_at = some now; attempts = add64 v.attempts (pos 1) }

-- The loop of Claim, with `len(out)` as `taken`: the map that it leaves, and what it hands out.
unfoldable pub claim_loop : Time → ℤ → ℕ → Map OutboxEvent → Map OutboxEvent × List OutboxEvent
claim_loop now n taken [] = ([], [])
claim_loop now n taken ((id, v) ∷ m) =
    let hit = is_claimable now v && ltb_ℤ (pos taken) n in
    let (rest, out) = claim_loop now n (if hit then suc taken else taken) m in
    if hit then ((id, claimed now v) ∷ rest, claimed now v ∷ out) else ((id, v) ∷ rest, out)

unfoldable pub claim : Store → Time → ℤ → Store × Result (List OutboxEvent)
claim s now n =
    let (outbox, out) = claim_loop now n 0 s.outbox in (record s { outbox = outbox }, ok out)

unfoldable pub mark_published : Store → String → Time → Store × Result (Unit {0})
mark_published s id at = elim (lookup id s.outbox) [
  | none ↦ (s, err not_found)
  | some v ↦ (record s { outbox = insert id (record v { published_at = some at }) s.outbox }, done)
]

-- `v` after a failed attempt: it waits a minute for each attempt made.
unfoldable pub put_back : OutboxEvent → Time → String → OutboxEvent
put_back v at message = record v {
  last_error = message;
  claimed_at = none;
  available_at = add_duration at (mul64 (pos minute) v.attempts);
}

unfoldable pub mark_failed : Store → String → Time → String → Store × Result (Unit {0})
mark_failed s id at message = elim (lookup id s.outbox) [
  | none ↦ (s, err not_found)
  | some v ↦ (record s { outbox = insert id (put_back v at message) s.outbox }, done)
]

-- The loop of Summary over the pending and the failed counts.
unfoldable pub count_pending : String → List OutboxEvent → ℤ × ℤ → ℤ × ℤ
count_pending tenant [] counts = counts
count_pending tenant (v ∷ vs) (pending, failed) = count_pending tenant vs (
    if str_eq v.tenant_id tenant && is_none v.published_at
    then (add64 pending (pos 1), if leb_ℤ (pos 5) v.attempts then add64 failed (pos 1) else failed)
    else (pending, failed))

unfoldable pub summary : Store → String → Result (ℤ × ℤ)
summary s tenant = ok (count_pending tenant (values s.outbox) (pos 0, pos 0))
