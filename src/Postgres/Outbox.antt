-- ===== src/Postgres/Outbox.antt =====
-- The outbox of internal/repository/postgres/outbox.go. `as_jsonb` is what the database stores for a
-- payload, if it is JSON.
use go_label.Base.{
  ◌+◌, ℕ, String, Bool, not, ◌&&◌, ◌||◌, Option, none, some, List, [], ◌∷◌, take, length, keep_if,
  str_eq, nat_eq, any, map, is_none, if◌then◌else◌,
}
use go_label.Base.Results.{Result, ok, err, Error, done}
use go_label.Base.Int64.{ℤ, pos, pos_part, ltb_ℤ, leb_ℤ, ◌+ℤ◌}
use go_label.Base.Instants.{Time, before, after, minute}
use go_label.Base.Maps.{Map, insert, has, values}
use go_label.Base.Sorting.{sort_by}
use go_label.Domain.Types.{OutboxEvent}
use go_label.Postgres.Tables.{
  Database, queried, executed, duplicate_key, foreign_key_violation, out_of_range, has_tenant,
  fits_integer, update_where,
}

unfoldable pub enqueue :
    (List ℕ → Option (List ℕ)) → Database → OutboxEvent → Database × Result (Unit {0})
enqueue as_jsonb d v = executed d (elim (as_jsonb v.payload) [
  | none ↦ (d, err (Error.other "invalid input syntax for type json"))
  | some payload ↦
      if not (fits_integer v.attempts)
      then (d, err out_of_range)
      else if has v.id d.outbox
      then (d, err duplicate_key)
      else if not (has_tenant v.tenant_id d)
      then (d, err foreign_key_violation)
      else (
        record d {
          outbox =
              insert v.id
                (record v {
                  payload = payload;
                  available_at = d.column_time v.available_at;
                  claimed_at = none;
                  published_at = none;
                })
                d.outbox;
        },
        done,
      )
])

-- `published_at IS NULL AND claimed_at IS NULL AND available_at<=$1`.
unfoldable pub is_claimable : Time → OutboxEvent → Bool
is_claimable now v =
    is_none v.published_at && (is_none v.claimed_at && not (after v.available_at now))

abbrev pub claimed : Time → OutboxEvent → OutboxEvent
claimed now v = record v { claimed_at = some now; attempts = v.attempts +ℤ pos 1 }

-- The UPDATE of Claim, for the rows picked.
unfoldable claim_rows : Time → List OutboxEvent → Map OutboxEvent → Map OutboxEvent
claim_rows now [] m = m
claim_rows now (v ∷ vs) m = claim_rows now vs (insert v.id (claimed now v) m)

module _ (text_before : String → String → Bool) where
  -- `ORDER BY available_at,id`.
  abbrev available_before : OutboxEvent → OutboxEvent → Bool
  available_before a b =
      before a.available_at b.available_at
      || (nat_eq a.available_at b.available_at && text_before a.id b.id)

  -- The rows that the query `picked` finds. No other transaction holds a lock.
  abbrev picked : Database → Time → ℤ → List OutboxEvent
  picked d now n =
      take (pos_part n) (sort_by available_before (keep_if (is_claimable now) (values d.outbox)))

  unfoldable pub claim : Database → Time → ℤ → Database × Result (List OutboxEvent)
  unfolding claim_rows
  claim d now n =
      let t = d.column_time now in
      let rows = picked d t n in
      executed d (
        if ltb_ℤ n (pos 0)
        then (d, err (Error.other "LIMIT must not be negative"))
        else if any (λ v. not (fits_integer (v.attempts +ℤ pos 1))) rows
        then (d, err out_of_range)
        else (record d { outbox = claim_rows t rows d.outbox }, ok (map (claimed t) rows)))

unfoldable pub mark_published : Database → String → Time → Database × Result (Unit {0})
mark_published d id at = executed d (
  record d {
    outbox =
        update_where (λ v. str_eq v.id id)
          (λ v. record v { published_at = some (d.column_time at); claimed_at = none }) d.outbox;
  },
  done,
)

unfoldable pub mark_failed : Database → String → Time → String → Database × Result (Unit {0})
mark_failed d id at message = executed d (
  record d {
    outbox =
        update_where (λ v. str_eq v.id id)
          (λ v. record v {
            last_error = message;
            claimed_at = none;
            available_at = d.column_time (at + minute);
          })
          d.outbox;
  },
  done,
)

-- `count(*) FILTER(WHERE ...)`.
unfoldable pub summary : Database → String → Result (ℤ × ℤ)
summary d tenant =
    let pending =
      keep_if (λ v. str_eq v.tenant_id tenant && is_none v.published_at) (values d.outbox) in
    queried d
      (ok (pos (length pending), pos (length (keep_if (λ v. leb_ℤ (pos 5) v.attempts) pending))))
