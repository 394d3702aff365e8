-- ===== src/Traffic/Idempotency.antt =====
-- internal/idempotency/store.go: results kept for a key of a tenant, and replayed while they last.
-- Fingerprints (SHA-256 of the call) are arguments.
use go_label.Base.{
  ◌≤◌, ◌-◌, ◌^◌, length, ℕ, ◌*◌, ◌+◌, ◌≡◌, ◌<◌, String, Bool, true, false, not, ◌||◌, none, some,
  Option, List, [], ◌∷◌, arith, is_blank, concat, str_eq, if◌then◌else◌, eq_iff,
}
use go_label.Base.Results.{Result, ok, err, done, invalid, conflict, not_found}
use go_label.Base.Int64.{ℤ, pos, add64, ◌+ℤ◌, +ℤ_parts, wrap64_fits}
use go_label.Base.Instants.{Time, before, add_duration, minute}
use go_label.Base.Maps.{Map, lookup, insert, Distinct, lookup-insert_self}

pub record Record : Type 0 where
  pub tenant_id : String
  pub key : String
  pub fingerprint : String
  pub status : ℤ
  pub body : List ℕ
  pub created_at : Time
  pub expires_at : Time

abbrev compound : String → String → String
compound tenant key = concat tenant (concat "|" key)

abbrev day : ℤ
day = pos (1440 * minute)

abbrev pub begun : String → String → String → Time → Record
begun tenant key fingerprint now = record {
  tenant_id = tenant;
  key = key;
  fingerprint = fingerprint;
  status = pos 102;
  body = [];
  created_at = now;
  expires_at = add_duration now day;
}

abbrev starts : Map Record → String → String → String → Time → Map Record × Result (Record × Bool)
starts m tenant key fingerprint now = (
  insert (compound tenant key) (begun tenant key fingerprint now) m,
  ok (begun tenant key fingerprint now, false),
)

unfoldable pub begin :
    Map Record → String → String → String → Time → Map Record × Result (Record × Bool)
begin m tenant key fingerprint now =
    if is_blank tenant || (is_blank key || is_blank fingerprint)
    then (m, err invalid)
    else elim (lookup (compound tenant key) m) [
      | none ↦ starts m tenant key fingerprint now
      | some old ↦
          if before now old.expires_at
          then if not (str_eq old.fingerprint fingerprint)
            then (m, err conflict)
            else (m, ok (old, true))
          else starts m tenant key fingerprint now
    ]

unfoldable pub complete : Map Record → String → String → ℤ → List ℕ → Map Record × Result (Unit {0})
complete m tenant key status body = elim (lookup (compound tenant key) m) [
  | none ↦ (m, err not_found)
  | some v ↦ (insert (compound tenant key) (record v { status = status; body = body }) m, done)
]

-- The loop of Cleanup, which deletes entries of the map it ranges over.
unfoldable pub cleanup : Map Record → Time → Map Record × ℤ
cleanup [] now = ([], pos 0)
cleanup ((k, v) ∷ m) now =
    let rest = cleanup m now in
    if not (before now v.expires_at)
    then (rest.0, add64 rest.1 (pos 1))
    else ((k, v) ∷ rest.0, rest.1)

-- After a call has begun under an idempotency key and has been completed, beginning again under
-- the key within the day replays the stored record with its status and body when the fingerprint
-- is the same, and is refused as a conflict when it is another non-empty one; nothing changes.
begin-complete-begin :
    (m t u : Map Record) (tenant key fingerprint again : String) (now later : Time) (r : Record)
    (status : ℤ) (body : List ℕ)
    → begin m tenant key fingerprint now ≡ (t, ok (r, false))
    → complete t tenant key status body ≡ (u, done)
    → is_blank again ≡ false
    → before later (now + 1440 * minute) ≡ true
    → begin u tenant key again later ≡ (
      u,
      if str_eq fingerprint again
          then ok (record r { status = status; body = body }, true)
          else err conflict,
    )
unfolding begin complete
begin-complete-begin m t u tenant key fingerprint again now later r status body h k some_text runs =
    let fresh = begun tenant key fingerprint now in
    let at = compound tenant key in
    let first : r ≡ fresh = ground arith in
    let started : t ≡ insert at fresh m = ground arith in
    let stored : lookup at t ≡ some fresh = rw started (lookup-insert_self at fresh m) in
    let kept : u ≡ insert at (record fresh { status = status; body = body }) t = ground arith in
    let last : lookup at u ≡ some (record fresh { status = status; body = body }) =
      rw kept (lookup-insert_self at (record fresh { status = status; body = body }) t) in
    ground arith

-- What a lookup finds after a cleanup.
abbrev pub live : Time → Option Record → Option Record
live now none = none
live now (some v) = if before now v.expires_at then some v else none

lookup-cleanup :
    (m : Map Record) (now : Time) (k : String)
    → Distinct m
    → lookup k (cleanup m now).0 ≡ live now (lookup k m)
unfolding cleanup lookup
lookup-cleanup [] now k d = ground arith
lookup-cleanup ((j, v) ∷ m) now k d = ground (arith, lookup-cleanup m now k d.1, eq_iff j k, d.0)

cleanup_counts :
    (m : Map Record) (now : Time)
    → length m < 2 ^ 63
    → ((cleanup m now).1 ≡ pos (length m - length (cleanup m now).0))
      × (length (cleanup m now).0 ≤ length m)
unfolding cleanup
cleanup_counts [] now h = ground arith
cleanup_counts ((j, v) ∷ m) now h =
    let (count, fewer) = cleanup_counts m now (omega arith) in
    ground (
      arith,
      count,
      fewer,
      +ℤ_parts (cleanup m now).1 (pos 1),
      wrap64_fits ((cleanup m now).1 +ℤ pos 1),
    )

-- Cleanup of an idempotency store with fewer than 2^63 records, each under its own key, keeps
-- exactly the records that have not expired and returns the number of those that it removed.
cleanup_removes_expired :
    (m : Map Record) (now : Time)
    → Distinct m
    → length m < 2 ^ 63
    → ((k : String) → lookup k (cleanup m now).0 ≡ live now (lookup k m))
      × ((cleanup m now).1 ≡ pos (length m - length (cleanup m now).0))
cleanup_removes_expired m now d h = (λ k. lookup-cleanup m now k d, (cleanup_counts m now h).0)
