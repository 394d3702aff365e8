-- ===== src/Memory/Accounts.antt =====
-- Users and sessions of internal/repository/memory/store.go. A session is kept under the hash of
-- its token; `sha256_hex` is the hash that memory's tokenHash and auth's HashToken compute.
use go_label.Base.{String, false, Option, none, some, str_eq, if◌then◌else◌}
use go_label.Base.Results.{Result, ok, err, done, not_found, conflict}
use go_label.Base.Instants.{Time}
use go_label.Base.Maps.{lookup, insert, map_values, has}
use go_label.Domain.Types.{User, Session}
use go_label.Memory.State.{Store, zero_user}

abbrev or_zero : Option User → User
or_zero none = zero_user
or_zero (some u) = u

unfoldable pub get_user_by_email : Store → String → Result User
get_user_by_email s email = elim (lookup email s.by_email) [
  | none ↦ err not_found
  | some id ↦ ok (or_zero (lookup id s.users))
]

unfoldable pub get_user : Store → String → Result User
get_user s id = elim (lookup id s.users) [ none ↦ err not_found | some u ↦ ok u ]

unfoldable pub create_user : Store → User → Store × Result (Unit {0})
create_user s u = if has u.email s.by_email then (s, err conflict) else (
  record s { users = insert u.id u s.users; by_email = insert u.email u.id s.by_email },
  done,
)

-- The body of the loops over the sessions of a user.
unfoldable pub revoke_if_of : String → Time → Session → Session
revoke_if_of user at v = if str_eq v.user_id user then record v { revoked_at = some at } else v

unfoldable pub deactivate_user : Store → String → Time → Store × Result (Unit {0})
deactivate_user s id at = elim (lookup id s.users) [
  | none ↦ (s, err not_found)
  | some u ↦ (
    record s {
      users = insert id (record u { active = false; deactivated_at = some at }) s.users;
      sessions = map_values (revoke_if_of id at) s.sessions;
    },
    done,
  )
]

unfoldable pub create_session : Store → Session → Store × Result (Unit {0})
create_session s v = (record s { sessions = insert v.token_hash v s.sessions }, done)

unfoldable pub revoke_user_sessions : Store → String → Time → Store × Result (Unit {0})
revoke_user_sessions s user at =
    (record s { sessions = map_values (revoke_if_of user at) s.sessions }, done)

module _ (sha256_hex : String → String) where
  unfoldable pub get_session : Store → String → Result Session
  get_session s token = elim (lookup (sha256_hex token) s.sessions) [
    | none ↦ err not_found
    | some v ↦ ok v
  ]

  unfoldable pub revoke_session : Store → String → Time → Store × Result (Unit {0})
  revoke_session s token at = elim (lookup (sha256_hex token) s.sessions) [
    | none ↦ (s, err not_found)
    | some v ↦ (
      record s {
        sessions = insert (sha256_hex token) (record v { revoked_at = some at }) s.sessions;
      },
      done,
    )
  ]
