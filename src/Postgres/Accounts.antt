-- ===== src/Postgres/Accounts.antt =====
-- Users and sessions of internal/repository/postgres/store.go; `sha256_hex` is auth.HashToken.
use go_label.Base.{
  Option, ◌||◌, String, Bool, true, false, not, ◌&&◌, none, some, is_none, str_eq, if◌then◌else◌,
}
use go_label.Base.Results.{Result, ok, err, done, not_found, conflict}
use go_label.Base.Instants.{Time}
use go_label.Base.Maps.{lookup, insert, has, values}
use go_label.Domain.Types.{Role, User, Session}
use go_label.Postgres.Tables.{
  Database, queried, executed, duplicate_key, check_violation, foreign_key_violation, is_unique,
  first_row, has_row, update_where, has_tenant,
}

unfoldable pub ping : Database → Result (Unit {0})
ping d = queried d done

-- `user` on the row that its query finds.
abbrev user_of : Option User → Result User
user_of none = err not_found
user_of (some u) = ok u

unfoldable pub get_user_by_email : Database → String → Result User
get_user_by_email d email =
    queried d (user_of (first_row (λ u. str_eq u.email email) (values d.users)))

unfoldable pub get_user : Database → String → Result User
get_user d id = queried d (user_of (lookup id d.users))

-- `CHECK(role IN (...))`.
abbrev is_known_role : Role → Bool
is_known_role (Role.unknown r) = false
is_known_role _ = true

-- The columns that the INSERT writes.
abbrev user_row : Database → User → User
user_row d u = record u { created_at = d.column_time u.created_at; deactivated_at = none }

-- `INSERT INTO users`.
unfoldable insert_user : Database → User → Database × Result (Unit {0})
insert_user d u =
    if not (is_known_role u.role)
    then (d, err check_violation)
    else if has u.id d.users || has_row (λ w. str_eq w.email u.email) d.users
    then (d, err duplicate_key)
    else if not (has_tenant u.tenant_id d)
    then (d, err foreign_key_violation)
    else (record d { users = insert u.id (user_row d u) d.users }, done)

-- `if isUnique(err) { return domain.ErrConflict }; return err`.
abbrev pub unique_as_conflict : Database × Result (Unit {0}) → Database × Result (Unit {0})
unique_as_conflict (d, ok u) = (d, ok u)
unique_as_conflict (d, err e) = (d, err (if is_unique e then conflict else e))

unfoldable pub create_user : Database → User → Database × Result (Unit {0})
unfolding insert_user
create_user d u = unique_as_conflict (executed d (insert_user d u))

abbrev is_open_of : String → Session → Bool
is_open_of user v = str_eq v.user_id user && is_none v.revoked_at

abbrev revoked : Time → Session → Session
revoked at v = record v { revoked_at = some at }

unfoldable pub deactivate_user : Database → String → Time → Database × Result (Unit {0})
deactivate_user d id at = executed d (elim (lookup id d.users) [
  | none ↦ (d, err not_found)
  | some u ↦ (
    record d {
      users =
          insert id (record u { active = false; deactivated_at = some (d.column_time at) }) d.users;
      sessions = update_where (is_open_of id) (revoked (d.column_time at)) d.sessions;
    },
    done,
  )
])

abbrev session_row : Database → Session → Session
session_row d v = record v {
  expires_at = d.column_time v.expires_at;
  revoked_at = none;
  created_at = d.column_time v.created_at;
}

unfoldable pub create_session : Database → Session → Database × Result (Unit {0})
create_session d v = executed d (
    if has v.id d.sessions || has_row (λ w. str_eq w.token_hash v.token_hash) d.sessions
    then (d, err duplicate_key)
    else if not (has v.user_id d.users)
    then (d, err foreign_key_violation)
    else (record d { sessions = insert v.id (session_row d v) d.sessions }, done))

unfoldable pub revoke_user_sessions : Database → String → Time → Database × Result (Unit {0})
revoke_user_sessions d id at = executed d (
  record d { sessions = update_where (is_open_of id) (revoked (d.column_time at)) d.sessions },
  done,
)

module _ (sha256_hex : String → String) where
  unfoldable pub get_session : Database → String → Result Session
  get_session d token =
      queried d
        (elim (first_row (λ v. str_eq v.token_hash (sha256_hex token)) (values d.sessions)) [
          | none ↦ err not_found
          | some v ↦ ok v
        ])

  abbrev is_open_token : String → Session → Bool
  is_open_token token v = str_eq v.token_hash (sha256_hex token) && is_none v.revoked_at

  unfoldable pub revoke_session : Database → String → Time → Database × Result (Unit {0})
  revoke_session d token at = executed d (
      if not (has_row (is_open_token token) d.sessions) then (d, err not_found) else (
        record d {
          sessions = update_where (is_open_token token) (revoked (d.column_time at)) d.sessions;
        },
        done,
      ))
