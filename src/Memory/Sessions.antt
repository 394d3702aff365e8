-- ===== src/Memory/Sessions.antt =====
-- Revocation of sessions by internal/repository/memory/store.go.
use go_label.Base.{◌≡◌, String, some, arith, eq_iff}
use go_label.Base.Results.{ok, done}
use go_label.Base.Instants.{Time}
use go_label.Base.Maps.{lookup-map_values}
use go_label.Domain.Types.{Session}
use go_label.Memory.State.{Store}
use go_label.Memory.Accounts.{get_session, deactivate_user, revoke_if_of}

module _ (sha256_hex : String → String) where
  -- After a successful DeactivateUser of the memory store, every session of the user that a token
  -- finds carries the time of the deactivation as its revocation.
  pub deactivate_user_revokes :
      (s t : Store) (id token : String) (at : Time) (v : Session)
      → deactivate_user s id at ≡ (t, done)
      → get_session sha256_hex t token ≡ ok v
      → v.user_id ≡ id
      → v.revoked_at ≡ some at
  unfolding deactivate_user get_session revoke_if_of
  deactivate_user_revokes s t id token at v h found own = ground (
    arith,
    lookup-map_values (revoke_if_of id at) (sha256_hex token) s.sessions,
    eq_iff v.user_id id,
  )
