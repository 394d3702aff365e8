-- ===== src/Service/Authentication.antt =====
-- Login, logout and deactivation of internal/service/application.go, over the memory store.
use go_label.Base.{
  ℕ, ◌≡◌, ◌≢◌, String, Bool, none, some, List, arith, eq_iff, inl, inr, Option-cases, if◌then◌else◌,
}
use go_label.Base.Results.{ok, err, Result-cases, done, forbidden}
use go_label.Base.Int64.{ℤ}
use go_label.Base.Instants.{Time, before}
use go_label.Base.Maps.{lookup, lookup-insert_self}
use go_label.Domain.Types.{User, Session}
use go_label.Domain.Rules.{is_session_active}
use go_label.Memory.State.{Store}
use go_label.Memory.Accounts.{
  get_user_by_email, get_user, create_session, get_session, revoke_session, revoke_if_of,
}
use go_label.Memory.Accounts
use go_label.Memory.Sessions
use go_label.Base.Text.{trim_space, to_lower}
use go_label.Service.Repository.{memory}
use go_label.Service.Accounts.{
  LoginResult, login, login_session, logout, authenticate, active_user, deactivate_user,
}

-- Every user of the store stands under the user's id.
abbrev pub UsersKeyed : Store → Type 0
UsersKeyed s = (k : String) (u : User) → lookup k s.users ≡ some u → u.id ≡ k

module _ (sha256_hex : String → String) where
  -- After a logout on the memory store that returns no error, the token is refused as forbidden at
  -- every time.
  pub logout_ends :
      (s t : Store) (token : String) (now later : Time)
      → logout (memory sha256_hex) s token now ≡ (t, done)
      → authenticate (memory sha256_hex) t token later ≡ err forbidden
  unfolding logout authenticate revoke_session get_session is_session_active
  logout_ends s t token now later h = elim (Option-cases (lookup (sha256_hex token) s.sessions)) [
    | inl missing ↦ ground arith
    | inr (v, found) ↦ ground (
      arith,
      lookup-insert_self (sha256_hex token) (record v { revoked_at = some now }) s.sessions,
    )
  ]

  -- The store of a successful deactivation is the one that the store's operation leaves.
  deactivated :
      (s t : Store) (actor target : String) (now at : Time)
      → deactivate_user (memory sha256_hex) s actor target now at ≡ (t, done)
      → Accounts.deactivate_user s target at ≡ (t, done)
  unfolding deactivate_user
  deactivated s t actor target now at h = ground arith

  -- An authenticated token has a stored session that is not revoked.
  authenticated :
      (t : Store) (token : String) (later : Time) (u : User) (v : Session)
      → authenticate (memory sha256_hex) t token later ≡ ok (u, v)
      → (get_session sha256_hex t token ≡ ok v) × (v.revoked_at ≡ none)
  unfolding authenticate active_user is_session_active
  authenticated t token later u v h = elim (Result-cases (get_session sha256_hex t token)) [
    | inl (w, found) ↦ ground arith
    | inr (e, missing) ↦ absurd (ground arith)
  ]

  -- After a successful deactivation of a user on the memory store, no token authenticates through
  -- a session of that user, at any time.
  pub deactivate_user_ends :
      (s t : Store) (actor target token : String) (now at later : Time) (u : User) (v : Session)
      → deactivate_user (memory sha256_hex) s actor target now at ≡ (t, done)
      → authenticate (memory sha256_hex) t token later ≡ ok (u, v)
      → v.user_id ≢ target
  unfolding deactivate_user
  deactivate_user_ends s t actor target token now at later u v h k own =
      let (found, live) = authenticated t token later u v k in
      let revoked =
        Sessions.deactivate_user_revokes sha256_hex s t target token at v
          (deactivated s t actor target now at h) found own in
      ground arith

  module _ (compare : List ℕ → String → Bool) where
    -- After a login to the memory store that gives a non-empty token, that token authenticates as
    -- the user logged in, with the session of the login, at every time before the session's
    -- expiry, and is refused as forbidden from then on; users are stored under their ids.
    pub authenticate-login :
        (s t : Store) (email password raw session_id : String) (ttl : ℤ) (now later : Time)
        (out : LoginResult)
        → UsersKeyed s
        → raw ≢ ""
        → login (memory sha256_hex) sha256_hex compare s email password (ok raw) session_id ttl now
          ≡ (t, ok out)
        → authenticate (memory sha256_hex) t raw later ≡ (
            if before later out.expires_at
            then ok (
              out.user,
              login_session (memory sha256_hex) sha256_hex compare out.user raw session_id ttl now,
            )
            else err forbidden)
    unfolding login authenticate get_user_by_email create_session get_session get_user
        is_session_active active_user
    authenticate-login s t email password raw session_id ttl now later out keyed named h =
        elim (Option-cases (lookup (to_lower (trim_space email)) s.by_email)) [
          | inl unknown ↦ absurd (ground arith)
          | inr (id, known) ↦ elim (Option-cases (lookup id s.users)) [
            | inl missing ↦ absurd (ground arith)
            | inr (u, found) ↦
                let session =
                  login_session (memory sha256_hex) sha256_hex compare u raw session_id ttl now in
                ground (
                  arith,
                  keyed id u found,
                  eq_iff raw "",
                  lookup-insert_self (sha256_hex raw) session s.sessions,
                )
          ]
        ]
