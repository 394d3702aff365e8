-- ===== src/Service/Accounts.antt =====
-- Login, logout, authentication and deactivation of internal/service/application.go. An error that
-- the service wraps keeps its sentinel. The clock, the random token and the random id of a call are
-- its arguments; bcrypt and SHA-256 are the parameters `compare` and `sha256_hex`.
use go_label.Base.{ℕ, String, Bool, true, false, not, none, List, is_blank, if◌then◌else◌}
use go_label.Base.Results.{Result, ok, err, Error, done, invalid, forbidden}
use go_label.Base.Int64.{ℤ}
use go_label.Base.Instants.{Time, add_duration}
use go_label.Base.Text.{trim_space, to_lower}
use go_label.Domain.Types.{Role, User, Session}
use go_label.Domain.Rules.{is_session_active}
use go_label.Service.Repository.{Repository}

pub record LoginResult : Type 0 where
  pub token : String
  pub expires_at : Time
  pub user : User

-- `u.Role == domain.RoleShipper`, and so on.
abbrev pub is_shipper : Role → Bool
is_shipper Role.shipper = true
is_shipper _ = false

abbrev pub is_coordinator : Role → Bool
is_coordinator Role.coordinator = true
is_coordinator _ = false

abbrev pub is_ground_agent : Role → Bool
is_ground_agent Role.ground_agent = true
is_ground_agent _ = false

-- `errors.Is(err, domain.ErrNotFound)`.
abbrev pub is_not_found : Error → Bool
is_not_found Error.not_found = true
is_not_found _ = false

-- `nonEmpty`.
abbrev pub non_empty : String → String → String
non_empty v fallback = if is_blank v then fallback else v

module _ {S : Type 0} (r : Repository S) where
  open r use {get_user_by_email, get_user, create_session, get_session, revoke_session}

  module _ (sha256_hex : String → String) (compare : List ℕ → String → Bool) where
    -- The session that Login stores.
    abbrev pub login_session : User → String → String → ℤ → Time → Session
    login_session u raw session_id ttl now = record {
      id = session_id;
      user_id = u.id;
      token_hash = sha256_hex raw;
      expires_at = add_duration now ttl;
      revoked_at = none;
      created_at = now;
    }

    -- Login once the user is read: `raw` is what randomToken gives.
    unfoldable pub login_as :
        S → User → String → Result String → String → ℤ → Time → S × Result LoginResult
    login_as s u password raw session_id ttl now =
        if not u.active
        then (s, err forbidden)
        else if not (compare u.password_hash password)
        then (s, err forbidden)
        else elim raw [
          | err e ↦ (s, err e)
          | ok token ↦
              let session = login_session u token session_id ttl now in
              let (t, stored) = create_session s session in
              elim stored [
                | err e ↦ (t, err e)
                | ok _ ↦
                    (t, ok (record { token = token; expires_at = session.expires_at; user = u }))
              ]
        ]

    unfoldable pub login :
        S → String → String → Result String → String → ℤ → Time → S × Result LoginResult
    unfolding login_as
    login s email password raw session_id ttl now =
        elim (get_user_by_email s (to_lower (trim_space email))) [
          | err e ↦ (s, err e)
          | ok u ↦ login_as s u password raw session_id ttl now
        ]

  unfoldable pub logout : S → String → Time → S × Result (Unit {0})
  logout s token now =
      if is_blank token
      then (s, err invalid)
      else let (t, revoked) = revoke_session s token now in
        elim revoked [
          | ok _ ↦ (t, done)
          | err e ↦ if not (is_not_found e) then (t, err e) else (t, done)
        ]

  -- Authenticate once the session is known to be active.
  unfoldable pub active_user : S → Session → Result (User × Session)
  active_user s v = elim (get_user s v.user_id) [
    | err e ↦ err forbidden
    | ok u ↦ if not u.active then err forbidden else ok (u, v)
  ]

  unfoldable pub authenticate : S → String → Time → Result (User × Session)
  unfolding active_user
  authenticate s token now = if is_blank token then err forbidden else elim (get_session s token) [
    | err e ↦ err forbidden
    | ok v ↦ elim (is_session_active v now) [ err e ↦ err forbidden | ok _ ↦ active_user s v ]
  ]

  unfoldable pub deactivate_user : S → String → String → Time → Time → S × Result (Unit {0})
  deactivate_user s actor target now later = elim (authenticate s actor now) [
    | err e ↦ (s, err e)
    | ok (u, _) ↦
        if not (is_coordinator u.role) then (s, err forbidden) else r.deactivate_user s target later
  ]
