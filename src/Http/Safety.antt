-- ===== src/Http/Safety.antt =====
-- The server of internal/httpapi/server.go on the memory store, over any traffic.
use go_label.Base.{
  ℕ, ◌≡◌, ◌≤◌, refl, inl, inr, ap, ◌∙◌, sym, subst, String, Bool, true, false, Option, none, some,
  List, [], ◌∷◌, All, arith, Bool-cases,
}
use go_label.Base.Results.{Result, ok, err, Error}
use go_label.Base.Int64.{ℤ}
use go_label.Domain.Types.{User, Session}
use go_label.Memory.State.{Store}
use go_label.Memory.Accounts
use go_label.Memory.Capacity.{IsSafe, elsewhere-IsSafe}
use go_label.Service.Repository.{memory}
use go_label.Service.Accounts.{authenticate, login, login_as, logout}
use go_label.Service.Access.{Request, serve}
use go_label.Service.Safety.{IsModestRequest, serve-IsSafe, serve_error_unchanged}
use go_label.Http.Replies.{write, answer}
use go_label.Http.Server.{
  Route, Call, Draws, Decoders, bearer, behind_auth, dispatch, log_in, log_out,
}
use go_label.Http.Refinement.{
  is_write, success_of, request_of, reply_status, promised, write-promised,
}

-- What is asked of the bodies that traffic brings.
abbrev pub IsModest : Option Request → Type 0
IsModest none = Unit {0}
IsModest (some q) = IsModestRequest q

success-le : (route : Route) → success_of route ≤ 201
success-le route = ground arith

failure_of :
    (route : Route) (r : Result (Unit {0}))
    → 400 ≤ reply_status (success_of route) r
    → (e : Error) × (r ≡ err e)
failure_of route (ok u) h = absurd (omega (arith, success-le route))
failure_of route (err e) h = (e, refl)

module _ (sha256_hex : String → String) (compare : List ℕ → String → Bool) (ttl : ℤ)
    (decode : Decoders) where
  -- Logins and logouts change sessions only, and the other routes that are no writes nothing.
  elsewhere :
      (s : Store) (route : Route) (c : Call) (d : Draws)
      → is_write route ≡ false
      → let t = (dispatch (memory sha256_hex) sha256_hex compare ttl decode s route c d).0 in
        (t.legs ≡ s.legs) × (t.shipments ≡ s.shipments)
  unfolding dispatch behind_auth log_in log_out login login_as logout Accounts.create_session
      Accounts.revoke_session
  elsewhere s Route.login_route c d w = (ground arith, ground arith)
  elsewhere s Route.logout_route c d w = (ground arith, ground arith)
  elsewhere s route c d w = (ground arith, ground arith)

  write-IsSafe :
      (s : Store) (route : Route) (c : Call) (d : Draws)
      → is_write route ≡ true
      → IsModest (request_of decode route c d)
      → IsSafe s
      → IsSafe (dispatch (memory sha256_hex) sha256_hex compare ttl decode s route c d).0
  write-IsSafe s route c d w m h =
      let kept =
        ap (λ p. p.0)
          (write-promised (memory sha256_hex) sha256_hex compare ttl decode s route c d w) in
      subst IsSafe (sym kept) (
        promised-IsSafe s (success_of route)
          (authenticate (memory sha256_hex) s (bearer c) d.at_door) (request_of decode route c d) m
          h)
    where
      promised-IsSafe :
          (s : Store) (code : ℕ) (a : Result (User × Session)) (q : Option Request)
          → IsModest q
          → IsSafe s
          → IsSafe (promised (memory sha256_hex) s code a q).0
      promised-IsSafe s code (err e) q m h = h
      promised-IsSafe s code (ok (u, session)) none m h = h
      promised-IsSafe s code (ok (u, session)) (some q) m h = serve-IsSafe sha256_hex s u q m h

  -- The store after some traffic.
  unfoldable pub dispatch_all : Store → List (Route × Call × Draws) → Store
  dispatch_all s [] = s
  dispatch_all s ((route, c, d) ∷ rest) =
      dispatch_all (dispatch (memory sha256_hex) sha256_hex compare ttl decode s route c d).0 rest

  dispatch-IsSafe :
      (s : Store) (route : Route) (c : Call) (d : Draws)
      → IsModest (request_of decode route c d)
      → IsSafe s
      → IsSafe (dispatch (memory sha256_hex) sha256_hex compare ttl decode s route c d).0
  dispatch-IsSafe s route c d m h = elim (Bool-cases (is_write route)) [
    | inl writes ↦ write-IsSafe s route c d writes m h
    | inr reads ↦
        let (legs, shipments) = elsewhere s route c d reads in elsewhere-IsSafe s _ legs shipments h
  ]

  -- Whatever calls the HTTP server over the memory store serves, on all of its routes and with or
  -- without valid tokens, every leg keeps a reserved weight between zero and its capacity. It is
  -- asked that the store starts so, with capacities and weights below 2^62, that the bodies
  -- decoded for new shipments have weights below 2^62, and that those for new legs have a reserved
  -- weight between zero and the capacity, and a capacity below 2^62.
  pub dispatch_all-IsSafe :
      (s : Store) (traffic : List (Route × Call × Draws))
      → All (λ (route, c, d). IsModest (request_of decode route c d)) traffic
      → IsSafe s
      → IsSafe (dispatch_all s traffic)
  unfolding dispatch_all
  dispatch_all-IsSafe s [] m h = h
  dispatch_all-IsSafe s ((route, c, d) ∷ rest) m h =
      dispatch_all-IsSafe (dispatch (memory sha256_hex) sha256_hex compare ttl decode s route c d).0
        rest m.1 (dispatch-IsSafe s route c d m.0 h)

  -- An error status of a write is one of its use case, of its body or of its token.
  promised_unchanged :
      (s : Store) (route : Route) (a : Result (User × Session)) (q : Option Request)
      → 400 ≤ (promised (memory sha256_hex) s (success_of route) a q).1
      → (promised (memory sha256_hex) s (success_of route) a q).0 ≡ s
  promised_unchanged s route (err e) q h = refl
  promised_unchanged s route (ok (u, session)) none h = refl
  promised_unchanged s route (ok (u, session)) (some q) h =
      let (e, failed) = failure_of route (serve (memory sha256_hex) s u q).1 h in
      serve_error_unchanged sha256_hex s u q failed

  quiet_error :
      (s : Store) (route : Route) (c : Call) (d : Draws)
      → is_write route ≡ false
      → 400 ≤ (dispatch (memory sha256_hex) sha256_hex compare ttl decode s route c d).1.status
      → (dispatch (memory sha256_hex) sha256_hex compare ttl decode s route c d).0 ≡ s
  unfolding dispatch behind_auth log_in log_out login login_as logout answer write
      Accounts.create_session Accounts.revoke_session
  quiet_error s Route.login_route c d w h = ground arith
  quiet_error s Route.logout_route c d w h = ground arith
  quiet_error s route c d w h = ground arith

  -- A call of any route of the HTTP server over the memory store that is answered with a status
  -- code of 400 or more leaves the store as it was.
  pub error_unchanged :
      (s : Store) (route : Route) (c : Call) (d : Draws)
      → 400 ≤ (dispatch (memory sha256_hex) sha256_hex compare ttl decode s route c d).1.status
      → (dispatch (memory sha256_hex) sha256_hex compare ttl decode s route c d).0 ≡ s
  error_unchanged s route c d h = elim (Bool-cases (is_write route)) [
    | inl writes ↦
        let kept =
          write-promised (memory sha256_hex) sha256_hex compare ttl decode s route c d writes in
        ap (λ p. p.0) kept
        ∙ promised_unchanged s route (authenticate (memory sha256_hex) s (bearer c) d.at_door)
            (request_of decode route c d) (subst (λ n. 400 ≤ n) (ap (λ p. p.1) kept) h)
    | inr reads ↦ quiet_error s route c d reads h
  ]
