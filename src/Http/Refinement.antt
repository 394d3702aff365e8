-- ===== src/Http/Refinement.antt =====
-- What the server of internal/httpapi/server.go does to the store, in terms of the requests of the
-- service.
use mathlib.Core.Option
use go_label.Base.{
  ℕ, ◌≡◌, refl, inl, inr, ap, ◌∙◌, String, Bool, true, false, Option, none, some, List, arith,
}
use go_label.Base.Results.{Result, ok, err, Error, invalid, Result-cases}
use go_label.Base.Int64.{ℤ}
use go_label.Domain.Types.{User, Session}
use go_label.Service.Repository.{Repository}
use go_label.Service.Accounts.{authenticate}
use go_label.Service.Access.{Request, serve, forget}
use go_label.Service.Legs.{open_leg}
use go_label.Http.Replies.{Body, Reply, write, fail, answer, status_of}
use go_label.Http.Server.{
  Route, Call, Draws, Decoders, bearer, behind_auth, dispatch, post_shipment, post_booking,
  post_transition, post_leg, post_open, post_customs, post_security,
}

-- The routes that change data of the service.
abbrev pub is_write : Route → Bool
is_write Route.create_shipment_route = true
is_write (Route.book_route id) = true
is_write (Route.transition_route id) = true
is_write Route.create_leg_route = true
is_write (Route.open_leg_route id) = true
is_write (Route.customs_route id) = true
is_write (Route.security_route id) = true
is_write _ = false

-- The status code of a success.
abbrev pub success_of : Route → ℕ
success_of Route.create_shipment_route = 201
success_of Route.create_leg_route = 201
success_of _ = 200

-- The request to the service that a call stands for, if its body can be decoded.
abbrev pub request_of : Decoders → Route → Call → Draws → Option Request
request_of decode Route.create_shipment_route c d =
    Option.map (λ v. Request.creates_shipment v c.idempotency_key d.random_id d.now)
      (decode.shipment c.body)
request_of decode (Route.book_route id) c d =
    Option.map (λ leg. Request.books_shipment id leg d.now) (decode.leg_id c.body)
request_of decode (Route.transition_route id) c d =
    Option.map (λ next. Request.transitions_shipment id next d.now) (decode.status c.body)
request_of decode Route.create_leg_route c d =
    Option.map (λ l. Request.creates_leg l d.random_id d.now d.later) (decode.leg c.body)
request_of decode (Route.open_leg_route id) c d = some (Request.opens_leg id)
request_of decode (Route.customs_route id) c d =
    Option.map (λ v. Request.puts_customs (record v { shipment_id = id }) d.random_id d.now)
      (decode.customs c.body)
request_of decode (Route.security_route id) c d =
    Option.map (λ v. Request.puts_security (record v { shipment_id = id }) d.random_id d.now)
      (decode.security c.body)
request_of decode _ c d = none

abbrev pub reply_status : ℕ → Result (Unit {0}) → ℕ
reply_status code (ok u) = code
reply_status code (err e) = status_of e

-- What is seen of a reply: the store after it and its status code.
abbrev pub seen {ℓ} : {S : Type ℓ} → S × Reply → S × ℕ
seen (t, reply) = (t, reply.status)

-- An answered use case is seen as its result.
answered :
    {S : Type 0} {A : Type 0} (code : ℕ) (body : A → Body) (p : S × Result A)
    → seen (p.0, answer code body p.1) ≡ ((forget p).0, reply_status code (forget p).1)
unfolding answer fail write
answered code body (t, ok v) = refl
answered code body (t, err e) = refl

module _ {S : Type 0} (r : Repository S) where
  -- The promise of a write: authenticate, read the request, have the service serve it, report.
  abbrev pub promised : S → ℕ → Result (User × Session) → Option Request → S × ℕ
  promised s code (err e) q = (s, 401)
  promised s code (ok (u, session)) none = (s, 400)
  promised s code (ok (u, session)) (some q) =
      ((serve r s u q).0, reply_status code (serve r s u q).1)

  module _ (sha256_hex : String → String) (compare : List ℕ → String → Bool) (ttl : ℤ)
      (decode : Decoders) where
    -- A decoded body is served, any other is answered by 400.
    decoded :
        {A : Type 0} {B : Type 0} (s : S) (u : User) (session : Session) (code : ℕ)
        (body : B → Body) (o : Option A) (q : A → Request) (use_case : A → S × Result B)
        → ((v : A) → forget (use_case v) ≡ serve r s u (q v))
        → seen (elim o [
          | none ↦ (s, fail 400 invalid)
          | some v ↦ ((use_case v).0, answer code body (use_case v).1)
        ])
          ≡ promised s code (ok (u, session)) (Option.map q o)
    decoded s u session code body none q f e = unfold fail write in refl
    decoded s u session code body (some v) q f e =
        answered code body (f v) ∙ ap (λ p. (p.0, reply_status code p.1)) (e v)

    admitted :
        (s : S) (u : User) (session : Session) (c : Call) (d : Draws) (next : User → S × Reply)
        → authenticate r s (bearer c) d.at_door ≡ ok (u, session)
        → behind_auth r sha256_hex compare ttl decode s c d next ≡ next u
    unfolding behind_auth
    admitted s u session c d next h = ground arith

    write_serves :
        (s : S) (u : User) (session : Session) (route : Route) (c : Call) (d : Draws)
        → is_write route ≡ true
        → authenticate r s (bearer c) d.at_door ≡ ok (u, session)
        → seen (dispatch r sha256_hex compare ttl decode s route c d)
          ≡ promised s (success_of route) (ok (u, session)) (request_of decode route c d)
    unfolding dispatch post_shipment post_booking post_transition post_leg post_open post_customs
        post_security serve
    write_serves s u session Route.create_shipment_route c d w h =
        ap seen (admitted s u session c d _ h)
        ∙ (decoded s u session 201 Body.shipment (decode.shipment c.body) _ _ (λ v. refl))
    write_serves s u session (Route.book_route id) c d w h =
        ap seen (admitted s u session c d _ h)
        ∙ (decoded s u session 200 Body.shipment (decode.leg_id c.body) _ _ (λ v. refl))
    write_serves s u session (Route.transition_route id) c d w h =
        ap seen (admitted s u session c d _ h)
        ∙ (decoded s u session 200 Body.shipment (decode.status c.body) _ _ (λ v. refl))
    write_serves s u session Route.create_leg_route c d w h =
        ap seen (admitted s u session c d _ h)
        ∙ (decoded s u session 201 Body.leg (decode.leg c.body) _ _ (λ v. refl))
    write_serves s u session (Route.open_leg_route id) c d w h =
        ap seen (admitted s u session c d _ h) ∙ (answered 200 Body.leg (open_leg r s u id))
    write_serves s u session (Route.customs_route id) c d w h =
        ap seen (admitted s u session c d _ h)
        ∙ (decoded s u session 200 Body.customs (decode.customs c.body) _ _ (λ v. refl))
    write_serves s u session (Route.security_route id) c d w h =
        ap seen (admitted s u session c d _ h)
        ∙ (decoded s u session 200 Body.security (decode.security c.body) _ _ (λ v. refl))
    write_serves s u session Route.healthz c d w h = absurd (ground arith)
    write_serves s u session Route.readyz c d w h = absurd (ground arith)
    write_serves s u session Route.login_route c d w h = absurd (ground arith)
    write_serves s u session Route.logout_route c d w h = absurd (ground arith)
    write_serves s u session Route.list_shipments_route c d w h = absurd (ground arith)
    write_serves s u session Route.summary_route c d w h = absurd (ground arith)

    write_refused :
        (s : S) (e : Error) (route : Route) (c : Call) (d : Draws)
        → is_write route ≡ true
        → authenticate r s (bearer c) d.at_door ≡ err e
        → seen (dispatch r sha256_hex compare ttl decode s route c d) ≡ (s, 401)
    unfolding dispatch behind_auth fail write
    write_refused s e route c d w h = ground arith

    -- Over any store, each of the seven routes of the HTTP server that change data answers 401 and
    -- changes nothing when the bearer token does not authenticate, 400 and nothing when the body
    -- cannot be decoded, and otherwise leaves the store as the service leaves it on the request
    -- that the path, the headers and the body stand for, with 201 or 200 for a success and the
    -- status code of the error otherwise.
    pub write-promised :
        (s : S) (route : Route) (c : Call) (d : Draws)
        → is_write route ≡ true
        → seen (dispatch r sha256_hex compare ttl decode s route c d)
          ≡ promised s
              (success_of route)
              (authenticate r s (bearer c) d.at_door)
              (request_of decode route c d)
    write-promised s route c d w = elim (Result-cases (authenticate r s (bearer c) d.at_door)) [
      | inl ((u, session), known) ↦ rw known (write_serves s u session route c d w known)
      | inr (e, refused) ↦ rw refused (write_refused s e route c d w refused)
    ]
