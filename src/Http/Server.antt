-- ===== src/Http/Server.antt =====
-- The handlers of internal/httpapi/server.go. A request reaches its handler by the router of chi,
-- which is not modelled: a route is a value with the parameters of its path. JSON decoding is a
-- parameter for each shape of body. The clock readings, random ids and random tokens of a request
-- are those of its `Draws`.
use go_label.Base.{Bool, ℕ, List, String, Option, none, some, is_blank, if◌then◌else◌}
use go_label.Base.Results.{Result, ok, err, invalid, forbidden}
use go_label.Base.Int64.{ℤ}
use go_label.Base.Instants.{Time}
use go_label.Base.Text.{trim_prefix, atoi}
use go_label.Domain.Types.{User, Shipment, ShipmentStatus, FlightLeg, CustomsCase, SecurityCheck}
use go_label.Service.Repository.{Repository}
use go_label.Service.Accounts.{login, logout, authenticate}
use go_label.Service.Shipments.{
  create_shipment, list_shipments, book_shipment, transition_shipment, summary,
}
use go_label.Service.Legs.{create_leg, open_leg}
use go_label.Service.Compliance.{put_customs, put_security}
use go_label.Http.Replies.{Body, Reply, write, fail, answer}

-- The routes of New, in its order.
pub data Route : Type 0 where
  healthz readyz login_route logout_route : Route
  create_shipment_route list_shipments_route : Route
  book_route transition_route : String → Route
  create_leg_route : Route
  open_leg_route customs_route security_route : String → Route
  summary_route : Route

-- What the handlers read of an *http.Request.
pub record Call : Type 0 where
  pub authorization : String
  pub idempotency_key : String
  pub request_id : String
  pub limit : String
  pub cursor : String
  pub body : String

-- json.Decoder with DisallowUnknownFields, for the types that the handlers decode into.
pub record Decoders : Type 0 where
  pub credentials : String → Option (String × String)
  pub shipment : String → Option Shipment
  pub leg_id : String → Option String
  pub status : String → Option ShipmentStatus
  pub leg : String → Option FlightLeg
  pub customs : String → Option CustomsCase
  pub security : String → Option SecurityCheck

-- The clock when the caller is authenticated, the later readings of the handler, a random id, what
-- the random source gives for a token, and the random part of a request id.
pub record Draws : Type 0 where
  pub at_door : Time
  pub now : Time
  pub later : Time
  pub random_id : String
  pub raw_token : Result String
  pub random_request_id : String

-- middleware.RequestID.
unfoldable pub request_id_of : Call → Draws → String
request_id_of c d = if is_blank c.request_id then d.random_request_id else c.request_id

-- The token that auth and logout read.
abbrev pub bearer : Call → String
bearer c = trim_prefix "Bearer " c.authorization

module _ {S : Type 0} (r : Repository S) (sha256_hex : String → String)
    (compare : List ℕ → String → Bool) (ttl : ℤ) (decode : Decoders) where
  unfoldable pub ready : S → Reply
  ready s = elim (r.ping s) [ err e ↦ fail 503 e | ok _ ↦ write 200 Body.ready ]

  unfoldable pub log_in : S → Call → Draws → S × Reply
  log_in s c d = elim (decode.credentials c.body) [
    | none ↦ (s, fail 400 invalid)
    | some (email, password) ↦
        let (t, out) =
          login r sha256_hex compare s email password d.raw_token d.random_id ttl d.now in
        (t, answer 200 Body.logged_in out)
  ]

  unfoldable pub log_out : S → Call → Draws → S × Reply
  log_out s c d =
      let (t, out) = logout r s (bearer c) d.now in (t, answer 204 (λ u. Body.nothing) out)

  -- The handlers below the auth middleware: the user is the one that it has put in the context.
  unfoldable pub post_shipment : S → User → Call → Draws → S × Reply
  post_shipment s u c d = elim (decode.shipment c.body) [
    | none ↦ (s, fail 400 invalid)
    | some v ↦
        let (t, out) = create_shipment r s u v c.idempotency_key d.random_id d.now in
        (t, answer 201 Body.shipment out)
  ]

  unfoldable pub get_shipments : S → User → Call → Reply
  get_shipments s u c =
      answer 200 Body.shipments
        (list_shipments r s u (record { limit = atoi c.limit; cursor = c.cursor; sort = "" }))

  unfoldable pub post_booking : S → User → String → Call → Draws → S × Reply
  post_booking s u id c d = elim (decode.leg_id c.body) [
    | none ↦ (s, fail 400 invalid)
    | some leg ↦
        let (t, out) = book_shipment r s u id leg d.now in (t, answer 200 Body.shipment out)
  ]

  unfoldable pub post_transition : S → User → String → Call → Draws → S × Reply
  post_transition s u id c d = elim (decode.status c.body) [
    | none ↦ (s, fail 400 invalid)
    | some next ↦
        let (t, out) = transition_shipment r s u id next d.now in (t, answer 200 Body.shipment out)
  ]

  unfoldable pub post_leg : S → User → Call → Draws → S × Reply
  post_leg s u c d = elim (decode.leg c.body) [
    | none ↦ (s, fail 400 invalid)
    | some l ↦
        let (t, out) = create_leg r s u l d.random_id d.now d.later in (t, answer 201 Body.leg out)
  ]

  unfoldable pub post_open : S → User → String → S × Reply
  post_open s u id = let (t, out) = open_leg r s u id in (t, answer 200 Body.leg out)

  unfoldable pub post_customs : S → User → String → Call → Draws → S × Reply
  post_customs s u id c d = elim (decode.customs c.body) [
    | none ↦ (s, fail 400 invalid)
    | some v ↦
        let (t, out) = put_customs r s u (record v { shipment_id = id }) d.random_id d.now in
        (t, answer 200 Body.customs out)
  ]

  unfoldable pub post_security : S → User → String → Call → Draws → S × Reply
  post_security s u id c d = elim (decode.security c.body) [
    | none ↦ (s, fail 400 invalid)
    | some v ↦
        let (t, out) = put_security r s u (record v { shipment_id = id }) d.random_id d.now in
        (t, answer 200 Body.security out)
  ]

  unfoldable pub get_summary : S → User → Reply
  get_summary s u = answer 200 Body.summary (summary r s u)

  -- The auth middleware before a handler.
  unfoldable pub behind_auth : S → Call → Draws → (User → S × Reply) → S × Reply
  behind_auth s c d next = elim (authenticate r s (bearer c) d.at_door) [
    | err e ↦ (s, fail 401 forbidden)
    | ok (u, session) ↦ next u
  ]

  -- The router of New.
  unfoldable pub dispatch : S → Route → Call → Draws → S × Reply
  dispatch s Route.healthz c d = (s, write 200 Body.healthy)
  dispatch s Route.readyz c d = (s, ready s)
  dispatch s Route.login_route c d = log_in s c d
  dispatch s Route.logout_route c d = behind_auth s c d (λ u. log_out s c d)
  dispatch s Route.create_shipment_route c d = behind_auth s c d (λ u. post_shipment s u c d)
  dispatch s Route.list_shipments_route c d = behind_auth s c d (λ u. (s, get_shipments s u c))
  dispatch s (Route.book_route id) c d = behind_auth s c d (λ u. post_booking s u id c d)
  dispatch s (Route.transition_route id) c d = behind_auth s c d (λ u. post_transition s u id c d)
  dispatch s Route.create_leg_route c d = behind_auth s c d (λ u. post_leg s u c d)
  dispatch s (Route.open_leg_route id) c d = behind_auth s c d (λ u. post_open s u id)
  dispatch s (Route.customs_route id) c d = behind_auth s c d (λ u. post_customs s u id c d)
  dispatch s (Route.security_route id) c d = behind_auth s c d (λ u. post_security s u id c d)
  dispatch s Route.summary_route c d = behind_auth s c d (λ u. (s, get_summary s u))

  -- The whole chain, with the X-Request-ID that middleware.RequestID sets.
  unfoldable pub serve_http : S → Route → Call → Draws → S × String × Reply
  serve_http s route c d = let (t, reply) = dispatch s route c d in (t, request_id_of c d, reply)
