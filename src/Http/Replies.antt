-- ===== src/Http/Replies.antt =====
-- What the handlers of internal/httpapi/server.go answer: a status code and a body. The text of an
-- error is dropped, its sentinel is kept.
use go_label.Base.{ℕ, String}
use go_label.Base.Results.{Result, ok, err, Error}
use go_label.Base.Results.Error.{
  not_found, conflict, forbidden, invalid, expired, revoked, capacity, state,
}
use go_label.Domain.Types.{Shipment, FlightLeg, CustomsCase, SecurityCheck, OperationsSummary, Page}
use go_label.Service.Accounts.{LoginResult}

pub data Body : Type 0 where
  nothing healthy ready : Body
  failure : String → Error → Body
  logged_in : LoginResult → Body
  shipment : Shipment → Body
  shipments : Page Shipment → Body
  leg : FlightLeg → Body
  customs : CustomsCase → Body
  security : SecurityCheck → Body
  summary : OperationsSummary → Body

pub record Reply : Type 0 where
  pub status : ℕ
  pub body : Body

unfoldable pub write : ℕ → Body → Reply
write status body = record { status = status; body = body }

-- The code that fail writes for an error.
unfoldable pub code_of : Error → String
code_of invalid = "invalid_request"
code_of forbidden = "forbidden"
code_of not_found = "not_found"
code_of conflict = "conflict"
code_of capacity = "capacity_unavailable"
code_of state = "invalid_state"
code_of _ = "internal_error"

unfoldable pub fail : ℕ → Error → Reply
unfolding write code_of
fail status e = write status (Body.failure (code_of e) e)

-- `status`.
unfoldable pub status_of : Error → ℕ
status_of invalid = 400
status_of forbidden = 401
status_of expired = 401
status_of revoked = 401
status_of not_found = 404
status_of conflict = 409
status_of capacity = 409
status_of state = 409
status_of _ = 500

-- `if err != nil { fail(w, status(err), err); return }; write(w, code, v)`.
unfoldable pub answer : {A : Type 0} → ℕ → (A → Body) → Result A → Reply
unfolding fail write status_of
answer code body (ok v) = write code (body v)
answer code body (err e) = fail (status_of e) e
