-- ===== src/Http/Examples.antt =====
-- The server over the memory store at the concrete state of the store's examples.
use go_label.Base.{ℕ, ◌≡◌, refl, String, Bool, true, none, some, List, [], ◌∷◌, arith}
use go_label.Base.Results.{ok}
use go_label.Base.Int64.{pos}
use go_label.Base.Text.{trim_prefix}
use go_label.Base.Maps.{lookup}
use go_label.Domain.Types.{ShipmentStatus}
use go_label.Domain.Rules.{is_session_active}
use go_label.Memory.Accounts
use go_label.Memory.Capacity.{IsSafe}
use go_label.Memory.Examples.{plain, crate, leg, stocked, new-IsSafe, leg-IsSafeLeg}
use go_label.Memory.State.{new}
use go_label.Service.Repository.{memory}
use go_label.Service.Accounts.{authenticate}
use go_label.Http.Replies.{write, fail}
use go_label.Http.Server.{Route, Call, Draws, Decoders, bearer, behind_auth, dispatch}
use go_label.Http.Refinement.{request_of, seen, promised, write-promised}
use go_label.Http.Safety.{dispatch_all, dispatch_all-IsSafe, error_unchanged}

abbrev accept : List ℕ → String → Bool
accept hash password = true

-- Bodies that hold a leg id, or stand for one fixed value.
abbrev decode : Decoders
decode = record {
  credentials = λ body. some (body, "password");
  shipment = λ body. some crate;
  leg_id = λ body. some body;
  status = λ body. some ShipmentStatus.booked;
  leg = λ body. some leg;
  customs = λ body. none;
  security = λ body. none;
}

abbrev booking : Call
booking = record {
  authorization = "Bearer token";
  idempotency_key = "";
  request_id = "";
  limit = "";
  cursor = "";
  body = "leg-1";
}

abbrev anonymous : Call
anonymous = record booking { authorization = "" }

abbrev draws : Draws
draws = record {
  at_door = 20;
  now = 21;
  later = 22;
  random_id = "id-9";
  raw_token = ok "secret";
  random_request_id = "request-1";
}

write-promised_example :
    seen (
      dispatch
        (memory plain)
        plain
        accept
        (pos 60)
        decode
        stocked
        (Route.book_route "s-1")
        booking
        draws)
    ≡ promised
        (memory plain)
        stocked
        200
        (authenticate (memory plain) stocked (bearer booking) 20)
        (request_of decode (Route.book_route "s-1") booking draws)
write-promised_example =
    write-promised (memory plain) plain accept (pos 60) decode stocked (Route.book_route "s-1")
      booking draws refl

abbrev traffic : List (Route × Call × Draws)
traffic =
    (Route.create_leg_route, booking, draws)
    ∷ (Route.create_shipment_route, booking, draws)
    ∷ (Route.logout_route, booking, draws)
    ∷ []

dispatch_all-IsSafe_example : IsSafe (dispatch_all plain accept (pos 60) decode new traffic)
dispatch_all-IsSafe_example =
    dispatch_all-IsSafe plain accept (pos 60) decode new traffic
      (leg-IsSafeLeg, (omega arith, (tt, tt))) new-IsSafe

error_unchanged_example :
    (dispatch
      (memory plain)
      plain
      accept
      (pos 60)
      decode
      stocked
      (Route.book_route "s-1")
      anonymous
      draws).0
    ≡ stocked
unfolding dispatch behind_auth authenticate Accounts.get_session fail write lookup is_session_active
    trim_prefix
error_unchanged_example =
    error_unchanged plain accept (pos 60) decode stocked (Route.book_route "s-1") anonymous draws
      (omega arith)
