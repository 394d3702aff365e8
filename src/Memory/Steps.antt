-- ===== src/Memory/Steps.antt =====
-- The calls that change a store of internal/repository/memory/store.go, and histories of them.
use go_label.Base.{◌≡◌, refl, String, List, [], ◌∷◌}
use go_label.Base.Results.{Result, ok, err}
use go_label.Base.Int64.{ℤ}
use go_label.Base.Instants.{Time}
use go_label.Domain.Types.{
  User, Session, Shipment, FlightLeg, LegStatus, CustomsCase, SecurityCheck, AuditEvent,
  OutboxEvent,
}
use go_label.Memory.State.{Store}
use go_label.Memory.Accounts.{
  create_user, deactivate_user, create_session, revoke_session, revoke_user_sessions,
}
use go_label.Memory.Shipments.{create_shipment, update_shipment}
use go_label.Memory.Legs.{create_leg, reserve_capacity, update_leg_status, book_shipment}
use go_label.Memory.Compliance.{put_customs, put_security, append_audit}
use go_label.Memory.Outbox.{enqueue, claim, mark_published, mark_failed}

pub data Call : Type 0 where
  creates_user : User → Call
  deactivates_user : String → Time → Call
  creates_session : Session → Call
  revokes_session : String → Time → Call
  revokes_user_sessions : String → Time → Call
  creates_shipment : Shipment → Call
  updates_shipment : Shipment → ℤ → Call
  creates_leg : FlightLeg → Call
  reserves_capacity : String → String → ℤ → ℤ → Call
  updates_leg_status : String → String → LegStatus → ℤ → Call
  books_shipment : String → String → String → ℤ → ℤ → Time → Call
  puts_customs : CustomsCase → Call
  puts_security : SecurityCheck → Call
  appends_audit : AuditEvent → Call
  enqueues : OutboxEvent → Call
  claims : Time → ℤ → Call
  marks_published : String → Time → Call
  marks_failed : String → Time → String → Call

-- The store after a call, and its error if it has one.
abbrev pub Outcome : Type 0
Outcome = Store × Result (Unit {0})

abbrev pub forget {ℓ} : {A : Type ℓ} → Store × Result A → Outcome
forget (s, ok _) = (s, ok tt)
forget (s, err e) = (s, err e)

pub forget_store {ℓ} : {A : Type ℓ} (r : Store × Result A) → (forget r).0 ≡ r.0
forget_store (s, ok a) = refl
forget_store (s, err e) = refl

module _ (sha256_hex : String → String) where
  unfoldable pub call : Store → Call → Outcome
  call s (creates_user u) = create_user s u
  call s (deactivates_user id at) = deactivate_user s id at
  call s (creates_session v) = create_session s v
  call s (revokes_session token at) = revoke_session sha256_hex s token at
  call s (revokes_user_sessions user at) = revoke_user_sessions s user at
  call s (creates_shipment v) = create_shipment s v
  call s (updates_shipment v version) = update_shipment s v version
  call s (creates_leg v) = create_leg s v
  call s (reserves_capacity tenant id weight version) = reserve_capacity s tenant id weight version
  call s (updates_leg_status tenant id status version) =
      update_leg_status s tenant id status version
  call s (books_shipment tenant id leg version leg_version at) =
      forget (book_shipment s tenant id leg version leg_version at)
  call s (puts_customs v) = put_customs s v
  call s (puts_security v) = put_security s v
  call s (appends_audit v) = append_audit s v
  call s (enqueues v) = enqueue s v
  call s (claims now n) = forget (claim s now n)
  call s (marks_published id at) = mark_published s id at
  call s (marks_failed id at message) = mark_failed s id at message

  unfoldable pub run : Store → List Call → Store
  run s [] = s
  run s (c ∷ cs) = run (call s c).0 cs
