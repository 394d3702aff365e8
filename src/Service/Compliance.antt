-- ===== src/Service/Compliance.antt =====
-- The use cases of customs cases and security checks of internal/service/application.go.
use go_label.Base.{String, Bool, false, not, ◌&&◌, some, if◌then◌else◌}
use go_label.Base.Results.{Result, ok, err, forbidden, state}
use go_label.Base.Instants.{Time}
use go_label.Domain.Types.{User, CustomsCase, SecurityCheck, SecurityStatus}
use go_label.Domain.Rules.{customs_can_transition}
use go_label.Service.Repository.{Repository}
use go_label.Service.Accounts.{is_coordinator, is_ground_agent, non_empty}

-- What PutSecurity stores.
unfoldable pub signed : User → SecurityCheck → String → Time → SecurityCheck
signed u v random_id now =
    let w = record v { id = non_empty v.id random_id } in
    elim w.status [
      | SecurityStatus.passed ↦ record w { checked_at = some now; officer_id = some u.id }
      | _ ↦ w
    ]

module _ {S : Type 0} (r : Repository S) where
  -- `err == nil && !old.Status.CanTransition(c.Status)` for the case read by the shipment's id.
  unfoldable pub is_refused : S → CustomsCase → Bool
  is_refused s c = elim (r.get_customs s c.shipment_id) [
    | err e ↦ false
    | ok old ↦ not (customs_can_transition old.status c.status)
  ]

  unfoldable pub put_customs : S → User → CustomsCase → String → Time → S × Result CustomsCase
  put_customs s u c random_id now =
      if not (is_coordinator u.role)
      then (s, err forbidden)
      else elim (r.get_shipment s u.tenant_id c.shipment_id) [
        | err e ↦ (s, err e)
        | ok _ ↦
            if is_refused s c
            then (s, err state)
            else let w = record c { id = non_empty c.id random_id; updated_at = now } in
              let (t, stored) = r.put_customs s w in
              elim stored [ err e ↦ (t, err e) | ok _ ↦ (t, ok w) ]
      ]

  unfoldable pub put_security : S → User → SecurityCheck → String → Time → S × Result SecurityCheck
  put_security s u v random_id now =
      if not (is_ground_agent u.role) && not (is_coordinator u.role)
      then (s, err forbidden)
      else elim (r.get_shipment s u.tenant_id v.shipment_id) [
        | err e ↦ (s, err e)
        | ok _ ↦
            let w = signed u v random_id now in
            let (t, stored) = r.put_security s w in
            elim stored [ err e ↦ (t, err e) | ok _ ↦ (t, ok w) ]
      ]
