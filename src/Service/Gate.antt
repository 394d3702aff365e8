-- ===== src/Service/Gate.antt =====
-- The customs and security gate before loading and departure, in internal/service/application.go.
use go_label.Base.{◌≡◌, ◌≢◌, String, true, none, some, arith, eq_iff, inl, inr, Option-cases}
use go_label.Base.Results.{ok, err, Result-cases, not_found}
use go_label.Base.Int64.{eq_ℤ_iff}
use go_label.Base.Instants.{Time}
use go_label.Base.Maps.{lookup, lookup-insert}
use go_label.Domain.Types.{
  Role, User, Shipment, ShipmentStatus, CustomsCase, CustomsStatus, SecurityCheck, SecurityStatus,
}
use go_label.Domain.Rules.{shipment_can_transition, customs_allows_loading, security_allows_loading}
use go_label.Memory.State.{Store}
use go_label.Memory.Shipments
use go_label.Memory.Compliance
use go_label.Service.Repository.{Repository, memory}
use go_label.Service.Shipments.{transition_shipment, is_handover, is_released}
use go_label.Service.Compliance.{put_customs}

-- Over any store, when the service moves a shipment that has a leg to loaded or departed, the
-- store gives for the shipment's id a customs case that is released and a security check that is
-- passed.
pub handover_needs_release :
    {S : Type 0} (r : Repository S) (s : S) (u : User) (id leg : String) (next : ShipmentStatus)
    (now : Time) (v w : Shipment)
    → (transition_shipment r s u id next now).1 ≡ ok w
    → r.get_shipment s u.tenant_id id ≡ ok v
    → v.leg_id ≡ some leg
    → is_handover next ≡ true
    → (c : CustomsCase) × (sec : SecurityCheck) × (r.get_customs s id ≡ ok c)
      × (r.get_security s id ≡ ok sec)
      × (c.status ≡ CustomsStatus.released)
      × (sec.status ≡ SecurityStatus.passed)
unfolding transition_shipment is_released customs_allows_loading security_allows_loading
handover_needs_release r s u id leg next now v w h found on_leg handover =
    elim (Result-cases (r.get_customs s id)) [
      | inr (e, missing) ↦ absurd (ground arith)
      | inl (c, filed) ↦ elim (Result-cases (r.get_security s id)) [
        | inr (e, missing) ↦ absurd (ground arith)
        | inl (sec, checked) ↦ (c, sec, filed, checked, ground arith, ground arith)
      ]
    ]

module _ (sha256_hex : String → String) where
  -- A ground agent moves a shipment of the memory store that has no leg along every allowed
  -- transition, to loaded and departed too, whatever customs cases and security checks the store
  -- holds.
  pub transition_without_leg :
      (s : Store) (u : User) (id : String) (next : ShipmentStatus) (now : Time) (v : Shipment)
      → u.role ≡ Role.ground_agent
      → Shipments.get_shipment s u.tenant_id id ≡ ok v
      → v.id ≡ id
      → v.leg_id ≡ none
      → shipment_can_transition v.status next ≡ true
      → (transition_shipment (memory sha256_hex) s u id next now).1
        ≡ ok (record v { status = next; updated_at = now })
  unfolding transition_shipment Shipments.get_shipment Shipments.update_shipment
  transition_without_leg s u id next now v agent found keyed no_leg allowed =
      elim (Option-cases (lookup id s.shipments)) [
        | inl missing ↦ absurd (ground arith)
        | inr (w, stored) ↦ rw keyed (ground (arith, eq_ℤ_iff v.version v.version))
      ]

  -- A case that is filed under another id than the shipment's is not found by the shipment's.
  unfiled-put_customs :
      (s t : Store) (u : User) (c w : CustomsCase) (random_id : String) (now : Time)
      → put_customs (memory sha256_hex) s u c random_id now ≡ (t, ok w)
      → w.id ≢ c.shipment_id
      → lookup c.shipment_id s.customs ≡ none
      → Compliance.get_customs t c.shipment_id ≡ err not_found
  unfolding put_customs Compliance.put_customs Compliance.get_customs
  unfiled-put_customs s t u c w random_id now h other unfiled =
      ground (arith, lookup-insert w.id c.shipment_id w s.customs, eq_iff w.id c.shipment_id)

  -- When the service files a customs case on the memory store under an id that differs from the
  -- shipment's, and no case stood under the shipment's id, then no case is found for the shipment,
  -- and the service moves a shipment that has a leg neither to loaded nor to departed, whatever
  -- the status of the case.
  pub customs_under_case_id :
      (s t : Store) (u agent : User) (c w : CustomsCase) (random_id leg : String) (now later : Time)
      (next : ShipmentStatus) (v : Shipment)
      → put_customs (memory sha256_hex) s u c random_id now ≡ (t, ok w)
      → w.id ≢ c.shipment_id
      → lookup c.shipment_id s.customs ≡ none
      → Shipments.get_shipment t agent.tenant_id c.shipment_id ≡ ok v
      → v.leg_id ≡ some leg
      → is_handover next ≡ true
      → (Compliance.get_customs t c.shipment_id ≡ err not_found)
        × (((x : Shipment)
            → (transition_shipment (memory sha256_hex) t agent c.shipment_id next later).1 ≢ ok x))
  customs_under_case_id s t u agent c w random_id leg now later next v h other unfiled found on_leg
        handover =
      let gone = unfiled-put_customs s t u c w random_id now h other unfiled in
      (
        gone,
        λ x e.
            let (c, sec, filed, checked, released, passed) =
              handover_needs_release (memory sha256_hex) t agent c.shipment_id leg next later v x e
                found on_leg handover in
            ground (arith, gone, filed),
      )
