-- ===== src/Service/Shipments.antt =====
-- The use cases of shipments of internal/service/application.go.
use go_label.Base.{
  String, Bool, true, false, not, ◌&&◌, ◌||◌, str_eq, is_some, is_blank, List, [], ◌∷◌,
  if◌then◌else◌,
}
use go_label.Base.Results.{Result, ok, err, invalid, forbidden, state}
use go_label.Base.Int64.{pos, add64}
use go_label.Base.Instants.{Time}
use go_label.Base.Text.{trim_space}
use go_label.Domain.Types.{User, Shipment, ShipmentStatus, PageRequest, Page, OperationsSummary}
use go_label.Domain.Rules.{
  shipment_can_transition, is_open, validate_shipment, customs_allows_loading,
  security_allows_loading,
}
use go_label.Service.Repository.{Repository}
use go_label.Service.Accounts.{is_shipper, is_coordinator, is_ground_agent, is_not_found, non_empty}

-- `next == domain.ShipmentLoaded || next == domain.ShipmentDeparted`.
abbrev pub is_handover : ShipmentStatus → Bool
is_handover ShipmentStatus.loaded = true
is_handover ShipmentStatus.departed = true
is_handover _ = false

-- The fields that CreateShipment sets before it validates.
unfoldable pub prepared : User → Shipment → String → String → Time → Shipment
prepared u s idem random_id now = record s {
  id = non_empty s.id random_id;
  tenant_id = u.tenant_id;
  reference = trim_space s.reference;
  status = ShipmentStatus.draft;
  idempotency_key = idem;
  created_at = now;
  updated_at = now;
  version = pos 1;
}

-- The loop of Summary over the statuses.
unfoldable pub count_status : OperationsSummary → ShipmentStatus → OperationsSummary
count_status o ShipmentStatus.draft = record o { draft = add64 o.draft (pos 1) }
count_status o ShipmentStatus.booked = record o { booked = add64 o.booked (pos 1) }
count_status o ShipmentStatus.screening = record o { booked = add64 o.booked (pos 1) }
count_status o ShipmentStatus.cleared = record o { booked = add64 o.booked (pos 1) }
count_status o ShipmentStatus.loaded = record o { booked = add64 o.booked (pos 1) }
count_status o ShipmentStatus.departed = record o { in_flight = add64 o.in_flight (pos 1) }
count_status o _ = o

unfoldable pub count_statuses : OperationsSummary → List Shipment → OperationsSummary
count_statuses o [] = o
count_statuses o (s ∷ rest) = count_statuses (count_status o s.status) rest

abbrev pub no_counts : String → OperationsSummary
no_counts tenant = record {
  tenant_id = tenant;
  draft = pos 0;
  booked = pos 0;
  in_flight = pos 0;
  held = pos 0;
  pending_outbox = pos 0;
  failed_outbox = pos 0;
}

module _ {S : Type 0} (r : Repository S) where
  -- CreateShipment once the idempotency key is known to be new.
  unfoldable pub store_prepared : S → Shipment → S × Result Shipment
  store_prepared s v =
      let (t, stored) = r.create_shipment s v in
      elim stored [ err e ↦ (t, err e) | ok _ ↦ (t, ok v) ]

  unfoldable pub create_shipment :
      S → User → Shipment → String → String → Time → S × Result Shipment
  unfolding store_prepared
  create_shipment s u v idem random_id now =
      if not (is_shipper u.role) && not (is_coordinator u.role)
      then (s, err forbidden)
      else let w = prepared u v idem random_id now in
        elim (validate_shipment w) [
          | err e ↦ (s, err e)
          | ok _ ↦
              if is_blank idem
              then store_prepared s w
              else elim (r.find_by_idempotency s u.tenant_id idem) [
                | ok old ↦ (s, ok old)
                | err e ↦ if not (is_not_found e) then (s, err e) else store_prepared s w
              ]
        ]

  unfoldable pub get_shipment : S → User → String → Result Shipment
  get_shipment s u id = r.get_shipment s u.tenant_id id

  unfoldable pub list_shipments : S → User → PageRequest → Result (Page Shipment)
  list_shipments s u req =
      if not (is_shipper u.role) && (not (is_coordinator u.role) && not (is_ground_agent u.role))
      then err forbidden
      else r.list_shipments s u.tenant_id req

  unfoldable pub book_shipment : S → User → String → String → Time → S × Result Shipment
  book_shipment s u id leg_id now =
      if not (is_coordinator u.role)
      then (s, err forbidden)
      else elim (r.get_shipment s u.tenant_id id) [
        | err e ↦ (s, err e)
        | ok v ↦ elim (r.get_leg s u.tenant_id leg_id) [
          | err e ↦ (s, err e)
          | ok leg ↦
              if not (shipment_can_transition v.status ShipmentStatus.booked)
                || not (is_open leg.status)
              then (s, err state)
              else if not (str_eq v.origin leg.origin) || not (str_eq v.destination leg.destination)
              then (s, err invalid)
              else r.book_shipment s u.tenant_id id leg_id v.version leg.version now
        ]
      ]

  -- `ce == nil && se == nil && CustomsAllowsLoading(c) && SecurityAllowsLoading(sec)`.
  unfoldable pub is_released : S → String → Bool
  is_released s id = elim (r.get_customs s id) [
    | err e ↦ false
    | ok c ↦ elim (r.get_security s id) [
      | err e ↦ false
      | ok sec ↦ customs_allows_loading c && security_allows_loading sec
    ]
  ]

  unfoldable pub transition_shipment :
      S → User → String → ShipmentStatus → Time → S × Result Shipment
  transition_shipment s u id next now =
      if not (is_coordinator u.role) && not (is_ground_agent u.role)
      then (s, err forbidden)
      else elim (r.get_shipment s u.tenant_id id) [
        | err e ↦ (s, err e)
        | ok v ↦
            if not (shipment_can_transition v.status next)
            then (s, err state)
            else if (is_some v.leg_id && is_handover next) && not (is_released s id)
            then (s, err state)
            else let w = record v { status = next; updated_at = now } in
              let (t, stored) = r.update_shipment s w v.version in
              elim stored [ err e ↦ (t, err e) | ok _ ↦ (t, ok w) ]
      ]

  unfoldable pub summary : S → User → Result OperationsSummary
  summary s u =
      if not (is_coordinator u.role)
      then err forbidden
      else elim (r.list_shipments s u.tenant_id
          (record { limit = pos 200; cursor = ""; sort = "" })) [
            | err e ↦ err e
            | ok page ↦ elim (r.summary s u.tenant_id) [
              | err e ↦ err e
              | ok (pending, failed) ↦
                  ok (record (count_statuses (no_counts u.tenant_id) page.items) {
                    pending_outbox = pending;
                    failed_outbox = failed;
                  })
            ]
          ]
