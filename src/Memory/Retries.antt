-- ===== src/Memory/Retries.antt =====
-- Idempotency keys of internal/repository/memory/store.go.
use go_label.Base.{◌≡◌, ◌≢◌, none, arith, eq_iff, eq_refl}
use go_label.Base.Results.{ok, err, done, conflict}
use go_label.Base.Maps.{lookup, lookup-insert_self}
use go_label.Domain.Types.{Shipment}
use go_label.Memory.State.{Store}
use go_label.Memory.Shipments.{idem_key, create_shipment, store_new_shipment, find_by_idempotency}

-- After a shipment has been created in the memory store under a new non-empty idempotency key, the
-- key finds that shipment, creating the shipment again changes nothing and succeeds, and another
-- shipment of the tenant under that key is refused as a conflict.
create_shipment_retry :
    (s t : Store) (v w : Shipment)
    → v.idempotency_key ≢ ""
    → lookup (idem_key v.tenant_id v.idempotency_key) s.idem ≡ none
    → create_shipment s v ≡ (t, done)
    → w.tenant_id ≡ v.tenant_id
    → w.idempotency_key ≡ v.idempotency_key
    → w.id ≢ v.id
    → (find_by_idempotency t v.tenant_id v.idempotency_key ≡ ok v)
      × (create_shipment t v ≡ (t, done))
      × (create_shipment t w ≡ (t, err conflict))
unfolding create_shipment store_new_shipment find_by_idempotency
create_shipment_retry s t v w keyed fresh h tenant key other = ground (
  arith,
  eq_iff v.idempotency_key "",
  eq_iff w.idempotency_key "",
  eq_iff v.id w.id,
  eq_refl v.id,
  lookup-insert_self v.id v s.shipments,
  lookup-insert_self (idem_key v.tenant_id v.idempotency_key) v.id s.idem,
)
