-- ===== src/Service/Replay.antt =====
-- Repeating a request under one idempotency key, in internal/service/application.go over the memory
-- store.
use go_label.Base.{◌≡◌, ◌≢◌, String, arith, eq_iff, inl, inr, Option-cases}
use go_label.Base.Results.{ok, done}
use go_label.Base.Instants.{Time}
use go_label.Base.Maps.{lookup, lookup-insert_self}
use go_label.Domain.Types.{User, Shipment}
use go_label.Domain.Rules.{validate_shipment}
use go_label.Memory.State.{Store}
use go_label.Memory.Shipments
use go_label.Service.Repository.{memory}
use go_label.Service.Shipments.{create_shipment, store_prepared, prepared}

module _ (sha256_hex : String → String) where
  -- When the service has created or found a shipment under a non-empty idempotency key on the
  -- memory store, a later request of that user under that key returns the same shipment and leaves
  -- the store as it is, whatever valid shipment it carries.
  pub create_shipment_replay :
      (s t : Store) (u : User) (v again : Shipment) (idem random_id other_id : String)
      (now later : Time) (w : Shipment)
      → idem ≢ ""
      → create_shipment (memory sha256_hex) s u v idem random_id now ≡ (t, ok w)
      → validate_shipment (prepared u again idem other_id later) ≡ done
      → create_shipment (memory sha256_hex) t u again idem other_id later ≡ (t, ok w)
  unfolding create_shipment store_prepared prepared Shipments.create_shipment
      Shipments.store_new_shipment Shipments.find_by_idempotency
  create_shipment_replay s t u v again idem random_id other_id now later w keyed h valid =
      elim (Option-cases (lookup (Shipments.idem_key u.tenant_id idem) s.idem)) [
        | inl fresh ↦ ground (
          arith,
          eq_iff idem "",
          lookup-insert_self w.id w s.shipments,
          lookup-insert_self (Shipments.idem_key u.tenant_id idem) w.id s.idem,
        )
        | inr (id, known) ↦ ground (arith, eq_iff idem "")
      ]
