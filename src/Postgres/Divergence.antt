-- ===== src/Postgres/Divergence.antt =====
-- Where the store of internal/repository/postgres behaves otherwise than the memory store.
use go_label.Base.{ap, ◌∙◌, ◌≡◌, String, Bool, true, false, none, some, arith, eq_iff, [], ◌∷◌}
use go_label.Base.Results.{ok, err, done, conflict, state}
use go_label.Base.Int64.{pos, eq_ℤ_iff, ◌+ℤ◌, wrap64_fits, IsInt64}
use go_label.Base.Maps.{Map, lookup, insert, lookup-insert_self}
use go_label.Domain.Types.{User, Role, Shipment, FlightLeg, LegStatus}
use go_label.Domain.Rules.{leg_can_transition}
use go_label.Memory.State.{Store}
use go_label.Memory.Legs
use go_label.Service.Repository.{memory}
use go_label.Service.Legs.{open_leg}
use go_label.Postgres.Tables.{Database, is_unique, contains, fits_integer, has_row}
use go_label.Postgres.Shipments.{
  create_shipment, insert_shipment, has_key, shipment_row, breaks_checks,
}
use go_label.Postgres.Legs.{select_leg, get_leg, update_leg_status}
use go_label.Postgres.Repository.{postgres}

has_row-insert :
    (t : Shipment → Bool) (k : String) (v : Shipment) (m : Map Shipment)
    → t v ≡ true
    → has_row t (insert k v m) ≡ true
unfolding insert
has_row-insert t k v [] h = ground arith
has_row-insert t k v ((j, w) ∷ m) h = ground (arith, has_row-insert t k v m h)

-- After a shipment has been created in the database, every other shipment of its tenant with the
-- same idempotency key, the empty key included, is refused as a conflict and changes nothing, when
-- its pieces fit in the column and no check of the table fails.
pub same_key_conflicts :
    (d t : Database) (v w : Shipment)
    → create_shipment d v ≡ (t, done)
    → w.tenant_id ≡ v.tenant_id
    → w.idempotency_key ≡ v.idempotency_key
    → fits_integer w.pieces ≡ true
    → breaks_checks w ≡ false
    → create_shipment t w ≡ (t, err conflict)
unfolding create_shipment insert_shipment is_unique contains
same_key_conflicts d t v w created tenant key fits checked =
    let written : t ≡ record d { shipments = insert v.id (shipment_row d v) d.shipments } =
      ground arith in
    let up : d.down ≡ none = ground arith in
    let taken =
      has_row-insert (has_key w.tenant_id w.idempotency_key) v.id (shipment_row d v) d.shipments (
        ground
          (arith, eq_iff v.tenant_id w.tenant_id, eq_iff v.idempotency_key w.idempotency_key)) in
    ground (arith, taken)

-- A leg as opening it in the database leaves it.
abbrev pub opened : FlightLeg → FlightLeg
opened l = record l { status = LegStatus.open_leg; version = l.version +ℤ pos 1 }

update_leg_status_done :
    (d : Database) (tenant id : String) (l : FlightLeg)
    → d.down ≡ none
    → select_leg d tenant id ≡ some l
    → IsInt64 (l.version +ℤ pos 1)
    → update_leg_status d tenant id LegStatus.open_leg l.version
      ≡ (record d { legs = insert id (opened l) d.legs }, done)
unfolding update_leg_status
update_leg_status_done d tenant id l up found fits = ground (arith, eq_ℤ_iff l.version l.version)

reopened :
    (sha256_hex : String → String) (text_before : String → String → Bool) (d : Database) (u : User)
    (id : String) (l : FlightLeg)
    → d.down ≡ none
    → u.role ≡ Role.coordinator
    → select_leg d u.tenant_id id ≡ some l
    → IsInt64 (l.version +ℤ pos 1)
    → open_leg (postgres sha256_hex text_before) d u id
      ≡ (record d { legs = insert id (opened l) d.legs }, ok (opened l))
unfolding open_leg get_leg
reopened sha256_hex text_before d u id l up role found fits = ground (
  arith,
  update_leg_status_done d u.tenant_id id l up found fits,
  wrap64_fits (l.version +ℤ pos 1),
)

-- A coordinator who opens a leg whose status does not allow it gets an error over the memory
-- store, which is left as it was, but over the database gets the leg opened at the next version,
-- which is then stored, when the database runs and the version can be advanced.
pub open_leg-reopens :
    (sha256_hex : String → String) (text_before : String → String → Bool) (s : Store) (d : Database)
    (u : User) (id : String) (l : FlightLeg)
    → d.down ≡ none
    → u.role ≡ Role.coordinator
    → select_leg d u.tenant_id id ≡ some l
    → Legs.get_leg s u.tenant_id id ≡ ok l
    → leg_can_transition l.status LegStatus.open_leg ≡ false
    → IsInt64 (l.version +ℤ pos 1)
    → ((open_leg (postgres sha256_hex text_before) d u id).1 ≡ ok (opened l))
      × (lookup id (open_leg (postgres sha256_hex text_before) d u id).0.legs ≡ some (opened l))
      × (open_leg (memory sha256_hex) s u id ≡ (s, err state))
unfolding open_leg Legs.update_leg_status
open_leg-reopens sha256_hex text_before s d u id l up role found known closed fits =
    let out = reopened sha256_hex text_before d u id l up role found fits in
    (
      ap (λ p. p.1) out,
      ap (λ p. lookup id p.0.legs) out ∙ lookup-insert_self id (opened l) d.legs,
      ground (arith, eq_ℤ_iff l.version l.version),
    )
