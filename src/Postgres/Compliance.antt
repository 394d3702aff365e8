-- ===== src/Postgres/Compliance.antt =====
-- Customs cases, security checks and the audit trail of internal/repository/postgres/compliance.go
-- and audit.go.
use go_label.Base.{
  String, Bool, true, not, ◌&&◌, ◌||◌, Option, none, some, take, length, keep_if, str_eq, nat_eq,
  if◌then◌else◌,
}
use go_label.Base.Results.{Result, ok, err, done, not_found}
use go_label.Base.Int64.{pos, pos_part}
use go_label.Base.Instants.{before}
use go_label.Base.Maps.{insert, has, values}
use go_label.Base.Sorting.{sort_by}
use go_label.Domain.Types.{CustomsCase, SecurityCheck, AuditEvent, PageRequest, Page, normalized}
use go_label.Postgres.Tables.{
  Database, queried, executed, duplicate_key, foreign_key_violation, first_row, has_tenant,
  nullable_time,
}

abbrev has_user : Option String → Database → Bool
has_user none d = true
has_user (some id) d = has id d.users

-- The rows with their columns of type timestamptz.
abbrev customs_row : Database → CustomsCase → CustomsCase
customs_row d v = record v { updated_at = d.column_time v.updated_at }

abbrev security_row : Database → SecurityCheck → SecurityCheck
security_row d v = record v { checked_at = nullable_time d v.checked_at }

abbrev audit_row : Database → AuditEvent → AuditEvent
audit_row d v = record v { occurred_at = d.column_time v.occurred_at }

abbrev select_customs : Database → String → Option CustomsCase
select_customs d id = first_row (λ v. str_eq v.shipment_id id) (values d.customs)

unfoldable pub get_customs : Database → String → Result CustomsCase
get_customs d id = queried d (elim (select_customs d id) [ none ↦ err not_found | some v ↦ ok v ])

-- `INSERT ... ON CONFLICT(shipment_id) DO UPDATE`: the row of the shipment keeps its id.
unfoldable pub put_customs : Database → CustomsCase → Database × Result (Unit {0})
put_customs d v = executed d (elim (select_customs d v.shipment_id) [
  | some old ↦ if not (has_user v.reviewed_by d) then (d, err foreign_key_violation) else (
    record d { customs = insert old.id (record (customs_row d v) { id = old.id }) d.customs },
    done,
  )
  | none ↦
      if has v.id d.customs
      then (d, err duplicate_key)
      else if not (has v.shipment_id d.shipments && has_user v.reviewed_by d)
      then (d, err foreign_key_violation)
      else (record d { customs = insert v.id (customs_row d v) d.customs }, done)
])

abbrev select_security : Database → String → Option SecurityCheck
select_security d id = first_row (λ v. str_eq v.shipment_id id) (values d.security)

unfoldable pub get_security : Database → String → Result SecurityCheck
get_security d id = queried d (elim (select_security d id) [ none ↦ err not_found | some v ↦ ok v ])

unfoldable pub put_security : Database → SecurityCheck → Database × Result (Unit {0})
put_security d v = executed d (elim (select_security d v.shipment_id) [
  | some old ↦ if not (has_user v.officer_id d) then (d, err foreign_key_violation) else (
    record d { security = insert old.id (record (security_row d v) { id = old.id }) d.security },
    done,
  )
  | none ↦
      if has v.id d.security
      then (d, err duplicate_key)
      else if not (has v.shipment_id d.shipments && has_user v.officer_id d)
      then (d, err foreign_key_violation)
      else (record d { security = insert v.id (security_row d v) d.security }, done)
])

unfoldable pub append_audit : Database → AuditEvent → Database × Result (Unit {0})
append_audit d v = executed d (
    if has v.id d.audit
    then (d, err duplicate_key)
    else if not (has_tenant v.tenant_id d && has v.actor_id d.users)
    then (d, err foreign_key_violation)
    else (record d { audit = insert v.id (audit_row d v) d.audit }, done))

module _ (text_before : String → String → Bool) where
  -- `ORDER BY occurred_at,id`.
  abbrev occurred_before : AuditEvent → AuditEvent → Bool
  occurred_before a b =
      before a.occurred_at b.occurred_at
      || (nat_eq a.occurred_at b.occurred_at && text_before a.id b.id)

  unfoldable pub list_audit : Database → String → PageRequest → Result (Page AuditEvent)
  list_audit d tenant req =
      let all =
        sort_by occurred_before (keep_if (λ v. str_eq v.tenant_id tenant) (values d.audit)) in
      let items = take (pos_part (normalized req).limit) all in
      queried d (ok (record { items = items; next_cursor = ""; total = pos (length items) }))
