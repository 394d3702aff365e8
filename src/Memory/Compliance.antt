-- ===== src/Memory/Compliance.antt =====
-- Customs cases, security checks and the audit log of internal/repository/memory/store.go.
use go_label.Base.{String, none, some, [], ◌∷◌, ◌++◌, str_eq, length, keep_if}
use go_label.Base.Results.{Result, ok, err, done, not_found}
use go_label.Base.Int64.{pos}
use go_label.Base.Maps.{lookup, insert}
use go_label.Domain.Types.{CustomsCase, SecurityCheck, AuditEvent, PageRequest, Page}
use go_label.Memory.State.{Store}

unfoldable pub get_customs : Store → String → Result CustomsCase
get_customs s id = elim (lookup id s.customs) [ none ↦ err not_found | some v ↦ ok v ]

unfoldable pub put_customs : Store → CustomsCase → Store × Result (Unit {0})
put_customs s v = (record s { customs = insert v.id v s.customs }, done)

unfoldable pub get_security : Store → String → Result SecurityCheck
get_security s id = elim (lookup id s.security) [ none ↦ err not_found | some v ↦ ok v ]

unfoldable pub put_security : Store → SecurityCheck → Store × Result (Unit {0})
put_security s v = (record s { security = insert v.id v s.security }, done)

unfoldable pub append_audit : Store → AuditEvent → Store × Result (Unit {0})
append_audit s v = (record s { audit = s.audit ++ v ∷ [] }, done)

unfoldable pub list_audit : Store → String → PageRequest → Result (Page AuditEvent)
list_audit s tenant req =
    let out = keep_if (λ v. str_eq v.tenant_id tenant) s.audit in
    ok (record { items = out; next_cursor = ""; total = pos (length out) })
