-- ===== src/Desk/Tenants.antt =====
-- internal/tenant/tenant.go.
use go_label.Base.{
  ◌≡◌, ap, String, Bool, false, ◌||◌, none, some, arith, is_blank, str_eq, inl, inr, Option-cases,
  if◌then◌else◌,
}
use go_label.Base.Results.{Result, ok, err, done, invalid, conflict, not_found}
use go_label.Base.Maps.{Map, lookup, insert, has, lookup-insert_self, lookup-insert}
use go_label.Base.Text.{trim_space}
use go_label.Domain.Types.{Tenant}

unfoldable pub add : Map Tenant → Tenant → Map Tenant × Result (Unit {0})
add m t =
    if is_blank (trim_space t.id) || is_blank (trim_space t.name)
    then (m, err invalid)
    else if has t.id m
    then (m, err conflict)
    else (insert t.id t m, done)

unfoldable pub deactivate : Map Tenant → String → Map Tenant × Result (Unit {0})
deactivate m id = elim (lookup id m) [
  | none ↦ (m, err not_found)
  | some t ↦ (insert id (record t { active = false }) m, done)
]

unfoldable pub get : Map Tenant → String → Result Tenant
get m id = elim (lookup id m) [ none ↦ err not_found | some t ↦ ok t ]

unfoldable pub can_access : Map Tenant → String → Bool
unfolding get
can_access m id = elim (get m id) [ err e ↦ false | ok t ↦ t.active ]

-- A tenant that has been deactivated has no access, and is never added again; every other tenant
-- keeps its access.
pub deactivated_for_good :
    (m : Map Tenant) (id : String) (t : Tenant)
    → t.id ≡ id
    → let m' = (deactivate m id).0 in
      (deactivate m id).1 ≡ done
      → (can_access (add m' t).0 id ≡ false)
        × ((other : String) → str_eq id other ≡ false → can_access m' other ≡ can_access m other)
unfolding deactivate can_access get add
deactivated_for_good m id t same out = elim (Option-cases (lookup id m)) [
  | inl missing ↦ absurd (ground arith)
  | inr (v, found) ↦ (
    ground (
      arith,
      lookup-insert_self id (record v { active = false }) m,
      ap (λ k. lookup k (insert id (record v { active = false }) m)) same,
    ),
    λ other apart. ground (arith, lookup-insert id other (record v { active = false }) m),
  )
]
