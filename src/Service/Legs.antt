-- ===== src/Service/Legs.antt =====
-- The use cases of flight legs of internal/service/application.go. CreateLeg reads the clock twice.
use go_label.Base.{String, not, if◌then◌else◌}
use go_label.Base.Results.{Result, ok, err, forbidden}
use go_label.Base.Int64.{pos, add64}
use go_label.Base.Instants.{Time}
use go_label.Domain.Types.{User, FlightLeg, LegStatus}
use go_label.Domain.Rules.{validate_leg}
use go_label.Service.Repository.{Repository}
use go_label.Service.Accounts.{is_coordinator, non_empty}

-- The fields that CreateLeg sets before it validates.
unfoldable pub prepared_leg : User → FlightLeg → String → Time → FlightLeg
prepared_leg u l random_id now = record l {
  id = non_empty l.id random_id;
  tenant_id = u.tenant_id;
  status = LegStatus.planned;
  version = pos 1;
  created_at = now;
}

module _ {S : Type 0} (r : Repository S) where
  unfoldable pub create_leg : S → User → FlightLeg → String → Time → Time → S × Result FlightLeg
  create_leg s u l random_id now later =
      if not (is_coordinator u.role)
      then (s, err forbidden)
      else let v = prepared_leg u l random_id now in
        elim (validate_leg v later) [
          | err e ↦ (s, err e)
          | ok _ ↦
              let (t, stored) = r.create_leg s v in
              elim stored [ err e ↦ (t, err e) | ok _ ↦ (t, ok v) ]
        ]

  unfoldable pub open_leg : S → User → String → S × Result FlightLeg
  open_leg s u id =
      if not (is_coordinator u.role)
      then (s, err forbidden)
      else elim (r.get_leg s u.tenant_id id) [
        | err e ↦ (s, err e)
        | ok l ↦
            let (t, stored) = r.update_leg_status s u.tenant_id id LegStatus.open_leg l.version in
            elim stored [
              | err e ↦ (t, err e)
              | ok _ ↦ (
                t,
                ok (record l { status = LegStatus.open_leg; version = add64 l.version (pos 1) }),
              )
            ]
      ]
