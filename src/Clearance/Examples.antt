-- ===== src/Clearance/Examples.antt =====
-- Customs cases, approvals and shipment logs at concrete values.
use mathlib.Core.Option
use go_label.Base.{
  ◌≡◌, ◌↔◌, ◌<◌, ◌≤◌, length, All, is_blank, refl, none, some, true, false, List, [], ◌∷◌, str_eq,
}
use go_label.Base.Results.{ok, err, done, expired}
use go_label.Base.Int64.{pos}
use go_label.Base.Maps.{Map, lookup}
use go_label.Domain.Types.{CustomsStatus, ShipmentStatus}
use go_label.Clearance.Customs
use go_label.Clearance.Approvals
use go_label.Clearance.Aggregate

abbrev licence : Customs.Document
licence = record { number = "D-1"; kind = "licence"; issued_at = 1; expires_at = 50; hash = "" }

abbrev customs_case : Customs.Case
customs_case = record {
  id = "c-1";
  shipment_id = "s-1";
  tenant_id = "tenant-demo";
  documents = [];
  status = CustomsStatus.pending;
  notes = [];
  updated_at = 2;
}

abbrev filed : Map Customs.Case
filed = ("s-1", record customs_case { documents = licence ∷ [] }) ∷ []

review_releases_iff_example :
    (((Customs.review filed "s-1" "officer" 60).2 ≡ done)
      ↔ ((is_blank "officer" ≡ false) × (0 < 1) × All (Customs.IsCurrent 60) (licence ∷ [])))
    × (Option.map (λ kept. kept.status) (lookup "s-1" (Customs.review filed "s-1" "officer" 60).0)
        ≡ some (
            Customs.reviewed_status CustomsStatus.pending
              (Customs.review filed "s-1" "officer" 60).2))
unfolding lookup
review_releases_iff_example =
    Customs.review_releases_iff filed "s-1" "officer" 60
      (record customs_case { documents = licence ∷ [] }) refl

held_late : (Customs.review filed "s-1" "officer" 60).2 ≡ err expired
unfolding Customs.review lookup
held_late = refl

abbrev waiver : Approvals.Request
waiver = record {
  id = "r-1";
  tenant_id = "tenant-demo";
  object_id = "s-1";
  requested_by = "ana";
  approved_by = "";
  status = "pending";
  created_at = 5;
  decided_at = none;
}

abbrev queue : Map Approvals.Request
queue = ("r-1", waiver) ∷ []

decided_by_another_for_good_example :
    (str_eq "ben" "ana" ≡ false)
    × (Approvals.get
          (Approvals.run
            (Approvals.decide queue "r-1" "ben" true 9).0
            (Approvals.Call.decides "r-1" "cy" false 10 ∷ []))
          "r-1"
        ≡ ok (record waiver { status = "approved"; approved_by = "ben"; decided_at = some 9 }))
unfolding Approvals.decide lookup
decided_by_another_for_good_example =
    Approvals.decided_by_another_for_good queue (Approvals.decide queue "r-1" "ben" true 9).0 "r-1"
      "ben" true 9 (Approvals.Call.decides "r-1" "cy" false 10 ∷ []) waiver refl refl

abbrev fresh : Aggregate.Shipment
fresh = record { id = "s-1"; status = ShipmentStatus.draft; version = pos 1; events = [] }

abbrev moves : List Aggregate.Call
moves =
    Aggregate.Call.transitions "s-1" ShipmentStatus.booked (pos 1)
    ∷ Aggregate.Call.transitions "s-1" ShipmentStatus.loaded (pos 2)
    ∷ []

run_logs_transitions_example :
    (w : Aggregate.Shipment) × ((Aggregate.get (Aggregate.run (("s-1", fresh) ∷ []) moves) "s-1"
        ≡ ok w)
      × (Aggregate.Log fresh w × (length w.events ≤ 5)))
unfolding lookup
run_logs_transitions_example =
    Aggregate.run_logs_transitions (("s-1", fresh) ∷ []) moves "s-1" fresh refl
