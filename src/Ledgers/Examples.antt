-- ===== src/Ledgers/Examples.antt =====
-- The ledgers at concrete values.
use go_label.Base.{◌≡◌, refl, some, List, [], ◌∷◌, arith}
use go_label.Base.Results.{done}
use go_label.Base.Int64.{pos, wrap64, ◌+ℤ◌, ◌-ℤ◌}
use go_label.Base.Maps.{Each, lookup, insert}
use go_label.Ledgers.Capacity
use go_label.Ledgers.Booking
use go_label.Ledgers.Finance

abbrev calls : List Capacity.Call
calls =
    Capacity.Call.defines "main-deck" (pos 100)
    ∷ Capacity.Call.holds "main-deck" (pos 60) (pos 1)
    ∷ Capacity.Call.holds "main-deck" (pos 60) (pos 2)
    ∷ Capacity.Call.releases "main-deck" (pos 20)
    ∷ []

held_once :
    lookup "main-deck" (Capacity.run [] calls)
    ≡ some (record { limit = pos 100; used = pos 40; version = pos 3 })
unfolding Capacity.run Capacity.define Capacity.hold Capacity.release lookup insert wrap64 ◌+ℤ◌ ◌-ℤ◌
held_once = refl

run-IsSound_example : Each Capacity.IsSound (Capacity.run [] calls)
unfolding lookup
run-IsSound_example =
    Capacity.run-IsSound [] calls (ground arith) (λ k v found. ground (arith, found))

abbrev planned : Booking.Ledger
planned = record {
  capacities = ("leg-1", pos 500) ∷ [];
  reserved = ("leg-1", pos 100) ∷ [];
  allocations = [];
}

abbrev asked : Booking.Request
asked = record {
  tenant_id = "tenant-demo";
  shipment_id = "s-1";
  leg_id = "leg-1";
  weight_kg = pos 300;
  priority = pos 1;
  requested_at = 5;
}

abbrev fee : Finance.Entry
fee = record {
  id = "e-1";
  tenant_id = "tenant-demo";
  shipment_id = "s-1";
  currency = "USD";
  debit = pos 0;
  credit = pos 250;
  memo = "";
  posted_at = 5;
}

abbrev refund : Finance.Entry
refund = record fee { id = "e-2"; debit = pos 40; credit = pos 0 }

reconcile-post_all_example :
    Finance.reconcile (Finance.post_all Finance.new (fee ∷ refund ∷ fee ∷ [])) "tenant-demo" ≡ done
reconcile-post_all_example = Finance.reconcile-post_all (fee ∷ refund ∷ fee ∷ []) "tenant-demo"
