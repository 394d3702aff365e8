-- ===== src/Queries/Examples.antt =====
-- Small lists of records.
use go_label.Base.{◌≤◌, ◌↔◌, ℕ, ◌≡◌, String, List, [], ◌∷◌, All, count_if, ◌+◌}
use go_label.Base.Int64.{pos}
use go_label.Base.Instants.{zero_time}
use go_label.Domain.Types.{ShipmentStatus}
use go_label.Queries.Timeline.{Event, new, append_all, IsTimeline, append_all-IsTimeline}
use go_label.Queries.Reconciliation.{Entry, compare}
use go_label.Queries.Differences.{is_about, AreSame, last_under, ShowsLast, compare_reports}
use go_label.Queries.Search.{Query, Item, filter}
use go_label.Queries.Answers.{IsAnswer, filter-IsAnswer}

abbrev at : ℕ → Event
at n = record { kind = "loaded"; at = n; actor = "u-1"; details = "" }

abbrev history : List Event
history = at 9 ∷ record (at 5) { kind = "booked" } ∷ at 9 ∷ at 7 ∷ []

empty : IsTimeline new
empty = record { in_order = tt; distinct = tt }

append_all-IsTimeline_example : IsTimeline (append_all new history)
append_all-IsTimeline_example = append_all-IsTimeline history new empty

abbrev entry : String → Entry
entry id = record {
  id = id;
  external_id = id;
  kind = "freight";
  amount = pos 10;
  occurred_at = zero_time + 5;
}

abbrev local : List Entry
local = entry "a" ∷ entry "b" ∷ []

abbrev remote : List Entry
remote = entry "b" ∷ record (entry "a") { amount = pos 11 } ∷ []

compare_reports_example :
    let n = count_if (is_about "a") (compare local remote) in
    (n ≤ 1)
    × ((n ≡ 0) ↔ AreSame (last_under "a" local) (last_under "a" remote))
    × All (ShowsLast local remote) (compare local remote)
compare_reports_example = compare_reports local remote "a"

abbrev item : String → Item
item id = record {
  id = id;
  reference = "REF-1";
  origin = "PVG";
  destination = "FRA";
  status = ShipmentStatus.draft;
  score = 0;
}

abbrev query : Query
query = record { term = " ref "; statuses = []; origin = ""; destination = "FRA"; limit = pos 1 }

filter-IsAnswer_example :
    IsAnswer (item "2" ∷ item "1" ∷ []) query (filter (item "2" ∷ item "1" ∷ []) query)
filter-IsAnswer_example = filter-IsAnswer (item "2" ∷ item "1" ∷ []) query
