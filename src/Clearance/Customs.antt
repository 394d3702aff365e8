-- ===== src/Clearance/Customs.antt =====
-- internal/customs/workflow.go: customs cases of shipments, their documents and their review. The
-- clock readings are arguments.
use go_label.Base.{
  ◌↔◌, ◌<◌, All, length, ◌≡◌, String, true, false, not, ◌||◌, none, some, Option, List, [], ◌∷◌,
  ◌++◌, arith, is_blank, concat, str_eq, if◌then◌else◌, any, inl, inr, Option-cases,
}
use mathlib.Core.Option
use go_label.Base.Results.{
  Result, ok, err, done, invalid, conflict, not_found, forbidden, expired, state,
}
use go_label.Base.Instants.{Time, before, zero_time}
use go_label.Base.Text.{trim_space}
use go_label.Base.Maps.{Map, lookup, insert, has, lookup-insert_self}
use go_label.Domain.Types.{CustomsStatus}

pub record Document : Type 0 where
  pub number : String
  pub kind : String
  pub issued_at : Time
  pub expires_at : Time
  pub hash : String

pub record Case : Type 0 where
  pub id : String
  pub shipment_id : String
  pub tenant_id : String
  pub documents : List Document
  pub status : CustomsStatus
  pub notes : List String
  pub updated_at : Time

abbrev pub zero_case : Case
zero_case = record {
  id = "";
  shipment_id = "";
  tenant_id = "";
  documents = [];
  status = CustomsStatus.unknown "";
  notes = [];
  updated_at = zero_time;
}

unfoldable pub open_case : Map Case → Case → Time → Map Case × Result (Unit {0})
open_case m c now =
    if is_blank c.id || (is_blank c.shipment_id || is_blank c.tenant_id)
    then (m, err invalid)
    else if has c.shipment_id m
    then (m, err conflict)
    else (
      insert c.shipment_id (record c { status = CustomsStatus.pending; updated_at = now }) m,
      done,
    )

abbrev pub with_document : Case → Document → Time → Case
with_document c d now = record c { documents = c.documents ++ d ∷ []; updated_at = now }

unfoldable pub attach : Map Case → String → Document → Time → Map Case × Result (Unit {0})
attach m shipment d now =
    if is_blank (trim_space d.number) || before d.expires_at d.issued_at
    then (m, err invalid)
    else elim (lookup shipment m) [
      | none ↦ (m, err not_found)
      | some c ↦
          if any (λ old. str_eq old.number d.number) c.documents
          then (m, err conflict)
          else (insert shipment (with_document c d now) m, done)
    ]

-- The loop of Review: the first document that has expired.
unfoldable pub first_expired : Time → List Document → Option Document
first_expired now [] = none
first_expired now (d ∷ ds) = if not (before now d.expires_at) then some d else first_expired now ds

abbrev pub held_for : Case → Document → Case
held_for c d = record c {
  status = CustomsStatus.held;
  notes = c.notes ++ concat "expired document " d.number ∷ [];
}

abbrev pub released_by : Case → String → Time → Case
released_by c actor now = record c {
  status = CustomsStatus.released;
  notes = c.notes ++ concat "reviewed by " actor ∷ [];
  updated_at = now;
}

-- A review that finds an expired document returns the case and an error.
unfoldable pub review : Map Case → String → String → Time → Map Case × Case × Result (Unit {0})
unfolding first_expired
review m shipment actor now = elim (lookup shipment m) [
  | none ↦ (m, zero_case, err not_found)
  | some c ↦ if is_blank actor then (m, zero_case, err forbidden) else elim c.documents [
    | [] ↦ (m, zero_case, err state)
    | _ ∷ _ ↦ elim (first_expired now c.documents) [
      | some d ↦ (insert shipment (held_for c d) m, held_for c d, err expired)
      | none ↦ (insert shipment (released_by c actor now) m, released_by c actor now, done)
    ]
  ]
]

unfoldable pub get : Map Case → String → Result Case
get m shipment = elim (lookup shipment m) [ none ↦ err not_found | some c ↦ ok c ]

abbrev pub IsCurrent : Time → Document → Type 0
IsCurrent now d = before now d.expires_at ≡ true

first_expired-All :
    (now : Time) (ds : List Document) → (first_expired now ds ≡ none) ↔ All (IsCurrent now) ds
unfolding first_expired
first_expired-All now [] = ground arith
first_expired-All now (d ∷ ds) = ground (arith, first_expired-All now ds)

released_iff :
    (m : Map Case) (shipment actor : String) (now : Time) (c : Case)
    → lookup shipment m ≡ some c
    → ((review m shipment actor now).2 ≡ done)
      ↔ ((is_blank actor ≡ false) × (0 < length c.documents) × All (IsCurrent now) c.documents)
unfolding review
released_iff m shipment actor now c found = (
  ground (arith, first_expired-All now c.documents),
  ground (arith, first_expired-All now c.documents),
)

-- The status that a case has after a review with some result.
abbrev pub reviewed_status : CustomsStatus → Result (Unit {0}) → CustomsStatus
reviewed_status old (ok u) = CustomsStatus.released
reviewed_status old (err expired) = CustomsStatus.held
reviewed_status old (err e) = old

status_after :
    (m : Map Case) (shipment actor : String) (now : Time) (c : Case)
    → lookup shipment m ≡ some c
    → Option.map (λ kept. kept.status) (lookup shipment (review m shipment actor now).0)
      ≡ some (reviewed_status c.status (review m shipment actor now).2)
unfolding review
status_after m shipment actor now c found = elim (Option-cases (first_expired now c.documents)) [
  | inl current ↦ ground (arith, lookup-insert_self shipment (released_by c actor now) m)
  | inr (d, late) ↦ ground (arith, lookup-insert_self shipment (held_for c d) m)
]

-- Review of a stored customs case succeeds exactly when an actor is named, the case has a
-- document, and no document has expired. The stored status of the case is then released; it is
-- held when the review returned the error of an expired document, and what it was after any other
-- error.
pub review_releases_iff :
    (m : Map Case) (shipment actor : String) (now : Time) (c : Case)
    → lookup shipment m ≡ some c
    → (((review m shipment actor now).2 ≡ done)
        ↔ ((is_blank actor ≡ false) × (0 < length c.documents) × All (IsCurrent now) c.documents))
      × (Option.map (λ kept. kept.status) (lookup shipment (review m shipment actor now).0)
          ≡ some (reviewed_status c.status (review m shipment actor now).2))
review_releases_iff m shipment actor now c found =
    (released_iff m shipment actor now c found, status_after m shipment actor now c found)
