-- ===== src/Clearance/Numbering.antt =====
-- Histories of the customs cases of internal/customs/workflow.go, and the numbers of their documents.
use go_label.Base.{
  subst, sym, All, ◌≡◌, refl, String, false, ◌||◌, List, [], ◌∷◌, ◌++◌, arith, str_eq, any, inl,
  inr, Option-cases, eq_iff,
}
use go_label.Base.Instants.{Time}
use go_label.Base.Maps.{Map, lookup, Each, Writes-Each}
use go_label.Domain.Types.{CustomsStatus}
use go_label.Clearance.Customs.{
  Document, Case, zero_case, open_case, with_document, attach, first_expired, held_for, released_by,
  review,
}

-- No two documents of a case have one number.
abbrev pub Numbered : List Document → Type 0
Numbered [] = Unit {0}
Numbered (d ∷ ds) = (any (λ old. str_eq old.number d.number) ds ≡ false) × Numbered ds

any-append :
    (number : String) (ds : List Document) (d : Document)
    → any (λ old. str_eq old.number number) (ds ++ d ∷ [])
      ≡ (any (λ old. str_eq old.number number) ds || str_eq d.number number)
any-append number [] d = ground arith
any-append number (x ∷ ds) d = ground (arith, any-append number ds d)

append-Numbered :
    (ds : List Document) (d : Document)
    → any (λ old. str_eq old.number d.number) ds ≡ false
    → Numbered ds
    → Numbered (ds ++ d ∷ [])
append-Numbered [] d fresh h = (refl, tt)
append-Numbered (x ∷ ds) d fresh h = (
  ground (arith, any-append x.number ds d, eq_iff d.number x.number, eq_iff x.number d.number),
  append-Numbered ds d (ground arith) h.1,
)

pub data Call : Type 0 where
  opens : Case → Time → Call
  attaches : String → Document → Time → Call
  reviews : String → String → Time → Call

unfoldable pub step : Map Case → Call → Map Case
step m (Call.opens c now) = (open_case m c now).0
step m (Call.attaches shipment d now) = (attach m shipment d now).0
step m (Call.reviews shipment actor now) = (review m shipment actor now).0

unfoldable pub run : Map Case → List Call → Map Case
run m [] = m
run m (c ∷ cs) = run (step m c) cs

-- A case is opened with its documents still to come.
abbrev pub OpensEmpty : Call → Type 0
OpensEmpty (Call.opens c now) = c.documents ≡ []
OpensEmpty (Call.attaches shipment d now) = Unit {0}
OpensEmpty (Call.reviews shipment actor now) = Unit {0}

abbrev pub IsNumbered : Case → Type 0
IsNumbered c = Numbered c.documents

open_case-Each :
    (m : Map Case) (c : Case) (now : Time)
    → c.documents ≡ []
    → Each IsNumbered m
    → Each IsNumbered (open_case m c now).0
open_case-Each m c now none_yet h =
    let pending = record c { status = CustomsStatus.pending; updated_at = now } in
    Writes-Each IsNumbered c.shipment_id pending m _
      (unfold open_case in ground (arith, subst Numbered (sym none_yet) tt)) h

attach-Each :
    (m : Map Case) (shipment : String) (d : Document) (now : Time)
    → Each IsNumbered m
    → Each IsNumbered (attach m shipment d now).0
attach-Each m shipment d now h = elim (Option-cases (lookup shipment m)) [
  | inl missing ↦
      Writes-Each IsNumbered shipment zero_case m _ (inl (unfold attach in ground arith)) h
  | inr (c, found) ↦
      Writes-Each IsNumbered shipment (with_document c d now) m _
        (unfold attach in ground (arith, append-Numbered c.documents d, h shipment c found)) h
]

review-Each :
    (m : Map Case) (shipment actor : String) (now : Time)
    → Each IsNumbered m
    → Each IsNumbered (review m shipment actor now).0
review-Each m shipment actor now h = elim (Option-cases (lookup shipment m)) [
  | inl missing ↦
      Writes-Each IsNumbered shipment zero_case m _ (inl (unfold review in ground arith)) h
  | inr (c, found) ↦ elim (Option-cases (first_expired now c.documents)) [
    | inl current ↦
        Writes-Each IsNumbered shipment (released_by c actor now) m _
          (unfold review in ground (arith, h shipment c found)) h
    | inr (d, late) ↦
        Writes-Each IsNumbered shipment (held_for c d) m _
          (unfold review in ground (arith, h shipment c found)) h
  ]
]

step-Each :
    (m : Map Case) (c : Call) → OpensEmpty c → Each IsNumbered m → Each IsNumbered (step m c)
unfolding step
step-Each m (Call.opens c now) none_yet h = open_case-Each m c now none_yet h
step-Each m (Call.attaches shipment d now) none_yet h = attach-Each m shipment d now h
step-Each m (Call.reviews shipment actor now) none_yet h = review-Each m shipment actor now h

-- Over any history of Open, Attach and Review in which cases are opened without documents, no two
-- documents of a case have the same number, when that holds at the start.
run-Numbered :
    (m : Map Case) (cs : List Call)
    → All OpensEmpty cs
    → Each IsNumbered m
    → Each IsNumbered (run m cs)
unfolding run
run-Numbered m [] none_yet h = h
run-Numbered m (c ∷ cs) none_yet h =
    run-Numbered (step m c) cs none_yet.1 (step-Each m c none_yet.0 h)
