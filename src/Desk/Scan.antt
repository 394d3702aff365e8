-- ===== src/Desk/Scan.antt =====
-- internal/scan/security.go. A signal is a name and whether it is bad; the order of range over the
-- signals is that of their list.
use go_label.Base.{
  ◌≡◌, inl, inr, refl, concat, String, Bool, true, false, ◌||◌, Option, none, some, List, [], ◌∷◌,
  arith, is_blank, if◌then◌else◌, Option-cases, Bool-cases,
}
use go_label.Base.Results.{Result, ok, err, Error, invalid, not_found}
use go_label.Base.Instants.{Time}
use go_label.Base.Maps.{Map, lookup, insert, delete, has, lookup-insert, lookup-delete}
use go_label.Domain.Types.{SecurityStatus}

pub record Scan : Type 0 where
  pub shipment_id : String
  pub status : SecurityStatus
  pub officer : String
  pub reason : String
  pub checked_at : Time

pub record Service : Type 0 where
  pub results : Map Scan
  pub blocked : Map String

abbrev pub new : Service
new = record { results = []; blocked = [] }

abbrev pub first_bad : List (String × Bool) → Option String
first_bad [] = none
first_bad ((name, bad) ∷ rest) = let later = first_bad rest in if bad then some name else later

-- `Check`: whether the context has ended, and the clock reading, are arguments.
unfoldable pub check :
    Service → Option Error → String → String → List (String × Bool) → Time → Service × Result Scan
check s ended shipment officer signals now = elim ended [
  | some e ↦ (s, err e)
  | none ↦
      if is_blank shipment || is_blank officer then (s, err invalid) else elim (first_bad signals) [
        | some name ↦
            let r : Scan = record {
              shipment_id = shipment;
              status = SecurityStatus.failed;
              officer = officer;
              reason = concat "signal " name;
              checked_at = now;
            } in
            (
              record {
                results = insert shipment r s.results;
                blocked = insert shipment r.reason s.blocked;
              },
              ok r,
            )
        | none ↦
            let r : Scan = record {
              shipment_id = shipment;
              status = SecurityStatus.passed;
              officer = officer;
              reason = "";
              checked_at = now;
            } in
            (
              record { results = insert shipment r s.results; blocked = delete shipment s.blocked },
              ok r,
            )
      ]
]

unfoldable pub get : Service → String → Result Scan
get s shipment = elim (lookup shipment s.results) [ none ↦ err not_found | some r ↦ ok r ]

unfoldable pub is_blocked : Service → String → Bool
is_blocked s shipment = has shipment s.blocked

abbrev pub has_failed : Result Scan → Bool
has_failed (err e) = false
has_failed (ok r) = elim r.status [ SecurityStatus.failed ↦ true | _ ↦ false ]

-- A shipment is blocked exactly when its last scan failed.
abbrev pub BlocksFailed : Service → Type 0
BlocksFailed s = (shipment : String) → is_blocked s shipment ≡ has_failed (get s shipment)

fails_blocked :
    (s : Service) (shipment k : String) (r : Scan) (reason : String)
    → r.status ≡ SecurityStatus.failed
    → BlocksFailed s
    → is_blocked
        (record {
          results = insert shipment r s.results;
          blocked = insert shipment reason s.blocked;
        })
        k
      ≡ has_failed (
          get
            (record {
              results = insert shipment r s.results;
              blocked = insert shipment reason s.blocked;
            })
            k)
unfolding is_blocked get
fails_blocked s shipment k r reason failed h =
    ground
      (arith, h k, lookup-insert shipment k r s.results, lookup-insert shipment k reason s.blocked)

passes_free :
    (s : Service) (shipment k : String) (r : Scan)
    → r.status ≡ SecurityStatus.passed
    → BlocksFailed s
    → is_blocked
        (record { results = insert shipment r s.results; blocked = delete shipment s.blocked })
        k
      ≡ has_failed (
          get
            (record { results = insert shipment r s.results; blocked = delete shipment s.blocked })
            k)
unfolding is_blocked get
passes_free s shipment k r passed h =
    ground (arith, h k, lookup-insert shipment k r s.results, lookup-delete shipment k s.blocked)

pub check-BlocksFailed :
    (s : Service) (ended : Option Error) (shipment officer : String)
    (signals : List (String × Bool)) (now : Time)
    → BlocksFailed s
    → BlocksFailed (check s ended shipment officer signals now).0
unfolding check
check-BlocksFailed s (some e) shipment officer signals now h = h
check-BlocksFailed s none shipment officer signals now h =
    elim (Bool-cases (is_blank shipment || is_blank officer)) [
      | inl nameless ↦ rw nameless h
      | inr named ↦ elim (Option-cases (first_bad signals)) [
        | inl good ↦ rw (named, good) (λ k. passes_free s shipment k _ refl h)
        | inr (name, bad) ↦ rw (named, bad) (λ k. fails_blocked s shipment k _ _ refl h)
      ]
    ]
