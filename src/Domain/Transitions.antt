-- ===== src/Domain/Transitions.antt =====
-- What the transition tables of internal/domain/rules.go allow over whole histories.
use go_label.Base.{ℕ, ◌+◌, ◌≤◌, ◌<◌, ◌≡◌, Bool, true, false, ◌⊎◌, List, [], ◌∷◌, arith, length}
use go_label.Domain.Types.{ShipmentStatus, CustomsStatus}
use go_label.Domain.Types.ShipmentStatus.{
  draft, booked, screening, cleared, loaded, departed, cancelled, unknown,
}
use go_label.Domain.Rules.{shipment_can_transition, customs_can_transition}

-- The statuses entered one after the other, from the first to the last.
abbrev pub Follows {ℓ} : {S : Type ℓ} → (S → S → Bool) → S → List S → S → Type ℓ
Follows can s [] last = s ≡ last
Follows can s (next ∷ path) last = (can s next ≡ true) × Follows can next path last

abbrev way_to_departure : ShipmentStatus → List ShipmentStatus
way_to_departure draft = booked ∷ screening ∷ cleared ∷ loaded ∷ departed ∷ []
way_to_departure booked = screening ∷ cleared ∷ loaded ∷ departed ∷ []
way_to_departure screening = cleared ∷ loaded ∷ departed ∷ []
way_to_departure cleared = loaded ∷ departed ∷ []
way_to_departure loaded = departed ∷ []
way_to_departure _ = []

departed_by :
    (s : ShipmentStatus) (path : List ShipmentStatus)
    → Follows shipment_can_transition s path departed
    → path ≡ way_to_departure s
unfolding shipment_can_transition
departed_by s [] f = ground arith
departed_by s (next ∷ path) f = ground (arith, departed_by next path)

-- A draft shipment that follows the transition table to departed has entered booked, screening,
-- cleared, loaded and departed, in that order, and nothing else.
departs_in_order :
    (path : List ShipmentStatus)
    → Follows shipment_can_transition draft path departed
    → path ≡ booked ∷ screening ∷ cleared ∷ loaded ∷ departed ∷ []
departs_in_order path f = departed_by draft path f

rank : ShipmentStatus → ℕ
rank draft = 0
rank booked = 1
rank screening = 2
rank cleared = 3
rank loaded = 4
rank departed = 5
rank cancelled = 5
rank (unknown s) = 5

rank-lt : (s next : ShipmentStatus) → shipment_can_transition s next ≡ true → rank s < rank next
unfolding shipment_can_transition rank
rank-lt s next h = ground arith

rank-le : (s : ShipmentStatus) → rank s ≤ 5
unfolding rank
rank-le s = ground arith

path_rank :
    (s u : ShipmentStatus) (path : List ShipmentStatus)
    → Follows shipment_can_transition s path u
    → rank s + length path ≤ 5
path_rank s u [] f = omega (arith, rank-le s)
path_rank s u (next ∷ path) f = omega (arith, rank-lt s next f.0, path_rank next u path f.1)

-- A shipment makes at most five transitions of the table, whatever its status.
pub transitions_bounded :
    (s u : ShipmentStatus) (path : List ShipmentStatus)
    → Follows shipment_can_transition s path u
    → length path ≤ 5
transitions_bounded s u path f = omega (arith, path_rank s u path f)

-- Whether a status stands among those entered.
abbrev pub enters_review : List CustomsStatus → Bool
enters_review [] = false
enters_review (CustomsStatus.review ∷ path) = true
enters_review (_ ∷ path) = enters_review path

released_by_review :
    (s : CustomsStatus) (path : List CustomsStatus)
    → Follows customs_can_transition s path CustomsStatus.released
    → (s ≡ CustomsStatus.released) ⊎ ((s ≡ CustomsStatus.review) ⊎ (enters_review path ≡ true))
unfolding customs_can_transition
released_by_review s [] f = ground arith
released_by_review s (next ∷ path) f = ground (arith, released_by_review next path f.1)

-- A customs case that follows the transition table from pending to released has entered review.
released_after_review :
    (path : List CustomsStatus)
    → Follows customs_can_transition CustomsStatus.pending path CustomsStatus.released
    → enters_review path ≡ true
released_after_review path f = ground (arith, released_by_review CustomsStatus.pending path f)
