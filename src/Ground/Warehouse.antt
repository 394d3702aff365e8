-- ===== src/Ground/Warehouse.antt =====
-- internal/warehouse/slot.go: slots of a terminal, and bookings of weight and time in them. `ended`
-- says whether the context of the call is done.
use go_label.Base.{
  String, Bool, not, ◌||◌, ◌&&◌, none, some, [], is_blank, str_eq, if◌then◌else◌, any,
}
use go_label.Base.Results.{Result, err, done, invalid, conflict, not_found, capacity, cancelled}
use go_label.Base.Int64.{ℤ, pos, ltb_ℤ, leb_ℤ, add64, sub64}
use go_label.Base.Instants.{Time, before, after, zero_time}
use go_label.Base.Maps.{Map, lookup, insert, delete, has, values}

pub record Slot : Type 0 where
  pub id : String
  pub terminal : String
  pub zone : String
  pub max_kg : ℤ
  pub used_kg : ℤ
  pub open_at : Time
  pub close_at : Time

pub record Booking : Type 0 where
  pub id : String
  pub shipment_id : String
  pub slot_id : String
  pub weight_kg : ℤ
  pub start : Time
  pub end : Time

pub record Calendar : Type 0 where
  pub slots : Map Slot
  pub bookings : Map Booking

unfoldable pub new : Calendar
new = record { slots = []; bookings = [] }

-- `Slot{}`, what Cancel finds when the slot of a booking is missing.
abbrev zero_slot : Slot
zero_slot = record {
  id = "";
  terminal = "";
  zone = "";
  max_kg = pos 0;
  used_kg = pos 0;
  open_at = zero_time;
  close_at = zero_time;
}

abbrev slot_at : String → Map Slot → Slot
slot_at id m = elim (lookup id m) [ none ↦ zero_slot | some s ↦ s ]

unfoldable pub add : Calendar → Slot → Calendar × Result (Unit {0})
add c s =
    if is_blank s.id
      || (is_blank s.terminal || (leb_ℤ s.max_kg (pos 0) || not (after s.close_at s.open_at)))
    then (c, err invalid)
    else if has s.id c.slots
    then (c, err conflict)
    else (record c { slots = insert s.id s c.slots }, done)

-- The test of the loop of Book.
unfoldable pub overlaps : Booking → Booking → Bool
overlaps b old = str_eq old.slot_id b.slot_id && (before b.start old.end && before old.start b.end)

abbrev pub with_weight : Slot → ℤ → Slot
with_weight s n = record s { used_kg = n }

unfoldable pub book : Bool → Calendar → Booking → Calendar × Result (Unit {0})
unfolding overlaps
book ended c b =
    if ended
    then (c, err cancelled)
    else if is_blank b.id
        || (is_blank b.shipment_id
            || (is_blank b.slot_id || (leb_ℤ b.weight_kg (pos 0) || not (after b.end b.start))))
    then (c, err invalid)
    else elim (lookup b.slot_id c.slots) [
      | none ↦ (c, err not_found)
      | some s ↦
          if before b.start s.open_at
            || (after b.end s.close_at || ltb_ℤ s.max_kg (add64 s.used_kg b.weight_kg))
          then (c, err capacity)
          else if any (overlaps b) (values c.bookings)
          then (c, err conflict)
          else (
            record {
              slots = insert b.slot_id (with_weight s (add64 s.used_kg b.weight_kg)) c.slots;
              bookings = insert b.id b c.bookings;
            },
            done,
          )
    ]

unfoldable pub cancel : Calendar → String → Calendar × Result (Unit {0})
cancel c id = elim (lookup id c.bookings) [
  | none ↦ (c, err not_found)
  | some b ↦
      let s = slot_at b.slot_id c.slots in
      (
        record {
          slots = insert b.slot_id (with_weight s (sub64 s.used_kg b.weight_kg)) c.slots;
          bookings = delete id c.bookings;
        },
        done,
      )
]
