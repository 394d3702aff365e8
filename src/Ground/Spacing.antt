-- ===== src/Ground/Spacing.antt =====
-- What the bookings of internal/warehouse/slot.go keep apart and give back.
use go_label.Base.{
  ◌⊎◌, subst, sym, ◌≡◌, String, Bool, true, false, none, some, List, [], ◌∷◌, arith, str_eq, any,
  inl, inr, Option-cases, eq_iff,
}
use go_label.Base.Results.{done}
use go_label.Base.Int64.{add64, sub64, sub64-add64, IsInt64}
use go_label.Base.Maps.{
  Map, lookup, insert, delete, values, lookup-insert, lookup-insert_self, lookup-delete,
}
use go_label.Ground.Warehouse.{
  Slot, Booking, Calendar, new, add, overlaps, with_weight, book, cancel,
}

-- Two bookings of one slot at one time.
abbrev Clash : Booking → Booking → Type 0
Clash a b = overlaps a b ≡ true

abbrev IsSpaced : Calendar → Type 0
IsSpaced c =
    (j k : String) (a b : Booking)
    → lookup j c.bookings ≡ some a
    → lookup k c.bookings ≡ some b
    → str_eq j k ≡ false
    → overlaps a b ≡ false

any-lookup :
    (t : Booking → Bool) (m : Map Booking) (k : String) (v : Booking)
    → any t (values m) ≡ false
    → lookup k m ≡ some v
    → t v ≡ false
unfolding lookup
any-lookup t [] k v h f = ground arith
any-lookup t ((j, w) ∷ m) k v h f = ground (arith, any-lookup t m k v)

overlaps_sym : (a b : Booking) → overlaps a b ≡ overlaps b a
unfolding overlaps
overlaps_sym a b = ground (arith, eq_iff a.slot_id b.slot_id, eq_iff b.slot_id a.slot_id)

book_cases :
    (ended : Bool) (c : Calendar) (b : Booking)
    → ((book ended c b).0 ≡ c)
      ⊎ (((book ended c b).0.bookings ≡ insert b.id b c.bookings)
          × (any (overlaps b) (values c.bookings) ≡ false))
unfolding book
book_cases ended c b = ground arith

book-IsSpaced :
    (ended : Bool) (c : Calendar) (b : Booking) → IsSpaced c → IsSpaced (book ended c b).0
book-IsSpaced ended c b h = elim (book_cases ended c b) [
  | inl same ↦ subst IsSpaced (sym same) h
  | inr (written, free) ↦ λ j k x y at_j at_k differ. ground (
    arith,
    lookup-insert b.id j b c.bookings,
    lookup-insert b.id k b c.bookings,
    h j k x y,
    any-lookup (overlaps b) c.bookings j x free,
    any-lookup (overlaps b) c.bookings k y free,
    overlaps_sym x b,
    eq_iff b.id j,
    eq_iff b.id k,
    eq_iff j k,
  )
]

cancel-IsSpaced : (c : Calendar) (id : String) → IsSpaced c → IsSpaced (cancel c id).0
cancel-IsSpaced c id h = elim (Option-cases (lookup id c.bookings)) [
  | inl missing ↦
      let same : (cancel c id).0 ≡ c = unfold cancel in ground arith in subst IsSpaced (sym same) h
  | inr (b, found) ↦
      let gone : (cancel c id).0.bookings ≡ delete id c.bookings = unfold cancel in ground arith in
      λ j k x y at_j at_k differ.
        ground (arith, lookup-delete id j c.bookings, lookup-delete id k c.bookings, h j k x y)
]

pub data Call : Type 0 where
  adds : Slot → Call
  books : Bool → Booking → Call
  cancels : String → Call

unfoldable pub run : Calendar → List Call → Calendar
run c [] = c
run c (Call.adds s ∷ cs) = run (add c s).0 cs
run c (Call.books ended b ∷ cs) = run (book ended c b).0 cs
run c (Call.cancels id ∷ cs) = run (cancel c id).0 cs

add-IsSpaced : (c : Calendar) (s : Slot) → IsSpaced c → IsSpaced (add c s).0
unfolding add
add-IsSpaced c s h j k x y at_j at_k differ = h j k x y (ground arith) (ground arith) differ

run-IsSpaced_from : (c : Calendar) (cs : List Call) → IsSpaced c → IsSpaced (run c cs)
unfolding run
run-IsSpaced_from c [] h = h
run-IsSpaced_from c (Call.adds s ∷ cs) h = run-IsSpaced_from (add c s).0 cs (add-IsSpaced c s h)
run-IsSpaced_from c (Call.books ended b ∷ cs) h =
    run-IsSpaced_from (book ended c b).0 cs (book-IsSpaced ended c b h)
run-IsSpaced_from c (Call.cancels id ∷ cs) h =
    run-IsSpaced_from (cancel c id).0 cs (cancel-IsSpaced c id h)

-- After any history of calls of a new warehouse calendar, no two of its bookings under different
-- ids are for one slot at overlapping times.
pub run_never_overlaps :
    (cs : List Call) (j k : String) (a b : Booking)
    → lookup j (run new cs).bookings ≡ some a
    → lookup k (run new cs).bookings ≡ some b
    → str_eq j k ≡ false
    → overlaps a b ≡ false
run_never_overlaps cs =
    run-IsSpaced_from new cs (unfold new lookup in λ j k a b at_j at_k differ. ground arith)

book_inv :
    (c t : Calendar) (b : Booking) (s : Slot)
    → lookup b.slot_id c.slots ≡ some s
    → book false c b ≡ (t, done)
    → (t.slots ≡ insert b.slot_id (with_weight s (add64 s.used_kg b.weight_kg)) c.slots)
      × (t.bookings ≡ insert b.id b c.bookings)
unfolding book
book_inv c t b s found h = (ground arith, ground arith)

-- Cancelling a warehouse booking that has just been made under a new id succeeds, and gives back
-- every slot with its used weight, and every booking, as they were. It is asked that the used
-- weight and the weight of the booking fit in an int64.
cancel-book :
    (c t : Calendar) (b : Booking) (s : Slot)
    → lookup b.slot_id c.slots ≡ some s
    → lookup b.id c.bookings ≡ none
    → IsInt64 s.used_kg
    → IsInt64 b.weight_kg
    → book false c b ≡ (t, done)
    → ((cancel t b.id).1 ≡ done)
      × ((id : String) → lookup id (cancel t b.id).0.slots ≡ lookup id c.slots)
      × ((id : String) → lookup id (cancel t b.id).0.bookings ≡ lookup id c.bookings)
unfolding cancel
cancel-book c t b s found new_id fits weight h =
    let (weights, kept) = book_inv c t b s found h in
    let more = add64 s.used_kg b.weight_kg in
    let stored : lookup b.id t.bookings ≡ some b = rw kept (lookup-insert_self b.id b c.bookings) in
    let sum : lookup b.slot_id t.slots ≡ some (with_weight s more) =
      rw weights (lookup-insert_self b.slot_id (with_weight s more) c.slots) in
    let back = sub64-add64 s.used_kg b.weight_kg fits weight in
    (
      ground arith,
      λ id. ground (
        arith,
        back,
        lookup-insert b.slot_id id (with_weight s more) c.slots,
        lookup-insert b.slot_id id (with_weight s (sub64 more b.weight_kg)) t.slots,
        eq_iff b.slot_id id,
      ),
      λ id. ground (
        arith,
        lookup-insert b.id id b c.bookings,
        lookup-delete b.id id t.bookings,
        eq_iff b.id id,
      ),
    )
