-- ===== src/Memory/Capacity.antt =====
-- No leg of internal/repository/memory/store.go is loaded past its capacity, over any history of
-- calls in which the numbers are far from the ends of int64.
use go_label.Base.{
  ◌^◌, ◌<◌, ◌≡◌, refl, sym, subst, All, String, some, List, [], ◌∷◌, arith, inl, inr, Option-cases,
}
use go_label.Base.Results.{ok, Result-cases, done}
use go_label.Base.Int64.{ℤ, pos, add64, pos_part, ◌+ℤ◌, ◌≤ℤ◌, wrap64_fits, +ℤ_parts}
use go_label.Base.Maps.{Map, lookup, insert, Each, insert-Each}
use go_label.Base.Instants.{Time}
use go_label.Domain.Types.{Shipment, FlightLeg, LegStatus}
use go_label.Domain.Rules.{validate_capacity}
use go_label.Memory.State.{Store}
use go_label.Memory.Shipments.{idem_key, create_shipment, store_new_shipment, update_shipment}
use go_label.Memory.Legs.{
  create_leg, get_leg, reserved, booked, reserve_capacity, update_leg_status, book_on_leg,
  book_shipment,
}
use go_label.Memory.Accounts.{
  create_user, deactivate_user, create_session, revoke_session, revoke_user_sessions,
}
use go_label.Memory.Compliance.{put_customs, put_security, append_audit}
use go_label.Memory.Outbox.{enqueue, claim, mark_published, mark_failed}
use go_label.Memory.Steps.{forget_store, Call, call, run}

-- 2^62 kg: two such weights do not overflow an int64 when they are added.
abbrev pub IsModest : ℤ → Type 0
IsModest a = pos_part a < 2 ^ 62

pub record IsSafeLeg (l : FlightLeg) : Type 0 where
  pub not_negative : pos 0 ≤ℤ l.reserved_kg
  pub within : l.reserved_kg ≤ℤ l.capacity_kg
  pub modest : IsModest l.capacity_kg

pub record IsSafe (s : Store) : Type 0 where
  pub legs_safe : Each IsSafeLeg s.legs
  pub weights_modest : Each (λ v. IsModest v.weight_kg) s.shipments

-- What is asked of the data that a caller brings.
abbrev pub IsModestCall : Call → Type 0
IsModestCall (Call.creates_shipment v) = IsModest v.weight_kg
IsModestCall (Call.updates_shipment v version) = IsModest v.weight_kg
IsModestCall (Call.creates_leg l) = IsSafeLeg l
IsModestCall (Call.reserves_capacity tenant id weight version) = IsModest weight
IsModestCall _ = Unit {0}

reserved-IsSafeLeg :
    (l : FlightLeg) (weight : ℤ)
    → IsModest weight
    → IsSafeLeg l
    → validate_capacity l weight ≡ done
    → IsSafeLeg (reserved l weight)
unfolding validate_capacity reserved
reserved-IsSafeLeg l weight m h v =
    ground (arith, wrap64_fits (l.reserved_kg +ℤ weight), +ℤ_parts l.reserved_kg weight)

with_leg :
    {s : Store} (k : String) {l : FlightLeg}
    → IsSafeLeg l
    → IsSafe s
    → IsSafe (record s { legs = insert k l s.legs })
with_leg {s} k {l} p h = record {
  legs_safe = insert-Each IsSafeLeg k l s.legs p h.legs_safe;
  weights_modest = h.weights_modest;
}

with_shipment :
    {s : Store} (k : String) (v : Shipment) (idem : Map String)
    → IsModest v.weight_kg
    → IsSafe s
    → IsSafe (record s { shipments = insert k v s.shipments; idem = idem })
with_shipment {s} k v idem p h = record {
  legs_safe = h.legs_safe;
  weights_modest = insert-Each (λ v. IsModest v.weight_kg) k v s.shipments p h.weights_modest;
}

pub get_leg-lookup :
    (s : Store) (tenant id : String) {l : FlightLeg}
    → get_leg s tenant id ≡ ok l
    → lookup id s.legs ≡ some l
unfolding get_leg
get_leg-lookup s tenant id h = ground arith

-- A call changes the store in one way or leaves it alone.
module _ {ℓ} (P : Store → Type ℓ) (s : Store) (tenant id : String) (kept : P s) where
  reserve_capacity_cases :
      (weight version : ℤ)
      → ((l : FlightLeg)
          → get_leg s tenant id ≡ ok l
          → validate_capacity l weight ≡ done
          → P (record s { legs = insert id (reserved l weight) s.legs }))
      → P (reserve_capacity s tenant id weight version).0
  unfolding reserve_capacity
  reserve_capacity_cases weight version changed = elim (Result-cases (get_leg s tenant id)) [
    | inl (l, found) ↦ ground (arith, changed l found)
    | inr (e, missing) ↦ ground arith
  ]

  update_leg_status_cases :
      (status : LegStatus) (version : ℤ)
      → ((l : FlightLeg)
          → get_leg s tenant id ≡ ok l
          → P (record s {
            legs =
                insert id (record l { status = status; version = add64 l.version (pos 1) }) s.legs;
          }))
      → P (update_leg_status s tenant id status version).0
  unfolding update_leg_status
  update_leg_status_cases status version changed = elim (Result-cases (get_leg s tenant id)) [
    | inl (l, found) ↦ ground (arith, changed l found)
    | inr (e, missing) ↦ ground arith
  ]

  book_shipment_cases :
      (leg_id : String) (version leg_version : ℤ) (at : Time)
      → ((v : Shipment) (l : FlightLeg)
          → lookup id s.shipments ≡ some v
          → get_leg s tenant leg_id ≡ ok l
          → validate_capacity l v.weight_kg ≡ done
          → P (record s {
            legs = insert leg_id (reserved l v.weight_kg) s.legs;
            shipments = insert id (booked v leg_id at) s.shipments;
          }))
      → P (book_shipment s tenant id leg_id version leg_version at).0
  unfolding book_shipment book_on_leg
  book_shipment_cases leg_id version leg_version at changed =
      elim (Option-cases (lookup id s.shipments)) [
        | inl missing ↦ ground arith
        | inr (v, stored) ↦ elim (Result-cases (get_leg s tenant leg_id)) [
          | inl (l, found) ↦ ground (arith, changed v l stored found)
          | inr (e, missing) ↦ ground arith
        ]
      ]

pub create_shipment-IsSafe :
    (s : Store) (v : Shipment) → IsModest v.weight_kg → IsSafe s → IsSafe (create_shipment s v).0
unfolding create_shipment store_new_shipment
create_shipment-IsSafe s v m h = ground (
  arith,
  with_shipment {s = s} v.id v s.idem m h,
  with_shipment {s = s} v.id v (insert (idem_key v.tenant_id v.idempotency_key) v.id s.idem) m h,
)

pub update_shipment-IsSafe :
    (s : Store) (v : Shipment) (version : ℤ)
    → IsModest v.weight_kg
    → IsSafe s
    → IsSafe (update_shipment s v version).0
unfolding update_shipment
update_shipment-IsSafe s v version m h =
    ground
      (arith, with_shipment {s = s} v.id (record v { version = add64 version (pos 1) }) s.idem m h)

pub create_leg-IsSafe :
    (s : Store) (l : FlightLeg) → IsSafeLeg l → IsSafe s → IsSafe (create_leg s l).0
unfolding create_leg
create_leg-IsSafe s l p h = ground (arith, with_leg {s = s} l.id p h)

pub book_shipment-IsSafe :
    (s : Store) (tenant id leg_id : String) (version leg_version : ℤ) (at : Time)
    → IsSafe s
    → IsSafe (book_shipment s tenant id leg_id version leg_version at).0
book_shipment-IsSafe s tenant id leg_id version leg_version at h =
    book_shipment_cases IsSafe s tenant id h leg_id version leg_version at λ v l stored found room.
      let m = h.weights_modest id v stored in
      with_shipment id (booked v leg_id at) s.idem (unfold booked in m) (
        with_leg leg_id
          (reserved-IsSafeLeg l v.weight_kg m
            (h.legs_safe leg_id l (get_leg-lookup s tenant leg_id found)) room)
          h)

pub update_leg_status-IsSafe :
    (s : Store) (tenant id : String) (status : LegStatus) (version : ℤ)
    → IsSafe s
    → IsSafe (update_leg_status s tenant id status version).0
update_leg_status-IsSafe s tenant id status version h =
    update_leg_status_cases IsSafe s tenant id h status version λ l found.
      let old = h.legs_safe id l (get_leg-lookup s tenant id found) in with_leg id (ground arith) h

-- The other calls touch neither legs nor shipments.
pub elsewhere-IsSafe :
    (s t : Store) → t.legs ≡ s.legs → t.shipments ≡ s.shipments → IsSafe s → IsSafe t
elsewhere-IsSafe s t e f h = record {
  legs_safe = subst (Each IsSafeLeg) (sym e) h.legs_safe;
  weights_modest = subst (Each (λ v. IsModest v.weight_kg)) (sym f) h.weights_modest;
}

module _ (sha256_hex : String → String) where
  pub call-IsSafe :
      (s : Store) (c : Call) → IsModestCall c → IsSafe s → IsSafe (call sha256_hex s c).0
  unfolding call create_user deactivate_user create_session revoke_session revoke_user_sessions
      put_customs put_security append_audit enqueue claim mark_published mark_failed
  call-IsSafe s (Call.creates_shipment v) m h = create_shipment-IsSafe s v m h
  call-IsSafe s (Call.updates_shipment v version) m h = update_shipment-IsSafe s v version m h
  call-IsSafe s (Call.creates_leg l) m h = create_leg-IsSafe s l m h
  call-IsSafe s (Call.reserves_capacity tenant id weight version) m h =
      reserve_capacity_cases IsSafe s tenant id h weight version λ l found room.
        with_leg id
          (reserved-IsSafeLeg l weight m (h.legs_safe id l (get_leg-lookup s tenant id found)) room)
          h
  call-IsSafe s (Call.updates_leg_status tenant id status version) m h =
      update_leg_status-IsSafe s tenant id status version h
  call-IsSafe s (Call.books_shipment tenant id leg version leg_version at) m h =
      rw (forget_store (book_shipment s tenant id leg version leg_version at))
        (book_shipment-IsSafe s tenant id leg version leg_version at h)
  call-IsSafe s (Call.claims now n) m h = elsewhere-IsSafe s _ refl refl h
  call-IsSafe s c m h = elsewhere-IsSafe s _ (ground arith) (ground arith) h

  -- Over any history of calls of the memory store that change it, every leg keeps a reserved
  -- weight between zero and its capacity. It is asked that the store starts so, with capacities
  -- and shipment weights below 2^62, and that the calls bring in shipments and reservations of
  -- less than 2^62 kg and legs that satisfy the same.
  pub run-IsSafe :
      (s : Store) (cs : List Call) → All IsModestCall cs → IsSafe s → IsSafe (run sha256_hex s cs)
  unfolding run
  run-IsSafe s [] m h = h
  run-IsSafe s (c ∷ cs) m h = run-IsSafe (call sha256_hex s c).0 cs m.1 (call-IsSafe s c m.0 h)
