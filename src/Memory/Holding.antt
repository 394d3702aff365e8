-- ===== src/Memory/Holding.antt =====
-- The events of the memory store's outbox that a worker holds, while internal/worker/outbox.go
-- goes through those that it has claimed.
use go_label.Base.{
  ℕ, suc, ◌≡◌, refl, inl, inr, String, Bool, true, ◌&&◌, ◌||◌, none, some, List, [], ◌∷◌, arith,
  any, is_some, is_none, str_eq, eq_iff, Bool-cases, Option-cases,
}
use go_label.Base.Int64.{ℤ, pos, ltb_ℤ}
use go_label.Base.Instants.{Time}
use go_label.Base.Maps.{Map, lookup, lookup-insert, Distinct}
use go_label.Domain.Types.{OutboxEvent}
use go_label.Memory.State.{Store}
use go_label.Memory.Outbox.{
  is_claimable, claim_loop, claimed, mark_published, mark_failed, put_back,
}
use go_label.Memory.Worker.{Keyed}

-- An event that a worker does not hold: it waits to be claimed, or it is published.
abbrev pub is_settled : OutboxEvent → Bool
is_settled v = is_none v.claimed_at || is_some v.published_at

abbrev pub has_id : String → List OutboxEvent → Bool
has_id k es = any (λ e. str_eq e.id k) es

-- Every event that is not settled is one of these.
abbrev pub Holds : Map OutboxEvent → List OutboxEvent → Type 0
Holds m es =
    (k : String) (v : OutboxEvent) → lookup k m ≡ some v → (is_settled v || has_id k es) ≡ true

claim_loop-none :
    (now : Time) (n : ℤ) (taken : ℕ) (k : String) (m : Map OutboxEvent)
    → lookup k m ≡ none
    → lookup k (claim_loop now n taken m).0 ≡ none
unfolding claim_loop lookup
claim_loop-none now n taken k [] h = refl
claim_loop-none now n taken k ((id, w) ∷ m) h =
    ground (arith, claim_loop-none now n taken k m, claim_loop-none now n (suc taken) k m)

pub claim_loop-Distinct :
    (now : Time) (n : ℤ) (taken : ℕ) (m : Map OutboxEvent)
    → Distinct m
    → Distinct (claim_loop now n taken m).0
unfolding claim_loop
claim_loop-Distinct now n taken [] d = tt
claim_loop-Distinct now n taken ((id, w) ∷ m) d =
    elim (Bool-cases (is_claimable now w && ltb_ℤ (pos taken) n)) [
      | inl hit ↦
          rw hit (
            claim_loop-none now n (suc taken) id m d.0,
            claim_loop-Distinct now n (suc taken) m d.1,
          )
      | inr passed ↦
          rw passed (claim_loop-none now n taken id m d.0, claim_loop-Distinct now n taken m d.1)
    ]

pub claim_loop-Keyed :
    (now : Time) (n : ℤ) (taken : ℕ) (m : Map OutboxEvent)
    → Keyed m
    → Keyed (claim_loop now n taken m).0
unfolding claim_loop claimed
claim_loop-Keyed now n taken [] keyed = tt
claim_loop-Keyed now n taken ((id, w) ∷ m) keyed =
    elim (Bool-cases (is_claimable now w && ltb_ℤ (pos taken) n)) [
      | inl hit ↦ rw hit (keyed.0, claim_loop-Keyed now n (suc taken) m keyed.1)
      | inr passed ↦ rw passed (keyed.0, claim_loop-Keyed now n taken m keyed.1)
    ]

Holds-tail :
    (id : String) (w : OutboxEvent) (m : Map OutboxEvent)
    → lookup id m ≡ none
    → Holds ((id, w) ∷ m) []
    → Holds m []
unfolding lookup
Holds-tail id w m fresh holds k v h = ground (arith, holds k v, eq_iff id k)

pub claim_loop-Holds :
    (now : Time) (n : ℤ) (taken : ℕ) (m : Map OutboxEvent)
    → Keyed m
    → Distinct m
    → Holds m []
    → Holds (claim_loop now n taken m).0 (claim_loop now n taken m).1
unfolding claim_loop claimed lookup
claim_loop-Holds now n taken [] keyed d holds k v = λ h. absurd (ground arith)
claim_loop-Holds now n taken ((id, w) ∷ m) keyed d holds k v =
    let tail = Holds-tail id w m d.0 holds in
    elim (Bool-cases (is_claimable now w && ltb_ℤ (pos taken) n)) [
      | inl hit ↦ rw hit (λ h. ground (
        arith,
        claim_loop-Holds now n (suc taken) m keyed.1 d.1 tail k v,
        eq_iff id k,
        eq_iff w.id k,
        keyed.0,
      ))
      | inr passed ↦ rw passed (λ h.
          ground
            (arith, claim_loop-Holds now n taken m keyed.1 d.1 tail k v, holds k v, eq_iff id k))
    ]

pub mark_published-Holds :
    (s : Store) (e : OutboxEvent) (es : List OutboxEvent) (now : Time)
    → Holds s.outbox (e ∷ es)
    → Holds (mark_published s e.id now).0.outbox es
unfolding mark_published
mark_published-Holds s e es now holds k v h = elim (Option-cases (lookup e.id s.outbox)) [
  | inl missing ↦ ground (arith, holds k v, eq_iff e.id k)
  | inr (w, found) ↦ ground (
    arith,
    holds k v,
    lookup-insert e.id k (record w { published_at = some now }) s.outbox,
    eq_iff e.id k,
  )
]

pub mark_failed-Holds :
    (s : Store) (e : OutboxEvent) (es : List OutboxEvent) (now : Time) (message : String)
    → Holds s.outbox (e ∷ es)
    → Holds (mark_failed s e.id now message).0.outbox es
unfolding mark_failed put_back
mark_failed-Holds s e es now message holds k v h = elim (Option-cases (lookup e.id s.outbox)) [
  | inl missing ↦ ground (arith, holds k v, eq_iff e.id k)
  | inr (w, found) ↦
      ground
        (arith, holds k v, lookup-insert e.id k (put_back w now message) s.outbox, eq_iff e.id k)
]
