-- ===== src/Memory/Settling.antt =====
-- internal/worker/outbox.go over the memory store: what many ticks and enqueues leave of the outbox.
use go_label.Base.{
  ◌≡◌, ◌⊎◌, refl, ◌∙◌, inl, inr, sym, subst, String, Bool, true, some, List, [], ◌∷◌, arith, str_eq,
  eq_iff, Bool-cases, Option-cases, All,
}
use go_label.Base.Int64.{pos}
use go_label.Base.Instants.{Time}
use go_label.Base.Maps.{Map, lookup, insert, lookup-insert, Distinct, insert-Distinct, Each}
use go_label.Domain.Types.{OutboxEvent}
use go_label.Memory.State.{Store}
use go_label.Memory.Outbox.{enqueue, claim_loop, claim, mark_published, mark_failed, put_back}
use go_label.Memory.Worker.{publish, settle, settle_alive, tick, Keyed}
use go_label.Memory.Holding.{
  is_settled, Holds, claim_loop-Holds, claim_loop-Keyed, claim_loop-Distinct, mark_published-Holds,
  mark_failed-Holds,
}

settle_over :
    (ended : OutboxEvent → Bool) (message : String) (s : Store) (now : Time) (d : OutboxEvent)
    (es : List OutboxEvent)
    → ended d ≡ true
    → settle ended message s now (d ∷ es)
      ≡ settle ended message (mark_failed s d.id now message).0 now es
unfolding settle publish
settle_over ended message s now d es h = rw h refl

-- What the loop of a tick keeps: keys, and that only the events to come are held.
record IsGoing (s : Store) (es : List OutboxEvent) : Type 0 where
  held : Holds s.outbox es
  keyed : Keyed s.outbox
  distinct : Distinct s.outbox

Keyed-insert :
    (k : String) (v : OutboxEvent) (m : Map OutboxEvent) → v.id ≡ k → Keyed m → Keyed (insert k v m)
unfolding insert
Keyed-insert k v [] h keyed = (h, tt)
Keyed-insert k v ((j, w) ∷ m) h keyed = elim (Bool-cases (str_eq j k)) [
  | inl same ↦ rw same (h ∙ sym ((eq_iff j k).0 same), keyed.1)
  | inr other ↦ rw other (keyed.0, Keyed-insert k v m h keyed.1)
]

Keyed-lookup :
    (k : String) (v : OutboxEvent) (m : Map OutboxEvent) → Keyed m → lookup k m ≡ some v → v.id ≡ k
unfolding lookup
Keyed-lookup k v [] keyed h = absurd (ground arith)
Keyed-lookup k v ((j, w) ∷ m) keyed h = elim (Bool-cases (str_eq j k)) [
  | inl same ↦ ground (arith, keyed.0, eq_iff j k)
  | inr other ↦ Keyed-lookup k v m keyed.1 (ground arith)
]

-- The outbox as it was, or with one event written under its id.
abbrev Rewrites : Map OutboxEvent → String → Map OutboxEvent → Type 0
Rewrites m k t = (t ≡ m) ⊎ ((w : OutboxEvent) × (w.id ≡ k) × (t ≡ insert k w m))

rewritten-IsGoing :
    (s : Store) (k : String) (es : List OutboxEvent) (t : Store)
    → Rewrites s.outbox k t.outbox
    → Keyed s.outbox
    → Distinct s.outbox
    → Holds t.outbox es
    → IsGoing t es
rewritten-IsGoing s k es t (inl same) keyed d holds = record {
  held = holds;
  keyed = subst Keyed (sym same) keyed;
  distinct = subst Distinct (sym same) d;
}
rewritten-IsGoing s k es t (inr (w, named, wrote)) keyed d holds = record {
  held = holds;
  keyed = subst Keyed (sym wrote) (Keyed-insert k w s.outbox named keyed);
  distinct = subst Distinct (sym wrote) (insert-Distinct k w s.outbox d);
}

mark_published-Rewrites :
    (s : Store) (id : String) (now : Time)
    → Keyed s.outbox
    → Rewrites s.outbox id (mark_published s id now).0.outbox
unfolding mark_published
mark_published-Rewrites s id now keyed = elim (Option-cases (lookup id s.outbox)) [
  | inl missing ↦ inl (ground arith)
  | inr (w, found) ↦
      inr
        (record w { published_at = some now }, Keyed-lookup id w s.outbox keyed found, ground arith)
]

mark_failed-Rewrites :
    (s : Store) (id : String) (now : Time) (message : String)
    → Keyed s.outbox
    → Rewrites s.outbox id (mark_failed s id now message).0.outbox
unfolding mark_failed put_back
mark_failed-Rewrites s id now message keyed = elim (Option-cases (lookup id s.outbox)) [
  | inl missing ↦ inl (ground arith)
  | inr (w, found) ↦
      inr (put_back w now message, Keyed-lookup id w s.outbox keyed found, ground arith)
]

mark_published-IsGoing :
    (s : Store) (e : OutboxEvent) (es : List OutboxEvent) (now : Time)
    → IsGoing s (e ∷ es)
    → IsGoing (mark_published s e.id now).0 es
mark_published-IsGoing s e es now h =
    rewritten-IsGoing s e.id es (mark_published s e.id now).0
      (mark_published-Rewrites s e.id now h.keyed) h.keyed h.distinct
      (mark_published-Holds s e es now h.held)

mark_failed-IsGoing :
    (s : Store) (e : OutboxEvent) (es : List OutboxEvent) (now : Time) (message : String)
    → IsGoing s (e ∷ es)
    → IsGoing (mark_failed s e.id now message).0 es
mark_failed-IsGoing s e es now message h =
    rewritten-IsGoing s e.id es (mark_failed s e.id now message).0
      (mark_failed-Rewrites s e.id now message h.keyed) h.keyed h.distinct
      (mark_failed-Holds s e es now message h.held)

settle-IsGoing :
    (ended : OutboxEvent → Bool) (message : String) (s : Store) (now : Time) (es : List OutboxEvent)
    → IsGoing s es
    → IsGoing (settle ended message s now es) []
unfolding settle
settle-IsGoing ended message s now [] h = h
settle-IsGoing ended message s now (e ∷ es) h = elim (Bool-cases (ended e)) [
  | inl over ↦
      subst (λ t. IsGoing t []) (sym (settle_over ended message s now e es over))
        (settle-IsGoing ended message (mark_failed s e.id now message).0 now es
          (mark_failed-IsGoing s e es now message h))
  | inr alive ↦
      subst (λ t. IsGoing t []) (sym (settle_alive ended message s now e es alive))
        (settle-IsGoing ended message (mark_published s e.id now).0 now es
          (mark_published-IsGoing s e es now h))
]

tick-IsGoing :
    (ended : OutboxEvent → Bool) (message : String) (s : Store) (now : Time)
    → IsGoing s []
    → IsGoing (tick ended message s now) []
unfolding tick claim
tick-IsGoing ended message s now h =
    settle-IsGoing ended message (claim s now (pos 20)).0 now (claim_loop now (pos 20) 0 s.outbox).1
      (record {
        held = claim_loop-Holds now (pos 20) 0 s.outbox h.keyed h.distinct h.held;
        keyed = claim_loop-Keyed now (pos 20) 0 s.outbox h.keyed;
        distinct = claim_loop-Distinct now (pos 20) 0 s.outbox h.distinct;
      })

-- What happens to the outbox: an event comes in, or the worker has a tick, in which the context has
-- ended for some of the events.
pub data Happening : Type 0 where
  enqueues : OutboxEvent → Happening
  ticks : (OutboxEvent → Bool) → String → Time → Happening

unfoldable pub happen : Store → Happening → Store
happen s (Happening.enqueues v) = (enqueue s v).0
happen s (Happening.ticks ended message now) = tick ended message s now

unfoldable pub happen_all : Store → List Happening → Store
happen_all s [] = s
happen_all s (x ∷ xs) = happen_all (happen s x) xs

abbrev pub BringsSettled : Happening → Type 0
BringsSettled (Happening.enqueues v) = is_settled v ≡ true
BringsSettled (Happening.ticks ended message now) = Unit {0}

happen-IsGoing :
    (s : Store) (x : Happening) → BringsSettled x → IsGoing s [] → IsGoing (happen s x) []
unfolding happen enqueue
happen-IsGoing s (Happening.enqueues v) b h =
    rewritten-IsGoing s v.id [] (enqueue s v).0 (inr (v, refl, refl)) h.keyed h.distinct
      (λ k w found. ground (arith, lookup-insert v.id k v s.outbox, h.held k w))
happen-IsGoing s (Happening.ticks ended message now) b h = tick-IsGoing ended message s now h

happen_all-IsGoing :
    (s : Store) (xs : List Happening)
    → All BringsSettled xs
    → IsGoing s []
    → IsGoing (happen_all s xs) []
unfolding happen_all
happen_all-IsGoing s [] b h = h
happen_all-IsGoing s (x ∷ xs) b h =
    happen_all-IsGoing (happen s x) xs b.1 (happen-IsGoing s x b.0 h)

-- However ticks of the outbox worker over the memory store and enqueues follow each other, and
-- whichever events the context ends for, every stored event is afterwards published or free to be
-- claimed again: none stays claimed. It is asked that every event of the outbox stands once and
-- under its id, and that this holds at the start and of the events that come in.
pub happen_all-settles :
    (s : Store) (xs : List Happening)
    → Keyed s.outbox
    → Distinct s.outbox
    → Each (λ v. is_settled v ≡ true) s.outbox
    → All BringsSettled xs
    → Each (λ v. is_settled v ≡ true) (happen_all s xs).outbox
happen_all-settles s xs keyed d settled b k v found =
    let out = happen_all-IsGoing s xs b (record {
      held = λ k v found. ground (arith, settled k v found);
      keyed = keyed;
      distinct = d;
    }) in
    ground (arith, out.held k v found)
