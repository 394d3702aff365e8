-- ===== src/Memory/Worker.antt =====
-- internal/worker/outbox.go over the memory store: one tick of the worker that empties the outbox.
-- `ended` says whether the context is done when an event is published, `message` is its error.
use go_label.Base.{
  subst, sym, str_eq, ◌&&◌, ℕ, suc, ◌≡◌, refl, String, Bool, true, false, some, List, [], ◌∷◌,
  arith, All, if◌then◌else◌, inl, inr, Bool-cases, Option-cases, eq_iff, eq_refl,
}
use go_label.Base.Results.{Result, Error, ok, err, done}
use go_label.Base.Int64.{ℤ, pos, ltb_ℤ}
use go_label.Base.Instants.{Time}
use go_label.Base.Maps.{Map, lookup, has, lookup-insert}
use go_label.Domain.Types.{OutboxEvent}
use go_label.Memory.State.{Store}
use go_label.Memory.Outbox.{is_claimable, claim_loop, claim, claimed, mark_published, mark_failed}

unfoldable pub publish : Bool → String → Result (Unit {0})
publish ended message = if ended then err (Error.other message) else done

-- The loop of tick, which drops the results of MarkFailed and MarkPublished.
unfoldable pub settle : (OutboxEvent → Bool) → String → Store → Time → List OutboxEvent → Store
settle ended message s now [] = s
settle ended message s now (e ∷ es) =
    settle ended message
      (elim (publish (ended e) message) [
        | err x ↦ (mark_failed s e.id now message).0
        | ok u ↦ (mark_published s e.id now).0
      ])
      now es

unfoldable pub tick : (OutboxEvent → Bool) → String → Store → Time → Store
tick ended message s now =
    let (t, r) = claim s now (pos 20) in
    elim r [ err x ↦ t | ok events ↦ settle ended message t now events ]

-- Every event stands under its id.
abbrev pub Keyed : Map OutboxEvent → Type 0
Keyed [] = Unit {0}
Keyed ((k, v) ∷ m) = (v.id ≡ k) × Keyed m

abbrev Known : Store → OutboxEvent → Type 0
Known s e = has e.id s.outbox ≡ true

abbrev pub Published : Time → Store → OutboxEvent → Type 0
Published now s e =
    (w : OutboxEvent) × ((lookup e.id s.outbox ≡ some w) × (w.published_at ≡ some now))

has_later :
    (k : String) (v : OutboxEvent) (m : Map OutboxEvent) (es : List OutboxEvent)
    → All (λ e. has e.id m ≡ true) es
    → All (λ e. has e.id ((k, v) ∷ m) ≡ true) es
unfolding lookup
has_later k v m [] h = tt
has_later k v m (e ∷ es) h = (ground (arith, h.0), has_later k v m es h.1)

claim_loop-Known :
    (now : Time) (n : ℤ) (taken : ℕ) (m : Map OutboxEvent)
    → Keyed m
    → All (λ e. has e.id (claim_loop now n taken m).0 ≡ true) (claim_loop now n taken m).1
unfolding claim_loop claimed
claim_loop-Known now n taken [] h = tt
claim_loop-Known now n taken ((id, v) ∷ m) h =
    elim (Bool-cases (is_claimable now v && ltb_ℤ (pos taken) n)) [
      | inl hit ↦ rw hit (
        unfold lookup in ground (arith, h.0, eq_iff v.id id),
        has_later id (claimed now v) (claim_loop now n (suc taken) m).0
            (claim_loop now n (suc taken) m).1 (claim_loop-Known now n (suc taken) m h.1),
      )
      | inr passed ↦ rw passed (
          has_later id v (claim_loop now n taken m).0 (claim_loop now n taken m).1
            (claim_loop-Known now n taken m h.1))
    ]

mark_published-Published :
    (s : Store) (now : Time) (d e : OutboxEvent)
    → Published now s e
    → Published now (mark_published s d.id now).0 e
unfolding mark_published
mark_published-Published s now d e (w, (found, p)) = elim (Bool-cases (str_eq d.id e.id)) [
  | inl same ↦ (
    record w { published_at = some now },
    (
      ground (
        arith,
        eq_iff d.id e.id,
        lookup-insert e.id e.id (record w { published_at = some now }) s.outbox,
        eq_refl e.id,
      ),
      refl,
    ),
  )
  | inr other_id ↦ (
    w,
    (
      elim (Option-cases (lookup d.id s.outbox)) [
        | inl missing ↦ ground arith
        | inr (v, known) ↦
            ground (arith, lookup-insert d.id e.id (record v { published_at = some now }) s.outbox)
      ],
      p,
    ),
  )
]

mark_published-publishes :
    (s : Store) (now : Time) (e : OutboxEvent)
    → Known s e
    → Published now (mark_published s e.id now).0 e
unfolding mark_published
mark_published-publishes s now e h = elim (Option-cases (lookup e.id s.outbox)) [
  | inl missing ↦ ground arith
  | inr (v, found) ↦ (
    record v { published_at = some now },
    (
      ground (
        arith,
        lookup-insert e.id e.id (record v { published_at = some now }) s.outbox,
        eq_refl e.id,
      ),
      refl,
    ),
  )
]

mark_published-Known :
    (s : Store) (now : Time) (d : OutboxEvent) (es : List OutboxEvent)
    → All (Known s) es
    → All (Known (mark_published s d.id now).0) es
unfolding mark_published
mark_published-Known s now d [] h = tt
mark_published-Known s now d (e ∷ es) h = (
  elim (Option-cases (lookup d.id s.outbox)) [
    | inl missing ↦ ground (arith, h.0)
    | inr (v, found) ↦
        ground (arith, h.0, lookup-insert d.id e.id (record v { published_at = some now }) s.outbox)
  ],
  mark_published-Known s now d es h.1,
)

pub settle_alive :
    (ended : OutboxEvent → Bool) (message : String) (s : Store) (now : Time) (d : OutboxEvent)
    (es : List OutboxEvent)
    → ended d ≡ false
    → settle ended message s now (d ∷ es)
      ≡ settle ended message (mark_published s d.id now).0 now es
unfolding settle publish
settle_alive ended message s now d es h = rw h refl

settle-Published :
    (ended : OutboxEvent → Bool) (message : String) (s : Store) (now : Time) (es : List OutboxEvent)
    (e : OutboxEvent)
    → ((d : OutboxEvent) → ended d ≡ false)
    → Published now s e
    → Published now (settle ended message s now es) e
unfolding settle
settle-Published ended message s now [] e alive h = h
settle-Published ended message s now (d ∷ es) e alive h =
    rw (settle_alive ended message s now d es (alive d)) (
      settle-Published ended message (mark_published s d.id now).0 now es e alive
        (mark_published-Published s now d e h))

settle-publishes :
    (ended : OutboxEvent → Bool) (message : String) (s : Store) (now : Time) (es : List OutboxEvent)
    → ((d : OutboxEvent) → ended d ≡ false)
    → All (Known s) es
    → All (Published now (settle ended message s now es)) es
unfolding settle
settle-publishes ended message s now [] alive h = tt
settle-publishes ended message s now (e ∷ es) alive h =
    subst (λ t. All (Published now t) (e ∷ es))
      (sym (settle_alive ended message s now e es (alive e)))
      (
        settle-Published ended message (mark_published s e.id now).0 now es e alive
            (mark_published-publishes s now e h.0),
        settle-publishes ended message (mark_published s e.id now).0 now es alive
            (mark_published-Known s now e es h.1),
      )

-- While the context has not ended, a tick of the outbox worker over the memory store publishes
-- every event that Claim hands out to it: each is then stored under its id with the time of the
-- tick. It is asked that every event of the outbox stands under its id.
pub tick_publishes :
    (ended : OutboxEvent → Bool) (message : String) (s : Store) (now : Time)
    → ((d : OutboxEvent) → ended d ≡ false)
    → Keyed s.outbox
    → (out : List OutboxEvent) × (((claim s now (pos 20)).1 ≡ ok out)
        × All (Published now (tick ended message s now)) out)
unfolding tick claim
tick_publishes ended message s now alive keyed = (
  (claim_loop now (pos 20) 0 s.outbox).1,
  (
    refl,
    settle-publishes ended message (claim s now (pos 20)).0 now
        (claim_loop now (pos 20) 0 s.outbox).1 alive
        (claim_loop-Known now (pos 20) 0 s.outbox keyed),
  ),
)
