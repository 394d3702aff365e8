-- ===== src/Traffic/Ratelimit.antt =====
-- internal/ratelimit/limiter.go: a limit on the calls of a key in a window of time.
use Prim.Native.Nat.{min}
use go_label.Base.{
  ℕ, zero, suc, ◌-◌, ◌⊎◌, ◌≡◌, String, Bool, true, false, not, none, some, Option, [], arith,
  is_blank, if◌then◌else◌, inl, inr, Option-cases, Bool-cases,
}
use go_label.Base.Int64.{
  ℤ, pos, ltb_ℤ, leb_ℤ, add64, sub64, pos_part, IsInt64, ◌<ℤ◌, ◌≤ℤ◌, wrap64_fits, ◌+ℤ◌, ◌-ℤ◌,
  +ℤ_parts, -ℤ_parts,
}
use go_label.Base.Instants.{Time, before, add_duration, minute}
use go_label.Base.Maps.{Map, lookup, insert, delete, lookup-insert_self, Each, insert-Each}

pub record Window : Type 0 where
  pub started : Time
  pub count : ℤ

pub record Limiter : Type 0 where
  pub limit : ℤ
  pub duration : ℤ
  pub windows : Map Window

unfoldable pub new : ℤ → ℤ → Limiter
new limit d = record {
  limit = if ltb_ℤ limit (pos 1) then pos 1 else limit;
  duration = if leb_ℤ d (pos 0) then pos minute else d;
  windows = [];
}

-- The window that still runs: neither missing nor at its end.
unfoldable pub running : Limiter → String → Time → Option Window
running l key now = elim (lookup key l.windows) [
  | none ↦ none
  | some w ↦ if not (before now (add_duration w.started l.duration)) then none else some w
]

abbrev window : Limiter → String → Time → ℤ → Limiter
window l key started count = record l {
  windows = insert key (record { started = started; count = count }) l.windows;
}

unfoldable pub allow : Limiter → String → Time → Limiter × Bool
allow l key now = if is_blank key then (l, false) else elim (running l key now) [
  | none ↦ (window l key now (pos 1), true)
  | some w ↦
      if leb_ℤ l.limit w.count
      then (l, false)
      else (window l key w.started (add64 w.count (pos 1)), true)
]

unfoldable pub reset : Limiter → String → Limiter
reset l key = record l { windows = delete key l.windows }

unfoldable pub remaining : Limiter → String → Time → ℤ
remaining l key now = elim (running l key now) [
  | none ↦ l.limit
  | some w ↦ if leb_ℤ l.limit w.count then pos 0 else sub64 l.limit w.count
]

-- What New establishes and every call keeps.
pub record IsSound (l : Limiter) : Type 0 where
  pub some_calls : pos 0 <ℤ l.limit
  pub machine : IsInt64 l.limit
  pub lasts : pos 0 <ℤ l.duration
  pub counted : Each (λ w. (pos 0 <ℤ w.count) × (w.count ≤ℤ l.limit)) l.windows

running_cases :
    (l : Limiter) (key : String) (now : Time)
    → IsSound l
    → (running l key now ≡ none)
      ⊎ ((w : Window) × (running l key now ≡ some w)
          × (before now (add_duration w.started l.duration) ≡ true)
          × ((pos 0 <ℤ w.count) × (w.count ≤ℤ l.limit)))
unfolding running
running_cases l key now h = elim (Option-cases (lookup key l.windows)) [
  | inl missing ↦ inl (ground arith)
  | inr (w, found) ↦ elim (Bool-cases (before now (add_duration w.started l.duration))) [
    | inl runs ↦ inr (w, ground arith, runs, h.counted key w found)
    | inr over ↦ inl (ground arith)
  ]
]

window-IsSound :
    (l : Limiter) (key : String) (started : Time) (count : ℤ)
    → IsSound l
    → (pos 0 <ℤ count) × (count ≤ℤ l.limit)
    → IsSound (window l key started count)
window-IsSound l key started count h c = record {
  some_calls = h.some_calls;
  machine = h.machine;
  lasts = h.lasts;
  counted =
      insert-Each (λ w. (pos 0 <ℤ w.count) × (w.count ≤ℤ l.limit)) key
        (record { started = started; count = count }) l.windows c h.counted;
}

remaining-window :
    (l : Limiter) (key : String) (now started : Time) (count : ℤ)
    → before now (add_duration started l.duration) ≡ true
    → remaining (window l key started count) key now
      ≡ (if leb_ℤ l.limit count then pos 0 else sub64 l.limit count)
unfolding remaining running
remaining-window l key now started count h =
    ground (arith, lookup-insert_self key (record { started = started; count = count }) l.windows)

-- A call while calls remain is answered yes and takes one of them; any other is answered no.
abbrev pub Takes : Limiter → String → Time → Limiter × Bool → Type 0
Takes l key now r =
    (r.1 ≡ ltb_ℤ (pos 0) (remaining l key now))
    × (pos_part (remaining r.0 key now) ≡ pos_part (remaining l key now) - 1)
    × IsSound r.0

window-Takes_fresh :
    (l : Limiter) (key : String) (now : Time)
    → IsSound l
    → running l key now ≡ none
    → Takes l key now (window l key now (pos 1), true)
unfolding remaining
window-Takes_fresh l key now h stopped =
    let left = remaining-window l key now now (pos 1) (ground (arith, h.lasts)) in
    (
      ground (arith, h.some_calls),
      ground (
        arith,
        left,
        h.some_calls,
        h.machine,
        wrap64_fits (l.limit -ℤ pos 1),
        -ℤ_parts l.limit (pos 1),
      ),
      window-IsSound l key now (pos 1) h (ground (arith, h.some_calls)),
    )

window-Takes_next :
    (l : Limiter) (key : String) (now : Time) (w : Window)
    → IsSound l
    → running l key now ≡ some w
    → before now (add_duration w.started l.duration) ≡ true
    → pos 0 <ℤ w.count
    → w.count <ℤ l.limit
    → Takes l key now (window l key w.started (add64 w.count (pos 1)), true)
unfolding remaining
window-Takes_next l key now w h runs at positive below =
    let next =
      wrap64_fits (w.count +ℤ pos 1) (ground (arith, h.machine, +ℤ_parts w.count (pos 1))) in
    let left = remaining-window l key now w.started (w.count +ℤ pos 1) at in
    let before_it =
      wrap64_fits (l.limit -ℤ w.count) (ground (arith, h.machine, -ℤ_parts l.limit w.count)) in
    let after_it =
      wrap64_fits (l.limit -ℤ (w.count +ℤ pos 1)) (
        ground (arith, h.machine, -ℤ_parts l.limit (w.count +ℤ pos 1), +ℤ_parts w.count (pos 1))) in
    rw next (
      ground (arith, -ℤ_parts l.limit w.count, before_it),
      ground (
        arith,
        left,
        before_it,
        after_it,
        -ℤ_parts l.limit w.count,
        -ℤ_parts l.limit (w.count +ℤ pos 1),
        +ℤ_parts w.count (pos 1),
      ),
      window-IsSound l key w.started (w.count +ℤ pos 1) h
          (ground (arith, +ℤ_parts w.count (pos 1))),
    )

allow-Takes :
    (l : Limiter) (key : String) (now : Time)
    → is_blank key ≡ false
    → IsSound l
    → Takes l key now (allow l key now)
allow-Takes l key now k h = elim (running_cases l key now h) [
  | inl stopped ↦
      let goes : allow l key now ≡ (window l key now (pos 1), true) =
        unfold allow in ground arith in
      rw goes (window-Takes_fresh l key now h stopped)
  | inr (w, runs, at, (positive, most)) ↦ elim (Bool-cases (leb_ℤ l.limit w.count)) [
    | inl full ↦
        let refused : allow l key now ≡ (l, false) = unfold allow in ground arith in
        rw refused (unfold remaining in ground arith, unfold remaining in ground arith, h)
    | inr free ↦
        let goes : allow l key now ≡ (window l key w.started (add64 w.count (pos 1)), true) =
          unfold allow in ground arith in
        rw goes (window-Takes_next l key now w h runs at positive (ground arith))
  ]
]

-- The calls among `n` at one instant that are let through.
unfoldable pub admitted : Limiter → String → Time → ℕ → ℕ
admitted l key now zero = 0
admitted l key now (suc n) =
    let r = allow l key now in let rest = admitted r.0 key now n in if r.1 then suc rest else rest

-- Of any number of calls under a non-empty key at one instant, the rate limiter lets through as
-- many as remain by Remaining, or all of them when they are fewer. It is asked that the limit and
-- the window are positive, the limit fits in an int64, and every window counts from one to the
-- limit.
pub admitted_exactly :
    (l : Limiter) (key : String) (now : Time) (n : ℕ)
    → is_blank key ≡ false
    → IsSound l
    → admitted l key now n ≡ min n (pos_part (remaining l key now))
unfolding admitted
admitted_exactly l key now zero k h = ground arith
admitted_exactly l key now (suc n) k h =
    let (answer, left, sound) = allow-Takes l key now k h in
    let rest = admitted_exactly (allow l key now).0 key now n k sound in
    ground (arith, answer, left, rest)
