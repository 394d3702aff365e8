-- ===== src/Desk/Notification.antt =====
-- internal/notification/router.go, with its in-memory sender as the sender of every channel.
use go_label.Base.{
  ◌≡◌, refl, String, ◌||◌, Option, none, some, List, [], ◌∷◌, ◌++◌, arith, is_blank, if◌then◌else◌,
  Bool-cases, inl, inr,
}
use go_label.Base.Results.{Result, ok, err, Error, done, invalid, conflict, not_found}
use go_label.Base.Int64.{ℤ, pos, ltb_ℤ, sub64}
use go_label.Base.Instants.{Time}
use go_label.Base.Maps.{Map, lookup, insert, has, lookup-insert_self}
use go_label.Base.Text.{trim_space}

pub record Message : Type 0 where
  pub id : String
  pub tenant_id : String
  pub recipient : String
  pub channel : String
  pub subject : String
  pub body : String
  pub created_at : Time

pub record MemorySender : Type 0 where
  pub sent : List Message
  pub failures : ℤ

-- `Send`: whether the context has ended is an argument.
unfoldable pub send : MemorySender → Option Error → Message → MemorySender × Result (Unit {0})
send m ended v = elim ended [
  | some e ↦ (m, err e)
  | none ↦
      if ltb_ℤ (pos 0) m.failures
      then (
        record m { failures = sub64 m.failures (pos 1) },
        err (Error.other "temporary notification failure"),
      )
      else (record m { sent = m.sent ++ (v ∷ []) }, done)
]

-- `Register`.
unfoldable pub register :
    Map MemorySender → String → MemorySender → Map MemorySender × Result (Unit {0})
register r channel s =
    if is_blank (trim_space channel)
    then (r, err invalid)
    else if has channel r
    then (r, err conflict)
    else (insert channel s r, done)

unfoldable pub deliver :
    Map MemorySender → Option Error → Message → Map MemorySender × Result (Unit {0})
unfolding send
deliver r ended v =
    if is_blank v.id || (is_blank v.recipient || is_blank v.body)
    then (r, err invalid)
    else elim (lookup v.channel r) [
      | none ↦ (r, err not_found)
      | some s ↦ let (t, out) = send s ended v in (insert v.channel t r, out)
    ]

-- What a sender has sent after a call.
abbrev pub sent_after : List Message → Message → Result (Unit {0}) → List Message
sent_after sent v (ok u) = sent ++ (v ∷ [])
sent_after sent v (err e) = sent

send_lem :
    (s : MemorySender) (ended : Option Error) (v : Message)
    → (send s ended v).0.sent ≡ sent_after s.sent v (send s ended v).1
unfolding send
send_lem s (some e) v = refl
send_lem s none v = ground arith

-- A message that is delivered stands last among those sent on its channel, and one that is not
-- delivered is not among them.
pub deliver_lem :
    (r : Map MemorySender) (ended : Option Error) (v : Message) (s : MemorySender)
    → lookup v.channel r ≡ some s
    → let (t, out) = deliver r ended v in
      (w : MemorySender) × (lookup v.channel t ≡ some w) × (w.sent ≡ sent_after s.sent v out)
unfolding deliver
deliver_lem r ended v s found =
    elim (Bool-cases (is_blank v.id || (is_blank v.recipient || is_blank v.body))) [
      | inl refused ↦ rw refused (s, found, refl)
      | inr whole ↦
          rw (whole, found)
            (
              (send s ended v).0,
              lookup-insert_self v.channel (send s ended v).0 r,
              send_lem s ended v,
            )
    ]
