-- ===== src/Ledgers/Finance.antt =====
-- internal/finance/ledger.go: entries of debits and credits, and a running balance for each tenant.
use go_label.Base.{
  ◌≡◌, refl, String, Bool, not, ◌||◌, ◌&&◌, none, some, List, [], ◌∷◌, ◌++◌, arith, is_blank,
  str_eq, eq_iff, if◌then◌else◌, keep_if, any,
}
use go_label.Base.Results.{Result, err, done, invalid, conflict}
use go_label.Base.Int64.{ℤ, pos, ltb_ℤ, eq_ℤ, eq_ℤ_iff, add64, sub64}
use go_label.Base.Instants.{Time, before, is_zero}
use go_label.Base.Maps.{Map, lookup, insert, lookup-insert}
use go_label.Base.Sorting.{sort_by}

pub record Entry : Type 0 where
  pub id : String
  pub tenant_id : String
  pub shipment_id : String
  pub currency : String
  pub debit : ℤ
  pub credit : ℤ
  pub memo : String
  pub posted_at : Time

pub record Ledger : Type 0 where
  pub entries : List Entry
  pub balances : Map ℤ

unfoldable pub new : Ledger
new = record { entries = []; balances = [] }

-- `l.balances[tenant]`.
unfoldable pub balance : Ledger → String → ℤ
balance l tenant = elim (lookup tenant l.balances) [ none ↦ pos 0 | some n ↦ n ]

-- The three checks of Post on the entry.
unfoldable pub is_rejected : Entry → Bool
is_rejected e =
    (is_blank e.id
      || (is_blank e.tenant_id
          || (is_blank e.shipment_id || (is_blank e.currency || is_zero e.posted_at))))
    || ((ltb_ℤ e.debit (pos 0)
          || (ltb_ℤ e.credit (pos 0) || (eq_ℤ e.debit (pos 0) && eq_ℤ e.credit (pos 0))))
        || (ltb_ℤ (pos 0) e.debit && ltb_ℤ (pos 0) e.credit))

unfoldable pub post : Ledger → Entry → Ledger × Result (Unit {0})
unfolding balance
post l e =
    if is_rejected e
    then (l, err invalid)
    else if any (λ old. str_eq old.id e.id) l.entries
    then (l, err conflict)
    else (
      record {
        entries = l.entries ++ e ∷ [];
        balances =
            insert e.tenant_id (add64 (balance l e.tenant_id) (sub64 e.credit e.debit)) l.balances;
      },
      done,
    )

unfoldable pub entries_of : Ledger → String → List Entry
entries_of l tenant =
    sort_by (λ a b. before a.posted_at b.posted_at)
      (keep_if (λ e. str_eq e.tenant_id tenant) l.entries)

-- The loop of Reconcile over its total.
unfoldable pub total_from : ℤ → String → List Entry → ℤ
total_from total tenant [] = total
total_from total tenant (e ∷ es) =
    total_from (if str_eq e.tenant_id tenant then add64 total (sub64 e.credit e.debit) else total)
      tenant es

unfoldable pub reconcile : Ledger → String → Result (Unit {0})
reconcile l tenant =
    if not (eq_ℤ (total_from (pos 0) tenant l.entries) (balance l tenant))
    then err conflict
    else done

unfoldable pub post_all : Ledger → List Entry → Ledger
post_all l [] = l
post_all l (e ∷ es) = post_all (post l e).0 es

-- Every balance is the total of the entries.
abbrev IsBalanced : Ledger → Type 0
IsBalanced l = (tenant : String) → balance l tenant ≡ total_from (pos 0) tenant l.entries

total_from-append :
    (total : ℤ) (tenant : String) (es : List Entry) (e : Entry)
    → total_from total tenant (es ++ e ∷ []) ≡ (
        if str_eq e.tenant_id tenant
        then add64 (total_from total tenant es) (sub64 e.credit e.debit)
        else total_from total tenant es)
unfolding total_from
total_from-append total tenant [] e = refl
total_from-append total tenant (x ∷ es) e =
    total_from-append
      (if str_eq x.tenant_id tenant then add64 total (sub64 x.credit x.debit) else total) tenant es
      e

post-IsBalanced : (l : Ledger) (e : Entry) → IsBalanced l → IsBalanced (post l e).0
unfolding post
post-IsBalanced l e h tenant = ground (
  arith,
  h tenant,
  h e.tenant_id,
  total_from-append (pos 0) tenant l.entries e,
  eq_iff e.tenant_id tenant,
  lookup-insert e.tenant_id tenant (add64 (balance l e.tenant_id) (sub64 e.credit e.debit))
      l.balances,
)

post_all-IsBalanced : (l : Ledger) (es : List Entry) → IsBalanced l → IsBalanced (post_all l es)
unfolding post_all
post_all-IsBalanced l [] h = h
post_all-IsBalanced l (e ∷ es) h = post_all-IsBalanced (post l e).0 es (post-IsBalanced l e h)

-- After any sequence of posts to a new finance ledger, refused ones included, the ledger of every
-- tenant reconciles.
pub reconcile-post_all :
    (es : List Entry) (tenant : String) → reconcile (post_all new es) tenant ≡ done
unfolding reconcile
reconcile-post_all es tenant =
    let balanced =
      post_all-IsBalanced new es (unfold new balance lookup total_from in λ t. refl) tenant in
    ground (
      arith,
      balanced,
      eq_ℤ_iff (total_from (pos 0) tenant (post_all new es).entries)
          (balance (post_all new es) tenant),
    )
