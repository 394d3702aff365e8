-- ===== src/Postgres/Tables.antt =====
-- The tables of migrations/001_core.sql that internal/repository/postgres reads and writes, and what
-- statements do to them. A row is kept under its primary key. A statement that breaks a constraint
-- changes nothing, and so does a transaction that does not commit.
use go_label.Base.{
  ◌≡◌, refl, ◌^◌, String, Bool, true, false, not, ◌&&◌, ◌||◌, Option, none, some, List, [], ◌∷◌,
  any, is_some, is_blank, str_eq, if◌then◌else◌,
}
use go_label.Base.Results.{Result, err, Error}
use go_label.Base.Int64.{ℤ, pos, ltb_ℤ, leb_ℤ, sub_ℕ}
use go_label.Base.Instants.{Time}
use go_label.Base.Text.{strip_prefix}
use go_label.Base.Maps.{Map, values, map_values}
use go_label.Domain.Types.{
  User, Session, Shipment, FlightLeg, CustomsCase, SecurityCheck, AuditEvent, OutboxEvent,
}

-- The database: `down` is the error that the driver gives instead of running a statement, and
-- `column_time` is what the driver and a column of type timestamptz, which counts microseconds, make
-- of an instant.
pub record Database : Type 0 where
  pub down : Option Error
  pub column_time : Time → Time
  pub tenants : List String
  pub users : Map User
  pub sessions : Map Session
  pub shipments : Map Shipment
  pub legs : Map FlightLeg
  pub customs : Map CustomsCase
  pub security : Map SecurityCheck
  pub audit : Map AuditEvent
  pub outbox : Map OutboxEvent

-- What a column that may be NULL makes of an instant.
abbrev pub nullable_time : Database → Option Time → Option Time
nullable_time d none = none
nullable_time d (some t) = some (d.column_time t)

-- A query, and a statement that may change the tables.
abbrev pub queried {ℓ} : {A : Type ℓ} → Database → Result A → Result A
queried d out = elim d.down [ some e ↦ err e | none ↦ out ]

abbrev pub executed {ℓ} : {A : Type ℓ} → Database → Database × Result A → Database × Result A
executed d out = elim d.down [ some e ↦ (d, err e) | none ↦ out ]

-- The errors of PostgreSQL for broken constraints and numbers out of range.
abbrev pub duplicate_key : Error
duplicate_key = Error.other "duplicate key value violates unique constraint"

abbrev pub check_violation : Error
check_violation = Error.other "new row violates check constraint"

abbrev pub foreign_key_violation : Error
foreign_key_violation = Error.other "insert or update violates foreign key constraint"

abbrev pub out_of_range : Error
out_of_range = Error.other "out of range"

-- `contains`: the loop over the places of `w` in `v`.
unfoldable pub contains : String → String → Bool
unfolding strip_prefix
contains String.[] w = is_some (strip_prefix w "")
contains (String.◌∷◌ c v) w =
    let later = contains v w in is_some (strip_prefix w (String.◌∷◌ c v)) || later

-- `isUnique`.
unfoldable pub is_unique : Error → Bool
unfolding contains
is_unique (Error.other text) = not (is_blank text) && contains text "duplicate key"
is_unique _ = false

duplicates_found : (is_unique duplicate_key ≡ true) × (is_unique check_violation ≡ false)
unfolding is_unique
duplicates_found = (refl, refl)

module _ {V : Type 0} where
  -- `SELECT ... WHERE`, of a condition that a unique key makes true of one row at most.
  abbrev pub first_row : (V → Bool) → List V → Option V
  first_row p [] = none
  first_row p (v ∷ vs) = let rest = first_row p vs in if p v then some v else rest

  abbrev pub has_row : (V → Bool) → Map V → Bool
  has_row p m = any p (values m)

  -- `UPDATE ... SET ... WHERE`.
  abbrev pub update_where : (V → Bool) → (V → V) → Map V → Map V
  update_where p f m = map_values (λ v. if p v then f v else v) m

-- The columns of type integer and bigint.
abbrev pub fits_integer : ℤ → Bool
fits_integer n = leb_ℤ (sub_ℕ 0 (2 ^ 31)) n && ltb_ℤ n (pos (2 ^ 31))

abbrev pub fits_bigint : ℤ → Bool
fits_bigint n = leb_ℤ (sub_ℕ 0 (2 ^ 63)) n && ltb_ℤ n (pos (2 ^ 63))

abbrev pub has_tenant : String → Database → Bool
has_tenant id d = any (λ t. str_eq t id) d.tenants
