-- ===== src/Postgres/Migration.antt =====
-- The migration runner of internal/repository/postgres/migration.go. What the SQL of a migration
-- does to the tables is a parameter, and so are the errors that the driver gives in one run, of which
-- no statement is executed twice for one version.
use Prim.Native.Char.{code}
use go_label.Base.{
  ◌≡◌, ◌⊎◌, inl, inr, refl, ℕ, String, concat, Bool, true, false, not, ◌&&◌, ◌||◌, Option, none,
  some, List, [], ◌∷◌, ◌++◌, any, is_blank, str_eq, nat_eq, if◌then◌else◌,
}
use go_label.Base.Results.{Result, ok, err, Error, not_found}
use go_label.Base.Maps.{Map, lookup}
use go_label.Base.Sorting.{sort_by}
use go_label.Postgres.Tables.{duplicate_key}
pub mod Truth
pub mod Alone
pub mod Again
pub mod Startup
pub mod Finish
mod Examples

-- An entry of a directory, with what os.ReadFile gives for it.
pub record Entry : Type 0 where
  pub name : String
  pub is_dir : Bool
  pub content : Result String

pub record Migration : Type 0 where
  pub version : String
  pub path : String
  pub body : String

-- The statements that can fail, and the error that `run` returns for one.
pub data Stage : Type 0 where
  prepare list read inspect begin execute record_version commit : Stage

pub record Failure : Type 0 where
  pub stage : Stage
  pub version : String
  pub error : Error

-- The tables that the migrations are about, and the rows of schema_migrations.
pub record History (S : Type 0) : Type 0 where
  pub tables : S
  pub applied : List String

-- What a run leaves: the history, the versions that the observer was told, and the error.
pub record Outcome (S : Type 0) : Type 0 where
  pub history : History S
  pub observed : List String
  pub failure : Option Failure

abbrev pub failed : Stage → String → Error → Failure
failed stage version error = record { stage = stage; version = version; error = error }

-- filepath.Ext of a name without separators.
unfoldable pub ext : String → String
ext String.[] = ""
ext (String.◌∷◌ c s) =
    let rest = ext s in if is_blank rest && nat_eq (code c) 0x2e then String.◌∷◌ c s else rest

-- filepath.Join of a directory and a name in it.
abbrev join : String → String → String
join root name = concat root (concat "/" name)

-- The directories are those that os.ReadDir can read.
abbrev has_entries : Map (List Entry) → String → Bool
has_entries dirs root = elim (lookup root dirs) [ some (e ∷ es) ↦ true | _ ↦ false ]

abbrev first_with : (String → Bool) → String → List String → String
first_with p default [] = default
first_with p default (c ∷ cs) = let rest = first_with p default cs in if p c then c else rest

unfoldable pub migration_root : Map (List Entry) → String
migration_root dirs =
    first_with (has_entries dirs) "migrations"
      ("migrations" ∷ "../../../../migrations" ∷ "../../../migrations" ∷ "../../migrations" ∷ [])

-- The loop of discover.
unfoldable pub read_all : String → List Entry → Failure ⊎ List Migration
unfolding ext
read_all root [] = inr []
read_all root (e ∷ es) =
    let rest = read_all root es in
    if e.is_dir || not (str_eq (ext e.name) ".sql") then rest else elim e.content [
      | err x ↦ inl (failed Stage.read e.name x)
      | ok body ↦ elim rest [
        | inl f ↦ inl f
        | inr ms ↦ inr (record { version = e.name; path = join root e.name; body = body } ∷ ms)
      ]
    ]

module _ (text_before : String → String → Bool) where
  abbrev version_before : Migration → Migration → Bool
  version_before v w = text_before v.version w.version

  unfoldable pub discover : Map (List Entry) → String → Failure ⊎ List Migration
  unfolding read_all
  discover dirs root = elim (lookup root dirs) [
    | none ↦ inl (failed Stage.list "" not_found)
    | some entries ↦ elim (read_all root entries) [
      | inl f ↦ inl f
      | inr ms ↦ inr (sort_by version_before ms)
    ]
  ]

-- `WHERE version=$1`.
abbrev pub has_version : List String → String → Bool
has_version vs version = any (λ v. str_eq v version) vs

module _ {S : Type 0} (sql : String → S → Result S) (driver : Stage → String → Option Error) where
  -- `CREATE TABLE IF NOT EXISTS`.
  unfoldable pub ensure_version_table : Option Failure
  ensure_version_table = elim (driver Stage.prepare "") [
    | some e ↦ some (failed Stage.prepare "" e)
    | none ↦ none
  ]

  unfoldable pub is_applied : History S → String → Result Bool
  is_applied h version = elim (driver Stage.inspect version) [
    | some e ↦ err e
    | none ↦ ok (has_version h.applied version)
  ]

  -- A transaction up to one of its statements: the driver's error rolls it back.
  abbrev pub guarded :
      Stage → Migration → History S → History S × Option Failure → History S × Option Failure
  guarded stage m h next = elim (driver stage m.version) [
    | some e ↦ (h, some (failed stage m.version e))
    | none ↦ next
  ]

  -- The INSERT and the commit, once the body has run: `version` is the primary key.
  unfoldable pub recorded : History S → Migration → S → History S × Option Failure
  recorded h m tables = guarded Stage.record_version m h (
      if has_version h.applied m.version
      then (h, some (failed Stage.record_version m.version duplicate_key))
      else guarded Stage.commit m h
          (record { tables = tables; applied = h.applied ++ (m.version ∷ []) }, none))

  unfoldable pub apply : History S → Migration → History S × Option Failure
  unfolding recorded
  apply h m = guarded Stage.begin m h (
      guarded Stage.execute m h (elim (sql m.body h.tables) [
        | err e ↦ (h, some (failed Stage.execute m.version e))
        | ok tables ↦ recorded h m tables
      ]))

  -- The loop of run.
  unfoldable pub migrate : History S → List Migration → Outcome S
  unfolding is_applied apply
  migrate h [] = record { history = h; observed = []; failure = none }
  migrate h (m ∷ ms) = elim (is_applied h m.version) [
    | err e ↦ record {
      history = h;
      observed = [];
      failure = some (failed Stage.inspect m.version e);
    }
    | ok true ↦ migrate h ms
    | ok false ↦
        let (t, out) = apply h m in
        elim out [
          | some f ↦ record { history = t; observed = m.version ∷ []; failure = some f }
          | none ↦ let rest = migrate t ms in record rest { observed = m.version ∷ rest.observed }
        ]
  ]

  unfoldable pub run : (String → String → Bool) → Map (List Entry) → History S → Outcome S
  unfolding ensure_version_table discover migration_root migrate
  run text_before dirs h = elim ensure_version_table [
    | some f ↦ record { history = h; observed = []; failure = some f }
    | none ↦ elim (discover text_before dirs (migration_root dirs)) [
      | inl f ↦ record { history = h; observed = []; failure = some f }
      | inr ms ↦ migrate h ms
    ]
  ]
