-- ===== src/Postgres/Migration/Truth.antt =====
-- What the rows of schema_migrations say of the tables.
use go_label.Base.{
  ◌≡◌, ◌⊎◌, inl, inr, refl, sym, ap, ◌∙◌, subst, String, true, false, ◌||◌, Option, none, some,
  List, [], ◌∷◌, ◌++◌, str_eq, map, append_assoc, append-nil, arith, eq_iff, Option-cases,
  Bool-cases,
}
use go_label.Base.Results.{Result, ok, err, Error, Result-cases}
use go_label.Postgres.Migration.{Migration, Stage, Failure, History, has_version, recorded, apply}

abbrev pub versions : List Migration → List String
versions ms = map (λ m. m.version) ms

-- No version twice.
abbrev pub AreDistinct : List String → Type 0
AreDistinct [] = Unit {0}
AreDistinct (v ∷ vs) = (has_version vs v ≡ false) × AreDistinct vs

pub has_version-append :
    (v w : String) (vs : List String)
    → has_version (vs ++ (v ∷ [])) w ≡ (has_version vs w || str_eq v w)
has_version-append v w [] = ground arith
has_version-append v w (x ∷ vs) = ground (arith, has_version-append v w vs)

has_version-snoc :
    (v w : String) (vs : List String)
    → has_version vs w ≡ false
    → str_eq v w ≡ false
    → has_version (vs ++ (v ∷ [])) w ≡ false
has_version-snoc v w [] h n = ground arith
has_version-snoc v w (x ∷ vs) h n = ground (arith, has_version-snoc v w vs)

AreDistinct-snoc :
    (v : String) (vs : List String)
    → has_version vs v ≡ false
    → AreDistinct vs
    → AreDistinct (vs ++ (v ∷ []))
AreDistinct-snoc v [] h d = ground arith
AreDistinct-snoc v (w ∷ vs) h d = (
  has_version-snoc v w vs d.0 (ground (arith, eq_iff v w, eq_iff w v)),
  AreDistinct-snoc v vs (ground arith) d.1,
)

module _ {S : Type 0} (sql : String → S → Result S) where
  -- Bodies executed one after the other.
  abbrev pub run_sql : List Migration → S → Result S
  run_sql [] t = ok t
  run_sql (m ∷ ms) t = elim (sql m.body t) [ err e ↦ err e | ok u ↦ run_sql ms u ]

  run_sql-snoc :
      (ms : List Migration) (m : Migration) (t u w : S)
      → run_sql ms t ≡ ok u
      → sql m.body u ≡ ok w
      → run_sql (ms ++ (m ∷ [])) t ≡ ok w
  run_sql-snoc [] m t u w h k = ground arith
  run_sql-snoc (n ∷ ms) m t u w h k = elim (Result-cases (sql n.body t)) [
    | inl (x, e) ↦ ground (arith, run_sql-snoc ms m x u w)
    | inr (x, e) ↦ ground arith
  ]

  -- The rows name distinct migrations, and the tables are what their bodies made in that order.
  pub record IsTruthful (start h : History S) : Type 0 where
    pub ran : List Migration
    pub rows : h.applied ≡ start.applied ++ versions ran
    pub made : run_sql ran start.tables ≡ ok h.tables
    pub distinct : AreDistinct h.applied

  pub IsTruthful-refl : (h : History S) → AreDistinct h.applied → IsTruthful h h
  IsTruthful-refl h d = record {
    ran = [];
    rows = sym (append-nil h.applied);
    made = refl;
    distinct = d;
  }

  module _ (driver : Stage → String → Option Error) where
    -- A transaction changes nothing, or commits a version that was not there.
    abbrev pub Commits : History S → Migration → History S → Type 0
    Commits h m t =
        (u : S) × (sql m.body h.tables ≡ ok u)
        × (has_version h.applied m.version ≡ false)
        × (t ≡ record { tables = u; applied = h.applied ++ (m.version ∷ []) })

    pub apply_cases :
        (h : History S) (m : Migration)
        → ((apply sql driver h m).0 ≡ h) ⊎ Commits h m (apply sql driver h m).0
    unfolding apply recorded
    apply_cases h m = elim (Result-cases (sql m.body h.tables)) [
      | inr (e, broken) ↦ inl (ground arith)
      | inl (u, made) ↦ elim (Bool-cases (has_version h.applied m.version)) [
        | inl taken ↦ inl (ground arith)
        | inr fresh ↦ elim (committed h m u made fresh) [
          | inl same ↦ inl same
          | inr wrote ↦ inr (u, made, fresh, wrote)
        ]
      ]
    ]
      where
        committed :
            (h : History S) (m : Migration) (u : S)
            → sql m.body h.tables ≡ ok u
            → has_version h.applied m.version ≡ false
            → ((apply sql driver h m).0 ≡ h)
              ⊎ ((apply sql driver h m).0
                  ≡ record { tables = u; applied = h.applied ++ (m.version ∷ []) })
        committed h m u made fresh = ground arith

    pub apply-IsTruthful :
        (start h : History S) (m : Migration)
        → IsTruthful start h
        → IsTruthful start (apply sql driver h m).0
    apply-IsTruthful start h m i = elim (apply_cases h m) [
      | inl same ↦ subst (IsTruthful start) (sym same) i
      | inr (u, made, fresh, wrote) ↦ subst (IsTruthful start) (sym wrote) (record {
        ran = i.ran ++ (m ∷ []);
        rows =
            ap (λ vs. vs ++ (m.version ∷ [])) i.rows
            ∙ append_assoc start.applied (versions i.ran) (m.version ∷ [])
            ∙ ap (λ vs. start.applied ++ vs) (sym (versions-snoc i.ran m));
        made = run_sql-snoc i.ran m start.tables h.tables u i.made made;
        distinct = AreDistinct-snoc m.version h.applied fresh i.distinct;
      })
    ]
      where
        versions-snoc :
            (ms : List Migration) (m : Migration)
            → versions (ms ++ (m ∷ [])) ≡ versions ms ++ (m.version ∷ [])
        versions-snoc [] m = refl
        versions-snoc (n ∷ ms) m = ap (◌∷◌ n.version) (versions-snoc ms m)

    -- A version that has a row is refused, and changes nothing.
    pub apply_taken :
        (h : History S) (m : Migration)
        → has_version h.applied m.version ≡ true
        → (f : Failure) × (apply sql driver h m ≡ (h, some f))
    unfolding apply recorded
    apply_taken h m taken = elim (Option-cases (apply sql driver h m).1) [
      | inl passed ↦ absurd (ground arith)
      | inr (f, stopped) ↦ (f, ground arith)
    ]

    pub apply_fresh :
        (h : History S) (m : Migration) (u : S)
        → ((stage : Stage) (version : String) → driver stage version ≡ none)
        → has_version h.applied m.version ≡ false
        → sql m.body h.tables ≡ ok u
        → apply sql driver h m
          ≡ (record { tables = u; applied = h.applied ++ (m.version ∷ []) }, none)
    unfolding apply recorded
    apply_fresh h m u up fresh made = ground (
      arith,
      up Stage.begin m.version,
      up Stage.execute m.version,
      up Stage.record_version m.version,
      up Stage.commit m.version,
    )
