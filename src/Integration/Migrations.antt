-- ===== src/Integration/Migrations.antt =====
-- integration/postgres/migrations.go. The library golang-migrate is a record of functions on `DB`,
-- what there is of the database.
use hwhkit_go.Prelude.{ℕ, String, Bool, Option, none, some, ◌==◌, nat_eq, string_eq, if◌then◌else◌}
use hwhkit_go.Prelude.Int.{ℤ}
use hwhkit_go.Core.CoreError.{Error, plain, wrapped, Result, ok, err}

-- The error of Up or Steps: one that is migrate.ErrNoChange, or another one.
pub data Failure : Type 0 where
  no_change : Error → Failure
  other_failure : Error → Failure

-- A *migrate.Migrate is the `M` that `new` returns for a source and a database URL.
pub record Library (DB M : Type 0) : Type 0 where
  pub new : String → String → Result M
  pub up : M → DB → DB × Option Failure
  pub steps : M → ℤ → DB → DB × Option Failure
  pub force : M → ℤ → DB → DB × Option Error
  -- Version: nothing for migrate.ErrNilVersion.
  pub version : M → DB → Result (Option (ℕ × Bool))

module _ {DB M : Type 0} (lib : Library DB M) where
  unfoldable pub run_migrations : String → String → DB → DB × Option Error
  run_migrations db_url source_url db =
      if source_url == ""
      then (db, some (plain "migrations source URL is empty"))
      else elim (lib.new source_url db_url) [
        | err e ↦ (db, some (wrapped "migrate.New" e))
        | ok m ↦
            let (db', failure) = lib.up m db in
            (
              db',
              elim failure [
                | none ↦ none
                | some f ↦ elim f [
                  | no_change e ↦ none
                  | other_failure e ↦ some (wrapped "migrate up" e)
                ]
              ],
            )
      ]
