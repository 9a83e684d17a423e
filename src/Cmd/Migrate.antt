-- ===== src/Cmd/Migrate.antt =====
-- cmd/hwhkit/migrate.go. The flags are arguments, what is printed is a list of lines, and files are
-- written through a record of functions on the state `S` of the file system. The deferred Close of
-- the migrations is left out.
use hwhkit_go.Prelude.{
  ℕ, zero, suc, String, ◌≡◌, refl, true, Option, none, some, List, [], ◌∷◌, arith, ◌==◌, nat_eq,
  string_eq, if◌then◌else◌,
}
use Prim.Native.Char.{code}
use hwhkit_go.Prelude.Text.{append, concat}
use hwhkit_go.Prelude.Int.{ℤ, pos, negsuc, is_positive, ltb_ℤ}
use hwhkit_go.Core.CoreError.{Error, Result, ok, err}
use hwhkit_go.Integration.Migrations.{Library, Failure, no_change, other_failure}

-- What a command leaves: the state, its lines, and its error.
pub record Done (S : Type 0) : Type 0 where
  pub state : S
  pub printed : List String
  pub error : Option Error

-- strings.ReplaceAll(s, " ", "_").
unfoldable underscores : String → String
underscores String.[] = ""
underscores (String.◌∷◌ c s) =
    let rest = underscores s in if code c == 32 then String.◌∷◌ "_" rest else String.◌∷◌ c rest

-- `-n` for n > 0.
unfoldable pub negate : ℤ → ℤ
negate (pos zero) = pos 0
negate (pos (suc n)) = negsuc n
negate (negsuc n) = pos (suc n)

pub record FileSystem (S : Type 0) : Type 0 where
  pub mkdir_all : String → S → S × Option Error
  pub write_file : String → String → S → S × Option Error
  pub join_path : String → String → String
  pub base_name : String → String

module _ {S : Type 0} (fs : FileSystem S) where
  -- The loop over the two files.
  unfoldable write_all : List String → S → S × Option Error
  write_all [] s = (s, none)
  write_all (p ∷ ps) s =
      let (s', failure) = fs.write_file p (concat ("-- " ∷ fs.base_name p ∷ "\n" ∷ [])) s in
      let rest = write_all ps s' in elim failure [ some e ↦ (s', some e) | none ↦ rest ]

  -- `ts` is the time in UTC, as fourteen digits.
  unfoldable pub create : String → String → String → S → Done S
  unfolding write_all underscores
  create dir ts arg s =
      let name = underscores arg in
      let up = fs.join_path dir (concat (ts ∷ "_" ∷ name ∷ ".up.sql" ∷ [])) in
      let down = fs.join_path dir (concat (ts ∷ "_" ∷ name ∷ ".down.sql" ∷ [])) in
      let (made, no_dir) = fs.mkdir_all dir s in
      let (written, failure) = write_all (up ∷ down ∷ []) made in
      elim no_dir [
        | some e ↦ record { state = made; printed = []; error = some e }
        | none ↦ elim failure [
          | some e ↦ record { state = written; printed = []; error = some e }
          | none ↦ record { state = written; printed = up ∷ down ∷ []; error = none }
        ]
      ]

module _ {DB M : Type 0} (lib : Library DB M) (abs : String → Result String)
    (format_int : ℕ → String) where
  unfoldable pub open_migrate : String → String → Result M
  open_migrate url dir = elim (abs dir) [
    | err e ↦ err e
    | ok path ↦ lib.new (append "file://" path) url
  ]

  unfoldable pub ignore_no_change : DB × Option Failure → Done DB
  ignore_no_change (db, none) = record { state = db; printed = "ok" ∷ []; error = none }
  ignore_no_change (db, some (no_change e)) = record {
    state = db;
    printed = "ok" ∷ [];
    error = none;
  }
  ignore_no_change (db, some (other_failure e)) = record {
    state = db;
    printed = [];
    error = some e;
  }

  -- A command on the opened migrations.
  unfoldable pub with_migrate : String → String → (M → Done DB) → DB → Done DB
  unfolding open_migrate
  with_migrate url dir body db = elim (open_migrate url dir) [
    | err e ↦ record { state = db; printed = []; error = some e }
    | ok m ↦ body m
  ]

  unfoldable pub up : String → String → ℤ → DB → Done DB
  unfolding with_migrate ignore_no_change
  up url dir steps db =
      with_migrate url dir
        (λ m.
          if is_positive steps
          then ignore_no_change (lib.steps m steps db)
          else ignore_no_change (lib.up m db))
        db

  unfoldable pub down : String → String → ℤ → DB → Done DB
  unfolding with_migrate ignore_no_change negate
  down url dir steps db =
      let n = if is_positive steps then steps else pos 1 in
      with_migrate url dir (λ m. ignore_no_change (lib.steps m (negate n) db)) db

  unfoldable pub version : String → String → DB → Done DB
  unfolding with_migrate
  version url dir db =
      with_migrate url dir
        (λ m. elim (lib.version m db) [
          | err e ↦ record { state = db; printed = []; error = some e }
          | ok v ↦ elim v [
            | none ↦ record { state = db; printed = "no migrations applied yet" ∷ []; error = none }
            | some (ver, dirty) ↦ record {
              state = db;
              printed =
                  concat (
                    "version="
                    ∷ format_int ver
                    ∷ " dirty="
                    ∷ (if dirty then "true" else "false")
                    ∷ [])
                  ∷ [];
              error = none;
            }
          ]
        ])
        db

  -- `atoi` is strconv.Atoi.
  unfoldable pub force : (String → Result ℤ) → String → String → String → DB → Done DB
  unfolding with_migrate
  force atoi arg url dir db = elim (atoi arg) [
    | err e ↦ record { state = db; printed = []; error = some e }
    | ok ver ↦
        with_migrate url dir
          (λ m.
            let (db', failure) = lib.force m ver db in
            record { state = db'; printed = []; error = failure })
          db
  ]

  -- `hwhkit migrate down` never steps forwards: whatever --steps is, the number of steps that it
  -- asks for is negative, -1 for a count that is not positive. With no error it prints "ok".
  down_steps_back :
      (url dir : String) (steps : ℤ) (db : DB) (m : M)
      → open_migrate url dir ≡ ok m
      → (n : ℤ) × (ltb_ℤ n (pos 0) ≡ true)
        × (down url dir steps db ≡ ignore_no_change (lib.steps m n db))
  unfolding down with_migrate negate
  down_steps_back url dir (pos zero) db m opened =
      (negsuc 0, refl, rw (opened, down, with_migrate) refl)
  down_steps_back url dir (pos (suc k)) db m opened =
      (negsuc k, ground arith, rw (opened, down, with_migrate) (ground arith))
  down_steps_back url dir (negsuc k) db m opened =
      (negsuc 0, refl, rw (opened, down, with_migrate) refl)
