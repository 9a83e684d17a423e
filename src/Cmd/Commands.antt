-- ===== src/Cmd/Commands.antt =====
-- The commands of cmd/hwhkit as cobra gets them: main.go, migrate.go, dev.go and init.go. `S` is the
-- state outside the process; cobra's parsing of the arguments is a parameter.
use hwhkit_go.Prelude.{ℕ, String, Option, none, some, List, [], ◌∷◌, nat_eq, string_eq}
use hwhkit_go.Prelude.Int.{ℤ, pos}
use hwhkit_go.Prelude.Dict
use hwhkit_go.Prelude.Dict.{Dict}
use hwhkit_go.BuildInfo.{Variables}
use hwhkit_go.Config.Bootstrap.{BootstrapConfig}
use hwhkit_go.Core.Bootstrap.{Loaded}
use hwhkit_go.Core.CoreError.{Error, Result, ok, err}
use hwhkit_go.Integration.Migrations
use hwhkit_go.Cmd.Migrate
use hwhkit_go.Cmd.Migrate.{Done, FileSystem}
use hwhkit_go.Cmd.Dev.{dev, version_line}
use hwhkit_go.Cmd.Scaffold
use hwhkit_go.Cmd.Scaffold.{Visit}

pub data Value : Type 0 where
  text : String → Value
  number : ℤ → Value

-- StringVar and IntVar: the name of a flag, its default and its usage.
pub record Flag : Type 0 where
  pub name : String
  pub default : Value
  pub usage : String

-- The flags that a command line sets, and the value that a variable has after parsing.
abbrev pub Given : Type 0
Given = Dict Value

abbrev pub text_of : Given → String → String → String
text_of given name default = elim (Dict.get name given) [
  | none ↦ default
  | some v ↦ elim v [ text s ↦ s | number n ↦ default ]
]

abbrev pub number_of : Given → String → ℤ → ℤ
number_of given name default = elim (Dict.get name given) [
  | none ↦ default
  | some v ↦ elim v [ number n ↦ n | text s ↦ default ]
]

-- cobra.Command with RunE; `exact_args` is that of cobra.ExactArgs. `run` has the flags and the
-- arguments.
pub record Command (S : Type 0) : Type 0 where
  pub use_line : String
  pub short : String
  pub exact_args : Option ℕ
  pub flags : List Flag
  pub run : Given → List String → S → Done S

pub record Group (S : Type 0) : Type 0 where
  pub use_line : String
  pub short : String
  pub commands : List (Command S)

-- `args[0]`, which ExactArgs(1) has made sure of.
abbrev pub first_arg : List String → String
first_arg [] = ""
first_arg (a ∷ more) = a

abbrev pub url_variable : String
url_variable = "HWHKIT_PG_URL"

module _ {S M : Type 0} (getenv : String → String) (fs : FileSystem S) (timestamp : S → String)
    (migrations : Migrations.Library S M) (abs : String → Result String) (format_int : ℕ → String)
    (atoi : String → Result ℤ) where
  abbrev dir_flag : Flag
  dir_flag = record { name = "dir"; default = text "migrations"; usage = "migrations directory" }

  abbrev url_flag : String → Flag
  url_flag usage = record { name = "url"; default = text (getenv url_variable); usage = usage }

  unfoldable pub migrate_create_cmd : Command S
  migrate_create_cmd = record {
    use_line = "create <name>";
    short = "Create a new up/down migration pair";
    exact_args = some 1;
    flags = dir_flag ∷ [];
    run = λ given args s.
        Migrate.create fs (text_of given "dir" "migrations") (timestamp s) (first_arg args) s;
  }

  unfoldable pub migrate_up_cmd : Command S
  migrate_up_cmd = record {
    use_line = "up";
    short = "Apply pending migrations (or N steps with --steps)";
    exact_args = none;
    flags =
        url_flag "postgres URL (or $HWHKIT_PG_URL)"
        ∷ dir_flag
        ∷ record {
          name = "steps";
          default = number (pos 0);
          usage = "apply N migrations (0 = all pending)";
        }
        ∷ [];
    run = λ given args s.
        Migrate.up migrations abs format_int (text_of given "url" (getenv url_variable))
          (text_of given "dir" "migrations") (number_of given "steps" (pos 0)) s;
  }

  unfoldable pub migrate_down_cmd : Command S
  migrate_down_cmd = record {
    use_line = "down";
    short = "Revert migrations (defaults to 1 step)";
    exact_args = none;
    flags =
        url_flag "postgres URL"
        ∷ dir_flag
        ∷ record { name = "steps"; default = number (pos 1); usage = "revert N migrations" }
        ∷ [];
    run = λ given args s.
        Migrate.down migrations abs format_int (text_of given "url" (getenv url_variable))
          (text_of given "dir" "migrations") (number_of given "steps" (pos 1)) s;
  }

  unfoldable pub migrate_version_cmd : Command S
  migrate_version_cmd = record {
    use_line = "version";
    short = "Print current migration version";
    exact_args = none;
    flags = url_flag "postgres URL" ∷ dir_flag ∷ [];
    run = λ given args s.
        Migrate.version migrations abs format_int (text_of given "url" (getenv url_variable))
          (text_of given "dir" "migrations") s;
  }

  unfoldable pub migrate_force_cmd : Command S
  migrate_force_cmd = record {
    use_line = "force <version>";
    short = "Force the migration version (clears dirty state). Use with care.";
    exact_args = some 1;
    flags = url_flag "postgres URL" ∷ dir_flag ∷ [];
    run = λ given args s.
        Migrate.force migrations abs format_int atoi (first_arg args)
          (text_of given "url" (getenv url_variable)) (text_of given "dir" "migrations") s;
  }

  unfoldable pub migrate_cmd : Group S
  unfolding migrate_create_cmd migrate_up_cmd migrate_down_cmd migrate_version_cmd migrate_force_cmd
  migrate_cmd = record {
    use_line = "migrate";
    short = "Database migration management (wraps golang-migrate)";
    commands =
        migrate_create_cmd ∷ migrate_up_cmd ∷ migrate_down_cmd ∷ migrate_version_cmd
        ∷ migrate_force_cmd ∷ [];
  }

-- `load` is the Load of the default loader; `compose` runs docker.
unfoldable pub dev_cmd :
    {F S : Type 0}
    → (BootstrapConfig → Result (Loaded F))
    → (List String → Option Error)
    → Command S
dev_cmd load compose = record {
  use_line = "dev";
  short = "Bring up dependency containers based on detected integrations";
  exact_args = none;
  flags =
      record { name = "config-dir"; default = text "config"; usage = "config directory" }
      ∷ record { name = "env"; default = text "dev"; usage = "environment" }
      ∷ [];
  run = λ given args s.
      let (printed, (started, failure)) =
        dev load compose (text_of given "config-dir" "config") (text_of given "env" "dev") in
      record { state = s; printed = printed; error = failure };
}

-- `template` is what the walk of the embedded templates visits below a root.
unfoldable pub init_cmd :
    {S : Type 0} → Scaffold.Library S → (String → Visit × List Visit) → Command S
init_cmd lib template = record {
  use_line = "init <project-name>";
  short = "Scaffold a new hwhkit-go project from a template";
  exact_args = some 1;
  flags =
      record { name = "template"; default = text "minimal-api"; usage = "template to use" }
      ∷ record {
        name = "module";
        default = text "";
        usage = "Go module path (default: github.com/yourorg/<name>)";
      }
      ∷ [];
  run = λ given args s.
      let name = text_of given "template" "minimal-api" in
      let (root, others) = template name in
      let (s', (printed, failure)) =
        Scaffold.init lib name (text_of given "module" "") (first_arg args) root others s in
      record { state = s'; printed = printed; error = failure };
}

unfoldable pub version_cmd : {S : Type 0} → Variables → String → Command S
version_cmd vars runtime_version = record {
  use_line = "version";
  short = "Print the CLI version + git SHA";
  exact_args = none;
  flags = [];
  run = λ given args s. record {
    state = s;
    printed = version_line vars runtime_version ∷ [];
    error = none;
  };
}

-- The root command; `migrate` is its only group.
pub record Root (S : Type 0) : Type 0 where
  pub use_line : String
  pub short : String
  pub init : Command S
  pub migrate : Group S
  pub dev : Command S
  pub version : Command S

-- What the process leaves: the state, the lines on its output, and its exit status.
pub record Exit (S : Type 0) : Type 0 where
  pub state : S
  pub printed : List String
  pub status : ℕ

-- main: `resolve` is what Execute makes of the arguments, the command with its flags and its own
-- arguments. The error is printed to the other output.
unfoldable pub main :
    {S : Type 0}
    → (Root S → List String → Result (Command S × (Given × List String)))
    → Root S
    → List String
    → S
    → Exit S
main resolve root args s = elim (resolve root args) [
  | err e ↦ record { state = s; printed = []; status = 1 }
  | ok (command, (given, rest)) ↦
      let d = command.run given rest s in
      record {
        state = d.state;
        printed = d.printed;
        status = elim d.error [ none ↦ 0 | some e ↦ 1 ];
      }
]
