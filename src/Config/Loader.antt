-- ===== src/Config/Loader.antt =====
-- config/loader.go. koanf with its TOML parser and env provider, the file system, the HTTP client
-- and the validator are a record of functions. The context of a call is inside them.
pub mod EnvKeys
pub mod Sources
use Prim.Native.Char.{code}
use hwhkit_go.Prelude.{
  ℕ, ◌*◌, String, Bool, not, ◌&&◌, Option, none, some, List, [], ◌∷◌, ◌++◌, leb, ◌==◌, nat_eq,
  string_eq, if◌then◌else◌, or_else, any,
}
use hwhkit_go.Prelude.Text.{Bytes, append, concat, strip_prefix}
use hwhkit_go.Prelude.Int.{ℤ, pos, Duration, is_positive, of_millis, pos_part, second}
use hwhkit_go.Core.CoreError.{Error, plain, wrapped, Result, ok, err, ◌>>=◌}
use hwhkit_go.Core.Bootstrap.{Loaded}
use hwhkit_go.Config.AppConfig.{AppConfig}
use hwhkit_go.Config.Bootstrap.{BootstrapConfig, default_bootstrap}

abbrev pub env_prefix : String
env_prefix = "HWHKIT__"

-- os.Stat: the file is there, os.IsNotExist holds of the error, or it is another error.
pub data Stat : Type 0 where
  present missing : Stat
  stat_failed : Error → Stat

-- The reply to the request for the remote configuration; reading its body may fail.
pub record Reply : Type 0 where
  pub status_code : ℕ
  pub body : Result Bytes

-- `K` is a *koanf.Koanf. `load_env` gets the function on keys, and `send` the timeout.
pub record Library (F K Client : Type 0) : Type 0 where
  pub empty : K
  pub load_bytes : Bytes → K → Result K
  pub load_file : String → K → Result K
  pub load_env : (String → String) → K → Result K
  pub string_at : String → K → String
  pub int_at : String → K → ℤ
  pub unmarshal : K → Result (AppConfig F)
  pub validate : AppConfig F → Option Error
  pub join_path : String → String → String
  pub stat : String → Stat
  pub environ : List String
  pub getenv : String → String
  pub to_lower : String → String
  pub format_int : ℕ → String
  pub new_client : Duration → Client
  pub new_request : String → Option Error
  pub send : Client → String → Duration → Result Reply

-- Loader; its validator is in the library.
pub record Loader (Client : Type 0) : Type 0 where
  pub http_client : Option Client

-- strings.ReplaceAll(s, "__", ".").
unfoldable pub to_dots : String → String
to_dots String.[] = ""
to_dots (String.◌∷◌ c String.[]) = String.◌∷◌ c String.[]
to_dots (String.◌∷◌ c (String.◌∷◌ d s)) =
    let short = to_dots s in
    let rest = to_dots (String.◌∷◌ d s) in
    if code c == 95 && code d == 95 then append "." short else String.◌∷◌ c rest

-- strings.TrimPrefix.
unfoldable pub trim_prefix : String → String → String
unfolding strip_prefix
trim_prefix prefix s = if (strip_prefix prefix s).0 then (strip_prefix prefix s).1 else s

-- A ValidationError with its error, which Unwrap gives back, and the text of one without.
unfoldable pub validation_error : Error → Error
validation_error e = wrapped "config validation failed" e

unfoldable pub validation_text : (Error → String) → Option Error → String
validation_text text none = "validation failed"
validation_text text (some e) = append "config validation failed: " (text e)

-- The koanf that has been loaded so far, and AppliedSources.
abbrev pub Loading : Type 0 → Type 0
Loading K = K × List String

module _ {F K Client : Type 0} (lib : Library F K Client) where
  unfoldable pub map_key : String → String
  unfolding to_dots trim_prefix
  map_key key = lib.to_lower (to_dots (trim_prefix env_prefix key))

  unfoldable pub has_env_override : Bool
  unfolding strip_prefix
  has_env_override = any (λ e. (strip_prefix env_prefix e).0) lib.environ

  unfoldable pub fetch_timeout : ℤ → Duration
  fetch_timeout timeout_ms =
      if is_positive timeout_ms then of_millis (pos_part timeout_ms) else pos (5 * second)

  unfoldable pub fetch_remote : Option Client → String → ℤ → Result Bytes
  unfolding fetch_timeout
  fetch_remote client url timeout_ms =
      let c = or_else client (lib.new_client (pos (5 * second))) in
      elim (lib.new_request url) [
        | some e ↦ err e
        | none ↦ elim (lib.send c url (fetch_timeout timeout_ms)) [
          | err e ↦ err e
          | ok resp ↦
              if leb 400 resp.status_code
              then err (plain (append "remote returned " (lib.format_int resp.status_code)))
              else resp.body
        ]
      ]

  -- The stages of Load, each with its early returns.
  unfoldable pub load_default : Bytes → Result (Loading K)
  load_default default_toml = elim (lib.load_bytes default_toml lib.empty) [
    | err e ↦ err (wrapped "default.toml" e)
    | ok k ↦ ok (k, "embedded:default.toml" ∷ [])
  ]

  unfoldable pub load_file_layer : BootstrapConfig → Loading K → Result (Loading K)
  load_file_layer bs (k, applied) =
      let path = lib.join_path bs.config_dir (append bs.env ".toml") in
      if not (bs.config_dir == "") && not (bs.env == "")
      then elim (lib.stat path) [
        | present ↦ elim (lib.load_file path k) [
          | err e ↦ err (wrapped path e)
          | ok k' ↦ ok (k', applied ++ append "file:" path ∷ [])
        ]
        | missing ↦ ok (k, applied)
        | stat_failed e ↦ err (wrapped (append "stat " path) e)
      ]
      else ok (k, applied)

  unfoldable pub load_env_layer : Loading K → Result (Loading K)
  unfolding map_key has_env_override
  load_env_layer (k, applied) = elim (lib.load_env map_key k) [
    | err e ↦ err (wrapped "env" e)
    | ok k' ↦ ok (
      k',
      if has_env_override then applied ++ concat ("env:" ∷ env_prefix ∷ "*" ∷ []) ∷ [] else applied,
    )
  ]

  unfoldable pub load_remote_layer : Loader Client → Loading K → Result (Loading K)
  unfolding fetch_remote
  load_remote_layer l (k, applied) =
      let url = lib.string_at "remote.url" k in
      if not (url == "")
      then elim (fetch_remote l.http_client url (lib.int_at "remote.timeout_ms" k)) [
        | err e ↦ err (wrapped (append "remote " url) e)
        | ok body ↦ elim (lib.load_bytes body k) [
          | err e ↦ err (wrapped "remote parse" e)
          | ok k' ↦ ok (k', applied ++ append "remote:" url ∷ [])
        ]
      ]
      else ok (k, applied)

  unfoldable pub finish_load : Loading K → Result (Loaded F)
  unfolding validation_error
  finish_load (k, applied) = elim (lib.unmarshal k) [
    | err e ↦ err (wrapped "unmarshal" e)
    | ok cfg ↦ elim (lib.validate cfg) [
      | some e ↦ err (validation_error e)
      | none ↦ ok (record { config = cfg; applied_sources = applied })
    ]
  ]

  unfoldable pub load : Bytes → Loader Client → Option BootstrapConfig → Result (Loaded F)
  unfolding load_default load_file_layer load_env_layer load_remote_layer finish_load
  load default_toml l bs =
      load_default default_toml
      >>= load_file_layer (or_else bs (default_bootstrap lib.getenv))
      >>= load_env_layer
      >>= load_remote_layer l
      >>= finish_load

  unfoldable pub default_loader : Loader Client
  default_loader = record { http_client = some (lib.new_client (pos (5 * second))) }
