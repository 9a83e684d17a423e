-- ===== src/Config/Loader/Sources.antt =====
-- The configuration that Load returns, as what the sources in AppliedSources give in their order.
use mathlib.Core.List.{map-append}
use hwhkit_go.Prelude.{
  String, ◌≡◌, refl, sym, ap, ◌∙◌, subst, ◌⊎◌, inl, inr, Bool, false, not, ◌&&◌, Option, none, some,
  List, [], ◌∷◌, ◌++◌, map, append-nil, ◌==◌, nat_eq, string_eq, if◌then◌else◌, Bool-cases,
  Option-cases, or_else,
}
use hwhkit_go.Prelude.Text.{Bytes, append, concat}
use hwhkit_go.Core.CoreError.{ok-injective, Result-cases, Result, ok, err, ◌>>=◌}
use hwhkit_go.Config.Loader.{
  env_prefix, Library, map_key, Loading, load_file_layer, BootstrapConfig, Error, Stat, wrapped,
  load_env_layer, load_remote_layer, present, has_env_override, Loader, missing, fetch_remote,
  stat_failed, finish_load, load_default, load, Loaded, validation_error, default_bootstrap,
}

pub data Source : Type 0 where
  embedded : Source
  file : String → Source
  env : Source
  remote : String → Bytes → Source

-- As it is written in AppliedSources.
abbrev pub source_name : Source → String
source_name embedded = "embedded:default.toml"
source_name (file path) = append "file:" path
source_name env = concat ("env:" ∷ env_prefix ∷ "*" ∷ [])
source_name (remote url body) = append "remote:" url

abbrev pub file_part : Option String → List Source
file_part none = []
file_part (some path) = file path ∷ []

abbrev pub env_part : Bool → List Source
env_part overridden = if overridden then env ∷ [] else []

abbrev pub remote_part : Option (String × Bytes) → List Source
remote_part none = []
remote_part (some (url, body)) = remote url body ∷ []

never_both : {A : Type 0} (m : Result A) (e : Error) (a : A) → m ≡ err e → m ≡ ok a → ⊥
never_both m e a bad good = cc

Stat-cases : (s : Stat) → (s ≡ present) ⊎ ((s ≡ missing) ⊎ ((e : Error) × (s ≡ stat_failed e)))
Stat-cases present = inl refl
Stat-cases missing = inr (inl refl)
Stat-cases (stat_failed e) = inr (inr (e, refl))

pub ok->>= :
    {A B : Type 0} (m : Result A) (f : A → Result B) (b : B)
    → (m >>= f) ≡ ok b
    → (a : A) × (m ≡ ok a) × (f a ≡ ok b)
ok->>= (ok a) f b h = (a, refl, h)
ok->>= (err e) f b h = absurd (cc)

module _ {F K Client : Type 0} (lib : Library F K Client) (default_toml : Bytes) where
  abbrev pub load_source : Source → K → Result K
  load_source embedded k = lib.load_bytes default_toml k
  load_source (file path) k = lib.load_file path k
  load_source env k = lib.load_env (map_key lib) k
  load_source (remote url body) k = lib.load_bytes body k

  abbrev pub replay : List Source → K → Result K
  replay [] k = ok k
  replay (s ∷ ss) k = load_source s k >>= replay ss

  replay-append : (ss ts : List Source) (k : K) → replay (ss ++ ts) k ≡ (replay ss k >>= replay ts)
  replay-append [] ts k = refl
  replay-append (s ∷ ss) ts k = elim (Result-cases (load_source s k)) [
    | inl (k', good) ↦ rw (good) (replay-append ss ts k')
    | inr (e, bad) ↦ rw (bad) refl
  ]

  -- A stage of Load has loaded these sources, in this order, and has named them.
  abbrev Replays : List Source → Loading K → Type 0
  Replays ss (k, applied) = (applied ≡ map source_name ss) × (replay ss lib.empty ≡ ok k)

  Replays-last :
      (ss : List Source) (s : Source) (k k' : K) (applied : List String)
      → Replays ss (k, applied)
      → load_source s k ≡ ok k'
      → Replays (ss ++ s ∷ []) (k', applied ++ source_name s ∷ [])
  Replays-last ss s k k' applied (named, loaded) next = (
    ap (λ l. l ++ source_name s ∷ []) named ∙ sym (map-append source_name ss (s ∷ [])),
    replay-append ss (s ∷ []) lib.empty ∙ (rw (loaded, next) refl),
  )

  Replays-stay : (ss : List Source) (st : Loading K) → Replays ss st → Replays (ss ++ []) st
  Replays-stay ss st h = subst (λ ts. Replays ts st) (sym (append-nil ss)) h

  ended : {A : Type 0} (P : A → Type 0) (m : Result A) (a b : A) → m ≡ ok a → m ≡ ok b → P a → P b
  ended P m a b ha hb p = subst P (ok-injective (sym ha ∙ hb)) p

  -- The file of the environment, if it is looked for and there.
  abbrev pub file_of : BootstrapConfig → Option String
  file_of bs =
      let path = lib.join_path bs.config_dir (append bs.env ".toml") in
      let found : Option String = elim (lib.stat path) [
        | present ↦ some path
        | missing ↦ none
        | stat_failed e ↦ none
      ] in
      if not (bs.config_dir == "") && not (bs.env == "") then found else none

  load_file_layer-Replays :
      (bs : BootstrapConfig) (ss : List Source) (k : K) (applied : List String) (st : Loading K)
      → Replays ss (k, applied)
      → load_file_layer lib bs (k, applied) ≡ ok st
      → (f : Option String) × (f ≡ file_of bs) × Replays (ss ++ file_part f) st
  unfolding load_file_layer
  load_file_layer-Replays bs ss k applied st before h =
      let path = lib.join_path bs.config_dir (append bs.env ".toml") in
      let m = load_file_layer lib bs (k, applied) in
      elim (Bool-cases (not (bs.config_dir == "") && not (bs.env == ""))) [
        | inr off ↦ (
          none,
          rw (off) refl,
          ended (Replays (ss ++ [])) m (k, applied) st (rw (off) refl) h
              (Replays-stay ss (k, applied) before),
        )
        | inl on ↦ elim (Stat-cases (lib.stat path)) [
          | inl there ↦ elim (Result-cases (lib.load_file path k)) [
            | inl (k', good) ↦ (
              some path,
              rw (on, there) refl,
              ended (Replays (ss ++ file path ∷ [])) m (k', applied ++ append "file:" path ∷ []) st
                  (rw (on, there, good) refl) h
                  (Replays-last ss (file path) k k' applied before good),
            )
            | inr (e, bad) ↦ absurd (never_both m (wrapped path e) st (rw (on, there, bad) refl) h)
          ]
          | inr (inl gone) ↦ (
            none,
            rw (on, gone) refl,
            ended (Replays (ss ++ [])) m (k, applied) st (rw (on, gone) refl) h
                (Replays-stay ss (k, applied) before),
          )
          | inr (inr (e, bad)) ↦
              absurd (never_both m (wrapped (append "stat " path) e) st (rw (on, bad) refl) h)
        ]
      ]

  load_env_layer-Replays :
      (has_env_override lib ≡ false → (k : K) → lib.load_env (map_key lib) k ≡ ok k)
      → (ss : List Source) (k : K) (applied : List String) (st : Loading K)
      → Replays ss (k, applied)
      → load_env_layer lib (k, applied) ≡ ok st
      → Replays (ss ++ env_part (has_env_override lib)) st
  unfolding load_env_layer
  load_env_layer-Replays quiet ss k applied st before h =
      let m = load_env_layer lib (k, applied) in
      elim (Result-cases (lib.load_env (map_key lib) k)) [
        | inr (e, bad) ↦
            absurd (never_both m (wrapped "env" e) st (rw (bad, load_env_layer) refl) h)
        | inl (k', good) ↦ elim (Bool-cases (has_env_override lib)) [
          | inl over ↦ rw (over) (
              ended (Replays (ss ++ env ∷ [])) m (k', applied ++ source_name env ∷ []) st
                (rw (good, over, load_env_layer) refl) h
                (Replays-last ss env k k' applied before good))
          | inr none_set ↦ rw (none_set) (
              ended (Replays (ss ++ [])) m (k, applied) st
                (rw (quiet none_set k, none_set, load_env_layer) refl) h
                (Replays-stay ss (k, applied) before))
        ]
      ]

  load_remote_layer-Replays :
      (l : Loader Client) (ss : List Source) (k : K) (applied : List String) (st : Loading K)
      → Replays ss (k, applied)
      → load_remote_layer lib l (k, applied) ≡ ok st
      → (r : Option (String × Bytes)) × Replays (ss ++ remote_part r) st
  unfolding load_remote_layer
  load_remote_layer-Replays l ss k applied st before h =
      let url = lib.string_at "remote.url" k in
      let m = load_remote_layer lib l (k, applied) in
      elim (Bool-cases (not (url == ""))) [
        | inr off ↦ (
          none,
          ended (Replays (ss ++ [])) m (k, applied) st (rw (off) refl) h
              (Replays-stay ss (k, applied) before),
        )
        | inl on ↦
            elim (Result-cases
              (fetch_remote lib l.http_client url (lib.int_at "remote.timeout_ms" k))) [
                | inr (e, bad) ↦
                    absurd
                      (never_both m (wrapped (append "remote " url) e) st (rw (on, bad) refl) h)
                | inl (body, got) ↦ elim (Result-cases (lib.load_bytes body k)) [
                  | inr (e, bad) ↦
                      absurd (never_both m (wrapped "remote parse" e) st (rw (on, got, bad) refl) h)
                  | inl (k', good) ↦ (
                    some (url, body),
                    ended (Replays (ss ++ remote url body ∷ [])) m
                        (k', applied ++ append "remote:" url ∷ []) st (rw (on, got, good) refl) h
                        (Replays-last ss (remote url body) k k' applied before good),
                  )
                ]
              ]
      ]

  -- The sources in the order in which they are applied, a later one over the earlier ones.
  abbrev pub sources_of : Option String → Bool → Option (String × Bytes) → List Source
  sources_of f overridden r =
      ((embedded ∷ [] ++ file_part f) ++ env_part overridden) ++ remote_part r

  finish_load-ok :
      (st : Loading K) (loaded : Loaded F)
      → finish_load lib st ≡ ok loaded
      → (loaded.applied_sources ≡ st.1)
        × (lib.unmarshal st.0 ≡ ok loaded.config)
        × (lib.validate loaded.config ≡ none)
  unfolding finish_load
  finish_load-ok (k, applied) loaded h =
      let m = finish_load lib (k, applied) in
      elim (Result-cases (lib.unmarshal k)) [
        | inr (e, bad) ↦
            absurd (never_both m (wrapped "unmarshal" e) loaded (rw (bad, finish_load) refl) h)
        | inl (cfg, good) ↦ elim (Option-cases (lib.validate cfg)) [
          | inr (e, bad) ↦
              absurd (never_both m (validation_error e) loaded (rw (good, bad, finish_load) refl) h)
          | inl valid ↦
              ended
                (λ o.
                  (o.applied_sources ≡ applied)
                  × (lib.unmarshal k ≡ ok o.config)
                  × (lib.validate o.config ≡ none))
                m (record { config = cfg; applied_sources = applied }) loaded
                (rw (good, valid, finish_load) refl) h (refl, good, valid)
        ]
      ]

  load_default-Replays :
      (st : Loading K) → load_default lib default_toml ≡ ok st → Replays (embedded ∷ []) st
  unfolding load_default
  load_default-Replays st h =
      let m = load_default lib default_toml in
      elim (Result-cases (lib.load_bytes default_toml lib.empty)) [
        | inr (e, bad) ↦
            absurd (never_both m (wrapped "default.toml" e) st (rw (bad, load_default) refl) h)
        | inl (k, good) ↦
            ended (Replays (embedded ∷ [])) m (k, "embedded:default.toml" ∷ []) st
              (rw (good, load_default) refl) h (refl, (rw (good) refl))
      ]

  -- If the env provider adds nothing where no variable begins with HWHKIT__, then a configuration
  -- that Load returns is what the applied sources give when they are loaded in their order, on top
  -- of each other: the embedded defaults, the file of the environment exactly if its name is given
  -- and it is there, the variables exactly if one has the prefix, and perhaps the remote document.
  -- AppliedSources names these, and the configuration has passed the validator.
  pub load_provenance :
      (l : Loader Client) (bs : Option BootstrapConfig) (loaded : Loaded F)
      → (has_env_override lib ≡ false → (k : K) → lib.load_env (map_key lib) k ≡ ok k)
      → load lib default_toml l bs ≡ ok loaded
      → (f : Option String) × (r : Option (String × Bytes)) × (k : K) × (f
          ≡ file_of (or_else bs (default_bootstrap lib.getenv)))
        × (loaded.applied_sources ≡ map source_name (sources_of f (has_env_override lib) r))
        × (replay (sources_of f (has_env_override lib) r) lib.empty ≡ ok k)
        × (lib.unmarshal k ≡ ok loaded.config)
        × (lib.validate loaded.config ≡ none)
  unfolding load
  load_provenance l bs loaded quiet h =
      let bs' = or_else bs (default_bootstrap lib.getenv) in
      let m1 = load_default lib default_toml in
      let m2 = m1 >>= load_file_layer lib bs' in
      let m3 = m2 >>= load_env_layer lib in
      let m4 = m3 >>= load_remote_layer lib l in
      let (st4, h4, fin) = ok->>= m4 (finish_load lib) loaded h in
      let (st3, h3, s4) = ok->>= m3 (load_remote_layer lib l) st4 h4 in
      let (st2, h2, s3) = ok->>= m2 (load_env_layer lib) st3 h3 in
      let (st1, h1, s2) = ok->>= m1 (load_file_layer lib bs') st2 h2 in
      let r1 = load_default-Replays st1 h1 in
      let (f, looked, r2) = load_file_layer-Replays bs' (embedded ∷ []) st1.0 st1.1 st2 r1 s2 in
      let r3 = load_env_layer-Replays quiet (embedded ∷ [] ++ file_part f) st2.0 st2.1 st3 r2 s3 in
      let (r, r4) =
        load_remote_layer-Replays l
          ((embedded ∷ [] ++ file_part f) ++ env_part (has_env_override lib)) st3.0 st3.1 st4 r3
          s4 in
      let (named, config, valid) = finish_load-ok st4 loaded fin in
      (f, r, st4.0, looked, named ∙ r4.0, r4.1, config, valid)
