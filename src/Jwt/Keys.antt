-- ===== src/Jwt/Keys.antt =====
-- jwt/verifier.go: the verifiers with their key functions, and what Claims gives to a handler.
-- jwt.Parse is `parse`, with a key function and the leeway; the cache of JWK sets is a record of
-- functions.
use hwhkit_go.Prelude.{
  String, ◌≡◌, refl, ap, ◌⊎◌, inl, Bool, Option, none, some, ◌==◌, nat_eq, string_eq, if◌then◌else◌,
  or_else, length,
}
use hwhkit_go.Prelude.Int.{Duration, ℤ}
use hwhkit_go.Prelude.Text.{append}
use hwhkit_go.Prelude.Dict
use hwhkit_go.Prelude.Dict.{Dict}
use hwhkit_go.Core.CoreError.{Error, plain, wrapped, Result, ok, err}
use hwhkit_go.Jwt.{
  Claims, ClaimValue, Options, Parsed, parse_error, VerifyError, err_invalid_signature,
  parse_and_validate,
}

-- A signing method: *jwt.SigningMethodHMAC or another one, with the name that Alg gives.
pub data Method : Type 0 where
  hmac : String → Method
  other_method : String → Method

-- A token before its signature is checked; `kid` is none unless the header has it as a string.
pub record Token : Type 0 where
  pub method : Method
  pub kid : Option String

-- Claims.Get.
unfoldable pub get : {F : Type 0} → Claims F → String → Option (ClaimValue F)
get c key = Dict.get key c.raw

-- TypedClaims, over the JSON library.
unfoldable pub typed_claims :
    {F T : Type 0}
    → (Dict (ClaimValue F) → Result String)
    → (String → Result T)
    → Claims F
    → Result T
typed_claims marshal unmarshal c =
    if length c.raw == 0
    then err (plain "no claims body")
    else elim (marshal c.raw) [ err e ↦ err e | ok b ↦ unmarshal b ]

-- The key function of hmacVerifier.
unfoldable pub hmac_key : {Key : Type 0} → Key → Token → Result Key
hmac_key secret t = elim t.method [
  | hmac alg ↦ ok secret
  | other_method alg ↦ err (plain (append "unexpected signing method: " alg))
]

-- The cache of lestrrat's jwk: Register and Refresh of a URL, Get, and LookupKeyID with Raw.
pub record JwkCache (Set Jwk Key : Type 0) : Type 0 where
  pub register : String → Option Error
  pub refresh : String → Option Error
  pub get_set : String → Result Set
  pub lookup_key_id : Set → String → Option Jwk
  pub raw_key : Jwk → Result Key

-- The key function of jwksVerifier.
unfoldable pub jwks_key :
    {Set Jwk Key : Type 0} → JwkCache Set Jwk Key → String → Token → Result Key
jwks_key cache url t =
    let kid = or_else t.kid "" in
    elim (cache.get_set url) [
      | err e ↦ err e
      | ok keys ↦ elim (cache.lookup_key_id keys kid) [
        | none ↦ err (plain (append "unknown kid: " kid))
        | some key ↦ cache.raw_key key
      ]
    ]

-- NewJWKSVerifier, whose verifier has the cache and the URL.
unfoldable pub new_jwks_verifier :
    {Set Jwk Key : Type 0} → JwkCache Set Jwk Key → String → Result String
new_jwks_verifier cache url = elim (cache.register url) [
  | some e ↦ err e
  | none ↦ elim (cache.refresh url) [
    | some e ↦ err (wrapped "initial JWKS refresh" e)
    | none ↦ ok url
  ]
]

-- hmacVerifier, and NewHMACVerifier.
pub record HmacVerifier (Key : Type 0) : Type 0 where
  pub secret : Key
  pub opts : Options

unfoldable pub new_hmac_verifier : {Key : Type 0} → Key → Options → HmacVerifier Key
new_hmac_verifier secret opts = record { secret = secret; opts = opts }

module _ {F Key : Type 0} (positive : F → Bool) (to_int64 : F → ℤ)
    (parse : (Token → Result Key) → Duration → String → Parsed F) (opts : Options) where
  -- Verify of a verifier with this key function, at the time `now`.
  unfoldable pub verify : (Token → Result Key) → ℤ → String → VerifyError ⊎ Claims F
  verify key_func now token =
      parse_and_validate positive to_int64 (parse key_func opts.clock_skew) opts now token

  -- jwt.Parse asks the key function for the token that the string encodes, and fails if that fails.
  abbrev pub AsksForKey : (String → Option Token) → Type 0
  AsksForKey decode =
      (key_func : Token → Result Key) (s : String) (t : Token) (e : Error)
      → decode s ≡ some t
      → key_func t ≡ err e
      → parse key_func opts.clock_skew s ≡ parse_error

  no_key_refuses :
      (decode : String → Option Token) (key_func : Token → Result Key) (now : ℤ) (s : String)
      (t : Token) (e : Error)
      → AsksForKey decode
      → decode s ≡ some t
      → key_func t ≡ err e
      → verify key_func now s ≡ inl err_invalid_signature
  unfolding verify parse_and_validate
  no_key_refuses decode key_func now s t e asks decoded no_key =
      rw (asks key_func s t e decoded no_key, verify, parse_and_validate) refl

  -- If jwt.Parse asks for the key, the HMAC verifier refuses a token of any other signing method,
  -- also with a signature that is valid for that method.
  pub hmac_refuses_others :
      (decode : String → Option Token) (secret : Key) (now : ℤ) (s : String) (t : Token)
      (alg : String)
      → AsksForKey decode
      → decode s ≡ some t
      → t.method ≡ other_method alg
      → verify (hmac_key secret) now s ≡ inl err_invalid_signature
  unfolding hmac_key
  hmac_refuses_others decode secret now s t alg asks decoded other =
      no_key_refuses decode (hmac_key secret) now s t
        (plain (append "unexpected signing method: " alg)) asks decoded
        (ap (λ m. hmac_key secret (record t { method = m })) other)

  -- And the JWKS verifier refuses a token whose key ID is not in the set, or that has none when the
  -- set has no key without an ID.
  pub jwks_refuses_unknown :
      {Set Jwk : Type 0} (cache : JwkCache Set Jwk Key) (url : String) (keys : Set)
      (decode : String → Option Token) (now : ℤ) (s : String) (t : Token)
      → AsksForKey decode
      → decode s ≡ some t
      → cache.get_set url ≡ ok keys
      → cache.lookup_key_id keys (or_else t.kid "") ≡ none
      → verify (jwks_key cache url) now s ≡ inl err_invalid_signature
  unfolding jwks_key
  jwks_refuses_unknown cache url keys decode now s t asks decoded got missing =
      no_key_refuses decode (jwks_key cache url) now s t
        (plain (append "unknown kid: " (or_else t.kid ""))) asks decoded
        (rw (got, missing, jwks_key) refl)
