-- ===== src/Auth/Verify.antt =====
-- `_get_jwks_client` and `authenticate_request` of src/agent/auth.py. PyJWT is a parameter; the
-- environment's AUTH0_DOMAIN and AUTH0_AUDIENCE are arguments.
pub mod Laws
use carqna_agent.Common.{
  Bool, false, ◌&&◌, Option, none, some, List, [], ◌∷◌, ◌++◌, if◌then◌else◌, nonempty, not,
}
use carqna_agent.PyText.{Text, codes}
use carqna_agent.Errors.{
  Exception, Result, returned, raised, http_exception, runtime_error, jwt_error, ◌>>=◌,
}

-- The decoded claims, read by `claims.get`.
abbrev pub Claims : Type 0
Claims = Text → Option Text

-- PyJWT: the signing key that a JWKS endpoint has for a token, and the decoding of a token by a key,
-- with the algorithms, audience and issuer that are accepted.
pub record Jwt : Type 1 where
  pub Key : Type 0
  pub get_signing_key_from_jwt : Text → Text → Result Key
  pub decode : Text → Key → List Text → Text → Text → Result Claims

-- `os.getenv`'s value, unless it is missing or empty.
abbrev pub set_env : Option Text → Option Text
set_env none = none
set_env (some []) = none
set_env (some (c ∷ s)) = some (c ∷ s)

abbrev pub jwks_url : Text → Text
jwks_url domain = codes "https://" ++ domain ++ codes "/.well-known/jwks.json"

-- The module's `_jwks_client` singleton is the endpoint that its client was built for.
unfoldable pub get_jwks_client : Option Text → Option Text → Result Text × Option Text
get_jwks_client domain (some client) = (returned client, some client)
get_jwks_client domain none = elim (set_env domain) [
  | none ↦ (raised (runtime_error (codes "AUTH0_DOMAIN is not set")), none)
  | some d ↦ (returned (jwks_url d), some (jwks_url d))
]

-- except jwt.PyJWTError: raise HTTPException(401)
abbrev pub reject_jwt_error {ℓ} : {A : Type ℓ} → Result A → Result A
reject_jwt_error (raised (jwt_error e)) = raised (http_exception 401 (codes "Invalid token"))
reject_jwt_error r = r

abbrev pub truthy : Option Text → Bool
truthy none = false
truthy (some s) = nonempty s

abbrev pub require_sub : Claims → Result Claims
require_sub claims =
    if not (truthy (claims (codes "sub")))
    then raised (http_exception 401 (codes "Token missing 'sub' claim"))
    else returned claims

module _ (jwt : Jwt) where
  -- The `try` block.
  abbrev pub verified : Text → Text → Text → Result Text → Result Claims
  verified token domain audience client = client >>= λ url.
      jwt.get_signing_key_from_jwt url token >>= λ key.
      jwt.decode token key (codes "RS256" ∷ []) audience (codes "https://" ++ domain ++ codes "/")

  abbrev checked : Text → Text → Text → Result Text × Option Text → Result Claims × Option Text
  checked token domain audience (client, cache) =
      (reject_jwt_error (verified token domain audience client) >>= require_sub, cache)

  unfoldable pub authenticate_request :
      Option Text → Option Text → Text → Option Text → Result Claims × Option Text
  authenticate_request domain audience token cache = elim (set_env domain) [
    | none ↦
        (raised (runtime_error (codes "AUTH0_DOMAIN and AUTH0_AUDIENCE must both be set")), cache)
    | some d ↦ elim (set_env audience) [
      | none ↦
          (raised (runtime_error (codes "AUTH0_DOMAIN and AUTH0_AUDIENCE must both be set")), cache)
      | some a ↦ checked token d a (get_jwks_client domain cache)
    ]
  ]
