-- ===== src/Auth/Verify/Laws.antt =====
-- What a request that passes `authenticate_request` has shown.
use carqna_agent.Common.{
  ◌≡◌, ◌≢◌, refl, true, Option, none, some, [], ◌∷◌, ◌++◌, arith, inl, inr, Bool-cases,
  Option-cases,
}
use carqna_agent.PyText.{Text, codes}
use carqna_agent.Errors.{Result, returned, raised, jwt_error, >>=-returned}
use carqna_agent.Auth.Verify.{
  Claims, Jwt, set_env, jwks_url, get_jwks_client, reject_jwt_error, truthy, require_sub, verified,
  checked, authenticate_request,
}

-- The cached client, if there is one, is for the domain's endpoint.
abbrev pub IsForDomain : Option Text → Option Text → Type 0
IsForDomain domain none = Unit
IsForDomain domain (some url) = (d : Text) × (set_env domain ≡ some d) × (url ≡ jwks_url d)

module _ (jwt : Jwt) where
  -- The token was signed by a key of the domain's endpoint, for the audience and by the issuer that
  -- are configured, under RS256, and names a subject.
  pub record IsVerified (domain audience : Option Text) (token : Text) (claims : Claims)
      : Type 0 where
    pub tenant : Text
    pub api : Text
    pub key : jwt.Key
    pub tenant_is_set : set_env domain ≡ some tenant
    pub api_is_set : set_env audience ≡ some api
    pub has_key : jwt.get_signing_key_from_jwt (jwks_url tenant) token ≡ returned key
    pub decodes :
        jwt.decode token key (codes "RS256" ∷ []) api (codes "https://" ++ tenant ++ codes "/")
        ≡ returned claims
    pub has_subject : truthy (claims (codes "sub")) ≡ true

  get_jwks_client_lem :
      (domain cache : Option Text) (d : Text)
      → set_env domain ≡ some d
      → IsForDomain domain cache
      → get_jwks_client domain cache ≡ (returned (jwks_url d), some (jwks_url d))
  unfolding get_jwks_client
  get_jwks_client_lem domain none d e h = rw (e, get_jwks_client) refl
  get_jwks_client_lem domain (some url) d e (d', e', same) =
      let agree : d' ≡ d = cc (e, e') in rw (same, agree) refl

  reject_ok :
      (r : Result Claims) (claims : Claims)
      → reject_jwt_error r ≡ returned claims
      → r ≡ returned claims
  reject_ok (returned c) claims h = h
  reject_ok (raised (jwt_error x)) claims h = cc
  reject_ok (raised x) claims h = ground arith

  require_sub_ok :
      (c claims : Claims)
      → require_sub c ≡ returned claims
      → (c ≡ claims) × (truthy (c (codes "sub")) ≡ true)
  require_sub_ok c claims h = elim (Bool-cases (truthy (c (codes "sub")))) [
    | inl e ↦ (cc (e, h), e)
    | inr e ↦ absurd (cc (e, h))
  ]

  module _ (domain audience : Option Text) (token : Text) where
    checked_ok :
        (d a : Text) (cache : Option Text) (claims : Claims)
        → set_env domain ≡ some d
        → set_env audience ≡ some a
        → (checked jwt token d a (returned (jwks_url d), cache)).0 ≡ returned claims
        → IsVerified domain audience token claims
    checked_ok d a cache claims e f h =
        let (c, rejected, required) =
          >>=-returned (reject_jwt_error (verified jwt token d a (returned (jwks_url d))))
            require_sub h in
        let (same, subject) = require_sub_ok c claims required in
        let (key, found, decoded) =
          >>=-returned (jwt.get_signing_key_from_jwt (jwks_url d) token) _
            (reject_ok _ c rejected) in
        rw (← same) (record {
          tenant = d;
          api = a;
          key = key;
          tenant_is_set = e;
          api_is_set = f;
          has_key = found;
          decodes = decoded;
          has_subject = subject;
        })

    module _ (cache : Option Text) where
      authenticate_set :
          (d a : Text)
          → set_env domain ≡ some d
          → set_env audience ≡ some a
          → authenticate_request jwt domain audience token cache
            ≡ checked jwt token d a (get_jwks_client domain cache)
      unfolding authenticate_request
      authenticate_set d a e f = rw (e, authenticate_request) (rw f refl)

      authenticate_no_domain :
          (claims : Claims)
          → set_env domain ≡ none
          → (authenticate_request jwt domain audience token cache).0 ≢ returned claims
      unfolding authenticate_request
      authenticate_no_domain claims e = rw (e, authenticate_request) (λ q. cc)

      authenticate_no_audience :
          (d : Text) (claims : Claims)
          → set_env domain ≡ some d
          → set_env audience ≡ none
          → (authenticate_request jwt domain audience token cache).0 ≢ returned claims
      unfolding authenticate_request
      authenticate_no_audience d claims e f = rw (e, authenticate_request) (rw f (λ q. cc))

    -- Where the cached JWKS client, if any, is that of the configured domain, claims come back
    -- only for a verified token: one that decodes to these claims with a signing key of the
    -- domain's own key set, for the audience and the issuer that are configured, and that names a
    -- subject.
    pub authenticate_request-IsVerified :
        (cache : Option Text) (claims : Claims)
        → IsForDomain domain cache
        → (authenticate_request jwt domain audience token cache).0 ≡ returned claims
        → IsVerified domain audience token claims
    authenticate_request-IsVerified cache claims h q = elim (Option-cases (set_env domain)) [
      | inl e ↦ absurd (authenticate_no_domain cache claims e q)
      | inr (d, e) ↦ elim (Option-cases (set_env audience)) [
        | inl f ↦ absurd (authenticate_no_audience cache d claims e f q)
        | inr (a, f) ↦
            checked_ok d a (some (jwks_url d)) claims e f
              (rw (authenticate_set cache d a e f, get_jwks_client_lem domain cache d e h) at q)
      ]
    ]

-- The cached client stays that of the domain.
pub IsForDomain-authenticate_request :
    (jwt : Jwt) (domain audience : Option Text) (token : Text) (cache : Option Text)
    → IsForDomain domain cache
    → IsForDomain domain (authenticate_request jwt domain audience token cache).1
IsForDomain-authenticate_request jwt domain audience token cache h =
    elim (Option-cases (set_env domain)) [
      | inl e ↦ unfold authenticate_request in rw (e, authenticate_request) h
      | inr (d, e) ↦ elim (Option-cases (set_env audience)) [
        | inl f ↦ unfold authenticate_request in rw (e, authenticate_request) (rw f h)
        | inr (a, f) ↦
            rw
              (
                authenticate_set jwt domain audience token cache d a e f,
                get_jwks_client_lem jwt domain cache d e h,
              )
              (d, e, refl)
      ]
    ]
