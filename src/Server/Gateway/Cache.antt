-- ===== src/Server/Gateway/Cache.antt =====
-- The cached JWKS client behind the middleware.
use carqna_agent.Common.{ℕ, ◌≡◌, refl, Option, none, some, Bool-cases, inl, inr}
use carqna_agent.PyText.{Text, codes}
use carqna_agent.Errors.{Exception, Result, returned, raised, http_exception}
use carqna_agent.Auth.Bearer.{get_bearer_token}
use carqna_agent.Auth.Verify.{Claims, Jwt, authenticate_request}
use carqna_agent.Auth.Verify.Laws.{IsForDomain, IsForDomain-authenticate_request}
use carqna_agent.Auth.Middleware.{
  Scope, World, is_open, key_or_error, refuse, admit_as, admit, authenticate, call,
}

module _ {S R : Type 0} (json_response : ℕ → Text → R) (jwt : Jwt) (domain audience : Option Text)
    (app : Scope → World S → Result R × World S) (scope : Scope)
    (kept : (w : World S) → (app scope w).1.jwks ≡ w.jwks) where
  jwks-refuse : (e : Exception) (w : World S) → (refuse json_response e w).1.jwks ≡ w.jwks
  jwks-refuse (http_exception status detail) w = refl
  jwks-refuse _ w = refl

  jwks-admit :
      (token : Text) (r : Result Claims) (w : World S)
      → (admit json_response jwt domain audience app scope token r w).1.jwks ≡ w.jwks
  jwks-admit token (raised e) w = jwks-refuse e w
  jwks-admit token (returned claims) w = go (claims (codes "sub"))
    where
      go :
          (sub : Option Text)
          → (admit_as json_response jwt domain audience app scope token claims
              (key_or_error sub)
              w).1.jwks
            ≡ w.jwks
      go none = refl
      go (some sub) = kept _

  IsForDomain-authenticate :
      (r : Result Text) (w : World S)
      → IsForDomain domain w.jwks
      → IsForDomain domain (authenticate json_response jwt domain audience app scope r w).1.jwks
  IsForDomain-authenticate (raised e) w h = rw (jwks-refuse e w) h
  IsForDomain-authenticate (returned token) w h =
      let (claims, jwks) = authenticate_request jwt domain audience token w.jwks in
      rw (jwks-admit token claims (record w { jwks = jwks }))
        (IsForDomain-authenticate_request jwt domain audience token w.jwks h)

  -- An application that leaves the cached client leaves it for the configured domain, if it was.
  pub IsForDomain-call :
      (w : World S)
      → IsForDomain domain w.jwks
      → IsForDomain domain (call json_response jwt domain audience app scope w).1.jwks
  unfolding call
  IsForDomain-call w h = elim (Bool-cases (is_open scope)) [
    | inl e ↦ rw (e, kept w) h
    | inr e ↦ rw e (IsForDomain-authenticate (get_bearer_token scope.authorization) w h)
  ]
