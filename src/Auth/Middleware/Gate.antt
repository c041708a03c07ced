-- ===== src/Auth/Middleware/Gate.antt =====
-- What the middleware guarantees to the routes behind it.
use carqna_agent.Common.{ℕ, ◌≡◌, refl, true, false, Option, none, some, inl, inr, nonempty}
use carqna_agent.PyText.{Text, codes}
use carqna_agent.Errors.{Exception, Result, returned, raised, http_exception}
use carqna_agent.Auth.Bearer.{get_bearer_token, missing_header}
use carqna_agent.Auth.Bearer.Laws.{IsBearer, get_bearer_token_cases}
use carqna_agent.Auth.Verify.{Claims, Jwt, authenticate_request}
use carqna_agent.Auth.Verify.Laws.{IsForDomain, IsVerified, authenticate_request-IsVerified}
use carqna_agent.Auth.Context.{AuthContext}
use carqna_agent.Auth.Middleware.{
  Scope, World, is_open, key_or_error, refuse, admit_as, admit, authenticate, call,
}

module _ (jwt : Jwt) (domain audience : Option Text) where
  -- The context is that of a verified token: the header's, with a subject that is not empty.
  pub record IsGenuine (scope : Scope) (ctx : AuthContext) : Type 0 where
    pub sent : get_bearer_token scope.authorization ≡ returned ctx.access_token
    pub verified : IsVerified jwt domain audience ctx.access_token ctx.claims
    pub subject : ctx.claims (codes "sub") ≡ some ctx.user_id
    pub subject_given : nonempty ctx.user_id ≡ true

module _ {S R : Type 0} (json_response : ℕ → Text → R) (jwt : Jwt)
    (domain audience : Option Text) where
  -- Two applications that agree wherever the context is genuine.
  abbrev AgreeWhenGenuine :
      (Scope → World S → Result R × World S)
      → (Scope → World S → Result R × World S)
      → Scope
      → Type 0
  AgreeWhenGenuine app app' scope =
      (ctx : AuthContext) (w : World S)
      → w.context ≡ some ctx
      → IsGenuine jwt domain audience scope ctx
      → app scope w ≡ app' scope w

  module _ (app app' : Scope → World S → Result R × World S) (scope : Scope)
      (agree : AgreeWhenGenuine app app' scope) where
    admit_same :
        (token : Text) (r : Result Claims) (w : World S)
        → get_bearer_token scope.authorization ≡ returned token
        → ((claims : Claims) → r ≡ returned claims → IsVerified jwt domain audience token claims)
        → admit json_response jwt domain audience app scope token r w
          ≡ admit json_response jwt domain audience app' scope token r w
    admit_same token (raised e) w sent v = refl
    admit_same token (returned claims) w sent v = admit_as_same (claims (codes "sub")) refl
      where
        admit_as_same :
            (sub : Option Text)
            → claims (codes "sub") ≡ sub
            → admit_as json_response jwt domain audience app scope token claims (key_or_error sub) w
              ≡ admit_as json_response jwt domain audience app' scope token claims
                  (key_or_error sub)
                  w
        admit_as_same none e = refl
        admit_as_same (some sub) e =
            let ctx : AuthContext = record {
              user_id = sub;
              claims = claims;
              access_token = token;
            } in
            let genuine : IsGenuine jwt domain audience scope ctx = record {
              sent = sent;
              verified = v claims refl;
              subject = e;
              subject_given = rw e at ((v claims refl).has_subject);
            } in
            rw (agree ctx (record w { context = some ctx }) refl genuine) refl

    authenticate_same :
        (r : Result Text) (w : World S)
        → IsForDomain domain w.jwks
        → get_bearer_token scope.authorization ≡ r
        → authenticate json_response jwt domain audience app scope r w
          ≡ authenticate json_response jwt domain audience app' scope r w
    authenticate_same (raised e) w h sent = refl
    authenticate_same (returned token) w h sent =
        admit_same token (authenticate_request jwt domain audience token w.jwks).0 _ sent
          (λ claims q. authenticate_request-IsVerified jwt domain audience token w.jwks claims h q)

    -- With a cached JWKS client, if any, of the configured domain: two applications that do the
    -- same under every context that comes from a verified token of the request do the same behind
    -- the middleware, for a request for a protected path. What an application would do under any
    -- other context, or under none, makes no difference.
    pub call_gate :
        (w : World S)
        → IsForDomain domain w.jwks
        → is_open scope ≡ false
        → call json_response jwt domain audience app scope w
          ≡ call json_response jwt domain audience app' scope w
    unfolding call
    call_gate w h closed =
        rw closed (authenticate_same (get_bearer_token scope.authorization) w h refl)

  module _ (app : Scope → World S → Result R × World S) (scope : Scope) where
    context-refuse :
        (e : Exception) (w : World S) → (refuse json_response e w).1.context ≡ w.context
    context-refuse (http_exception status detail) w = refl
    context-refuse _ w = refl

    context-admit :
        (token : Text) (r : Result Claims) (w : World S)
        → (admit json_response jwt domain audience app scope token r w).1.context ≡ w.context
    context-admit token (raised e) w = context-refuse e w
    context-admit token (returned claims) w = go (claims (codes "sub"))
      where
        go :
            (sub : Option Text)
            → (admit_as json_response jwt domain audience app scope token claims
                (key_or_error sub)
                w).1.context
              ≡ w.context
        go none = refl
        go (some sub) = refl

    context-authenticate :
        (r : Result Text) (w : World S)
        → (authenticate json_response jwt domain audience app scope r w).1.context ≡ w.context
    context-authenticate (raised e) w = context-refuse e w
    context-authenticate (returned token) w =
        let (claims, jwks) = authenticate_request jwt domain audience token w.jwks in
        context-admit token claims (record w { jwks = jwks })

    -- Whatever the application does or raises, a request for a protected path leaves the context
    -- variable as it found it.
    pub context-call :
        (w : World S)
        → is_open scope ≡ false
        → (call json_response jwt domain audience app scope w).1.context ≡ w.context
    unfolding call
    context-call w closed =
        rw closed (context-authenticate (get_bearer_token scope.authorization) w)

    -- A request for a protected path without a bearer token in its header gets 401 and reaches
    -- nothing.
    pub call_without_bearer :
        (w : World S)
        → is_open scope ≡ false
        → ((h rest : Text) → scope.authorization ≡ some h → ¬ IsBearer h rest)
        → call json_response jwt domain audience app scope w
          ≡ (returned (json_response 401 missing_header), w)
    unfolding call
    call_without_bearer w closed no_bearer = elim (get_bearer_token_cases scope.authorization) [
      | inl (h, rest, e, b, _) ↦ absurd (no_bearer h rest e b)
      | inr (_, e) ↦ rw (closed, e) refl
    ]
