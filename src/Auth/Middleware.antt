-- ===== src/Auth/Middleware.antt =====
-- src/agent/auth_middleware.py: the interceptor in front of every route.
pub mod Gate
pub mod Outcomes
use carqna_agent.Common.{ℕ, Bool, ◌||◌, not, Option, none, some, List, [], ◌∷◌, if◌then◌else◌}
use carqna_agent.PyText.{Text, codes, text_eq, text_mem}
use carqna_agent.Errors.{Exception, Result, returned, raised, http_exception, library_error, ◌>>=◌}
use carqna_agent.Auth.Bearer.{get_bearer_token}
use carqna_agent.Auth.Verify.{Claims, Jwt, authenticate_request}
use carqna_agent.Auth.Context.{AuthContext, Ctx, set_auth_context, reset_auth_context}

-- The parts of an ASGI scope that are read; `authorization` is the header of that name.
pub record Scope : Type 0 where
  pub kind : Text
  pub path : Text
  pub authorization : Option Text

abbrev pub unauthenticated_paths : List Text
unauthenticated_paths =
    codes "/health" ∷ codes "/docs" ∷ codes "/redoc" ∷ codes "/openapi.json" ∷ []

-- scope["type"] != "http" or scope["path"] in _UNAUTHENTICATED_PATHS
unfoldable pub is_open : Scope → Bool
is_open scope = not (text_eq scope.kind (codes "http")) || text_mem scope.path unauthenticated_paths

-- The process as a request finds it: the context variable, the cached JWKS client and the rest, `S`,
-- that the application works on.
pub record World (S : Type 0) : Type 0 where
  pub context : Ctx
  pub jwks : Option Text
  pub state : S

-- claims["sub"]
abbrev pub key_or_error : Option Text → Result Text
key_or_error none = raised (library_error (codes "KeyError"))
key_or_error (some sub) = returned sub

-- except HTTPException: JSONResponse({"detail": exc.detail}, status_code=exc.status_code)
abbrev pub refuse : {S R : Type 0} → (ℕ → Text → R) → Exception → World S → Result R × World S
refuse json_response (http_exception status detail) w = (returned (json_response status detail), w)
refuse json_response e w = (raised e, w)

-- An ASGI application: what it answers or raises, and what it leaves. `json_response` is Starlette's
-- `JSONResponse` of a detail, with its status.
module _ {S R : Type 0} (json_response : ℕ → Text → R) (jwt : Jwt) (domain audience : Option Text)
    (app : Scope → World S → Result R × World S) where
  -- The `try: … finally:` around the application.
  abbrev pub run_as : Scope → AuthContext → World S → Result R × World S
  run_as scope ctx w =
      let (reset_token, current) = set_auth_context ctx w.context in
      let (answer, w') = app scope (record w { context = current }) in
      (answer, record w' { context = reset_auth_context reset_token w'.context })

  abbrev pub admit_as : Scope → Text → Claims → Result Text → World S → Result R × World S
  admit_as scope token claims (raised e) w = (raised e, w)
  admit_as scope token claims (returned sub) w =
      run_as scope (record { user_id = sub; claims = claims; access_token = token }) w

  abbrev pub admit : Scope → Text → Result Claims → World S → Result R × World S
  admit scope token (raised e) w = refuse json_response e w
  admit scope token (returned claims) w =
      admit_as scope token claims (key_or_error (claims (codes "sub"))) w

  abbrev pub authenticate : Scope → Result Text → World S → Result R × World S
  authenticate scope (raised e) w = refuse json_response e w
  authenticate scope (returned token) w =
      let (claims, jwks) = authenticate_request jwt domain audience token w.jwks in
      admit scope token claims (record w { jwks = jwks })

  unfoldable pub call : Scope → World S → Result R × World S
  call scope w =
      if is_open scope
      then app scope w
      else authenticate scope (get_bearer_token scope.authorization) w
