-- ===== src/Auth/Middleware/Outcomes.antt =====
-- Reasoning about the whole of a request from what the application does for a genuine context.
use carqna_agent.Common.{ℕ, ◌≡◌, refl, false, Option, none, some}
use carqna_agent.PyText.{Text, codes}
use carqna_agent.Errors.{Exception, Result, returned, raised, http_exception}
use carqna_agent.Auth.Bearer.{get_bearer_token}
use carqna_agent.Auth.Verify.{Claims, Jwt, authenticate_request}
use carqna_agent.Auth.Verify.Laws.{IsForDomain, IsVerified, authenticate_request-IsVerified}
use carqna_agent.Auth.Context.{AuthContext}
use carqna_agent.Auth.Middleware.{
  Scope, World, is_open, key_or_error, refuse, admit_as, admit, authenticate, call,
}
use carqna_agent.Auth.Middleware.Gate.{IsGenuine}

module _ {S R : Type 0} (json_response : ℕ → Text → R) (jwt : Jwt) (domain audience : Option Text)
    (app : Scope → World S → Result R × World S) (scope : Scope) (Q : Result R → S → Type 0) (s : S)
    (on_error : (e : Exception) → Q (raised e) s)
    (refused : (status : ℕ) (detail : Text) → Q (returned (json_response status detail)) s)
    (ran : (ctx : AuthContext) (w : World S)
      → w.context ≡ some ctx
      → w.state ≡ s
      → IsGenuine jwt domain audience scope ctx
      → Q (app scope w).0 (app scope w).1.state) where
  refuse_elim :
      (e : Exception) (w : World S)
      → w.state ≡ s
      → Q (refuse json_response e w).0 (refuse json_response e w).1.state
  refuse_elim (http_exception status detail) w h = rw h (refused status detail)
  refuse_elim e w h = rw h (on_error e)

  admit_elim :
      (token : Text) (r : Result Claims) (w : World S)
      → w.state ≡ s
      → get_bearer_token scope.authorization ≡ returned token
      → ((claims : Claims) → r ≡ returned claims → IsVerified jwt domain audience token claims)
      → Q
          (admit json_response jwt domain audience app scope token r w).0
          (admit json_response jwt domain audience app scope token r w).1.state
  admit_elim token (raised e) w h sent v = refuse_elim e w h
  admit_elim token (returned claims) w h sent v = go (claims (codes "sub")) refl
    where
      go :
          (sub : Option Text)
          → claims (codes "sub") ≡ sub
          → Q
              (admit_as json_response jwt domain audience app scope token claims
                (key_or_error sub)
                w).0
              (admit_as json_response jwt domain audience app scope token claims
                (key_or_error sub)
                w).1.state
      go none e = rw h (on_error _)
      go (some sub) e =
          let ctx : AuthContext = record { user_id = sub; claims = claims; access_token = token } in
          ran ctx (record w { context = some ctx }) refl h
            (record {
              sent = sent;
              verified = v claims refl;
              subject = e;
              subject_given = rw e at ((v claims refl).has_subject);
            })

  authenticate_elim :
      (r : Result Text) (w : World S)
      → w.state ≡ s
      → IsForDomain domain w.jwks
      → get_bearer_token scope.authorization ≡ r
      → Q
          (authenticate json_response jwt domain audience app scope r w).0
          (authenticate json_response jwt domain audience app scope r w).1.state
  authenticate_elim (raised e) w h k sent = refuse_elim e w h
  authenticate_elim (returned token) w h k sent =
      let (claims, jwks) = authenticate_request jwt domain audience token w.jwks in
      admit_elim token claims (record w { jwks = jwks }) h sent
        (λ c q. authenticate_request-IsVerified jwt domain audience token w.jwks c k q)

  -- What holds of a refusal, of an exception, and of the application under a genuine context, holds
  -- of every request for a protected path.
  pub call_elim :
      (w : World S)
      → w.state ≡ s
      → IsForDomain domain w.jwks
      → is_open scope ≡ false
      → Q
          (call json_response jwt domain audience app scope w).0
          (call json_response jwt domain audience app scope w).1.state
  unfolding call
  call_elim w h k closed =
      rw closed (authenticate_elim (get_bearer_token scope.authorization) w h k refl)
