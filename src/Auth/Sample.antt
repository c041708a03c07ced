-- ===== src/Auth/Sample.antt =====
-- A concrete identity provider for the tests: the subject of a token is the token's own text.
use carqna_agent.Common.{◌≡◌, refl, ap, Option, none, some, if◌then◌else◌}
use mathlib.Core.Path.{subst}
use carqna_agent.PyText.{Text, codes, text_eq, starts_with, lower, strip}
use carqna_agent.Errors.{Result, returned}
use carqna_agent.Auth.Verify.{Claims, Jwt}
use carqna_agent.Auth.Context.{AuthContext}
use carqna_agent.Auth.Bearer.{get_bearer_token, after_space}
use carqna_agent.Auth.Middleware.{Scope}
use carqna_agent.Auth.Middleware.Gate.{IsGenuine}
use carqna_agent.Tracking.{Profile}
use carqna_agent.Database.Sample.{bob}

abbrev pub claims_of : Text → Claims
claims_of token key = if text_eq key (codes "sub") then some token else none

abbrev pub plain : Jwt
plain = record {
  Key = Unit {0};
  get_signing_key_from_jwt = λ url token. returned tt;
  decode = λ token key algorithms audience issuer. returned (claims_of token);
}

abbrev pub tenant : Option Text
tenant = some (codes "tenant.auth0.com")

abbrev pub api : Option Text
api = some (codes "https://carqna-agent/api")

abbrev pub header_of_bob : Option Text
header_of_bob = some (codes "Bearer auth0|bob")

abbrev pub context_of : Text → AuthContext
context_of user_id = record {
  user_id = user_id;
  claims = claims_of user_id;
  access_token = user_id;
}

abbrev pub profile_get : Text → Text → Result Profile
profile_get url header = returned (λ key. some key)

token_of_bob : get_bearer_token header_of_bob ≡ returned bob
unfolding get_bearer_token starts_with lower after_space strip
token_of_bob = refl

sub_of : (token : Text) → claims_of token (codes "sub") ≡ some token
unfolding text_eq
sub_of token = refl

-- With this provider every genuine context is that of the header's token.
pub subject_of_bob :
    (scope : Scope)
    → scope.authorization ≡ header_of_bob
    → (ctx : AuthContext) → IsGenuine plain tenant api scope ctx
    → ctx.user_id ≡ bob
subject_of_bob scope e ctx g =
    let token : ctx.access_token ≡ bob = cc (g.sent, token_of_bob, ap get_bearer_token e) in
    let claims : claims_of ctx.access_token ≡ ctx.claims = cc (g.verified.decodes) in
    let sub : ctx.claims (codes "sub") ≡ some ctx.access_token =
      subst (λ (k : Claims). k (codes "sub") ≡ some ctx.access_token) claims
        (sub_of ctx.access_token) in
    cc (g.subject, sub, token)
