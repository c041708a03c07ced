-- ===== src/Auth/Tests.antt =====
-- The interceptor with the sample provider.
use carqna_agent.Common.{ℕ, ◌≡◌, ◌⊎◌, refl, ap, sym, true, false, none, some, []}
use carqna_agent.PyText.{Text, codes, text_eq, text_mem, starts_with, strip, lower, is_space}
use carqna_agent.Errors.{Result, returned, raised, http_exception, runtime_error}
use carqna_agent.Auth.Bearer.{get_bearer_token, after_space, missing_header}
use carqna_agent.Auth.Bearer.Laws.{IsBearer, get_bearer_token_cases}
use carqna_agent.Auth.Verify.{authenticate_request, get_jwks_client}
use carqna_agent.Auth.Verify.Laws.{IsVerified, authenticate_request-IsVerified}
use carqna_agent.Auth.Context.{AuthContext, Ctx, no_context, get_current_user_id, require_context}
use carqna_agent.Auth.Middleware.{Scope, World, is_open, call}
use carqna_agent.Auth.Middleware.Gate.{call_gate, context-call, call_without_bearer}
use carqna_agent.Auth.Sample.{claims_of, plain, tenant, api, header_of_bob}
use carqna_agent.Database.Sample.{bob}

-- An application that answers with the current user.
abbrev whoami : Scope → World ℕ → Result (Result Text) × World ℕ
whoami scope w = (returned (get_current_user_id w.context), w)

abbrev or_zero : Ctx → World ℕ → Result (Result Text) × World ℕ
or_zero none w = (returned (returned []), record w { state = 0 })
or_zero (some _) w = (returned (get_current_user_id w.context), w)

-- The same, but for requests without a context.
abbrev whoami_or_zero : Scope → World ℕ → Result (Result Text) × World ℕ
whoami_or_zero scope w = or_zero w.context w

abbrev as_detail : ℕ → Text → Result Text
as_detail status detail = raised (http_exception status detail)

abbrev protected : Scope
protected = record { kind = codes "http"; path = codes "/sessions"; authorization = header_of_bob }

abbrev anonymous : Scope
anonymous = record { kind = codes "http"; path = codes "/sessions"; authorization = none }

abbrev idle : World ℕ
idle = record { context = none; jwks = none; state = 7 }

protected_closed : is_open protected ≡ false
unfolding is_open text_eq text_mem
protected_closed = refl

anonymous_closed : is_open anonymous ≡ false
unfolding is_open text_eq text_mem
anonymous_closed = refl

health_is_open : is_open (record protected { path = codes "/health" }) ≡ true
unfolding is_open text_eq text_mem
health_is_open = refl

bob_is_told : (call as_detail plain tenant api whoami protected idle).0 ≡ returned (returned bob)
unfolding call is_open text_eq text_mem get_bearer_token starts_with lower after_space strip
    authenticate_request get_jwks_client get_current_user_id require_context
bob_is_told = refl

whoami_nobody : get_current_user_id none ≡ raised (runtime_error no_context)
unfolding get_current_user_id require_context
whoami_nobody = refl

lower_case_scheme : get_bearer_token (some (codes "bEARER  x ")) ≡ returned (codes "x")
unfolding get_bearer_token starts_with lower after_space strip
lower_case_scheme = refl

get_bearer_token_cases_example :
    ((h : Text) × (rest : Text) × (header_of_bob ≡ some h)
      × IsBearer h rest
      × (get_bearer_token header_of_bob ≡ returned (strip is_space rest)))
    ⊎ (((h rest : Text) → header_of_bob ≡ some h → ¬ IsBearer h rest)
        × (get_bearer_token header_of_bob ≡ raised (http_exception 401 missing_header)))
get_bearer_token_cases_example = get_bearer_token_cases header_of_bob

bob_is_verified : (authenticate_request plain tenant api bob none).0 ≡ returned (claims_of bob)
unfolding authenticate_request get_jwks_client text_eq
bob_is_verified = refl

authenticate_request-IsVerified_example : IsVerified plain tenant api bob (claims_of bob)
authenticate_request-IsVerified_example =
    authenticate_request-IsVerified plain tenant api bob none (claims_of bob) tt bob_is_verified

whoami_agree :
    (ctx : AuthContext) (w : World ℕ)
    → w.context ≡ some ctx
    → whoami protected w ≡ whoami_or_zero protected w
whoami_agree ctx w e = sym (ap (λ c. or_zero c w) e)

call_gate_example :
    call as_detail plain tenant api whoami protected idle
    ≡ call as_detail plain tenant api whoami_or_zero protected idle
call_gate_example =
    call_gate as_detail plain tenant api whoami whoami_or_zero protected
      (λ ctx w e genuine. whoami_agree ctx w e) idle tt protected_closed

context-call_example : (call as_detail plain tenant api whoami protected idle).1.context ≡ none
context-call_example =
    context-call as_detail plain tenant api whoami protected idle protected_closed

call_without_bearer_example :
    call as_detail plain tenant api whoami anonymous idle
    ≡ (returned (as_detail 401 missing_header), idle)
call_without_bearer_example =
    call_without_bearer as_detail plain tenant api whoami anonymous idle anonymous_closed
      (λ h rest e b. cc e)
