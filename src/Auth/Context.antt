-- ===== src/Auth/Context.antt =====
-- src/agent/auth_context.py: the verified identity of the request in flight, in a context variable.
use carqna_agent.Common.{Option, none, some}
use carqna_agent.PyText.{Text, codes}
use carqna_agent.Errors.{Result, returned, raised, runtime_error, ◌>>=◌}
use carqna_agent.Auth.Verify.{Claims}

pub record AuthContext : Type 0 where
  pub user_id : Text
  pub claims : Claims
  pub access_token : Text

-- The variable's value in the current task. A reset token holds the value before `set`.
abbrev pub Ctx : Type 0
Ctx = Option AuthContext

abbrev pub set_auth_context : AuthContext → Ctx → Ctx × Ctx
set_auth_context ctx current = (current, some ctx)

abbrev pub reset_auth_context : Ctx → Ctx → Ctx
reset_auth_context token current = token

abbrev pub no_context : Text
no_context =
    codes
      "No authenticated request context is active -- AuthMiddleware must run before this code path, and the route must not be on the middleware's unauthenticated-path allowlist."

unfoldable pub require_context : Ctx → Result AuthContext
require_context none = raised (runtime_error no_context)
require_context (some ctx) = returned ctx

unfoldable pub get_current_user_id : Ctx → Result Text
get_current_user_id ctx = require_context ctx >>= λ c. returned c.user_id

unfoldable pub get_current_claims : Ctx → Result Claims
get_current_claims ctx = require_context ctx >>= λ c. returned c.claims

unfoldable pub get_current_access_token : Ctx → Result Text
get_current_access_token ctx = require_context ctx >>= λ c. returned c.access_token
