-- ===== src/Server/Gateway.antt =====
-- Requests that arrive at the middleware of src/agent/auth_middleware.py while others are under way
-- in the handlers of src/agent/copilotkit_server.py. `authenticate_request` does not await, so the
-- arrival is one step, which ends in front of the handler's first await; Server/Concurrent has the
-- turns from there. Each request is a task, whose context is its own.
pub mod Cache
pub mod Safety
mod Tests
use carqna_agent.Common.{ℕ, Option, none, some, List, [], ◌∷◌, ◌==◌, if◌then◌else◌}
use carqna_agent.PyText.{Text}
use carqna_agent.Errors.{Result, returned, ◌>>=◌}
use carqna_agent.Database.Pool.{Pool}
use carqna_agent.Tracking.{Profile}
use carqna_agent.Auth.Context.{Ctx}
use carqna_agent.Auth.Verify.{Jwt}
use carqna_agent.Auth.Middleware.{Scope, World, call}
use carqna_agent.Server.Routes.{Route, Response, detail, handle, scope_of}
use carqna_agent.Server.Concurrent.{arrived, Request, Service, Turn, take_turn}

-- What is outside of the process when a request arrives: PyJWT with the key sets, and, for a route
-- that needs no token, the identity provider, the pool and the time.
pub record Outside : Type 1 where
  pub jwt : Jwt
  pub http_get : Text → Text → Result Profile
  pub pool : Pool
  pub now : ℕ

pub data Event : Type 1 where
  -- a request, under a number (which may be used again), with its route and its header
  arrive : ℕ → Route → Option Text → Outside → Event
  -- a turn of a request that has arrived, with what the identity provider answers in it
  go_on : (Text → Text → Result Profile) → Turn → Event

abbrev pub enter : ℕ → Request → Service → Service
enter n r s = record s { requests = λ k. if k == n then r else s.requests k }

-- JSONResponse({"detail": …}, status)
abbrev pub refusal : ℕ → Text → Option Response
refusal status text = some (detail status text)

module _ (domain : Option Text) where
  -- The application up to its first await; none: it has not answered yet. Without a context it ends
  -- there: the identity is missing, or the route asks for none.
  abbrev pub begin :
      ℕ → Route → Outside → Ctx → World Service → Result (Option Response) × World Service
  begin n route o none w =
      let (answer, db) = handle o.http_get domain o.pool o.now route none w.state.database in
      (answer >>= λ r. returned (some r), record w { state = record w.state { database = db } })
  begin n route o (some ctx) w = (
    returned none,
    record w { state = enter n (record { context = ctx; route = route; phase = arrived }) w.state },
  )

  abbrev pub beginning :
      ℕ → Route → Outside → Scope → World Service → Result (Option Response) × World Service
  beginning n route o scope w = begin n route o w.context w

  module _ (audience : Option Text) where
    unfoldable pub happen : Event → World Service → World Service
    happen (arrive n route authorization o) w =
        (call refusal o.jwt domain audience (beginning n route o) (scope_of route authorization)
          (record w { context = none })).1
    happen (go_on http_get t) w = record w { state = take_turn http_get domain t w.state }

    unfoldable pub happen_all : List Event → World Service → World Service
    happen_all [] w = w
    happen_all (e ∷ events) w = happen_all events (happen e w)
