-- ===== src/Server/Gateway/Tests.antt =====
-- A request with a token, one without, and the tables behind them.
use carqna_agent.Common.{ℕ, ◌≡◌, ◌≢◌, refl, sym, ◌∙◌, none, List, [], ◌∷◌}
use carqna_agent.PyText.{codes, text_eq, text_mem, starts_with, lower, strip}
use carqna_agent.Auth.Bearer.{get_bearer_token, after_space}
use carqna_agent.Auth.Verify.{authenticate_request, get_jwks_client}
use carqna_agent.Database.{update_last_seen, insert_session, insert_sessions}
use carqna_agent.Sessions.{create_session}
use carqna_agent.PyText.Laws.{text_eq_iff}
use carqna_agent.Errors.{returned}
use carqna_agent.Database.Pool.{IsTransactional, direct, direct-IsTransactional}
use carqna_agent.Database.Sample.{alice, carol, two_users, two_users-IsConsistent, bob-ne-alice}
use carqna_agent.Sessions.Visible.{visible}
use carqna_agent.Auth.Middleware.{World, is_open, call}
use carqna_agent.Auth.Sample.{
  plain, tenant, api, header_of_bob, context_of, profile_get, subject_of_bob,
}
use carqna_agent.Server.Routes.{healthy, agent_name, new_session, health, session, scope_of}
use carqna_agent.Server.Concurrent.{answered, Service, take_turn, proceed, look_up, finish}
use carqna_agent.Server.Gateway.{Outside, Event, arrive, go_on, happen, happen_all}
use carqna_agent.Server.Gateway.Safety.{IsHarmless, happen_all-visible_ne}

-- Nothing is under way but a request of Carol that has been answered.
abbrev idle : World Service
idle = record {
  context = none;
  jwks = none;
  state = record {
    requests = λ k. record {
      context = context_of carol;
      route = health;
      phase = answered (returned (healthy agent_name));
    };
    database = two_users;
  };
}

abbrev outside : ℕ → Outside
outside now = record { jwt = plain; http_get = profile_get; pool = direct; now = now }

abbrev turn : ℕ → Event
turn n = go_on profile_get (record { request = n; pool = direct; now = 9 })

-- Bob asks for a session, and in between somebody without a token asks for one too.
abbrev events : List Event
events =
    arrive 0 (new_session (codes "work")) header_of_bob (outside 8)
    ∷ turn 0
    ∷ arrive 1 (new_session (codes "work")) none (outside 9)
    ∷ turn 1
    ∷ turn 0
    ∷ []

bob_served :
    ((happen_all tenant api events idle).state.requests 0).phase
    ≡ answered (returned (session (record { id = 2; session_name = codes "work"; access_ts = 9 })))
unfolding happen_all happen call is_open text_mem text_eq get_bearer_token starts_with lower strip
    after_space authenticate_request get_jwks_client take_turn proceed look_up finish
    update_last_seen create_session insert_sessions insert_session
bob_served = refl

carol-ne-alice : carol ≢ alice
unfolding text_eq
carol-ne-alice e = cc ((text_eq_iff carol alice).1 e)

-- Without a header there is no token.
no_token : IsHarmless tenant api alice (arrive 1 (new_session (codes "work")) none (outside 9))
unfolding get_bearer_token
no_token ctx genuine same = cc (genuine.sent)

happen_all-visible_ne_example :
    visible alice (happen_all tenant api events idle).state.database ≡ visible alice two_users
happen_all-visible_ne_example =
    happen_all-visible_ne tenant api alice events idle (t, (t, (t, (t, (t, tt)))))
      two_users-IsConsistent tt (λ k. carol-ne-alice) (of_bob, (tt, (no_token, (tt, (tt, tt)))))
  where
    t : IsTransactional direct
    t = direct-IsTransactional

    of_bob :
        IsHarmless tenant api alice
          (arrive 0 (new_session (codes "work")) header_of_bob (outside 8))
    of_bob ctx genuine same = bob-ne-alice (
        sym (subject_of_bob (scope_of (new_session (codes "work")) header_of_bob) refl ctx genuine)
        ∙ same)
