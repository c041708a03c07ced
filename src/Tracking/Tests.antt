-- ===== src/Tracking/Tests.antt =====
-- `track_user` on the sample tables: a first request and a later one.
use carqna_agent.Common.{◌≡◌, refl, some, Option, true, false}
use carqna_agent.PyText.{Text, codes, text_eq}
use carqna_agent.Errors.{Result, returned, raised, library_error}
use carqna_agent.Database.{update_last_seen, upsert_user}
use carqna_agent.Database.Pool.{direct}
use carqna_agent.Database.Sample.{carol, two_users}
use carqna_agent.Sessions.Creation.{is_registered}
use carqna_agent.Tracking.{Profile, fetch_userinfo, track_user}

abbrev userinfo : Text → Text → Result Profile
userinfo url header = returned (λ key. some key)

abbrev domain : Option Text
domain = some (codes "tenant.auth0.com")

carol_registered :
    is_registered carol (track_user userinfo domain direct 9 carol (codes "t") two_users).1 ≡ true
unfolding track_user fetch_userinfo update_last_seen upsert_user text_eq
carol_registered = refl

carol_unknown :
    is_registered carol
      (track_user
        (λ url header. raised (library_error (codes "timeout")))
        domain
        direct
        9
        carol
        (codes "t")
        two_users).1
    ≡ false
unfolding track_user fetch_userinfo update_last_seen upsert_user text_eq
carol_unknown = refl
