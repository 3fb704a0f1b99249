-- ===== src/Daemon/Routes/Tests.antt =====
-- The limit on commands that run at once.
use prax_sandbox.Base.{◌≡◌, refl, List, [], ◌∷◌}
use prax_sandbox.Daemon.Routes.Limiter.{
  LimitEvent, enter, leave, entered, too_many_requests, new_limiter, limit_step, limit_run,
}

abbrev events : List LimitEvent
events = enter ∷ enter ∷ enter ∷ leave ∷ []

limiter_runs : Unit {0}
unfolding limit_step limit_run
limiter_runs = tt

limiter_tests :
    ((limit_run (new_limiter 2) events).running ≡ 1)
    × ((limit_step (limit_run (new_limiter 2) events) enter).1 ≡ entered)
    × ((limit_step (limit_run (new_limiter 1) (enter ∷ [])) enter).1 ≡ too_many_requests)
unfolding limiter_runs
limiter_tests = (refl, refl, refl)
