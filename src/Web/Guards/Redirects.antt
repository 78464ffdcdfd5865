-- ===== src/Web/Guards/Redirects.antt =====
-- Where redirects end, by the paths of apps/web/src/routes/router.tsx.
use key_page.Prelude.{
  ℕ, zero, suc, ◌≡◌, String, true, Option, none, some, ◌==◌, if◌then◌else◌, arith, is_some,
}
use key_page.Web.Guards.{
  RouteGuard, unlocked_route, recovery_codes_route, setup_wizard_route, recovery_wizard_route,
  locked_route, Phase, WizardState, GuardDecision, render, wait, redirect, resolve_guard,
  resolve_recovery_codes_guard, resolve_unlocked_guard, resolve_setup_wizard_guard,
  resolve_recovery_wizard_guard, resolve_locked_guard, is_recovery_codes_parked,
}

-- the guard of the route at a path; "/", "/settings" and what is no route show the dashboard's
unfoldable pub guard_of : String → RouteGuard
guard_of path =
    if path == "/recovery-codes"
    then recovery_codes_route
    else if path == "/setup"
    then setup_wizard_route
    else if path == "/unlock"
    then locked_route
    else if path == "/recover"
    then recovery_wizard_route
    else unlocked_route

-- the decision at the end of at most `hops` redirects, with the guard that made it
unfoldable pub follow :
    (hops : ℕ)
    → RouteGuard
    → Phase
    → WizardState
    → GuardDecision
    → Option (RouteGuard × GuardDecision)
unfolding guard_of
follow hops guard phase wizard render = some (guard, render)
follow hops guard phase wizard wait = some (guard, wait)
follow zero guard phase wizard (redirect to) = none
follow (suc hops) guard phase wizard (redirect to) =
    follow hops (guard_of to) phase wizard (resolve_guard (guard_of to) phase wizard)

-- From every route, in every phase and with every wizard, at most two redirects lead to a route that
-- renders or waits; with recovery codes parked, it is the route that shows them, and it
-- renders.
pub follow-resolve_guard :
    (guard : RouteGuard) (phase : Phase) (wizard : WizardState)
    → (is_some (follow 2 guard phase wizard (resolve_guard guard phase wizard)) ≡ true)
      × (is_recovery_codes_parked wizard ≡ true
          → follow 2 guard phase wizard (resolve_guard guard phase wizard)
            ≡ some (recovery_codes_route, render))
unfolding follow guard_of resolve_guard resolve_recovery_codes_guard resolve_unlocked_guard
    resolve_setup_wizard_guard resolve_recovery_wizard_guard resolve_locked_guard
follow-resolve_guard unlocked_route phase wizard = ground arith
follow-resolve_guard recovery_codes_route phase wizard = ground arith
follow-resolve_guard setup_wizard_route phase wizard = ground arith
follow-resolve_guard recovery_wizard_route phase wizard = ground arith
follow-resolve_guard locked_route phase wizard = ground arith
