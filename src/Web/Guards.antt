-- ===== src/Web/Guards.antt =====
-- apps/web/src/routes/guards.ts: what a route does for a phase of the vault and a wizard.
pub mod Redirects
use key_page.Prelude.{String, Bool, true, false, ◌&&◌, ◌||◌, if◌then◌else◌}

pub data RouteGuard : Type 0 where
  unlocked_route recovery_codes_route setup_wizard_route recovery_wizard_route locked_route :
      RouteGuard

-- the `phase` of VaultState
pub data Phase : Type 0 where
  loading unavailable setup_required locked working unlocked : Phase

-- WizardState; of the codes only that they are there matters here
pub data WizardState : Type 0 where
  closed setup_1 setup_3 recovery_1 recovery_2 codes : WizardState

-- GuardDecision
pub data GuardDecision : Type 0 where
  render wait : GuardDecision
  redirect : String → GuardDecision

abbrev is_phase_unlocked : Phase → Bool
is_phase_unlocked unlocked = true
is_phase_unlocked p = false

abbrev is_phase_locked : Phase → Bool
is_phase_locked locked = true
is_phase_locked p = false

abbrev is_phase_working : Phase → Bool
is_phase_working working = true
is_phase_working p = false

abbrev is_phase_setup_required : Phase → Bool
is_phase_setup_required setup_required = true
is_phase_setup_required p = false

abbrev is_waiting : Phase → Bool
is_waiting loading = true
is_waiting unavailable = true
is_waiting p = false

abbrev is_none_wizard : WizardState → Bool
is_none_wizard closed = true
is_none_wizard w = false

abbrev is_setup : WizardState → Bool
is_setup setup_1 = true
is_setup setup_3 = true
is_setup w = false

abbrev is_setup_3 : WizardState → Bool
is_setup_3 setup_3 = true
is_setup_3 w = false

abbrev is_recovery : WizardState → Bool
is_recovery recovery_1 = true
is_recovery recovery_2 = true
is_recovery w = false

-- isRecoveryCodesParked
abbrev pub is_recovery_codes_parked : WizardState → Bool
is_recovery_codes_parked codes = true
is_recovery_codes_parked w = false

-- resolveRecoveryCodesGuard
unfoldable pub resolve_recovery_codes_guard : Phase → WizardState → GuardDecision
resolve_recovery_codes_guard phase wizard =
    if is_setup_3 wizard
    then redirect "/setup"
    else if is_phase_unlocked phase
    then redirect "/settings"
    else redirect "/unlock"

-- resolveUnlockedGuard
unfoldable pub resolve_unlocked_guard : Phase → WizardState → GuardDecision
resolve_unlocked_guard phase wizard =
    if is_phase_unlocked phase && is_none_wizard wizard
    then render
    else if is_setup wizard
    then redirect "/setup"
    else if is_recovery wizard
    then redirect "/recover"
    else if is_phase_setup_required phase
    then redirect "/setup"
    else redirect "/unlock"

-- resolveSetupWizardGuard
unfoldable pub resolve_setup_wizard_guard : Phase → WizardState → GuardDecision
resolve_setup_wizard_guard phase wizard =
    if is_phase_setup_required phase || is_setup wizard
    then render
    else if is_phase_unlocked phase && is_none_wizard wizard
    then redirect "/"
    else redirect "/unlock"

-- resolveRecoveryWizardGuard
unfoldable pub resolve_recovery_wizard_guard : Phase → WizardState → GuardDecision
resolve_recovery_wizard_guard phase wizard =
    if is_phase_locked phase || is_recovery wizard
    then render
    else if is_phase_unlocked phase && is_none_wizard wizard
    then redirect "/"
    else redirect "/setup"

-- resolveLockedGuard
unfoldable pub resolve_locked_guard : Phase → WizardState → GuardDecision
resolve_locked_guard phase wizard =
    if (is_phase_locked phase || is_phase_working phase) && is_none_wizard wizard
    then render
    else if is_setup wizard
    then redirect "/setup"
    else if is_recovery wizard
    then redirect "/recover"
    else if is_phase_unlocked phase
    then redirect "/"
    else redirect "/setup"

abbrev by_guard : RouteGuard → Phase → WizardState → GuardDecision
by_guard recovery_codes_route phase wizard = resolve_recovery_codes_guard phase wizard
by_guard unlocked_route phase wizard = resolve_unlocked_guard phase wizard
by_guard setup_wizard_route phase wizard = resolve_setup_wizard_guard phase wizard
by_guard recovery_wizard_route phase wizard = resolve_recovery_wizard_guard phase wizard
by_guard locked_route phase wizard = resolve_locked_guard phase wizard

abbrev for_parked : RouteGuard → GuardDecision
for_parked recovery_codes_route = render
for_parked guard = redirect "/recovery-codes"

-- resolveGuard
unfoldable pub resolve_guard : RouteGuard → Phase → WizardState → GuardDecision
resolve_guard guard phase wizard =
    if is_recovery_codes_parked wizard
    then for_parked guard
    else if is_waiting phase
    then wait
    else by_guard guard phase wizard
