-- ===== src/Extensions/Lifecycle/Stored.antt =====
-- `installationLifecycleState` of backend/src/platform/extension-installations.service.ts: the
-- stored state, or the one that the older columns tell.
use wattanman.Base.{Option, none, some, is_some, if◌then◌else◌}
use wattanman.Extensions.Types.{
  State, requested, payment_review, approved, installed, active, uninstalled, Installation,
}

abbrev from_columns : Installation → State
from_columns i =
    if is_some i.uninstalled_at
    then uninstalled
    else (if i.enabled
        then active
        else (if is_some i.installed_at
            then installed
            else (if is_some i.approved_at
                then approved
                else (if is_some i.payment_submitted_at then payment_review else requested))))

abbrev stored_or : Option State → State → State
stored_or none told = told
stored_or (some state) told = state

unfoldable pub lifecycle_state : Installation → State
lifecycle_state i = stored_or i.lifecycle_state (from_columns i)
