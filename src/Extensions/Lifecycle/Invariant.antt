-- ===== src/Extensions/Lifecycle/Invariant.antt =====
-- What the columns of an installation tell of each other, and that the commands keep it.
use mathlib.Core.Path.{subst}
use wattanman.Base.{
  String, Bool, true, false, not, ◌&&◌, ◌||◌, Option, none, some, ◌≡◌, sym, is_some, arith, ok, ◌⊎◌,
  inl, inr,
}
use wattanman.Extensions.Types.{
  State, Billing, Pricing, Policy, Group, Installation, Loaded, Written, is_state,
  is_active_billing, is_free, is_invoiced,
}
use wattanman.Extensions.Lifecycle.{
  Context, approve, set_billing_status, install, set_update_policy, set_rollout_group, activate,
  uninstall, admit_activation, activated, unpaid,
}
use wattanman.Extensions.Controls.{assert_allowed}
use wattanman.Extensions.Lifecycle.Stored.{lifecycle_state}

-- The columns that a state goes with: enabled exactly while active; installed while installed or
-- active; with the times of removal and purge exactly when uninstalled; free or paid for while
-- active; and, where the pricing asks for an invoice, with a submitted one from the review on.
abbrev pub agrees : Pricing → Installation → State → Bool
agrees p i State.requested =
    not i.enabled && not (is_some i.uninstalled_at) && not (is_some i.purge_after)
agrees p i State.payment_review =
    not i.enabled
    && not (is_some i.uninstalled_at)
    && not (is_some i.purge_after)
    && (not (is_invoiced p) || is_some i.payment_submitted_at)
agrees p i State.approved =
    not i.enabled
    && not (is_some i.uninstalled_at)
    && not (is_some i.purge_after)
    && (not (is_invoiced p) || is_some i.payment_submitted_at)
agrees p i State.installed =
    not i.enabled
    && not (is_some i.uninstalled_at)
    && not (is_some i.purge_after)
    && is_some i.installed_at
    && (not (is_invoiced p) || is_some i.payment_submitted_at)
agrees p i State.active =
    i.enabled
    && not (is_some i.uninstalled_at)
    && not (is_some i.purge_after)
    && is_some i.installed_at
    && (not (is_invoiced p) || is_some i.payment_submitted_at)
    && (is_free p || is_active_billing i.billing_status)
agrees p i State.uninstalled =
    not i.enabled
    && is_some i.uninstalled_at
    && is_some i.purge_after
    && is_some i.installed_at
    && (not (is_invoiced p) || is_some i.payment_submitted_at)

-- The stored state is there, and the columns agree with it.
abbrev pub IsConsistent : Pricing → Installation → Type 0
IsConsistent p i = (is_some i.lifecycle_state ≡ true) × (agrees p i (lifecycle_state i) ≡ true)

-- A new billing keeps the agreement where an active installation gets an active one.
agrees-billing :
    (p : Pricing) (i : Installation) (s : State) (b : Billing)
    → (is_state s State.active && not (is_active_billing b)) ≡ false
    → agrees p i s ≡ true
    → agrees p (record i { billing_status = b }) s ≡ true
agrees-billing p i State.requested b n h = h
agrees-billing p i State.payment_review b n h = h
agrees-billing p i State.approved b n h = h
agrees-billing p i State.installed b n h = h
agrees-billing p i State.active b n h = ground arith
agrees-billing p i State.uninstalled b n h = h

set_billing_status-cases :
    (b : Billing) (l : Loaded) (w : Written)
    → set_billing_status (some b) (some l) ≡ ok w
    → (w.row ≡ record l.row { billing_status = b })
      × ((is_state (lifecycle_state l.row) State.active && not (is_active_billing b)) ≡ false)
unfolding set_billing_status
set_billing_status-cases b l w e = (ground arith, ground arith)

pub activate-cases :
    (c : Context) (l : Loaded) (w : Written)
    → activate c true (some l) ≡ ok w
    → (assert_allowed c.switches l l.row.installed_version_id none ≡ ok tt)
      × ((w.row ≡ l.row)
          ⊎ ((lifecycle_state l.row ≡ State.installed)
              × (admit_activation c l ≡ ok tt)
              × (w ≡ activated c l)))
unfolding activate
activate-cases c l w e = ground arith

admit_activation-paid : (c : Context) (l : Loaded) → admit_activation c l ≡ ok tt → unpaid l ≡ false
unfolding admit_activation
admit_activation-paid c l e = ground arith

activated-IsConsistent :
    (c : Context) (l : Loaded)
    → IsConsistent l.extension.pricing l.row
    → lifecycle_state l.row ≡ State.installed
    → unpaid l ≡ false
    → IsConsistent l.extension.pricing (activated c l).row
unfolding lifecycle_state
activated-IsConsistent c l h e paid = (ground arith, ground arith)

module _ (l : Loaded) (w : Written) (h : IsConsistent l.extension.pricing l.row) where
  pub set_billing_status-IsConsistent :
      (b : Option Billing)
      → set_billing_status b (some l) ≡ ok w
      → IsConsistent l.extension.pricing w.row
  unfolding set_billing_status lifecycle_state
  set_billing_status-IsConsistent none e = ground arith
  set_billing_status-IsConsistent (some b) e =
      let (row, paid) = set_billing_status-cases b l w e in
      subst (IsConsistent l.extension.pricing) (sym row)
        (h.0, agrees-billing l.extension.pricing l.row (lifecycle_state l.row) b paid h.1)

  pub set_update_policy-IsConsistent :
      (p : Option Policy)
      → set_update_policy p (some l) ≡ ok w
      → IsConsistent l.extension.pricing w.row
  unfolding set_update_policy lifecycle_state
  set_update_policy-IsConsistent p e = (ground arith, ground arith)

  pub set_rollout_group-IsConsistent :
      (g : Option Group)
      → set_rollout_group g (some l) ≡ ok w
      → IsConsistent l.extension.pricing w.row
  unfolding set_rollout_group lifecycle_state
  set_rollout_group-IsConsistent g e = (ground arith, ground arith)

module _ (c : Context) (l : Loaded) (w : Written) (h : IsConsistent l.extension.pricing l.row) where
  pub approve-IsConsistent : approve c (some l) ≡ ok w → IsConsistent l.extension.pricing w.row
  unfolding approve lifecycle_state
  approve-IsConsistent e = (ground arith, ground arith)

  pub install-IsConsistent :
      (v : String) → install c v (some l) ≡ ok w → IsConsistent l.extension.pricing w.row
  unfolding install lifecycle_state
  install-IsConsistent v e = (ground arith, ground arith)

  pub activate-IsConsistent :
      (on : Bool) → activate c on (some l) ≡ ok w → IsConsistent l.extension.pricing w.row
  unfolding activate lifecycle_state
  activate-IsConsistent true e = kept (activate-cases c l w e).1
    where
      kept :
          (w.row ≡ l.row)
            ⊎ ((lifecycle_state l.row ≡ State.installed)
                × (admit_activation c l ≡ ok tt)
                × (w ≡ activated c l))
          → IsConsistent l.extension.pricing w.row
      kept (inl same) = subst (IsConsistent l.extension.pricing) (sym same) h
      kept (inr (state, admitted, new)) =
          subst (λ w'. IsConsistent l.extension.pricing w'.row) (sym new)
            (activated-IsConsistent c l h state (admit_activation-paid c l admitted))
  activate-IsConsistent false e = (ground arith, ground arith)

  pub uninstall-IsConsistent : uninstall c (some l) ≡ ok w → IsConsistent l.extension.pricing w.row
  unfolding uninstall lifecycle_state
  uninstall-IsConsistent e = (ground arith, ground arith)
