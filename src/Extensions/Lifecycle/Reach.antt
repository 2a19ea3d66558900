-- ===== src/Extensions/Lifecycle/Reach.antt =====
-- The histories of a school's installation of one extension, as sequences of accepted commands.
use mathlib.Core.Path.{subst}
use wattanman.Base.{ℕ, String, Bool, true, Option, some, List, ◌≡◌, Result, ok}
use wattanman.Extensions.Types.{
  Policy, Billing, Group, Extension, Installation, Loaded, Version, Written, is_invoiced,
}
use wattanman.Extensions.Lifecycle.{
  Context, approve, set_billing_status, install, set_update_policy, set_rollout_group, activate,
  uninstall,
}
use wattanman.Extensions.Lifecycle.Invariant.{
  IsConsistent, approve-IsConsistent, set_billing_status-IsConsistent, install-IsConsistent,
  set_update_policy-IsConsistent, set_rollout_group-IsConsistent, activate-IsConsistent,
  uninstall-IsConsistent,
}
use wattanman.Extensions.Requests.{Offer, Requester, Granted, request}
use wattanman.Extensions.Requests.Evidence.{Evidence, Stored, finalize_payment_evidence}
use wattanman.Extensions.Requests.Invoices.{
  Upload, Announced, Files, request_paid, initiate_payment_evidence,
}
use wattanman.Extensions.Requests.Consistent.{
  request-IsConsistent, request_paid-IsConsistent, initiate_payment_evidence-IsConsistent,
  finalize_payment_evidence-IsConsistent,
}
use wattanman.Extensions.Upgrade.{Setting, Data, upgrade, rollback}
use wattanman.Extensions.Upgrade.Versions.{upgrade-Keeps, rollback-Keeps, Keeps-IsConsistent}

abbrev load : Installation → Extension → Version → Loaded
load i e v = record { row = i; extension = e; version = v }

-- The row after some commands that were accepted, in any order and at any time, while the extension
-- keeps its pricing. A command loads the row with any version.
-- Evidence is finalised for an invoiced extension only, since no other one has an invoice to wait for.
pub data Reaches (e : Extension) : Installation → Type 0 where
  by_request :
      (q : Requester) (o : Offer) (g : Granted)
      → o.extension ≡ e
      → request q (some o) ≡ ok g
      → Reaches e g.row
  by_paid_request :
      (q : Requester) (o : Offer) (days : Option ℕ) (u : Upload) (commit : Result (Unit {0}))
      (f f' : Files) (g : Granted)
      → o.extension ≡ e
      → request_paid q (some o) days u commit f ≡ (ok g, f')
      → Reaches e g.row
  by_initiation :
      (q : Requester) (o : Offer) (a : Announced) (f f' : Files) (g : Granted)
      → o.extension ≡ e
      → initiate_payment_evidence q (some o) a f ≡ ok (g, f')
      → Reaches e g.row
  by_evidence :
      (now : ℕ) (days : Option ℕ) (i : Installation) (o : Stored)
      (evidence evidence' : List Evidence) (w : Written)
      → is_invoiced e.pricing ≡ true
      → Reaches e i
      → finalize_payment_evidence now days (some i) o evidence ≡ ok (w, evidence')
      → Reaches e w.row
  by_approval :
      (c : Context) (i : Installation) (v : Version) (w : Written)
      → Reaches e i
      → approve c (some (load i e v)) ≡ ok w
      → Reaches e w.row
  by_billing :
      (b : Option Billing) (i : Installation) (v : Version) (w : Written)
      → Reaches e i
      → set_billing_status b (some (load i e v)) ≡ ok w
      → Reaches e w.row
  by_install :
      (c : Context) (id : String) (i : Installation) (v : Version) (w : Written)
      → Reaches e i
      → install c id (some (load i e v)) ≡ ok w
      → Reaches e w.row
  by_policy :
      (p : Option Policy) (i : Installation) (v : Version) (w : Written)
      → Reaches e i
      → set_update_policy p (some (load i e v)) ≡ ok w
      → Reaches e w.row
  by_group :
      (g : Option Group) (i : Installation) (v : Version) (w : Written)
      → Reaches e i
      → set_rollout_group g (some (load i e v)) ≡ ok w
      → Reaches e w.row
  by_activation :
      (c : Context) (on : Bool) (i : Installation) (v : Version) (w : Written)
      → Reaches e i
      → activate c on (some (load i e v)) ≡ ok w
      → Reaches e w.row
  by_upgrade :
      (s : Setting) (c : Context) (id : String) (acknowledged : Bool) (d : Data) (i : Installation)
      (v : Version) (w : Written)
      → Reaches e i
      → (upgrade s c id acknowledged (some (load i e v)) d).0 ≡ ok w
      → Reaches e w.row
  by_rollback :
      (s : Setting) (c : Context) (target : Option String) (d : Data) (i : Installation)
      (v : Version) (w : Written)
      → Reaches e i
      → (rollback s c target (some (load i e v)) d).0 ≡ ok w
      → Reaches e w.row
  by_removal :
      (c : Context) (i : Installation) (v : Version) (w : Written)
      → Reaches e i
      → uninstall c (some (load i e v)) ≡ ok w
      → Reaches e w.row

-- However an installation came about by accepted requests, evidence, approvals, changes of the billing, of
-- the update policy and of the rollout group, installations, activations, upgrades, rollbacks and
-- uninstallations, and by no other write of its row, while its extension kept its pricing, its columns agree
-- with each other: it is enabled exactly while it is active, an active one is free or
-- has an active billing, an approved, installed or active one of an invoiced extension has its invoice,
-- an installed or active one has the time of its installation, and exactly an uninstalled one those of
-- its removal and purge.
pub Reaches-IsConsistent :
    (e : Extension) (i : Installation) → Reaches e i → IsConsistent e.pricing i
Reaches-IsConsistent e i (by_request q o g same h) =
    subst (λ x. IsConsistent x.pricing g.row) same (request-IsConsistent q o g h)
Reaches-IsConsistent e i (by_paid_request q o days u commit f f' g same h) =
    subst (λ x. IsConsistent x.pricing g.row) same
      (request_paid-IsConsistent q o days u commit f f' g h)
Reaches-IsConsistent e i (by_initiation q o a f f' g same h) =
    subst (λ x. IsConsistent x.pricing g.row) same
      (initiate_payment_evidence-IsConsistent q o a f f' g h)
Reaches-IsConsistent e i (by_evidence now days i' o evidence evidence' w invoiced r h) =
    finalize_payment_evidence-IsConsistent e.pricing now days i' o evidence evidence' w invoiced
      (Reaches-IsConsistent e i' r) h
Reaches-IsConsistent e i (by_approval c i' v w r h) =
    approve-IsConsistent c (load i' e v) w (Reaches-IsConsistent e i' r) h
Reaches-IsConsistent e i (by_billing b i' v w r h) =
    set_billing_status-IsConsistent (load i' e v) w (Reaches-IsConsistent e i' r) b h
Reaches-IsConsistent e i (by_install c id i' v w r h) =
    install-IsConsistent c (load i' e v) w (Reaches-IsConsistent e i' r) id h
Reaches-IsConsistent e i (by_policy p i' v w r h) =
    set_update_policy-IsConsistent (load i' e v) w (Reaches-IsConsistent e i' r) p h
Reaches-IsConsistent e i (by_group g i' v w r h) =
    set_rollout_group-IsConsistent (load i' e v) w (Reaches-IsConsistent e i' r) g h
Reaches-IsConsistent e i (by_activation c on i' v w r h) =
    activate-IsConsistent c (load i' e v) w (Reaches-IsConsistent e i' r) on h
Reaches-IsConsistent e i (by_upgrade s c id acknowledged d i' v w r h) =
    Keeps-IsConsistent e.pricing i' w.row (upgrade-Keeps (load i' e v) w s c id acknowledged d h)
      (Reaches-IsConsistent e i' r)
Reaches-IsConsistent e i (by_rollback s c target d i' v w r h) =
    Keeps-IsConsistent e.pricing i' w.row (rollback-Keeps (load i' e v) w s c target d h)
      (Reaches-IsConsistent e i' r)
Reaches-IsConsistent e i (by_removal c i' v w r h) =
    uninstall-IsConsistent c (load i' e v) w (Reaches-IsConsistent e i' r) h
