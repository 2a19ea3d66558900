-- ===== src/Extensions/Requests/Consistent.antt =====
-- What a request leaves in the row of the installation.
use wattanman.Base.{
  ℕ, true, Bool, Option, none, some, List, ◌≡◌, refl, arith, Result, ok, require, not_found,
  >>=-eq-ok,
}
use wattanman.Extensions.Types.{State, Pricing, Installation, Written, Action, logged, is_invoiced}
use wattanman.Extensions.Lifecycle.Stored.{lifecycle_state}
use wattanman.Extensions.Lifecycle.Invariant.{IsConsistent}
use wattanman.Extensions.Requests.{Offer, Requester, Granted, request}
use wattanman.Extensions.Requests.Evidence.{
  Evidence, Stored, finalize_payment_evidence, pending_invoice, uploaded_row,
}
use wattanman.Extensions.Requests.Invoices.{
  Upload, Announced, Files, request_paid, initiate_payment_evidence,
}

-- An accepted request leaves a consistent row for the offer's pricing.
pub request-IsConsistent :
    (q : Requester) (o : Offer) (g : Granted)
    → request q (some o) ≡ ok g
    → IsConsistent o.extension.pricing g.row
unfolding request lifecycle_state
request-IsConsistent q o g e = (ground arith, ground arith)

pub request_paid-IsConsistent :
    (q : Requester) (o : Offer) (days : Option ℕ) (u : Upload) (commit : Result (Unit {0}))
    (f f' : Files) (g : Granted)
    → request_paid q (some o) days u commit f ≡ (ok g, f')
    → IsConsistent o.extension.pricing g.row
unfolding request_paid lifecycle_state
request_paid-IsConsistent q o days u commit f f' g e = (ground arith, ground arith)

pub initiate_payment_evidence-IsConsistent :
    (q : Requester) (o : Offer) (a : Announced) (f f' : Files) (g : Granted)
    → initiate_payment_evidence q (some o) a f ≡ ok (g, f')
    → IsConsistent o.extension.pricing g.row
unfolding initiate_payment_evidence lifecycle_state
initiate_payment_evidence-IsConsistent q o a f f' g e = (ground arith, ground arith)

pub finalize_payment_evidence-IsConsistent :
    (p : Pricing) (now : ℕ) (days : Option ℕ) (i : Installation) (o : Stored)
    (evidence evidence' : List Evidence) (w : Written)
    → is_invoiced p ≡ true
    → IsConsistent p i
    → finalize_payment_evidence now days (some i) o evidence ≡ ok (w, evidence')
    → IsConsistent p w.row
unfolding finalize_payment_evidence lifecycle_state
finalize_payment_evidence-IsConsistent p now days i o evidence evidence' w invoiced h e =
    (ground arith, ground arith)

-- Where evidence is accepted as submitted for the first time, it is accepted with the same effect on the
-- evidence whatever state the installation is in by then, enabled or not; the installation is moved to the
-- review, and is enabled as it was.
pub late_evidence :
    (now : ℕ) (days : Option ℕ) (i : Installation) (o : Stored) (evidence evidence' : List Evidence)
    (w : Written) (state : Option State) (enabled : Bool)
    → i.payment_submitted_at ≡ none
    → finalize_payment_evidence now days (some i) o evidence ≡ ok (w, evidence')
    → let late = record i { lifecycle_state = state; enabled = enabled } in
      (w' : Written) × (finalize_payment_evidence now days (some late) o evidence
        ≡ ok (w', evidence'))
      × (lifecycle_state w'.row ≡ State.payment_review)
      × (w'.row.enabled ≡ enabled)
unfolding finalize_payment_evidence lifecycle_state
late_evidence now days i o evidence evidence' w state enabled n h =
    let late = record i { lifecycle_state = state; enabled = enabled } in
    let (v, e, rest) = >>=-eq-ok (require (pending_invoice i.invoice) not_found) _ h in
    (
      logged (uploaded_row now v late) Action.evidence_submitted (some (lifecycle_state late))
          (some State.payment_review),
      ground arith,
      ground arith,
      refl,
    )
