-- ===== src/Extensions/Requests/Invoices.antt =====
-- `requestPaid` and `initiatePaymentEvidence` of
-- backend/src/platform/extension-installations.service.ts. The key under which an invoice is stored,
-- its SHA-256 checksum and the outcome of the database's transaction are arguments.
use wattanman.Base.{
  ℕ, ◌+◌, ◌*◌, String, Bool, false, not, ◌||◌, Option, none, some, List, [], ◌∷◌, ltb, ◌==◌, head?,
  if◌then◌else◌, Result, ok, err, bad_request, conflict, not_found, includes, ◌>>=◌, ◌>>◌, throw_if,
  require,
}
use wattanman.Base.Map
use wattanman.Base.Map.{Map}
use wattanman.Extensions.Types.{
  State, Billing, Version, Extension, Snapshot, Invoice, Installation, Action, is_invoiced,
}
use wattanman.Extensions.Requests.{
  Offer, Requester, Granted, when_offered, is_enabled, pricing_snapshot, new_row, row_or_new,
  audit_of,
}
use wattanman.Extensions.Requests.Evidence.{Status, Evidence, day_ms, retention_date}

-- The row of a paid request, with the fields that the two ways of submitting an invoice share.
abbrev paid_row :
    Requester → Extension → Version → Snapshot → State → Invoice → Option ℕ → Installation
paid_row q e v snapshot state invoice submitted_at = record (row_or_new q e v) {
  installed_version_id = v.id;
  requested_at = some q.now;
  approved_at = none;
  installed_at = none;
  enabled = false;
  lifecycle_state = some state;
  billing_status = Billing.pending;
  invoice = some invoice;
  payment_submitted_at = submitted_at;
  uninstalled_at = none;
  purge_after = none;
  snapshot = some snapshot;
}

abbrev invoice_types : List String
invoice_types = "application/pdf" ∷ "image/jpeg" ∷ "image/png" ∷ []

-- The offer, its latest version and the school's and the administrator's names, for a paid request.
abbrev admit_paid : Requester → Option Offer → Result (Extension × Version × Snapshot)
admit_paid q found = do
  offer ← require (when_offered is_invoiced q.school_id found) not_found
  latest ← require (head? offer.releases) not_found
  school ← require q.school_name not_found
  admin ← require q.admin_name not_found
  throw_if (is_enabled q.existing) conflict
  ok (offer.extension, latest, pricing_snapshot offer.extension school admin)

-- The private objects, and the evidence rows of the school.
pub record Files : Type 0 where
  pub objects : Map String
  pub evidence : List Evidence

-- An uploaded invoice, with the key that is made for it.
pub record Upload : Type 0 where
  pub key : String
  pub media_type : String
  pub contents : String
  pub size : ℕ
  pub checksum : String

-- The row is written with its evidence in one transaction, and the object is deleted where that
-- fails. `commit` is the outcome of the transaction.
abbrev filed :
    Requester
    → Option ℕ
    → Upload
    → Files
    → Result (Unit {0})
    → Installation
    → Result Granted × Files
filed q days u f (err e) row =
    (err e, record f { objects = Map.delete (Map.set f.objects u.key u.contents) u.key })
filed q days u f (ok tt) row = (
  ok (record {
    row = row;
    audit = audit_of Action.paid_request row.id none (some State.payment_review);
  }),
  record {
    objects = Map.set f.objects u.key u.contents;
    evidence =
        record {
          installation_id = row.id;
          storage_key = u.key;
          size = u.size;
          checksum = u.checksum;
          status = Status.submitted;
          uploaded_at = some q.now;
          submitted_at = some q.now;
          retain_until = retention_date days q.now;
        }
        ∷ f.evidence;
  },
)

abbrev file_paid :
    Requester
    → Option ℕ
    → Upload
    → Files
    → Result (Unit {0})
    → Result (Extension × Version × Snapshot)
    → Result Granted × Files
file_paid q days u f commit (err e) = (err e, f)
file_paid q days u f commit (ok (e, v, snapshot)) = filed q days u f commit (
    paid_row q e v snapshot State.payment_review
      (record {
        storage_key = u.key;
        content_type = u.media_type;
        size = u.size;
        checksum = u.checksum;
        uploaded_at = some q.now;
      })
      (some q.now))

unfoldable pub request_paid :
    Requester
    → Option Offer
    → Option ℕ
    → Upload
    → Result (Unit {0})
    → Files
    → Result Granted × Files
unfolding new_row pricing_snapshot
request_paid q found days u commit f =
    if includes invoice_types u.media_type
    then file_paid q days u f commit (admit_paid q found)
    else (err bad_request, f)

-- What a school declares of the invoice that it will upload: the type and the checksum in lower
-- case, without spaces around; `is_digest` tells whether the checksum is 64 hexadecimal digits.
pub record Announced : Type 0 where
  pub key : String
  pub media_type : String
  pub size : ℕ
  pub checksum : String
  pub is_digest : Bool

abbrev announce : Requester → Announced → Files → Extension → Version → Snapshot → Granted × Files
announce q a f e v snapshot =
    let row =
      paid_row q e v snapshot State.requested
        (record {
          storage_key = a.key;
          content_type = a.media_type;
          size = a.size;
          checksum = a.checksum;
          uploaded_at = none;
        })
        none in
    (
      record {
        row = row;
        audit = audit_of Action.evidence_initiated row.id none (some State.requested);
      },
      record f {
        evidence =
            record {
              installation_id = row.id;
              storage_key = a.key;
              size = a.size;
              checksum = a.checksum;
              status = Status.pending;
              uploaded_at = none;
              submitted_at = none;
              retain_until = q.now + day_ms;
            }
            ∷ f.evidence;
      },
    )

unfoldable pub initiate_payment_evidence :
    Requester → Option Offer → Announced → Files → Result (Granted × Files)
unfolding new_row pricing_snapshot
initiate_payment_evidence q found a f = do
  throw_if (not (includes invoice_types a.media_type)) bad_request
  throw_if (a.size == 0 || ltb (5 * 1024 * 1024) a.size) bad_request
  throw_if (not a.is_digest) bad_request
  (e, v, snapshot) ← admit_paid q found
  ok (announce q a f e v snapshot)
