-- ===== src/Extensions/Requests/Evidence.antt =====
-- `finalizePaymentEvidence` and `paymentEvidenceRetentionDate` of
-- backend/src/platform/extension-installations.service.ts, with the evidence rows of a school.
use wattanman.Base.{
  ℕ, ◌+◌, ◌*◌, String, Bool, true, false, not, ◌&&◌, ◌||◌, Option, none, some, List, leb, ◌==◌,
  str_eq, is_some, filter, length, if◌then◌else◌, Result, ok, conflict, not_found, ◌>>=◌, ◌>>◌,
  throw_if, require, map,
}
use wattanman.Extensions.Types.{State, Invoice, Installation, Action, Written, logged, unchanged}
use wattanman.Extensions.Lifecycle.Stored.{lifecycle_state}

pub data Status : Type 0 where
  pending submitted purging purged : Status

pub record Evidence : Type 0 where
  pub installation_id : String
  pub storage_key : String
  pub size : ℕ
  pub checksum : String
  pub status : Status
  pub uploaded_at : Option ℕ
  pub submitted_at : Option ℕ
  pub retain_until : ℕ

abbrev pub day_ms : ℕ
day_ms = 24 * 60 * 60 * 1000

-- The configured number of days, where it is from 30 to 3650.
unfoldable pub retention_date : Option ℕ → ℕ → ℕ
retention_date none from = from + 2555 * day_ms
retention_date (some days) from =
    if leb 30 days && leb days 3650 then from + days * day_ms else from + 2555 * day_ms

-- An object as the store describes it, its type before the `;` and its checksum in lower case, and
-- as it is read, with the SHA-256 digest of its contents.
pub record Stored : Type 0 where
  pub content_length : ℕ
  pub media_type : Option String
  pub checksum : Option String
  pub read_length : ℕ
  pub digest : String

abbrev is_text : Option String → String → Bool
is_text none t = false
is_text (some s) t = str_eq s t

abbrev is_pending : Status → Bool
is_pending Status.pending = true
is_pending _ = false

abbrev is_awaited : String → String → Evidence → Bool
is_awaited id key e = str_eq e.installation_id id && str_eq e.storage_key key && is_pending e.status

abbrev submit_evidence : ℕ → ℕ → Evidence → Evidence
submit_evidence now until e = record e {
  status = Status.submitted;
  uploaded_at = some now;
  submitted_at = some now;
  retain_until = until;
}

-- The invoice that a row waits for: a key, a checksum and a size that is not 0.
abbrev pub pending_invoice : Option Invoice → Option Invoice
pending_invoice none = none
pending_invoice (some v) =
    if str_eq v.storage_key "" || str_eq v.checksum "" || v.size == 0 then none else some v

abbrev pub uploaded_row : ℕ → Invoice → Installation → Installation
uploaded_row now v i = record i {
  invoice = some (record v { uploaded_at = some now });
  payment_submitted_at = some now;
  lifecycle_state = some State.payment_review;
}

unfoldable pub finalize_payment_evidence :
    ℕ → Option ℕ → Option Installation → Stored → List Evidence → Result (Written × List Evidence)
finalize_payment_evidence now days found o evidence = do
  i ← require found not_found
  v ← require (pending_invoice i.invoice) not_found
  if is_some i.payment_submitted_at then ok (unchanged i, evidence) else do
    throw_if
        (not (
          o.content_length == v.size
          && is_text o.media_type v.content_type
          && is_text o.checksum v.checksum))
        conflict
    throw_if (not (o.read_length == v.size && str_eq o.digest v.checksum)) conflict
    let awaited = is_awaited i.id v.storage_key
    throw_if (not (length (filter awaited evidence) == 1)) conflict
    let until = retention_date days now
    ok (
      logged (uploaded_row now v i) Action.evidence_submitted (some (lifecycle_state i))
          (some State.payment_review),
      map (λ e. if awaited e then submit_evidence now until e else e) evidence,
    )
