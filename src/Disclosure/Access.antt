-- ===== src/Disclosure/Access.antt =====
-- `reportStatus`, `grantByToken`, `assertRecipientAccessAvailable` and `maskEmail` of
-- apps/api/src/disclosure/disclosure.service.ts.
use serveproof.Prelude.{
  ℕ, zero, suc, ◌-◌, Bool, true, false, ◌&&◌, ◌||◌, Option, none, some, [], ◌∷◌, ◌++◌, Text,
  text_eq, ltb, ◌==◌, if◌then◌else◌, is_some, length,
}
use serveproof.Prelude.Http.{Result, ok, bad_request, forbidden, require, ◌>>◌}
use serveproof.Prelude.Tables.{find_row}
use serveproof.Shared.Emails.{before_at, after_at}
use serveproof.Disclosure.Types.{ReportState, expired, corrected, Grant, Report, Store, Runtime}
use serveproof.Disclosure.Snapshot.{slice_to}
use serveproof.Disclosure.Grants.{find_last, is_recipient_otp, is_filled, is_revoked}

pub data Status : Type 0 where
  valid expired_status revoked_status corrected_status not_issued : Status

abbrev pub is_expired : ReportState → Bool
is_expired expired = true
is_expired _ = false

abbrev pub is_corrected : ReportState → Bool
is_corrected corrected = true
is_corrected _ = false

abbrev pub has_revoked : Option Report → Bool
has_revoked none = false
has_revoked (some r) = is_revoked r.state

abbrev pub status_of : ℕ → Grant → Report → Status
status_of now g r =
    if ltb g.expires_at now || is_expired r.state
    then expired_status
    else if is_corrected r.state
    then corrected_status
    else valid

abbrev pub status_unrevoked : ℕ → Grant → Option Report → Status
status_unrevoked now g none = not_issued
status_unrevoked now g (some r) = status_of now g r

unfoldable pub report_status : ℕ → Grant → Option Report → Status
report_status now g report =
    if is_some g.revoked_at || has_revoked report
    then revoked_status
    else status_unrevoked now g report

unfoldable pub grant_by_token : Runtime → Text → Store → Option Grant
unfolding find_row text_eq
grant_by_token rt token st = find_row (λ g. text_eq g.token_hash (rt.sha token)) st.grants

-- The newest report of a grant.
unfoldable pub newest : Grant → Store → Option Report
unfolding find_last
newest g st = find_last (λ r. r.grant == g.id) st.reports

abbrev pub is_valid : Status → Bool
is_valid valid = true
is_valid _ = false

unfoldable pub recipient_access : ℕ → Grant → Store → Result (Unit {0})
unfolding report_status newest
recipient_access now g st = do
  require (is_valid (report_status now g (newest g st))) forbidden
  require (is_recipient_otp g.access_mode && is_filled g.recipient_email) bad_request
  ok tt

-- The text before the first `@`, and that between it and the next one.
unfoldable pub stars : ℕ → Text
stars zero = []
stars (suc n) = b'*' ∷ stars n

abbrev pub at_least : ℕ → ℕ → ℕ
at_least m n = if ltb n m then m else n

unfoldable pub mask_email : Text → Text
unfolding before_at after_at stars
mask_email email =
    let local = before_at email in
    slice_to 2 local ++ stars (at_least 3 (length local - 2)) ++ (b'@' ∷ after_at email)
