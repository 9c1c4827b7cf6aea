-- ===== src/Disclosure/Grants.antt =====
-- `createGrant`, `revokeGrant`, `issueReport`, `getPdfPath` and `expireOverdue` of
-- apps/api/src/disclosure/disclosure.service.ts. The raw token of a grant is an argument.
use serveproof.Prelude.{
  ℕ, ◌+◌, Bool, true, false, not, ◌&&◌, ◌||◌, Option, none, some, List, [], ◌∷◌, ◌++◌, Text, ltb,
  leb, ◌==◌, if◌then◌else◌, or_else, is_some,
}
use mathlib.Core.Option
use serveproof.Prelude.Http.{
  Result, ok, not_found, bad_request, forbidden, require, or_throw, ◌>>=◌, ◌>>◌,
}
use serveproof.Prelude.Tables.{find_row, update_row, update_rows}
use serveproof.Disclosure.Types.{
  Level, level_one, AccessMode, link, recipient_otp, ReportState, issued, expired, corrected,
  revoked, Grant, Report, Worker, Store, Runtime, Snapshot,
}
use serveproof.Disclosure.Snapshot.{is_counted, build_snapshot}

unfoldable pub worker_of : ℕ → Store → Option Worker
unfolding find_row
worker_of user st = find_row (λ w. w.user == user) st.workers

unfoldable pub find_grant : ℕ → Store → Option Grant
unfolding find_row
find_grant i st = find_row (λ g. g.id == i) st.grants

-- The input of `createGrant`, its dates read and its e-mail address in lower case.
pub record GrantInput : Type 0 where
  pub purpose : Text
  pub level : Level
  pub range_start : ℕ
  pub range_end : ℕ
  pub expires_at : ℕ
  pub recipient_email : Option Text
  pub access_mode : Option AccessMode
  pub allow_download : Option Bool
  pub threshold : Option ℕ

abbrev pub is_level_one : Level → Bool
is_level_one level_one = true
is_level_one _ = false

abbrev pub is_recipient_otp : AccessMode → Bool
is_recipient_otp link = false
is_recipient_otp recipient_otp = true

-- An empty string is falsy.
abbrev pub is_filled : Option Text → Bool
is_filled none = false
is_filled (some []) = false
is_filled (some (c ∷ cs)) = true

abbrev pub kept_threshold : Option ℕ → Option ℕ
kept_threshold o = if is_counted o then o else none

abbrev pub grant_of : Runtime → ℕ → ℕ → Text → GrantInput → Grant
grant_of rt i worker token input = record {
  id = i;
  worker = worker;
  purpose = input.purpose;
  level = input.level;
  threshold = kept_threshold input.threshold;
  range_start = input.range_start;
  range_end = input.range_end;
  expires_at = input.expires_at;
  allow_download = or_else input.allow_download false;
  recipient_email = input.recipient_email;
  access_mode = or_else input.access_mode link;
  token_hash = rt.sha token;
  revoked_at = none;
}

unfoldable pub create_grant : Runtime → ℕ → Text → GrantInput → Store → Result Store
unfolding worker_of
create_grant rt user token input st = do
  worker ← or_throw (worker_of user st) not_found
  require (not (is_level_one input.level) || is_counted input.threshold) bad_request
  require
      (not (is_recipient_otp (or_else input.access_mode link)) || is_filled input.recipient_email)
      bad_request
  ok record st {
    grants = st.grants ++ (grant_of rt st.next_id worker.id token input ∷ []);
    next_id = st.next_id + 1;
  }

-- ISSUED or CORRECTED.
abbrev pub is_standing : ReportState → Bool
is_standing issued = true
is_standing corrected = true
is_standing _ = false

unfoldable pub revoke_all : ℕ → ℕ → Store → Store
unfolding update_row update_rows
revoke_all now i st = record st {
  grants = update_row (λ g. g.id == i) (λ g. record g { revoked_at = some now }) st.grants;
  reports =
      update_rows (λ r. r.grant == i && is_standing r.state)
        (λ r. record r { state = revoked; revoked_at = some now }) st.reports;
}

unfoldable pub revoke_grant : ℕ → ℕ → ℕ → Store → Result Store
unfolding worker_of find_grant revoke_all
revoke_grant now user i st = do
  worker ← or_throw (worker_of user st) not_found
  grant ← or_throw (find_grant i st) not_found
  require (grant.worker == worker.id) not_found
  ok (revoke_all now i st)

-- The last row that meets the condition: `orderBy: { createdAt: "desc" }`, one row.
unfoldable pub find_last {ℓ} : {A : Type ℓ} → (A → Bool) → List A → Option A
find_last p [] = none
find_last p (x ∷ xs) =
    let rest = find_last p xs in if is_some rest then rest else if p x then some x else none

abbrev pub report_of : Runtime → ℕ → ℕ → ℕ → Grant → Snapshot → Option Report → Report
report_of rt now i worker g snapshot previous = record {
  id = i;
  worker = worker;
  grant = g.id;
  hash = rt.sign snapshot g.id now;
  snapshot = snapshot;
  state = issued;
  issued_at = now;
  expires_at = g.expires_at;
  revoked_at = none;
  previous = Option.map (λ r. r.id) previous;
  has_pdf = true;
}

-- The report is created, and then its PDF is rendered and its path stored; the drawing is left out.
unfoldable pub issue_report : Runtime → ℕ → ℕ → ℕ → Store → Result Store
unfolding worker_of find_grant build_snapshot find_last
issue_report rt now user i st = do
  worker ← or_throw (worker_of user st) not_found
  grant ← or_throw (find_grant i st) not_found
  require (grant.worker == worker.id) not_found
  require (not (is_some grant.revoked_at)) bad_request
  require (leb now grant.expires_at) bad_request
  let previous = find_last (λ r. r.grant == i && is_standing r.state) st.reports
  let report = report_of rt now st.next_id worker.id grant (build_snapshot rt grant st) previous
  ok record st { reports = st.reports ++ (report ∷ []); next_id = st.next_id + 1 }

abbrev pub is_revoked : ReportState → Bool
is_revoked revoked = true
is_revoked _ = false

-- The id of the report whose file is served.
unfoldable pub get_pdf_path : ℕ → ℕ → Store → Result ℕ
unfolding worker_of find_row
get_pdf_path user i st = do
  worker ← or_throw (worker_of user st) not_found
  report ← or_throw (find_row (λ r. r.id == i) st.reports) not_found
  require (report.worker == worker.id) not_found
  require (not (is_revoked report.state)) forbidden
  require report.has_pdf not_found
  ok report.id

abbrev pub is_issued : ReportState → Bool
is_issued issued = true
is_issued _ = false

unfoldable pub expire_overdue : ℕ → Store → Store
unfolding update_rows
expire_overdue now st = record st {
  reports =
      update_rows (λ r. is_issued r.state && ltb r.expires_at now)
        (λ r. record r { state = expired }) st.reports;
}
