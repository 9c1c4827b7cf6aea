-- ===== src/Disclosure/Verify.antt =====
-- `verifyByToken` of apps/api/src/disclosure/disclosure.service.ts, and what it shows.
use serveproof.Prelude.{
  ℕ, ◌≤◌, ◌≡◌, inl, inr, refl, Bool, true, false, not, Option, none, some, [], ◌∷◌, ◌++◌, Text,
  if◌then◌else◌, is_some, or_else, Bool-cases, arith,
}
use serveproof.Prelude.Http.{Result, ok, not_found, or_throw, ◌>>=◌, OnOk, OnOk-or_throw, returns}
use serveproof.Redis.{Redis}
use serveproof.Disclosure.Types.{
  AccessMode, link, recipient_otp, ReportState, draft, issued, expired, corrected, revoked, Grant,
  Report, Store, Runtime,
}
use serveproof.Disclosure.Grants.{is_revoked}
use serveproof.Disclosure.Access.{
  is_expired, is_corrected, Status, is_valid, report_status, grant_by_token, newest, mask_email,
}
use serveproof.Disclosure.Otp.{Key, session}

-- The grant and its newest report stand for the columns that are answered with every status.
pub data View : Type 0 where
  metadata : Status → Grant → Option Report → View
  auth_required : Text → View
  disclosed : Grant → Option Report → View

abbrev pub has_session : (r : Redis Key) → Runtime → ℕ → Grant → Option Text → r.State → Bool
has_session r rt now g none s = false
has_session r rt now g (some []) s = false
has_session r rt now g (some (c ∷ cs)) s = is_some (r.get now (session g.id (rt.sha (c ∷ cs))) s)

-- A link is open to everyone who has it.
abbrev pub may_open :
    (r : Redis Key) → Runtime → ℕ → Grant → Option Text → r.State → AccessMode → Bool
may_open r rt now g access s link = true
may_open r rt now g access s recipient_otp = has_session r rt now g access s

abbrev pub log_access : ℕ → Grant → Store → Store
log_access now g st = record st {
  accesses = st.accesses ++ (record { grant = g.id; at_ = now } ∷ []);
}

abbrev pub view_of :
    (r : Redis Key)
    → Runtime
    → ℕ
    → Grant
    → Option Report
    → Status
    → Option Text
    → Store
    → r.State
    → Store × View
view_of r rt now g report status access st s =
    if not (is_valid status)
    then (st, metadata status g report)
    else if not (may_open r rt now g access s g.access_mode)
    then (st, auth_required (mask_email (or_else g.recipient_email [])))
    else (log_access now g st, disclosed g report)

unfoldable pub verify_by_token :
    (r : Redis Key) → Runtime → ℕ → Text → Option Text → Store → r.State → Result (Store × View)
unfolding grant_by_token newest report_status mask_email
verify_by_token r rt now token access st s = do
  g ← or_throw (grant_by_token rt token st) not_found
  ok (view_of r rt now g (newest g st) (report_status now g (newest g st)) access st s)

abbrev pub is_live : ReportState → Bool
is_live draft = true
is_live issued = true
is_live _ = false

-- The conditions under which a report is shown.
abbrev pub MayShow :
    (r : Redis Key)
    → Runtime
    → ℕ
    → Text
    → Option Text
    → Store
    → r.State
    → Grant
    → Option Report
    → Type 0
MayShow r rt now token access st s g report =
    (grant_by_token rt token st ≡ some g)
    × (g.revoked_at ≡ none)
    × (now ≤ g.expires_at)
    × ((p : Report) × (report ≡ some p) × (newest g st ≡ some p) × (is_live p.state ≡ true))
    × (may_open r rt now g access s g.access_mode ≡ true)

-- Where a view discloses, the conditions hold.
abbrev pub OnDisclosed : (Grant → Option Report → Type 0) → View → Type 0
OnDisclosed P (metadata status g report) = Unit
OnDisclosed P (auth_required email) = Unit
OnDisclosed P (disclosed g report) = P g report

live_state :
    (s : ReportState)
    → is_expired s ≡ false
    → is_corrected s ≡ false
    → is_revoked s ≡ false
    → is_live s ≡ true
live_state draft a b c = refl
live_state issued a b c = refl
live_state expired a b c = cc
live_state corrected a b c = cc
live_state revoked a b c = cc

no_instant : (o : Option ℕ) → is_some o ≡ false → o ≡ none
no_instant none h = refl
no_instant (some n) h = cc

valid-live :
    (now : ℕ) (g : Grant) (report : Option Report)
    → is_valid (report_status now g report) ≡ true
    → (g.revoked_at ≡ none)
      × (now ≤ g.expires_at)
      × ((p : Report) × (report ≡ some p) × (is_live p.state ≡ true))
unfolding report_status
valid-live now g none h = ground arith
valid-live now g (some p) h = (
  no_instant g.revoked_at (ground arith),
  ground arith,
  (p, refl, live_state p.state (ground arith) (ground arith) (ground arith)),
)

-- A verification that returns a report found the grant of the token not revoked and not past its end, and its
-- newest report neither expired, corrected nor revoked; with recipient authentication, it found a session.
pub verify_by_token-MayShow :
    (r : Redis Key) (rt : Runtime) (now : ℕ) (token : Text) (access : Option Text) (st : Store)
    (s : r.State)
    → OnOk
        (λ p. OnDisclosed (MayShow r rt now token access st s) p.1)
        (verify_by_token r rt now token access st s)
unfolding verify_by_token
verify_by_token-MayShow r rt now token access st s = OnOk-or_throw _ _ _ λ g found.
    returns (elim (Bool-cases (is_valid (report_status now g (newest g st)))) [
      | inl e ↦ elim (Bool-cases (may_open r rt now g access s g.access_mode)) [
        | inl f ↦
            let (unrevoked, in_time, (p, is_newest, live)) = valid-live now g (newest g st) e in
            rw (e, f) (found, unrevoked, in_time, (p, is_newest, is_newest, live), f)
        | inr f ↦ rw (e, f) tt
      ]
      | inr e ↦ rw e tt
    ])
