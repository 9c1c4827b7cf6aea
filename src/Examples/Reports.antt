-- ===== src/Examples/Reports.antt =====
-- The income proofs (apps/api/src/disclosure/disclosure.service.ts) at concrete inputs.
use serveproof.Prelude.{
  ℕ, ◌+◌, ◌/◌, ◌*◌, ◌≡◌, ◌≤◌, refl, true, false, Option, none, some, List, [], ◌∷◌, Text, text,
  length, sum_by, ==_refl, text_eq_refl, arith,
}
use serveproof.Prelude.Http.{ok, OnOk, methods}
use serveproof.Shared.Usd.{number_after}
use serveproof.Disclosure.Types.{
  level_two, recipient_otp, issued, Entry, criterion, Grant, Report, Store, Runtime,
}
use serveproof.Disclosure.Snapshot.{entries_of, figures_of}
use serveproof.Disclosure.Totals.{figures_of-breakdown}
use serveproof.Disclosure.Grants.{find_grant, revoke_grant}
use serveproof.Disclosure.Access.{grant_by_token, newest, revoked_status}
use serveproof.Disclosure.Otp.{
  Key, otp, attempts, cooldown, hourly, session, same_key, Reply, request_recipient_otp,
}
use serveproof.Disclosure.Guesses.{Try, guesses}
use serveproof.Disclosure.Bound.{request_recipient_otp-guesses}
use serveproof.Disclosure.Verify.{
  metadata, MayShow, OnDisclosed, verify_by_token, verify_by_token-MayShow,
}
use serveproof.Disclosure.Revoked.{revoke_grant-revoked}
use serveproof.Examples.Memory
use serveproof.Examples.Memory.{memory, memory-IsRedis}

abbrev runtime : Runtime
runtime = record {
  noon = number_after 0;
  round_div = λ p t. (2 * p + t) / (2 * t);
  round_percent = λ p t. (200 * p + t) / (2 * t);
  sha = λ t. t;
  sign = λ s i n. [];
}

abbrev entry : Text → ℕ → Entry
entry date amount = record {
  worker = 4;
  is_active = true;
  shift = some (record { business_date = date; role = text "bar"; from_provider = true });
  venue = 3;
  venue_name = text "v";
  allocated = amount;
  paid = 0;
  payroll_reported = 0;
  withholding = [];
  payout_rail = none;
  grade = text "A";
  correction_of = none;
}

abbrev grant : Grant
grant = record {
  id = 1;
  worker = 4;
  purpose = text "rent";
  level = level_two;
  threshold = none;
  range_start = 20260101;
  range_end = 20261231;
  expires_at = 9000000;
  allow_download = false;
  recipient_email = some (text "lender@example.com");
  access_mode = recipient_otp;
  token_hash = text "t";
  revoked_at = none;
}

abbrev report : Report
report = record {
  id = 2;
  worker = 4;
  grant = 1;
  hash = [];
  snapshot = criterion 0 true;
  state = issued;
  issued_at = 1;
  expires_at = 9000000;
  revoked_at = none;
  previous = none;
  has_pdf = true;
}

abbrev one_grant : Store
one_grant = record {
  workers = record { id = 4; user = 5; name = text "n" } ∷ [];
  entries =
      entry (text "20260718") 700 ∷ entry (text "20260719") 500 ∷ entry (text "20260801") 100 ∷ [];
  grants = grant ∷ [];
  reports = report ∷ [];
  accesses = [];
  next_id = 3;
}

figures_of-breakdown_example :
    let f = figures_of runtime (entries_of runtime grant one_grant) in
    (sum_by (λ e. e.1) f.monthly_breakdown ≡ f.total_allocated)
    × (f.total_allocated ≡ sum_by (λ e. e.allocated) (entries_of runtime grant one_grant))
    × (length f.monthly_breakdown ≡ f.months_covered)
figures_of-breakdown_example = figures_of-breakdown runtime grant one_grant

same_key_refl : (k : Key) → same_key k k ≡ true
same_key_refl (otp i) = ==_refl i
same_key_refl (attempts i) = ==_refl i
same_key_refl (cooldown i) = ==_refl i
same_key_refl (hourly i) = ==_refl i
same_key_refl (session i t) = rw (==_refl i, text_eq_refl t) refl

-- Six guesses of a code.
abbrev guess : ℕ → Text → Try
guess at_ code = record { at_ = at_; grant = grant; code = code; token = text "a" }

abbrev six_guesses : List Try
six_guesses =
    guess 11 (text "1")
    ∷ guess 12 (text "2")
    ∷ guess 13 (text "3")
    ∷ guess 14 (text "4")
    ∷ guess 15 (text "5")
    ∷ guess 16 (text "6")
    ∷ []

abbrev requested : (Key → Option Memory.Entry) × Reply
requested =
    request_recipient_otp (memory same_key) runtime 10 (text "t") one_grant (text "0") true false
      (λ k. none)

five_compared : guesses (memory same_key) runtime 1 six_guesses requested.0 ≡ 5
unfolding guesses request_recipient_otp methods number_after
five_compared = refl

request_recipient_otp-guesses_example :
    guesses (memory same_key) runtime 1 six_guesses requested.0 ≤ 5
unfolding request_recipient_otp grant_by_token methods
request_recipient_otp-guesses_example =
    request_recipient_otp-guesses (memory same_key) runtime (memory-IsRedis same_key same_key_refl)
      10 (text "t") one_grant (text "0") true false (λ k. none) (text "le****@example.com")
      six_guesses {g = grant} refl refl
      (omega arith, (omega arith, (omega arith, (omega arith, (omega arith, (omega arith, tt))))))

verify_by_token-MayShow_example :
    OnOk
      (λ p.
        OnDisclosed
          (MayShow (memory same_key) runtime 20 (text "t") (some (text "a")) one_grant (λ k. none))
          p.1)
      (verify_by_token
        (memory same_key)
        runtime
        20
        (text "t")
        (some (text "a"))
        one_grant
        (λ k. none))
verify_by_token-MayShow_example =
    verify_by_token-MayShow (memory same_key) runtime 20 (text "t") (some (text "a")) one_grant
      (λ k. none)

revoke_grant-revoked_example :
    OnOk
      (λ st'.
        let g' : Grant = record grant { revoked_at = some 30 } in
        verify_by_token (memory same_key) runtime 40 (text "t") none st' (λ k. none)
        ≡ ok (st', metadata revoked_status g' (newest g' st')))
      (revoke_grant 30 5 1 one_grant)
unfolding find_grant grant_by_token
revoke_grant-revoked_example =
    revoke_grant-revoked (memory same_key) runtime 30 40 5 1 (text "t") none one_grant (λ k. none)
      {g = grant} refl refl
