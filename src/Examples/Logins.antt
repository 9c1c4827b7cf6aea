-- ===== src/Examples/Logins.antt =====
-- The one-time codes and the refresh tokens (apps/api/src/auth/auth.service.ts) at concrete inputs.
use serveproof.Prelude.{
  ℕ, ◌≤◌, ◌≡◌, refl, true, false, Option, none, List, [], ◌∷◌, ◌++◌, Text, text, text_eq_refl,
  arith,
}
use serveproof.Prelude.Http.{methods}
use serveproof.Auth.Tokens.{RefreshToken, Store, token_row, issue_tokens}
use serveproof.Auth.Once.{Timed, redeeming, leaving, entering, times_redeemed, times_redeemed-le}
use serveproof.Shared.Usd.{number_after}
use serveproof.Auth.Otp.{
  Key, otp, attempts, same_key, Request, mailed, entered, new_user, request_otp, verify_otp,
}
use serveproof.Auth.Guesses.{Try, guesses}
use serveproof.Auth.Bound.{request_otp-guesses}
use serveproof.Examples.Memory as Memory
use serveproof.Examples.Memory.{memory, memory-IsRedis}

abbrev first_token : RefreshToken
first_token = token_row 1 0 7 (text "a")

abbrev one_token : Store
one_token = record {
  users =
      record { id = 7; auth_user_id = text "otp:a@b"; email = text "a@b"; display_name = text "a" }
      ∷ [];
  workers = [];
  members = [];
  tokens = first_token ∷ [];
  next_id = 2;
}

-- Two claims with the same row, a login and another claim.
abbrev history : List Timed
history =
    record { at_ = 5; call = redeeming first_token (text "b") }
    ∷ record { at_ = 5; call = redeeming first_token (text "c") }
    ∷ record { at_ = 6; call = entering 7 (text "d") }
    ∷ record { at_ = 6; call = leaving (text "d") }
    ∷ record { at_ = 9; call = redeeming first_token (text "e") }
    ∷ []

redeemed_once : times_redeemed (λ t. t) 1 history one_token ≡ 1
unfolding times_redeemed methods
redeemed_once = refl

times_redeemed-le_example : times_redeemed (λ t. t) 1 history one_token ≤ 1
times_redeemed-le_example =
    times_redeemed-le (λ t. t) 1 0 history one_token (omega arith)
      (omega arith, (omega arith, (omega arith, (omega arith, (omega arith, tt)))))

same_key_refl : (k : Key) → same_key k k ≡ true
same_key_refl (otp e) = text_eq_refl e
same_key_refl (attempts e) = text_eq_refl e

-- A code for an address, by mail.
abbrev requested : (Key → Option Memory.Entry) × Request
requested =
    request_otp (memory same_key) (λ t. t) (λ t. t) 10 false (text "demo" ∷ []) false (text "c@d")
      (text "0") (λ k. none)

abbrev guess : ℕ → Text → Text → Try
guess at_ email code = record {
  at_ = at_;
  email = email;
  code = code;
  raw = text "r";
  store = one_token;
}

abbrev seven_tries : List Try
seven_tries =
    guess 11 (text "c@d") (text "1")
    ∷ guess 12 (text "c@d") (text "2")
    ∷ guess 13 (text "a@b") (text "2")
    ∷ guess 14 (text "c@d") (text "3")
    ∷ guess 15 (text "c@d") (text "4")
    ∷ guess 16 (text "c@d") (text "5")
    ∷ guess 17 (text "c@d") (text "0")
    ∷ []

five_compared : guesses (memory same_key) (λ t. t) (λ t. t) (text "c@d") seven_tries requested.0 ≡ 5
unfolding guesses request_otp methods number_after
five_compared = refl

was_mailed : requested.1 ≡ mailed
unfolding request_otp methods
was_mailed = refl

-- The first login of an address creates its user.
enters :
    (verify_otp
      (memory same_key)
      (λ t. t)
      (λ t. t)
      11
      (text "c@d")
      (text "0")
      (text "r")
      one_token
      requested.0).1
    ≡ entered 2 (
        issue_tokens
          (λ t. t)
          11
          2
          (text "r")
          record one_token {
            users = one_token.users ++ (new_user 2 (text "c@d") ∷ []);
            next_id = 3;
          })
unfolding verify_otp request_otp methods number_after
enters = refl

request_otp-guesses_example :
    guesses (memory same_key) (λ t. t) (λ t. t) (text "c@d") seven_tries requested.0 ≤ 5
unfolding request_otp
request_otp-guesses_example =
    request_otp-guesses (memory same_key) (λ t. t) (λ t. t) (memory-IsRedis same_key same_key_refl)
      10 false (text "demo" ∷ []) false (text "c@d") (text "0") (λ k. none) seven_tries
      (
        omega arith,
        (
          omega arith,
          (omega arith, (omega arith, (omega arith, (omega arith, (omega arith, tt))))),
        ),
      )
