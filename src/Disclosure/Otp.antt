-- ===== src/Disclosure/Otp.antt =====
-- `requestRecipientOtp` and `verifyRecipientOtp` of apps/api/src/disclosure/disclosure.service.ts. The
-- random code and token are arguments; the mail is one that may fail.
use serveproof.Prelude.{
  ℕ, ◌-◌, ◌/◌, Bool, true, false, not, ◌&&◌, Option, none, some, [], ◌∷◌, Text, text, text_eq, ltb,
  ◌==◌, if◌then◌else◌, or_else,
}
use serveproof.Prelude.Http.{Result, ok, err, Exception, not_found}
use serveproof.Redis.{Redis}
use serveproof.Disclosure.Types.{Grant, Store, Runtime}
use serveproof.Disclosure.Access.{grant_by_token, recipient_access, mask_email}

-- The argument is the id of the grant; that of a session has the hash of its token too.
pub data Key : Type 0 where
  otp attempts cooldown hourly : ℕ → Key
  session : ℕ → Text → Key

abbrev pub same_key : Key → Key → Bool
same_key (otp i) (otp j) = i == j
same_key (attempts i) (attempts j) = i == j
same_key (cooldown i) (cooldown j) = i == j
same_key (hourly i) (hourly j) = i == j
same_key (session i t) (session j u) = i == j && text_eq t u
same_key _ _ = false

abbrev pub otp_ttl : ℕ
otp_ttl = 300

abbrev pub max_attempts : ℕ
max_attempts = 5

abbrev pub session_ttl : ℕ
session_ttl = 900

abbrev pub cooldown_ttl : ℕ
cooldown_ttl = 60

abbrev pub max_requests : ℕ
max_requests = 5

-- What a request or a verification answers, and where it throws.
pub data Reply : Type 0 where
  refused : Exception → Reply
  -- TOO_MANY_REQUESTS.
  too_soon too_often : Reply
  not_sent : Reply
  sent : Text → Reply
  -- UNAUTHORIZED.
  no_code too_many wrong_code : Reply
  opened : ℕ → Reply

module _ (r : Redis Key) (rt : Runtime) where
  -- The code under its key, and no attempts.
  abbrev pub store_code : ℕ → ℕ → Text → r.State → r.State
  store_code now i code s =
      r.set now (attempts i) (text "0") otp_ttl (r.set now (otp i) (rt.sha code) otp_ttl s)

  abbrev pub forget_code : ℕ → ℕ → r.State → r.State
  forget_code now i s = r.del now (attempts i) (r.del now (otp i) s)

  -- Where the mail fails, the request is taken back. `is_exposed` is that the code is answered in
  -- place of a mail.
  abbrev pub deliver : ℕ → ℕ → Bool → Bool → Text → r.State → r.State × Reply
  deliver now i is_exposed mail_fails email s =
      if not is_exposed && mail_fails
      then (r.decr now (hourly i) (r.del now (cooldown i) (forget_code now i s)), not_sent)
      else (s, sent (mask_email email))

  abbrev pub start_hour : ℕ → ℕ → r.State × ℕ → r.State
  start_hour now i (s, n) = if n == 1 then r.expire now (hourly i) 3600 s else s

  abbrev pub request_within : ℕ → ℕ → Text → Bool → Bool → Text → r.State × ℕ → r.State × Reply
  request_within now i code is_exposed mail_fails email (s, n) =
      if ltb max_requests n
      then (start_hour now i (s, n), too_often)
      else deliver now i is_exposed mail_fails email
          (store_code now i code (start_hour now i (s, n)))

  abbrev pub request_after : ℕ → ℕ → Text → Bool → Bool → Text → r.State × Bool → r.State × Reply
  request_after now i code is_exposed mail_fails email (s, false) = (s, too_soon)
  request_after now i code is_exposed mail_fails email (s, true) =
      request_within now i code is_exposed mail_fails email (r.incr now (hourly i) s)

  abbrev pub request_code : ℕ → Grant → Text → Bool → Bool → r.State → r.State × Reply
  request_code now g code is_exposed mail_fails s =
      request_after now g.id code is_exposed mail_fails (or_else g.recipient_email [])
        (r.set_absent now (cooldown g.id) (text "1") cooldown_ttl s)

  abbrev pub if_access : Result (Unit {0}) → r.State → r.State × Reply → r.State × Reply
  if_access (ok u) s next = next
  if_access (err e) s next = (s, refused e)

  abbrev pub request_found :
      ℕ → Option Grant → Store → Text → Bool → Bool → r.State → r.State × Reply
  request_found now none st code is_exposed mail_fails s = (s, refused not_found)
  request_found now (some g) st code is_exposed mail_fails s =
      if_access (recipient_access now g st) s (request_code now g code is_exposed mail_fails s)

  unfoldable pub request_recipient_otp :
      ℕ → Text → Store → Text → Bool → Bool → r.State → r.State × Reply
  unfolding grant_by_token recipient_access mask_email
  request_recipient_otp now token st code is_exposed mail_fails s =
      request_found now (grant_by_token rt token st) st code is_exposed mail_fails s

  abbrev pub at_most : ℕ → ℕ → ℕ
  at_most m n = if ltb m n then m else n

  -- At least one second, at most the session's, and to the end of the grant.
  abbrev pub session_seconds : ℕ → Grant → ℕ
  session_seconds now g =
      let n = at_most session_ttl ((g.expires_at - now) / 1000) in if n == 0 then 1 else n

  abbrev pub open_session : ℕ → Grant → Text → r.State → r.State × Reply
  open_session now g token s = (
    r.set now (session g.id (rt.sha token)) (text "1") (session_seconds now g)
        (forget_code now g.id s),
    opened (session_seconds now g),
  )

  -- The attempt is counted before the code is compared.
  abbrev pub compare_code : ℕ → Grant → Text → Text → Text → r.State × ℕ → r.State × Reply
  compare_code now g stored code token (s, n) =
      if ltb max_attempts n
      then (forget_code now g.id s, too_many)
      else if text_eq stored (rt.sha code)
      then open_session now g token s
      else (s, wrong_code)

  abbrev pub check_stored : ℕ → Grant → Text → Text → Option Text → r.State → r.State × Reply
  check_stored now g code token none s = (s, no_code)
  check_stored now g code token (some []) s = (s, no_code)
  check_stored now g code token (some (c ∷ cs)) s =
      compare_code now g (c ∷ cs) code token (r.incr now (attempts g.id) s)

  unfoldable pub check_code : ℕ → Grant → Text → Text → r.State → r.State × Reply
  unfolding text_eq
  check_code now g code token s = check_stored now g code token (r.get now (otp g.id) s) s

  abbrev pub verify_found : ℕ → Option Grant → Store → Text → Text → r.State → r.State × Reply
  verify_found now none st code token s = (s, refused not_found)
  verify_found now (some g) st code token s =
      if_access (recipient_access now g st) s (check_code now g code token s)

  unfoldable pub verify_recipient_otp : ℕ → Text → Store → Text → Text → r.State → r.State × Reply
  unfolding grant_by_token recipient_access check_code
  verify_recipient_otp now raw_token st code token s =
      verify_found now (grant_by_token rt raw_token st) st code token s
