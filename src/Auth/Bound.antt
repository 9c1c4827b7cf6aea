-- ===== src/Auth/Bound.antt =====
-- At most five guesses of a one-time code between two requests (apps/api/src/auth/auth.service.ts).
use serveproof.Prelude.{
  ℕ, ◌+◌, ◌≤◌, ◌≡◌, inl, inr, refl, sym, Bool, false, Option, none, some, List, [], ◌∷◌, Text,
  text_eq, text_eq→eq, ltb, Bool-cases, arith,
}
use mathlib.Core.Path.{subst}
use serveproof.Redis.{Redis, IsRedis}
use serveproof.Redis.Counted.{
  Guarded, IsKept, IsKept-Guarded, IsKept-trans, Guarded-later, set-Guarded,
}
use serveproof.Auth.Tokens.{Store}
use serveproof.Auth.Otp.{
  Key, otp, attempts, same_key, otp_ttl, max_attempts, forget_code, compare_code, check_attempt,
  request_otp, verify_otp,
}
use serveproof.Auth.Guesses.{Try, try_code, guesses, IsOrdered, verify_otp-Covers}

-- The code and the attempts of an address are as they were.
abbrev Keeps : (r : Redis Key) → Text → r.State → r.State → Type 0
Keeps r e s s' = IsKept r (otp e) (attempts e) s s'

module _ (r : Redis Key) (sha lower : Text → Text) (laws : IsRedis same_key r) where
  del_otp-Keeps :
      (e f : Text) (now : ℕ) (s : r.State) → text_eq f e ≡ false → Keeps r e s (r.del now (otp f) s)
  del_otp-Keeps e f now s other = λ later. (
    laws.get_del_other now later (otp f) (otp e) s other,
    laws.count_del_other now later (otp f) (attempts e) s refl,
  )

  del_attempts-Keeps :
      (e f : Text) (now : ℕ) (s : r.State)
      → text_eq f e ≡ false
      → Keeps r e s (r.del now (attempts f) s)
  del_attempts-Keeps e f now s other = λ later. (
    laws.get_del_other now later (attempts f) (otp e) s refl,
    laws.count_del_other now later (attempts f) (attempts e) s other,
  )

  incr-Keeps :
      (e f : Text) (now : ℕ) (s : r.State)
      → text_eq f e ≡ false
      → Keeps r e s (r.incr now (attempts f) s).0
  incr-Keeps e f now s other = λ later. (
    laws.get_incr_other now later (attempts f) (otp e) s refl,
    laws.count_incr_other now later (attempts f) (attempts e) s other,
  )

  compare_code-Keeps :
      (e f code raw : Text) (now : ℕ) (st : Store) (stored : Option Text) (s : r.State)
      → text_eq f e ≡ false
      → Keeps r e s (compare_code r sha lower now f code raw st stored s).0
  compare_code-Keeps e f code raw now st none s other = λ later. (refl, refl)
  compare_code-Keeps e f code raw now st (some []) s other = λ later. (refl, refl)
  compare_code-Keeps e f code raw now st (some (x ∷ xs)) s other =
      elim (Bool-cases (text_eq (x ∷ xs) (sha code))) [
        | inl h ↦ rw h (
            IsKept-trans r (otp e) (attempts e) s (r.del now (otp f) s)
              (forget_code r sha lower now f s) (del_otp-Keeps e f now s other)
              (del_attempts-Keeps e f now (r.del now (otp f) s) other))
        | inr h ↦ rw h (λ later. (refl, refl))
      ]

  check_attempt-Keeps :
      (e f code raw : Text) (now n : ℕ) (st : Store) (s : r.State)
      → text_eq f e ≡ false
      → Keeps r e s (check_attempt r sha lower now f code raw st (s, n)).0
  check_attempt-Keeps e f code raw now n st s other = elim (Bool-cases (ltb max_attempts n)) [
    | inl h ↦ rw h (del_otp-Keeps e f now s other)
    | inr h ↦ rw h (compare_code-Keeps e f code raw now st (r.get now (otp f) s) s other)
  ]

  try_code-Keeps :
      (e : Text) (t : Try) (s : r.State)
      → text_eq (lower t.email) e ≡ false
      → Keeps r e s (try_code r sha lower t s).0
  unfolding verify_otp
  try_code-Keeps e t s other =
      let f = lower t.email in
      let (s₁, n) = r.incr t.at_ (attempts f) s in
      IsKept-trans r (otp e) (attempts e) s s₁ _ (incr-Keeps e f t.at_ s other)
        (check_attempt-Keeps e f t.code t.raw t.at_ n t.store s₁ other)

  -- The comparisons in a series of verifications.
  guesses-le :
      (e : Text) (c now : ℕ) (ts : List Try) (s : r.State)
      → c ≤ max_attempts
      → Guarded r (otp e) (attempts e) c now s
      → IsOrdered now ts
      → guesses r sha lower e ts s + c ≤ max_attempts
  unfolding guesses
  guesses-le e c now [] s small guarded ordered = omega arith
  guesses-le e c now (t ∷ ts) s small guarded (h, ordered) =
      let guarded' = Guarded-later r (otp e) (attempts e) c now t.at_ s h guarded in
      let after = (try_code r sha lower t s).0 in
      elim (Bool-cases (text_eq (lower t.email) e)) [
        | inl f ↦
            let same : lower t.email ≡ e = text_eq→eq (lower t.email) e f in
            let (c', covered, small', next) =
              verify_otp-Covers r sha lower laws c t.at_ t.email t.code t.raw t.store s small
                (subst (λ k. Guarded r (otp k) (attempts k) c t.at_ s) (sym same) guarded') in
            let rest =
              guesses-le e c' t.at_ ts after small'
                (subst (λ k. Guarded r (otp k) (attempts k) c' t.at_ after) same next) ordered in
            rw f (omega (arith, covered, rest))
        | inr f ↦
            let kept = try_code-Keeps e t s f in
            let rest =
              guesses-le e c t.at_ ts after small
                (IsKept-Guarded r (otp e) (attempts e) c t.at_ s after kept guarded') ordered in
            rw f (omega (arith, rest))
      ]

-- After a request of a code for an address, verifications of whatever codes, for this address and for
-- others, compare at most five of them with the code, if their instants do not go back.
pub request_otp-guesses :
    (r : Redis Key) (sha lower : Text → Text)
    → IsRedis same_key r
    → (now : ℕ) (is_local : Bool) (dev_domains : List Text) (mail_fails : Bool) (email code : Text)
      (s : r.State) (ts : List Try)
    → IsOrdered now ts
    → guesses r sha lower
        (lower email)
        ts
        (request_otp r sha lower now is_local dev_domains mail_fails email code s).0
      ≤ max_attempts
unfolding request_otp
request_otp-guesses r sha lower laws now is_local dev_domains mail_fails email code s ts ordered =
    let e = lower email in
    let after = (request_otp r sha lower now is_local dev_domains mail_fails email code s).0 in
    let guarded = set-Guarded r laws (otp e) (attempts e) refl now otp_ttl (sha code) s in
    omega (arith, guesses-le r sha lower laws e 0 now ts after (omega arith) guarded ordered)
