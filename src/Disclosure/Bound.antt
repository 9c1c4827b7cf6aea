-- ===== src/Disclosure/Bound.antt =====
-- At most five guesses of a code between two requests (apps/api/src/disclosure/disclosure.service.ts).
use serveproof.Prelude.{
  ℕ, ◌+◌, ◌≤◌, ◌≡◌, inl, inr, refl, sym, ◌∙◌, Bool, true, false, not, ◌&&◌, Option, none, some,
  List, [], ◌∷◌, Text, text, text_eq, ltb, ◌==◌, ==_iff, or_else, Bool-cases, arith,
}
use mathlib.Core.Path.{subst}
use serveproof.Prelude.Http.{Result, ok, err}
use serveproof.Redis.{Redis, IsRedis}
use serveproof.Redis.Counted as Counted
use serveproof.Disclosure.Types.{Grant, Store, Runtime}
use serveproof.Disclosure.Access.{grant_by_token, recipient_access}
use serveproof.Disclosure.Otp.{
  Key, otp, attempts, cooldown, hourly, session, same_key, otp_ttl, max_attempts, max_requests,
  cooldown_ttl, Reply, sent, forget_code, compare_code, check_stored, check_code, if_access,
  start_hour, request_within, request_after, request_code, request_recipient_otp,
}
use serveproof.Disclosure.Guesses.{Guarded, Try, try_code, guesses, IsOrdered, check_code-Covers}

-- The code and the attempts of a grant are as they were.
abbrev IsKept : (r : Redis Key) → ℕ → r.State → r.State → Type 0
IsKept r i s s' = Counted.IsKept r (otp i) (attempts i) s s'

module _ (r : Redis Key) (rt : Runtime) (laws : IsRedis same_key r) where
  forget_code-IsKept :
      (i j now : ℕ) (s : r.State) → (j == i) ≡ false → IsKept r i s (forget_code r rt now j s)
  forget_code-IsKept i j now s other = λ later. (
    laws.get_del_other now later (attempts j) (otp i) (r.del now (otp j) s) refl
        ∙ laws.get_del_other now later (otp j) (otp i) s other,
    laws.count_del_other now later (attempts j) (attempts i) (r.del now (otp j) s) other
        ∙ laws.count_del_other now later (otp j) (attempts i) s refl,
  )

  incr-IsKept :
      (i j now : ℕ) (s : r.State) → (j == i) ≡ false → IsKept r i s (r.incr now (attempts j) s).0
  incr-IsKept i j now s other = λ later. (
    laws.get_incr_other now later (attempts j) (otp i) s refl,
    laws.count_incr_other now later (attempts j) (attempts i) s other,
  )

  compare_code-IsKept :
      (i now n : ℕ) (g : Grant) (stored code token : Text) (s₀ s : r.State)
      → (g.id == i) ≡ false
      → IsKept r i s₀ s
      → IsKept r i s₀ (compare_code r rt now g stored code token (s, n)).0
  compare_code-IsKept i now n g stored code token s₀ s other kept =
      let forgotten = forget_code-IsKept i g.id now s other in
      elim (Bool-cases (ltb max_attempts n)) [
        | inl e ↦
            rw e (λ later.
              ((forgotten later).0 ∙ (kept later).0, (forgotten later).1 ∙ (kept later).1))
        | inr e ↦ elim (Bool-cases (text_eq stored (rt.sha code))) [
          | inl f ↦
              rw (e, f)
                (λ later. (
                  laws.get_set_other _ later (session g.id _) (otp i) _ _ _ refl
                      ∙ (forgotten later).0
                      ∙ (kept later).0,
                  laws.count_set_other _ later (session g.id _) (attempts i) _ _ _ refl
                      ∙ (forgotten later).1
                      ∙ (kept later).1,
                ))
          | inr f ↦ rw (e, f) kept
        ]
      ]

  check_code-IsKept :
      (i now : ℕ) (g : Grant) (code token : Text) (s : r.State)
      → (g.id == i) ≡ false
      → IsKept r i s (check_code r rt now g code token s).0
  unfolding check_code
  check_code-IsKept i now g code token s other = checked (r.get now (otp g.id) s)
    where
      checked :
          (stored : Option Text) → IsKept r i s (check_stored r rt now g code token stored s).0
      checked none = λ later. (refl, refl)
      checked (some []) = λ later. (refl, refl)
      checked (some (x ∷ xs)) =
          compare_code-IsKept i now (r.incr now (attempts g.id) s).1 g (x ∷ xs) code token s
            (r.incr now (attempts g.id) s).0 other (incr-IsKept i g.id now s other)

  -- The comparisons in a series of verifications.
  guesses-le :
      (i c now : ℕ) (ts : List Try) (s : r.State)
      → c ≤ max_attempts
      → Guarded r i c now s
      → IsOrdered now ts
      → guesses r rt i ts s + c ≤ max_attempts
  unfolding guesses
  guesses-le i c now [] s small guarded ordered = omega arith
  guesses-le i c now (t ∷ ts) s small guarded (h, ordered) =
      let guarded' = Counted.Guarded-later r (otp i) (attempts i) c now t.at_ s h guarded in
      elim (Bool-cases (t.grant.id == i)) [
        | inl e ↦
            let same : t.grant.id ≡ i = (==_iff t.grant.id i).0 e in
            let (c', covered, small', next) =
              check_code-Covers r rt laws c t.at_ t.grant t.code t.token s small
                (subst (λ j. Guarded r j c t.at_ s) (sym same) guarded') in
            let rest =
              guesses-le i c' t.at_ ts (try_code r rt t s).0 small'
                (subst (λ j. Guarded r j c' t.at_ (try_code r rt t s).0) same next) ordered in
            rw e (omega (arith, covered, rest))
        | inr e ↦
            let kept = check_code-IsKept i t.at_ t.grant t.code t.token s e in
            let rest =
              guesses-le i c t.at_ ts (try_code r rt t s).0 small
                (Counted.IsKept-Guarded r (otp i) (attempts i) c t.at_ s (try_code r rt t s).0 kept
                  guarded')
                ordered in
            rw e (omega (arith, rest))
      ]

-- Where a code was sent, there is a bound on its guesses.
abbrev OnSent : (r : Redis Key) → ℕ → ℕ → r.State × Reply → Type 0
OnSent r i now (s, sent m) = Guarded r i 0 now s
OnSent r i now (s, _) = Unit

module _ (r : Redis Key) (rt : Runtime) (laws : IsRedis same_key r) where
  request_within-OnSent :
      (now i : ℕ) (code : Text) (is_exposed mail_fails : Bool) (email : Text) (s : r.State) (n : ℕ)
      → OnSent r i now (request_within r rt now i code is_exposed mail_fails email (s, n))
  request_within-OnSent now i code is_exposed mail_fails email s n =
      elim (Bool-cases (ltb max_requests n)) [
        | inl e ↦ rw e tt
        | inr e ↦ elim (Bool-cases (not is_exposed && mail_fails)) [
          | inl f ↦ rw (e, f) tt
          | inr f ↦
              rw (e, f)
                (Counted.set-Guarded r laws (otp i) (attempts i) refl now otp_ttl (rt.sha code)
                  (start_hour r rt now i (s, n)))
        ]
      ]

  request_after-OnSent :
      (now i : ℕ) (code : Text) (is_exposed mail_fails : Bool) (email : Text)
      (allowed : r.State × Bool)
      → OnSent r i now (request_after r rt now i code is_exposed mail_fails email allowed)
  request_after-OnSent now i code is_exposed mail_fails email (s, false) = tt
  request_after-OnSent now i code is_exposed mail_fails email (s, true) =
      request_within-OnSent now i code is_exposed mail_fails email (r.incr now (hourly i) s).0
        (r.incr now (hourly i) s).1

  if_access-OnSent :
      (i now : ℕ) (access : Result (Unit {0})) (s : r.State) (next : r.State × Reply)
      → OnSent r i now next
      → OnSent r i now (if_access r rt access s next)
  if_access-OnSent i now (ok u) s next h = h
  if_access-OnSent i now (err e) s next h = tt

  request_recipient_otp-OnSent :
      (now : ℕ) (token : Text) (st : Store) (code : Text) (is_exposed mail_fails : Bool)
      (s : r.State) {g : Grant}
      → grant_by_token rt token st ≡ some g
      → OnSent r g.id now (request_recipient_otp r rt now token st code is_exposed mail_fails s)
  unfolding request_recipient_otp
  request_recipient_otp-OnSent now token st code is_exposed mail_fails s {g} e = rw e (
      if_access-OnSent g.id now (recipient_access now g st) s
        (request_code r rt now g code is_exposed mail_fails s)
        (request_after-OnSent now g.id code is_exposed mail_fails (or_else g.recipient_email [])
          (r.set_absent now (cooldown g.id) (text "1") cooldown_ttl s)))

  sent-Guarded :
      (i now : ℕ) (m : Text) (p : r.State × Reply)
      → OnSent r i now p
      → p.1 ≡ sent m
      → Guarded r i 0 now p.0
  sent-Guarded i now m (s, reply) h e = subst (λ q. OnSent r i now (s, q)) e h

-- After a request that sent a code for a grant, verifications of whatever codes, for this grant and for
-- others, compare at most five of them with the code, if their instants do not go back.
pub request_recipient_otp-guesses :
    (r : Redis Key) (rt : Runtime)
    → IsRedis same_key r
    → (now : ℕ) (token : Text) (st : Store) (code : Text) (is_exposed mail_fails : Bool)
      (s : r.State) (masked : Text) (ts : List Try) {g : Grant}
    → grant_by_token rt token st ≡ some g
    → (request_recipient_otp r rt now token st code is_exposed mail_fails s).1 ≡ sent masked
    → IsOrdered now ts
    → guesses r rt g.id ts (request_recipient_otp r rt now token st code is_exposed mail_fails s).0
      ≤ max_attempts
request_recipient_otp-guesses r rt laws now token st code is_exposed mail_fails s masked ts {g} e
      sent_e ordered =
    let after = request_recipient_otp r rt now token st code is_exposed mail_fails s in
    let guarded =
      sent-Guarded r rt laws g.id now masked after
        (request_recipient_otp-OnSent r rt laws now token st code is_exposed mail_fails s e)
        sent_e in
    omega (arith, guesses-le r rt laws g.id 0 now ts after.0 (omega arith) guarded ordered)
