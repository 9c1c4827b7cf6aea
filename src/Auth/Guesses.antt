-- ===== src/Auth/Guesses.antt =====
-- How often the one-time code of a login can be guessed (apps/api/src/auth/auth.service.ts).
use serveproof.Prelude.{
  ℕ, ◌+◌, ◌≤◌, ◌≡◌, inl, inr, refl, sym, ap, ◌∙◌, true, Option, none, some, List, [], ◌∷◌, Text,
  text_eq, ltb, if◌then◌else◌, is_some, Bool-cases, arith,
}
use serveproof.Redis.{Redis, IsRedis}
use serveproof.Redis.Counted.{Guarded, del-Guarded, del-del-Guarded, incr-Guarded, gone-Guarded}
use serveproof.Auth.Tokens.{Store}
use serveproof.Auth.Otp.{
  Key, otp, attempts, same_key, max_attempts, Login, wrong_code, entered, compare_code,
  check_attempt, verify_otp,
}

-- 1 where the code was compared.
abbrev pub compared : Login → ℕ
compared wrong_code = 1
compared (entered user st) = 1
compared _ = 0

-- A verification: its instant, the address and code that it is given, the random token, and the tables
-- as it finds them.
pub record Try : Type 0 where
  pub at_ : ℕ
  pub email : Text
  pub code : Text
  pub raw : Text
  pub store : Store

-- The verifications stand in the order of their instants, which begin at `now`.
abbrev pub IsOrdered : ℕ → List Try → Type 0
IsOrdered now [] = Unit
IsOrdered now (t ∷ ts) = (now ≤ t.at_) × IsOrdered t.at_ ts

module _ (r : Redis Key) (sha lower : Text → Text) where
  abbrev pub try_code : Try → r.State → r.State × Login
  try_code t s = verify_otp r sha lower t.at_ t.email t.code t.raw t.store s

  -- The comparisons with the code of an address in a series of verifications, of this and of others.
  unfoldable pub guesses : Text → List Try → r.State → ℕ
  unfolding verify_otp text_eq
  guesses e [] s = 0
  guesses e (t ∷ ts) s =
      (if text_eq (lower t.email) e then compared (try_code t s).1 else 0)
      + guesses e ts (try_code t s).0

-- After a verification: the new bound, which is at most 5, covers the comparison.
abbrev pub Covers : (r : Redis Key) → Text → ℕ → ℕ → r.State × Login → Type 0
Covers r e c now (s, reply) =
    (c' : ℕ) × (compared reply + c ≤ c')
    × (c' ≤ max_attempts)
    × Guarded r (otp e) (attempts e) c' now s

module _ (r : Redis Key) (sha lower : Text → Text) (laws : IsRedis same_key r) where
  -- A comparison is the `n`-th, and without a code there is none.
  compare_code-Covers :
      (c now n : ℕ) (e code raw : Text) (st : Store) (stored : Option Text) (s : r.State)
      → c ≤ max_attempts
      → n ≤ max_attempts
      → r.get now (otp e) s ≡ stored
      → (is_some stored ≡ true → (c + 1 ≤ n) × Guarded r (otp e) (attempts e) n now s)
      → Covers r e c now (compare_code r sha lower now e code raw st stored s)
  compare_code-Covers c now n e code raw st none s small few found next =
      (c, omega arith, small, gone-Guarded r laws (otp e) (attempts e) refl c now s found)
  compare_code-Covers c now n e code raw st (some []) s small few found next =
      let (h, guarded) = next refl in (n, omega arith, few, guarded)
  compare_code-Covers c now n e code raw st (some (x ∷ xs)) s small few found next =
      let (h, guarded) = next refl in
      elim (Bool-cases (text_eq (x ∷ xs) (sha code))) [
        | inl f ↦
            rw f (
              5,
              omega arith,
              omega arith,
              del-del-Guarded r laws (otp e) (attempts e) refl 5 now s,
            )
        | inr f ↦ rw f (n, omega arith, few, guarded)
      ]

  check_attempt-Covers :
      (c now n : ℕ) (e code raw : Text) (st : Store) (s : r.State)
      → c ≤ max_attempts
      → (is_some (r.get now (otp e) s) ≡ true
          → (c + 1 ≤ n) × Guarded r (otp e) (attempts e) n now s)
      → Covers r e c now (check_attempt r sha lower now e code raw st (s, n))
  check_attempt-Covers c now n e code raw st s small next = elim (Bool-cases (ltb max_attempts n)) [
    | inl f ↦
        rw f (5, omega arith, omega arith, del-Guarded r laws (otp e) (attempts e) refl 5 now s)
    | inr f ↦ rw f (
        compare_code-Covers c now n e code raw st (r.get now (otp e) s) s small (ground arith) refl
          next)
  ]

  pub verify_otp-Covers :
      (c now : ℕ) (email code raw : Text) (st : Store) (s : r.State)
      → c ≤ max_attempts
      → Guarded r (otp (lower email)) (attempts (lower email)) c now s
      → Covers r (lower email) c now (verify_otp r sha lower now email code raw st s)
  unfolding verify_otp
  verify_otp-Covers c now email code raw st s small guarded =
      let e = lower email in
      check_attempt-Covers c now (r.incr now (attempts e) s).1 e code raw st
        (r.incr now (attempts e) s).0 small
        λ there.
          incr-Guarded r laws (otp e) (attempts e) refl c now s guarded
            (sym (ap is_some (laws.get_incr_other now now (attempts e) (otp e) s refl)) ∙ there)
