-- ===== src/Disclosure/Guesses.antt =====
-- How often a code can be guessed (`verifyRecipientOtp` of apps/api/src/disclosure/disclosure.service.ts).
use serveproof.Prelude.{
  ℕ, ◌+◌, ◌≤◌, ◌≡◌, inl, inr, refl, ap, ◌∙◌, Option, none, some, List, [], ◌∷◌, Text, text_eq, ltb,
  ◌==◌, if◌then◌else◌, is_some, Bool-cases, arith,
}
use serveproof.Redis.{Redis, IsRedis}
use serveproof.Redis.Counted as Counted
use serveproof.Disclosure.Types.{Grant, Runtime}
use serveproof.Disclosure.Otp.{
  Key, otp, attempts, session, same_key, max_attempts, Reply, wrong_code, opened, open_session,
  compare_code, check_stored, check_code,
}

-- The attempts counted for the grant are at least `c` whenever there is still a code for it.
abbrev pub Guarded : (r : Redis Key) → ℕ → ℕ → ℕ → r.State → Type 0
Guarded r i c now s = Counted.Guarded r (otp i) (attempts i) c now s

-- 1 where the code was compared.
abbrev pub compared : Reply → ℕ
compared wrong_code = 1
compared (opened n) = 1
compared _ = 0

pub record Try : Type 0 where
  pub at_ : ℕ
  pub grant : Grant
  pub code : Text
  pub token : Text

module _ (r : Redis Key) (rt : Runtime) where
  abbrev pub try_code : Try → r.State → r.State × Reply
  try_code t s = check_code r rt t.at_ t.grant t.code t.token s

  -- The comparisons with the code of a grant in a series of verifications, of this grant and of others.
  unfoldable pub guesses : ℕ → List Try → r.State → ℕ
  unfolding check_code
  guesses i [] s = 0
  guesses i (t ∷ ts) s =
      (if t.grant.id == i then compared (try_code t s).1 else 0) + guesses i ts (try_code t s).0

-- The verifications stand in the order of their instants, which begin at `now`.
abbrev pub IsOrdered : ℕ → List Try → Type 0
IsOrdered now [] = Unit
IsOrdered now (t ∷ ts) = (now ≤ t.at_) × IsOrdered t.at_ ts

-- After a verification: the new bound, which is at most 5, covers the comparison.
abbrev pub Covers : (r : Redis Key) → ℕ → ℕ → ℕ → r.State × Reply → Type 0
Covers r i c now (s, reply) =
    (c' : ℕ) × (compared reply + c ≤ c') × (c' ≤ max_attempts) × Guarded r i c' now s

module _ (r : Redis Key) (rt : Runtime) (laws : IsRedis same_key r) where
  open_session-Guarded :
      (c now : ℕ) (g : Grant) (token : Text) (s : r.State)
      → Guarded r g.id c now (open_session r rt now g token s).0
  open_session-Guarded c now g token s = λ later h.
      elim (Counted.del-del-Guarded r laws (otp g.id) (attempts g.id) refl c now s later h) [
        | inl e ↦ inl (laws.get_set_other _ later (session g.id _) (otp g.id) _ _ _ refl ∙ e)
        | inr (n, e, k) ↦
            inr (n, laws.count_set_other _ later (session g.id _) (attempts g.id) _ _ _ refl ∙ e, k)
      ]

  compare_code-Covers :
      (c now n : ℕ) (g : Grant) (stored code token : Text) (s : r.State)
      → c ≤ max_attempts
      → c + 1 ≤ n
      → Guarded r g.id n now s
      → Covers r g.id c now (compare_code r rt now g stored code token (s, n))
  compare_code-Covers c now n g stored code token s small next guarded =
      elim (Bool-cases (ltb max_attempts n)) [
        | inl e ↦ rw e (
          5,
          omega arith,
          omega arith,
          Counted.del-del-Guarded r laws (otp g.id) (attempts g.id) refl 5 now s,
        )
        | inr e ↦ elim (Bool-cases (text_eq stored (rt.sha code))) [
          | inl f ↦ rw (e, f) (5, ground arith, omega arith, open_session-Guarded 5 now g token s)
          | inr f ↦ rw (e, f) (n, ground arith, ground arith, guarded)
        ]
      ]

  pub check_code-Covers :
      (c now : ℕ) (g : Grant) (code token : Text) (s : r.State)
      → c ≤ max_attempts
      → Guarded r g.id c now s
      → Covers r g.id c now (check_code r rt now g code token s)
  unfolding check_code
  check_code-Covers c now g code token s small guarded = checked (r.get now (otp g.id) s) refl
    where
      checked :
          (stored : Option Text)
          → r.get now (otp g.id) s ≡ stored
          → Covers r g.id c now (check_stored r rt now g code token stored s)
      checked none e = (c, omega arith, small, guarded)
      checked (some []) e = (c, omega arith, small, guarded)
      checked (some (x ∷ xs)) e =
          let (next, guarded') =
            Counted.incr-Guarded r laws (otp g.id) (attempts g.id) refl c now s guarded
              (ap is_some e) in
          compare_code-Covers c now (r.incr now (attempts g.id) s).1 g (x ∷ xs) code token
            (r.incr now (attempts g.id) s).0 small next guarded'
