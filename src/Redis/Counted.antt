-- ===== src/Redis/Counted.antt =====
-- A code under one key and the number of its tries under another, as the one-time codes of
-- apps/api/src/disclosure/disclosure.service.ts and apps/api/src/auth/auth.service.ts keep them.
use serveproof.Prelude.{
  ℕ, ◌+◌, ◌*◌, ◌≤◌, ◌≡◌, ◌⊎◌, inl, inr, refl, ◌∙◌, Bool, true, false, Option, none, some, Text,
  text, ltb, is_some, Bool-cases, arith,
}
use serveproof.Redis.{Redis, IsRedis}

-- The tries that are counted are at least `c` whenever there is still a code.
abbrev pub Guarded : {K : Type 0} (r : Redis K) → K → K → ℕ → ℕ → r.State → Type 0
Guarded r code tries c now s =
    (later : ℕ)
    → now ≤ later
    → (r.get later code s ≡ none) ⊎ ((n : ℕ) × (r.count later tries s ≡ some n) × (c ≤ n))

-- The code and its tries are as they were.
abbrev pub IsKept : {K : Type 0} (r : Redis K) → K → K → r.State → r.State → Type 0
IsKept r code tries s s' =
    (later : ℕ)
    → (r.get later code s' ≡ r.get later code s) × (r.count later tries s' ≡ r.count later tries s)

pub IsKept-Guarded :
    {K : Type 0} (r : Redis K) (code tries : K) (c now : ℕ) (s s' : r.State)
    → IsKept r code tries s s'
    → Guarded r code tries c now s
    → Guarded r code tries c now s'
IsKept-Guarded r code tries c now s s' kept g = λ later h. elim (g later h) [
  | inl e ↦ inl ((kept later).0 ∙ e)
  | inr (n, e, k) ↦ inr (n, (kept later).1 ∙ e, k)
]

pub IsKept-trans :
    {K : Type 0} (r : Redis K) (code tries : K) (s s' s'' : r.State)
    → IsKept r code tries s s'
    → IsKept r code tries s' s''
    → IsKept r code tries s s''
IsKept-trans r code tries s s' s'' h k =
    λ later. ((k later).0 ∙ (h later).0, (k later).1 ∙ (h later).1)

pub Guarded-later :
    {K : Type 0} (r : Redis K) (code tries : K) (c now later : ℕ) (s : r.State)
    → now ≤ later
    → Guarded r code tries c now s
    → Guarded r code tries c later s
Guarded-later r code tries c now later s h g = λ t k. g t (omega arith)

module _ {K : Type 0} {same : K → K → Bool} (r : Redis K) (laws : IsRedis same r) (code tries : K)
    (apart : same tries code ≡ false) where
  pub set-Guarded :
      (now ttl : ℕ) (v : Text) (s : r.State)
      → Guarded r code tries 0 now (r.set now tries (text "0") ttl (r.set now code v ttl s))
  set-Guarded now ttl v s = λ later h.
      let coded = r.set now code v ttl s in
      elim (Bool-cases (ltb later (now + 1000 * ttl))) [
        | inl e ↦
            inr (0, laws.count_set_zero now later tries ttl coded h ∙ (rw e refl), omega arith)
        | inr e ↦ inl (
            laws.get_set_other now later tries code (text "0") ttl coded apart
            ∙ laws.get_set now later code v ttl s h
            ∙ (rw e refl))
      ]

  pub del-Guarded : (c now : ℕ) (s : r.State) → Guarded r code tries c now (r.del now code s)
  del-Guarded c now s = λ later h. inl (laws.get_del now later code s h)

  pub del-del-Guarded :
      (c now : ℕ) (s : r.State) → Guarded r code tries c now (r.del now tries (r.del now code s))
  del-del-Guarded c now s = λ later h. inl (
      laws.get_del_other now later tries code (r.del now code s) apart
      ∙ laws.get_del now later code s h)

  -- Where there is a code, counting a try raises the bound to the number it answers.
  pub incr-Guarded :
      (c now : ℕ) (s : r.State)
      → Guarded r code tries c now s
      → is_some (r.get now code s) ≡ true
      → (c + 1 ≤ (r.incr now tries s).1)
        × Guarded r code tries (r.incr now tries s).1 now (r.incr now tries s).0
  incr-Guarded c now s g some_code = elim (g now (omega arith)) [
    | inl e ↦ cc (rw e at some_code)
    | inr (m, e, k) ↦
        let value : (r.incr now tries s).1 ≡ m + 1 = laws.incr_value now tries s ∙ (rw e refl) in
        (
          omega (arith, value),
          λ later h. elim (g later h) [
            | inl f ↦ inl (laws.get_incr_other now later tries code s apart ∙ f)
            | inr (m', f, k') ↦ inr (
              (r.incr now tries s).1,
              laws.count_incr now later tries s h (rw e refl) ∙ (rw f refl),
              omega arith,
            )
          ],
        )
  ]

  -- Where there is none, there is none later either.
  pub gone-Guarded :
      (c now : ℕ) (s : r.State) → r.get now code s ≡ none → Guarded r code tries c now s
  gone-Guarded c now s e = λ later h. elim (Bool-cases (is_some (r.get later code s))) [
    | inl f ↦
        let still : is_some (r.get now code s) ≡ true = laws.get_stays now later code s h f in
        cc (rw e at still)
    | inr f ↦ inl (is_none (r.get later code s) f)
  ]
    where
      is_none : (o : Option Text) → is_some o ≡ false → o ≡ none
      is_none none h = refl
      is_none (some t) h = cc h
