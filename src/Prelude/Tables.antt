-- ===== src/Prelude/Tables.antt =====
-- A table of the database as the list of its rows, and the queries of the Prisma client on it.
use Prim.Native.Nat.{ℕ, ◌+◌, ◌≤◌}
use mathlib.Core.Bool.{Bool, true, false}
use mathlib.Core.List.{List, [], ◌∷◌, ◌++◌}
use mathlib.Core.Option
use mathlib.Core.Option.{Option, none, some, some-injective}
use mathlib.Core.Path.{◌≡◌, ap, ◌∙◌, subst}
use mathlib.Core.Logic.{inl, inr}
use native.Mathlib.Omega.{arith}
use serveproof.Prelude.Lists.{All}
use serveproof.Prelude.Tests.{if◌then◌else◌, Bool-cases, or_else}

module _ {ℓ} {A : Type ℓ} where
  -- `findUnique`, `findFirst`: the first row that meets the condition.
  unfoldable pub find_row : (A → Bool) → List A → Option A
  find_row p [] = none
  find_row p (x ∷ xs) = if p x then some x else find_row p xs

  -- `findMany`.
  unfoldable pub filter_rows : (A → Bool) → List A → List A
  filter_rows p [] = []
  filter_rows p (x ∷ xs) = let rest = filter_rows p xs in if p x then x ∷ rest else rest

  -- `update` by a unique key: one row.
  unfoldable pub update_row : (A → Bool) → (A → A) → List A → List A
  update_row p f [] = []
  update_row p f (x ∷ xs) = if p x then f x ∷ xs else x ∷ update_row p f xs

  -- `updateMany`.
  unfoldable pub update_rows : (A → Bool) → (A → A) → List A → List A
  update_rows p f [] = []
  update_rows p f (x ∷ xs) = (if p x then f x else x) ∷ update_rows p f xs

  -- `upsert` by a unique key; a created row goes to the end.
  unfoldable pub upsert_row : (A → Bool) → (A → A) → A → List A → List A
  upsert_row p f new [] = new ∷ []
  upsert_row p f new (x ∷ xs) = if p x then f x ∷ xs else x ∷ upsert_row p f new xs

  -- `count`.
  unfoldable pub count_rows : (A → Bool) → List A → ℕ
  count_rows p [] = 0
  count_rows p (x ∷ xs) = (if p x then 1 else 0) + count_rows p xs

  pub count_rows-append :
      (p : A → Bool) (xs ys : List A) → count_rows p (xs ++ ys) ≡ count_rows p xs + count_rows p ys
  unfolding count_rows
  count_rows-append p [] ys = omega arith
  count_rows-append p (x ∷ xs) ys = omega (arith, count_rows-append p xs ys)

  -- An update that makes no row meet the condition anew does not raise the count.
  pub count_rows-update_row :
      (p q : A → Bool) (f : A → A) (xs : List A)
      → ((x : A) → q x ≡ true → p (f x) ≡ true → p x ≡ true)
      → count_rows p (update_row q f xs) ≤ count_rows p xs
  unfolding count_rows update_row
  count_rows-update_row p q f [] h = omega arith
  count_rows-update_row p q f (x ∷ xs) h = ground (arith, h x, count_rows-update_row p q f xs h)

  pub count_rows-update_rows :
      (p q : A → Bool) (f : A → A) (xs : List A)
      → ((x : A) → q x ≡ true → p (f x) ≡ true → p x ≡ true)
      → count_rows p (update_rows q f xs) ≤ count_rows p xs
  unfolding count_rows update_rows
  count_rows-update_rows p q f [] h = omega arith
  count_rows-update_rows p q f (x ∷ xs) h = ground (arith, h x, count_rows-update_rows p q f xs h)

  pub count_rows-upsert_row :
      (p q : A → Bool) (f : A → A) (new : A) (xs : List A)
      → ((x : A) → q x ≡ true → p (f x) ≡ true → p x ≡ true)
      → p new ≡ false
      → count_rows p (upsert_row q f new xs) ≤ count_rows p xs
  unfolding count_rows upsert_row
  count_rows-upsert_row p q f new [] h n = ground arith
  count_rows-upsert_row p q f new (x ∷ xs) h n =
      ground (arith, h x, count_rows-upsert_row p q f new xs h)

  -- One row at most changes.
  pub count_rows-upsert_row_suc :
      (p q : A → Bool) (f : A → A) (new : A) (xs : List A)
      → count_rows p (upsert_row q f new xs) ≤ count_rows p xs + 1
  unfolding count_rows upsert_row
  count_rows-upsert_row_suc p q f new [] = ground arith
  count_rows-upsert_row_suc p q f new (x ∷ xs) =
      ground (arith, count_rows-upsert_row_suc p q f new xs)

  -- Where the old row met the condition, the count does not rise.
  pub count_rows-upsert_row_found :
      (p q : A → Bool) (f : A → A) (new : A) (xs : List A) {x : A}
      → find_row q xs ≡ some x
      → p x ≡ true
      → count_rows p (upsert_row q f new xs) ≤ count_rows p xs
  unfolding count_rows upsert_row find_row
  count_rows-upsert_row_found p q f new [] e h = cc
  count_rows-upsert_row_found p q f new (y ∷ xs) {x = x} e h =
      ground (arith, count_rows-upsert_row_found p q f new xs {x = x})

  pub find_row-true : (p : A → Bool) (xs : List A) {x : A} → find_row p xs ≡ some x → p x ≡ true
  unfolding find_row
  find_row-true p [] h = cc
  find_row-true p (y ∷ xs) {x = x} h = elim (Bool-cases (p y)) [
    | inl e ↦ ground arith
    | inr e ↦ find_row-true p xs (ground arith)
  ]

  pub count_rows-update_row_found :
      (p q : A → Bool) (f : A → A) (xs : List A) {x : A}
      → find_row q xs ≡ some x
      → (p (f x) ≡ true → p x ≡ true)
      → count_rows p (update_row q f xs) ≤ count_rows p xs
  unfolding count_rows update_row find_row
  count_rows-update_row_found p q f [] e h = cc
  count_rows-update_row_found p q f (y ∷ xs) {x = x} e h =
      ground (arith, count_rows-update_row_found p q f xs {x = x})

  pub find_row-update_row :
      (q : A → Bool) (f : A → A) (xs : List A) {x : A}
      → find_row q xs ≡ some x
      → q (f x) ≡ true
      → find_row q (update_row q f xs) ≡ some (f x)
  unfolding find_row update_row
  find_row-update_row q f [] e h = cc
  find_row-update_row q f (y ∷ xs) {x} e h = elim (Bool-cases (q y)) [
    | inl k ↦ ground arith
    | inr k ↦ ground (arith, find_row-update_row q f xs {x = x})
  ]

  pub find_row-update_rows :
      (p q : A → Bool) (f : A → A) (xs : List A) {x : A}
      → ((y : A) → q (f y) ≡ q y)
      → find_row q xs ≡ some x
      → p x ≡ true
      → find_row q (update_rows p f xs) ≡ some (f x)
  unfolding find_row update_rows
  find_row-update_rows p q f [] h e k = cc
  find_row-update_rows p q f (y ∷ xs) {x} h e k = elim (Bool-cases (q y)) [
    | inl a ↦
        let same = some-injective y x (rw a at e) in
        rw (ap p same ∙ k, h y ∙ a) (ap (λ z. some (f z)) same)
    | inr a ↦ elim (Bool-cases (p y)) [
      | inl b ↦ rw (b, h y ∙ a) (find_row-update_rows p q f xs h (rw a at e) k)
      | inr b ↦ rw (b, a) (find_row-update_rows p q f xs h (rw a at e) k)
    ]
  ]

  pub find_row-upsert_row :
      (q : A → Bool) (f : A → A) (new : A) (xs : List A)
      → ((x : A) → q x ≡ true → q (f x) ≡ true)
      → q new ≡ true
      → find_row q (upsert_row q f new xs) ≡ some (or_else (Option.map f (find_row q xs)) new)
  unfolding find_row upsert_row
  find_row-upsert_row q f new [] h n = rw n
  find_row-upsert_row q f new (x ∷ xs) h n = elim (Bool-cases (q x)) [
    | inl k ↦ rw (k, h x k)
    | inr k ↦ rw (k, k) (find_row-upsert_row q f new xs h n)
  ]

  pub None-update_rows :
      (q : A → Bool) (f : A → A) (xs : List A)
      → ((x : A) → q (f x) ≡ false)
      → All (λ x. q x ≡ false) (update_rows q f xs)
  unfolding update_rows
  None-update_rows q f [] h = tt
  None-update_rows q f (x ∷ xs) h = elim (Bool-cases (q x)) [
    | inl k ↦ rw k (h x, None-update_rows q f xs h)
    | inr k ↦ rw k (k, None-update_rows q f xs h)
  ]

  module _ {κ} (P : A → Type κ) where
    pub All-update_row :
        (q : A → Bool) (f : A → A) (xs : List A)
        → ((x : A) → P x → P (f x))
        → All P xs
        → All P (update_row q f xs)
    unfolding update_row
    All-update_row q f [] h ps = tt
    All-update_row q f (x ∷ xs) h ps = elim (Bool-cases (q x)) [
      | inl e ↦ rw e (h x ps.0, ps.1)
      | inr e ↦ rw e (ps.0, All-update_row q f xs h ps.1)
    ]

    pub All-update_rows :
        (q : A → Bool) (f : A → A) (xs : List A)
        → ((x : A) → P x → P (f x))
        → All P xs
        → All P (update_rows q f xs)
    unfolding update_rows
    All-update_rows q f [] h ps = tt
    All-update_rows q f (x ∷ xs) h ps = elim (Bool-cases (q x)) [
      | inl e ↦ rw e (h x ps.0, All-update_rows q f xs h ps.1)
      | inr e ↦ rw e (ps.0, All-update_rows q f xs h ps.1)
    ]

    pub All-upsert_row :
        (q : A → Bool) (f : A → A) (new : A) (xs : List A)
        → ((x : A) → P x → P (f x))
        → P new
        → All P xs
        → All P (upsert_row q f new xs)
    unfolding upsert_row
    All-upsert_row q f new [] h n ps = (n, tt)
    All-upsert_row q f new (x ∷ xs) h n ps = elim (Bool-cases (q x)) [
      | inl e ↦ rw e (h x ps.0, ps.1)
      | inr e ↦ rw e (ps.0, All-upsert_row q f new xs h n ps.1)
    ]

    pub All-append : (xs ys : List A) → All P xs → All P ys → All P (xs ++ ys)
    All-append [] ys ps qs = qs
    All-append (x ∷ xs) ys ps qs = (ps.0, All-append xs ys ps.1 qs)

    pub find_row-All :
        (q : A → Bool) (xs : List A) {x : A} → All P xs → find_row q xs ≡ some x → P x
    unfolding find_row
    find_row-All q [] ps h = cc
    find_row-All q (y ∷ xs) {x} ps h = elim (Bool-cases (q y)) [
      | inl e ↦ subst P (some-injective _ _ (rw e at h)) ps.0
      | inr e ↦ find_row-All q xs ps.1 (rw e at h)
    ]
