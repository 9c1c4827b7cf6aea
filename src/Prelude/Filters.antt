-- ===== src/Prelude/Filters.antt =====
-- How `findMany` on a table changes with the writes to it.
use mathlib.Core.Bool.{Bool, true, false, not}
use mathlib.Core.List.{List, [], ◌∷◌, ◌++◌}
use mathlib.Core.Option.{some}
use mathlib.Core.Path.{◌≡◌, refl, ap, ◌∙◌}
use mathlib.Core.Logic.{inl, inr}
use serveproof.Prelude.Lists.{All}
use serveproof.Prelude.Tests.{Bool-cases}
use serveproof.Prelude.Tables.{find_row, filter_rows, update_rows, upsert_row}

module _ {ℓ} {A : Type ℓ} where
  pub filter_rows-upsert_row :
      (q p : A → Bool) (f : A → A) (new : A) (xs : List A)
      → q new ≡ false
      → ((x : A) → q (f x) ≡ false)
      → ((x : A) → find_row p xs ≡ some x → q x ≡ false)
      → filter_rows q (upsert_row p f new xs) ≡ filter_rows q xs
  unfolding filter_rows upsert_row find_row
  filter_rows-upsert_row q p f new [] n h k = rw n refl
  filter_rows-upsert_row q p f new (x ∷ xs) n h k = elim (Bool-cases (p x)) [
    | inl e ↦ rw (e, h x, k x (rw e refl)) refl
    | inr e ↦ rw (e, filter_rows-upsert_row q p f new xs n h (λ y m. k y (rw e m))) refl
  ]

  pub filter_rows-append :
      (q : A → Bool) (xs ys : List A)
      → filter_rows q (xs ++ ys) ≡ filter_rows q xs ++ filter_rows q ys
  unfolding filter_rows
  filter_rows-append q [] ys = refl
  filter_rows-append q (x ∷ xs) ys = elim (Bool-cases (q x)) [
    | inl e ↦ rw (e, filter_rows-append q xs ys) refl
    | inr e ↦ rw (e, filter_rows-append q xs ys) refl
  ]

  pub filter_rows-update_rows_none :
      (q p : A → Bool) (f : A → A) (xs : List A)
      → ((x : A) → q x ≡ p x)
      → ((x : A) → q (f x) ≡ false)
      → filter_rows q (update_rows p f xs) ≡ []
  unfolding filter_rows update_rows
  filter_rows-update_rows_none q p f [] h k = refl
  filter_rows-update_rows_none q p f (x ∷ xs) h k = elim (Bool-cases (p x)) [
    | inl e ↦ rw (e, k x, filter_rows-update_rows_none q p f xs h k) refl
    | inr e ↦ rw (e, h x ∙ e, filter_rows-update_rows_none q p f xs h k) refl
  ]

  pub filter_rows-none :
      (q : A → Bool) (xs : List A) → All (λ x. q x ≡ false) xs → filter_rows q xs ≡ []
  unfolding filter_rows
  filter_rows-none q [] h = refl
  filter_rows-none q (x ∷ xs) h = rw h.0 (filter_rows-none q xs h.1)

  pub filter_rows-All :
      (q : A → Bool) (xs : List A) → All (λ x. q x ≡ true) xs → filter_rows q xs ≡ xs
  unfolding filter_rows
  filter_rows-All q [] h = refl
  filter_rows-All q (x ∷ xs) h = rw h.0 (ap (λ ys. x ∷ ys) (filter_rows-All q xs h.1))

  pub filter_rows-not :
      (q : A → Bool) (xs : List A) → filter_rows q (filter_rows (λ x. not (q x)) xs) ≡ []
  unfolding filter_rows
  filter_rows-not q [] = refl
  filter_rows-not q (x ∷ xs) = elim (Bool-cases (q x)) [
    | inl e ↦ rw e (filter_rows-not q xs)
    | inr e ↦ rw (e, e) (filter_rows-not q xs)
  ]

  pub filter_rows-Holds : (q : A → Bool) (xs : List A) → All (λ x. q x ≡ true) (filter_rows q xs)
  unfolding filter_rows
  filter_rows-Holds q [] = tt
  filter_rows-Holds q (x ∷ xs) = elim (Bool-cases (q x)) [
    | inl e ↦ rw e (e, filter_rows-Holds q xs)
    | inr e ↦ rw e (filter_rows-Holds q xs)
  ]
