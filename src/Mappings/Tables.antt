-- ===== src/Mappings/Tables.antt =====
-- Rows with unique ids: finding, updating and deleting them.
use serveproof.Prelude.{
  ℕ, ◌+◌, ◌≡◌, refl, ap, sym, ◌∙◌, inl, inr, Bool, false, not, Option, some, List, [], ◌∷◌, ◌==◌,
  ==_refl, All, All-mono, sum_by, Bool-cases, arith,
}
use mathlib.Core.Option.{some-injective}
use serveproof.Prelude.Tables.{find_row, filter_rows, update_row, find_row-All, All-update_row}
use serveproof.Prelude.Filters.{filter_rows-All}

All-filter_rows {ℓ κ} :
    {A : Type ℓ} (P : A → Type κ) (q : A → Bool) (xs : List A) → All P xs → All P (filter_rows q xs)
unfolding filter_rows
All-filter_rows P q [] h = tt
All-filter_rows P q (x ∷ xs) h = elim (Bool-cases (q x)) [
  | inl e ↦ rw e (h.0, All-filter_rows P q xs h.1)
  | inr e ↦ rw e (All-filter_rows P q xs h.1)
]

pub All-both {ℓ κ μ} :
    {A : Type ℓ} (P : A → Type κ) (Q : A → Type μ) (R : A → Type μ) (xs : List A)
    → ((x : A) → P x → Q x → R x)
    → All P xs
    → All Q xs
    → All R xs
All-both P Q R [] f h k = tt
All-both P Q R (x ∷ xs) f h k = (f x h.0 k.0, All-both P Q R xs f h.1 k.1)

module _ {ℓ} {A : Type ℓ} (key : A → ℕ) where
  abbrev pub IsUnique : List A → Type ℓ
  IsUnique [] = Unit
  IsUnique (x ∷ xs) = All (λ y. (key y == key x) ≡ false) xs × IsUnique xs

  abbrev pub by_key : ℕ → List A → Option A
  by_key i = find_row (λ y. key y == i)

  differs : (x y : A) → (key x == key y) ≡ false → (key y == key x) ≡ false
  differs x y h = ground arith

  pub find_row-by_key :
      (p : A → Bool) (xs : List A) {x : A}
      → IsUnique xs
      → find_row p xs ≡ some x
      → by_key (key x) xs ≡ some x
  unfolding find_row
  find_row-by_key p [] u e = cc
  find_row-by_key p (y ∷ xs) {x} u e = elim (Bool-cases (p y)) [
    | inl a ↦
        let same = some-injective y x (rw a at e) in
        rw (ap (λ z. key y == key z) (sym same) ∙ ==_refl (key y)) (ap some same)
    | inr a ↦
        let rest = find_row-by_key p xs u.1 (rw a at e) in
        let apart =
          differs x y (find_row-All (λ z. (key z == key y) ≡ false) p xs u.0 (rw a at e)) in
        rw apart rest
  ]

  pub IsUnique-update_row :
      (q : A → Bool) (f : A → A) (xs : List A)
      → ((x : A) → key (f x) ≡ key x)
      → IsUnique xs
      → IsUnique (update_row q f xs)
  unfolding update_row
  IsUnique-update_row q f [] h u = tt
  IsUnique-update_row q f (x ∷ xs) h u = elim (Bool-cases (q x)) [
    | inl e ↦ rw (e, h x) u
    | inr e ↦ rw e (
      All-update_row (λ y. (key y == key x) ≡ false) q f xs (λ y k. rw (h y) k) u.0,
      IsUnique-update_row q f xs h u.1,
    )
  ]

  pub IsUnique-filter_rows :
      (q : A → Bool) (xs : List A) → IsUnique xs → IsUnique (filter_rows q xs)
  unfolding filter_rows
  IsUnique-filter_rows q [] u = tt
  IsUnique-filter_rows q (x ∷ xs) u = elim (Bool-cases (q x)) [
    | inl e ↦
        rw e
          (All-filter_rows (λ y. (key y == key x) ≡ false) q xs u.0, IsUnique-filter_rows q xs u.1)
    | inr e ↦ rw e (IsUnique-filter_rows q xs u.1)
  ]

  pub by_key-update_other :
      (i j : ℕ) (f : A → A) (xs : List A) {a : A}
      → ((x : A) → key (f x) ≡ key x)
      → (i == j) ≡ false
      → by_key i xs ≡ some a
      → by_key i (update_row (λ y. key y == j) f xs) ≡ some a
  unfolding find_row update_row
  by_key-update_other i j f [] h n e = cc
  by_key-update_other i j f (y ∷ xs) {a} h n e = elim (Bool-cases (key y == i)) [
    | inl a ↦ let other : (key y == j) ≡ false = ground arith in rw (other, a) (rw a at e)
    | inr a ↦ elim (Bool-cases (key y == j)) [
      | inl b ↦ rw (b, h y, a) (rw a at e)
      | inr b ↦ rw (b, a) (by_key-update_other i j f xs h n (rw a at e))
    ]
  ]

  pub by_key-filter_other :
      (i j : ℕ) (xs : List A) {a : A}
      → (i == j) ≡ false
      → by_key i xs ≡ some a
      → by_key i (filter_rows (λ y. not (key y == j)) xs) ≡ some a
  unfolding find_row filter_rows
  by_key-filter_other i j [] n e = cc
  by_key-filter_other i j (y ∷ xs) {a} n e = elim (Bool-cases (key y == j)) [
    | inl b ↦
        let other : (key y == i) ≡ false = ground arith in
        rw b (by_key-filter_other i j xs n (rw other at e))
    | inr b ↦ elim (Bool-cases (key y == i)) [
      | inl a ↦ rw (b, a) (rw a at e)
      | inr a ↦ rw (b, a) (by_key-filter_other i j xs n (rw a at e))
    ]
  ]

  by_key-head : (x : A) (xs : List A) → by_key (key x) (x ∷ xs) ≡ some x
  unfolding find_row
  by_key-head x xs = rw (==_refl (key x)) refl

  by_key-cons :
      (x a : A) (xs : List A)
      → (key a == key x) ≡ false
      → by_key (key a) xs ≡ some a
      → by_key (key a) (x ∷ xs) ≡ some a
  unfolding find_row
  by_key-cons x a xs k h = rw (differs a x k) h

  -- The rows that a condition picks are found by their ids.
  pub filter_rows-by_key :
      (p : A → Bool) (xs : List A)
      → IsUnique xs
      → All (λ a. by_key (key a) xs ≡ some a) (filter_rows p xs)
  unfolding find_row filter_rows
  filter_rows-by_key p [] u = tt
  filter_rows-by_key p (x ∷ xs) u =
      let later =
        All-both (λ a. (key a == key x) ≡ false) (λ a. by_key (key a) xs ≡ some a)
          (λ a. by_key (key a) (x ∷ xs) ≡ some a) (filter_rows p xs)
          (λ a k h. by_key-cons x a xs k h)
          (All-filter_rows (λ y. (key y == key x) ≡ false) p xs u.0)
          (filter_rows-by_key p xs u.1) in
      elim (Bool-cases (p x)) [ inl e ↦ rw e (by_key-head x xs, later) | inr e ↦ rw e later ]

  module _ (c : A → ℕ) where
    pub sum-update_row :
        (q : A → Bool) (f : A → A) (xs : List A) {x : A}
        → find_row q xs ≡ some x
        → sum_by c (update_row q f xs) + c x ≡ sum_by c xs + c (f x)
    unfolding find_row update_row
    sum-update_row q f [] e = cc
    sum-update_row q f (y ∷ xs) {x} e = elim (Bool-cases (q y)) [
      | inl a ↦
          let same = some-injective y x (rw a at e) in
          rw a (omega (arith, ap c same, ap (λ z. c (f z)) same))
      | inr a ↦ rw a (omega (arith, sum-update_row q f xs (rw a at e)))
    ]

    pub sum-filter_key :
        (i : ℕ) (xs : List A) {a : A}
        → IsUnique xs
        → by_key i xs ≡ some a
        → sum_by c (filter_rows (λ y. not (key y == i)) xs) + c a ≡ sum_by c xs
    unfolding find_row filter_rows
    sum-filter_key i [] u e = cc
    sum-filter_key i (y ∷ xs) {a} u e = elim (Bool-cases (key y == i)) [
      | inl k ↦
          let same = some-injective y a (rw k at e) in
          let others =
            filter_rows-All (λ z. not (key z == i)) xs (All-mono xs (λ z h. ground arith) u.0) in
          rw (k, others) (omega (arith, ap c same))
      | inr k ↦ rw k (omega (arith, sum-filter_key i xs u.1 (rw k at e)))
    ]
