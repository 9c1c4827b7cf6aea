-- ===== src/Prelude/Upserts.antt =====
-- A series of `upsert`s by a unique key, as an import writes its rows: running it again changes nothing.
use mathlib.Core.Bool.{Bool, true, false, ◌||◌}
use mathlib.Core.List.{List, [], ◌∷◌}
use mathlib.Core.Path.{◌≡◌, refl, ap, sym, ◌∙◌}
use mathlib.Core.Logic.{◌↔◌, inl, inr}
use serveproof.Prelude.Tests.{Bool-cases}
use serveproof.Prelude.Tables.{upsert_row}

-- The upsert of `n` creates `new n`, or makes the row `x` of its key, `same n x`, to `put n x`.
module _ {ℓ κ} {N : Type ℓ} {A : Type κ} (same : N → A → Bool) (put : N → A → A) (new : N → A) where
  unfoldable pub upsert_all : List N → List A → List A
  unfolding upsert_row
  upsert_all [] xs = xs
  upsert_all (n ∷ ns) xs = upsert_all ns (upsert_row (same n) (put n) (new n) xs)

  pub record IsKeyed : Type (ℓ ⊔ κ) where
    pub same_refl : (n : N) → same n (new n) ≡ true
    pub same_sym : (n m : N) → same n (new m) ≡ same m (new n)
    pub same_left : (n m : N) (x : A) → same n (new m) ≡ true → same n x ≡ same m x
    pub same_right : (n m : N) (x : A) → same n x ≡ true → same n (new m) ≡ same m x
    pub key_put : (n k : N) (x : A) → same k (put n x) ≡ same k x
    pub put_put : (n m : N) (x : A) → put n (put m x) ≡ put n x
    pub put_new : (n m : N) → same n (new m) ≡ true → put n (new m) ≡ new n

  unfoldable has_key : N → List A → Bool
  has_key n [] = false
  has_key n (x ∷ xs) = same n x || has_key n xs

  unfoldable covers : N → List N → Bool
  covers n [] = false
  covers n (m ∷ ms) = same n (new m) || covers n ms

  module _ (keyed : IsKeyed) where
    upsert_row-has_key :
        (n m : N) (xs : List A)
        → has_key n xs ≡ true
        → has_key n (upsert_row (same m) (put m) (new m) xs) ≡ true
    unfolding upsert_row has_key
    upsert_row-has_key n m [] h = cc
    upsert_row-has_key n m (x ∷ xs) h = elim (Bool-cases (same m x)) [
      | inl e ↦ rw (e, keyed.key_put m n x) h
      | inr e ↦ rw e (elim (Bool-cases (same n x)) [
        | inl k ↦ rw k refl
        | inr k ↦ rw k (upsert_row-has_key n m xs (rw k at h))
      ])
    ]

    upsert_row-has_key_new :
        (n : N) (xs : List A) → has_key n (upsert_row (same n) (put n) (new n) xs) ≡ true
    unfolding upsert_row has_key
    upsert_row-has_key_new n [] = rw (keyed.same_refl n) refl
    upsert_row-has_key_new n (x ∷ xs) = elim (Bool-cases (same n x)) [
      | inl e ↦ rw (e, keyed.key_put n n x, e) refl
      | inr e ↦ rw (e, e) (upsert_row-has_key_new n xs)
    ]

    upsert_row-same :
        (n m : N) (xs : List A)
        → same n (new m) ≡ true
        → upsert_row (same n) (put n) (new n) (upsert_row (same m) (put m) (new m) xs)
          ≡ upsert_row (same n) (put n) (new n) xs
    unfolding upsert_row
    upsert_row-same n m [] h = rw (h, keyed.put_new n m h) refl
    upsert_row-same n m (x ∷ xs) h = elim (Bool-cases (same m x)) [
      | inl e ↦ rw (e, keyed.key_put m n x, keyed.same_left n m x h ∙ e, keyed.put_put n m x) refl
      | inr e ↦ rw (e, keyed.same_left n m x h ∙ e) (ap (λ ys. x ∷ ys) (upsert_row-same n m xs h))
    ]

    upsert_row-swap :
        (n m : N) (xs : List A)
        → same n (new m) ≡ false
        → has_key n xs ≡ true
        → upsert_row (same m) (put m) (new m) (upsert_row (same n) (put n) (new n) xs)
          ≡ upsert_row (same n) (put n) (new n) (upsert_row (same m) (put m) (new m) xs)
    unfolding upsert_row has_key
    upsert_row-swap n m [] h k = cc
    upsert_row-swap n m (x ∷ xs) h k = elim (Bool-cases (same n x)) [
      | inl e ↦
          let other : same m x ≡ false = sym (keyed.same_right n m x e) ∙ h in
          rw (e, keyed.key_put n m x, other, e) refl
      | inr e ↦ elim (Bool-cases (same m x)) [
        | inl f ↦ rw (e, f, keyed.key_put m n x, e) refl
        | inr f ↦ rw (e, f, e) (ap (λ ys. x ∷ ys) (upsert_row-swap n m xs h (rw e at k)))
      ]
    ]

    -- A row that a later one of the same key follows makes no difference.
    upsert_all-covered :
        (n : N) (ns : List N) (xs : List A)
        → covers n ns ≡ true
        → has_key n xs ≡ true
        → upsert_all ns (upsert_row (same n) (put n) (new n) xs) ≡ upsert_all ns xs
    unfolding upsert_all covers
    upsert_all-covered n [] xs h k = cc
    upsert_all-covered n (m ∷ ns) xs h k = elim (Bool-cases (same n (new m))) [
      | inl e ↦ ap (upsert_all ns) (upsert_row-same m n xs (keyed.same_sym m n ∙ e))
      | inr e ↦
          ap (upsert_all ns) (upsert_row-swap n m xs e k)
          ∙ upsert_all-covered n ns (upsert_row (same m) (put m) (new m) xs) (rw e at h)
              (upsert_row-has_key n m xs k)
    ]

    -- A row whose key no later one has can be written last.
    upsert_all-last :
        (n : N) (ns : List N) (xs : List A)
        → covers n ns ≡ false
        → has_key n xs ≡ true
        → upsert_all ns (upsert_row (same n) (put n) (new n) xs)
          ≡ upsert_row (same n) (put n) (new n) (upsert_all ns xs)
    unfolding upsert_all covers
    upsert_all-last n [] xs h k = refl
    upsert_all-last n (m ∷ ns) xs h k = elim (Bool-cases (same n (new m))) [
      | inl e ↦ cc (rw e at h)
      | inr e ↦
          ap (upsert_all ns) (upsert_row-swap n m xs e k)
          ∙ upsert_all-last n ns (upsert_row (same m) (put m) (new m) xs) (rw e at h)
              (upsert_row-has_key n m xs k)
    ]

    upsert_all-has_key :
        (n : N) (ns : List N) (xs : List A)
        → has_key n xs ≡ true
        → has_key n (upsert_all ns xs) ≡ true
    unfolding upsert_all
    upsert_all-has_key n [] xs h = h
    upsert_all-has_key n (m ∷ ns) xs h = upsert_all-has_key n ns _ (upsert_row-has_key n m xs h)

    pub upsert_all-idempotent :
        (ns : List N) (xs : List A) → upsert_all ns (upsert_all ns xs) ≡ upsert_all ns xs
    unfolding upsert_all
    upsert_all-idempotent [] xs = refl
    upsert_all-idempotent (n ∷ ns) xs =
        let first = upsert_row (same n) (put n) (new n) xs in
        let found = upsert_row-has_key_new n xs in
        elim (Bool-cases (covers n ns)) [
          | inl e ↦
              upsert_all-covered n ns (upsert_all ns first) e (upsert_all-has_key n ns first found)
              ∙ upsert_all-idempotent ns first
          | inr e ↦
              ap (upsert_all ns) (sym (upsert_all-last n ns first e found))
              ∙ ap (λ ys. upsert_all ns (upsert_all ns ys))
                  (upsert_row-same n n xs (keyed.same_refl n))
              ∙ upsert_all-idempotent ns first
        ]

  -- It is enough that `same` tests the equality of keys.
  module _ {μ} {K : Type μ} (key : A → K) where
    keys_agree : (b c : Bool) → (b ≡ true → c ≡ true) → (c ≡ true → b ≡ true) → b ≡ c
    keys_agree true c f g = sym (f refl)
    keys_agree false true f g = g refl
    keys_agree false false f g = refl

    pub keyed_by :
        ((n : N) (x : A) → (same n x ≡ true) ↔ (key (new n) ≡ key x))
        → ((n : N) (x : A) → key (put n x) ≡ key x)
        → ((n m : N) (x : A) → put n (put m x) ≡ put n x)
        → ((n m : N) → same n (new m) ≡ true → put n (new m) ≡ new n)
        → IsKeyed
    keyed_by tests kept over fresh = record {
      same_refl = λ n. (tests n (new n)).1 refl;
      same_sym = λ n m.
          keys_agree _ _ (λ h. (tests m (new n)).1 (sym ((tests n (new m)).0 h)))
            (λ h. (tests n (new m)).1 (sym ((tests m (new n)).0 h)));
      same_left = λ n m x e.
          let k = (tests n (new m)).0 e in
          keys_agree _ _ (λ h. (tests m x).1 (sym k ∙ (tests n x).0 h))
            (λ h. (tests n x).1 (k ∙ (tests m x).0 h));
      same_right = λ n m x e.
          let k = (tests n x).0 e in
          keys_agree _ _ (λ h. (tests m x).1 (sym ((tests n (new m)).0 h) ∙ k))
            (λ h. (tests n (new m)).1 (k ∙ sym ((tests m x).0 h)));
      key_put = λ n k x.
          keys_agree _ _ (λ h. (tests k x).1 ((tests k (put n x)).0 h ∙ kept n x))
            (λ h. (tests k (put n x)).1 ((tests k x).0 h ∙ sym (kept n x)));
      put_put = over;
      put_new = fresh;
    }
