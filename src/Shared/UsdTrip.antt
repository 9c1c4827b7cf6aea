-- ===== src/Shared/UsdTrip.antt =====
-- What `formatCentsToUsd` prints, `parseUsdToCents` reads (packages/shared/src/money.ts).
use mathlib.Core.List.{reverse, reverse-append, reverse-reverse, append_assoc}
use serveproof.Prelude.{
  ℕ, zero, suc, ◌+◌, ◌-◌, ◌*◌, ◌/◌, ◌%◌, ◌≤◌, ◌<◌, ◌≡◌, inl, inr, refl, ap, sym, ◌∙◌, true, false,
  some, [], ◌∷◌, ◌++◌, Text, trim, ltb, ◌==◌, All, Bool-cases, arith,
}
use mathlib.Core.Path.{subst}
use serveproof.Prelude.{trim_start, is_space}
use serveproof.Prelude.Tables.{All-append}
use serveproof.Prelude.Int.{ℤ, pos, negsuc}
use serveproof.Shared.Usd.{
  is_digit, span_digits, number_after, cents_part, whole_part, signed, parse_usd_to_cents, digits,
  show_number, abs, sign, pad_two, format_cents_to_usd,
}

-- A number that is printed is read back, and its text is one or more digits.
number_after-append :
    (n : ℕ) (cs ds : Text) → number_after n (cs ++ ds) ≡ number_after (number_after n cs) ds
unfolding number_after
number_after-append n [] ds = refl
number_after-append n (c ∷ cs) ds = number_after-append (10 * n + (c - b'0')) cs ds

number_after-digits : (f n : ℕ) → n < f → number_after 0 (digits f n) ≡ n
unfolding digits
number_after-digits zero n h = elim h [ ]
number_after-digits (suc f) n h = elim (Bool-cases (ltb n 10)) [
  | inl e ↦ rw e (unfold number_after in omega arith)
  | inr e ↦
      rw
        (
          e,
          number_after-append 0 (digits f (n / 10)) ((b'0' + n % 10) ∷ []),
          number_after-digits f (n / 10) (ground arith),
        )
        (unfold number_after in omega arith)
]

digits-All : (f n : ℕ) → All (λ c. is_digit c ≡ true) (digits f n)
unfolding digits
digits-All zero n = tt
digits-All (suc f) n = elim (Bool-cases (ltb n 10)) [
  | inl e ↦ rw e (ground arith, tt)
  | inr e ↦ rw e (
      All-append _ (digits f (n / 10)) ((b'0' + n % 10) ∷ []) (digits-All f (n / 10))
        (ground arith, tt))
]

snoc_some : (xs : Text) (d : ℕ) → (c : ℕ) × (cs : Text) × (xs ++ (d ∷ []) ≡ c ∷ cs)
snoc_some [] d = (d, [], refl)
snoc_some (x ∷ xs) d = (x, xs ++ (d ∷ []), refl)

digits_some : (f n : ℕ) → (c : ℕ) × (cs : Text) × (digits (suc f) n ≡ c ∷ cs)
unfolding digits
digits_some f n = elim (Bool-cases (ltb n 10)) [
  | inl e ↦ (b'0' + n, [], rw e refl)
  | inr e ↦ rw e (snoc_some (digits f (n / 10)) (b'0' + n % 10))
]

span_digits_lem :
    (ds rest : Text) (c : ℕ)
    → All (λ d. is_digit d ≡ true) ds
    → is_digit c ≡ false
    → span_digits (ds ++ (c ∷ rest)) ≡ (ds, c ∷ rest)
unfolding span_digits
span_digits_lem [] rest c h k = rw k refl
span_digits_lem (d ∷ ds) rest c h k = rw (h.0, span_digits_lem ds rest c h.1 k) refl

digits_small : (f n : ℕ) → n < 10 → digits (suc f) n ≡ (b'0' + n) ∷ []
unfolding digits
digits_small f n h = elim (Bool-cases (ltb n 10)) [ inl e ↦ rw e refl | inr e ↦ ground arith ]

digits_large : (f n : ℕ) → 10 ≤ n → digits (suc f) n ≡ digits f (n / 10) ++ ((b'0' + n % 10) ∷ [])
unfolding digits
digits_large f n h = elim (Bool-cases (ltb n 10)) [ inl e ↦ ground arith | inr e ↦ rw e refl ]

two_digits : {a b c d : ℕ} → a ≡ c → b ≡ d → ◌≡◌ {A = Text} (a ∷ b ∷ []) (c ∷ d ∷ [])
two_digits e f = cc

pad_two-show : (m : ℕ) → m < 100 → pad_two (show_number m) ≡ (b'0' + m / 10) ∷ (b'0' + m % 10) ∷ []
unfolding show_number
pad_two-show zero h = rw (digits_small 0 0 (omega arith)) (two_digits (omega arith) (omega arith))
pad_two-show (suc k) h = elim (Bool-cases (ltb (suc k) 10)) [
  | inl e ↦
      rw (digits_small (suc k) (suc k) (ground arith)) (two_digits (ground arith) (ground arith))
  | inr e ↦
      rw (digits_large (suc k) (suc k) (ground arith), digits_small k (suc k / 10) (omega arith))
        refl
]

digit-not_space : (c : ℕ) → is_digit c ≡ true → is_space c ≡ false
unfolding is_space
digit-not_space c h = ground arith

trim_ends :
    (c d : ℕ) (mid : Text)
    → is_space c ≡ false
    → is_space d ≡ false
    → trim ((c ∷ mid) ++ (d ∷ [])) ≡ (c ∷ mid) ++ (d ∷ [])
unfolding trim trim_start
trim_ends c d mid h k =
    rw (h, reverse-append (c ∷ mid) (d ∷ []), k)
      (ap reverse (sym (reverse-append (c ∷ mid) (d ∷ [])))
        ∙ reverse-reverse ((c ∷ mid) ++ (d ∷ [])))

-- The amount without its sign.
abbrev cents_text : ℕ → Text
cents_text m = b'.' ∷ (b'0' + m / 10) ∷ (b'0' + m % 10) ∷ []

cents_part_lem : (m : ℕ) → m < 100 → cents_part (cents_text m) ≡ some m
cents_part_lem m h = ground arith

whole_part_lem :
    (ds rest cs : Text) (c m : ℕ)
    → ds ≡ c ∷ cs
    → cents_part rest ≡ some m
    → whole_part (ds, rest) ≡ some (number_after 0 ds * 100 + m)
whole_part_lem ds rest cs c m e k = rw (e, k) refl

abbrev body : ℕ → Text
body n = show_number (n / 100) ++ cents_text (n % 100)

body_read : (n : ℕ) → whole_part (span_digits (body n)) ≡ some n
unfolding show_number
body_read n =
    let (c, cs, e) = digits_some (n / 100) (n / 100) in
    let shown = digits (suc (n / 100)) (n / 100) in
    let spanned =
      span_digits_lem shown ((b'0' + n % 100 / 10) ∷ (b'0' + n % 100 % 10) ∷ []) b'.'
        (digits-All (suc (n / 100)) (n / 100)) refl in
    ap whole_part spanned
    ∙ whole_part_lem shown (cents_text (n % 100)) cs c (n % 100) e
        (cents_part_lem (n % 100) (omega arith))
    ∙ ap some (rw (number_after-digits (suc (n / 100)) (n / 100) (omega arith)) (omega arith))

head_All : (P : ℕ → Type 0) (ds cs : Text) (c : ℕ) → All P ds → ds ≡ c ∷ cs → P c
head_All P ds cs c h e = (subst (All P) e h).0

-- The body starts and ends with a digit.
body_ends :
    (n : ℕ)
    → (c : ℕ) × (mid : Text) × (d : ℕ) × (is_digit c ≡ true)
      × (is_digit d ≡ true)
      × (body n ≡ (c ∷ mid) ++ (d ∷ []))
unfolding show_number
body_ends n =
    let (c, cs, e) = digits_some (n / 100) (n / 100) in
    (
      c,
      cs ++ (b'.' ∷ (b'0' + n % 100 / 10) ∷ []),
      b'0' + n % 100 % 10,
      head_All _ (digits (suc (n / 100)) (n / 100)) cs c (digits-All (suc (n / 100)) (n / 100)) e,
      ground arith,
      rw e (
          ap (λ l. c ∷ l)
            (sym
              (append_assoc cs (b'.' ∷ (b'0' + n % 100 / 10) ∷ []) ((b'0' + n % 100 % 10) ∷ [])))),
    )

trim-body : (n : ℕ) → trim (body n) ≡ body n
trim-body n =
    let (c, mid, d, h, k, e) = body_ends n in
    rw e (trim_ends c d mid (digit-not_space c h) (digit-not_space d k))

trim-minus_body : (n : ℕ) → trim (b'-' ∷ body n) ≡ b'-' ∷ body n
unfolding is_space
trim-minus_body n =
    let (c, mid, d, h, k, e) = body_ends n in
    rw e (trim_ends b'-' d (c ∷ mid) refl (digit-not_space d k))

-- A text that starts with a digit has no sign.
signed-some :
    (t cs : Text) (c n : ℕ)
    → t ≡ c ∷ cs
    → is_digit c ≡ true
    → whole_part (span_digits t) ≡ some n
    → signed t ≡ some (pos n)
signed-some t cs c n e h k = rw e (
    let read = subst (λ u. whole_part (span_digits u) ≡ some n) e k in
    elim (Bool-cases (c == b'-')) [ inl m ↦ ground arith | inr m ↦ rw (m, read) refl ])

signed_pos : (n : ℕ) → signed (body n) ≡ some (pos n)
signed_pos n =
    let (c, mid, d, h, k, e) = body_ends n in
    signed-some (body n) (mid ++ (d ∷ [])) c n e h (body_read n)

format_cents_to_usd_lem : (cents : ℤ) → format_cents_to_usd cents ≡ sign cents ++ body (abs cents)
unfolding format_cents_to_usd
format_cents_to_usd_lem cents =
    ap (λ t. sign cents ++ (show_number (abs cents / 100) ++ (b'.' ∷ t)))
      (pad_two-show (abs cents % 100) (omega arith))

signed_lem : (cents : ℤ) → signed (trim (sign cents ++ body (abs cents))) ≡ some cents
signed_lem (pos n) = ap signed (trim-body n) ∙ signed_pos n
signed_lem (negsuc n) = rw (trim-minus_body (suc n), body_read (suc n)) refl

-- Printing an amount of cents and reading the text back gives the amount, negative amounts included.
pub parse_usd_to_cents-format_cents_to_usd :
    (cents : ℤ) → parse_usd_to_cents (format_cents_to_usd cents) ≡ some cents
unfolding parse_usd_to_cents
parse_usd_to_cents-format_cents_to_usd cents = rw (format_cents_to_usd_lem cents) (signed_lem cents)
