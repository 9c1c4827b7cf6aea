-- ===== src/Evidence/Amounts.antt =====
-- A row that `csvEvidenceRowSchema` accepts has an amount that `parseUsdToCents` reads
-- (packages/shared/src/csv.ts, packages/shared/src/money.ts).
use mathlib.Core.List.{reverse, reverse-cons, reverse-reverse}
use serveproof.Prelude.{
  ℕ, ◌≡◌, refl, ap, ◌∙◌, inl, inr, Bool, true, false, ◌||◌, Option, none, some, List, [], ◌∷◌, Text,
  text, trim, trim_start, is_space, ◌==◌, is_some, bind, All, All-mono, Bool-cases, arith,
}
use serveproof.Prelude.Tables.{All-append}
use serveproof.Prelude.Http.{OnOk, OnOk-or_throw, returns}
use serveproof.Prelude.Int.{pos}
use serveproof.Shared.Usd.{
  is_digit, span_digits, cents_part, whole_part, signed, parse_usd_to_cents,
}
use serveproof.Evidence.Rows.{Clock, is_amount, field, checked, parse_row}

field_checked :
    (test : Text → Bool) (o : Option Text) (t : Text)
    → bind o (checked test) ≡ some t
    → test t ≡ true
field_checked test none t h = cc
field_checked test (some u) t h = elim (Bool-cases (test u)) [
  | inl e ↦ ground arith
  | inr e ↦ ground arith
]

pub parse_row-amount :
    (clock : Clock) (object : List (Text × Text))
    → OnOk (λ row. is_amount row.gross_tip ≡ true) (parse_row clock object)
unfolding parse_row
parse_row-amount clock object = OnOk-or_throw _ _ _ λ _ _. OnOk-or_throw _ _ _ λ _ _.
    OnOk-or_throw _ _ _ λ _ _. OnOk-or_throw _ _ _ λ _ _. OnOk-or_throw _ _ _ λ _ _.
      OnOk-or_throw _ _ _ λ gross e. OnOk-or_throw _ _ _ λ _ _. OnOk-or_throw _ _ _ λ _ _.
        OnOk-or_throw _ _ _ λ _ _. OnOk-or_throw _ _ _ λ _ _.
          OnOk-or_throw _ _ _
            λ _ _. returns (field_checked is_amount (field (text "gross_tip") object) gross e)

trim_start-All : (t : Text) → All (λ c. is_space c ≡ false) t → trim_start t ≡ t
unfolding trim_start
trim_start-All [] h = refl
trim_start-All (c ∷ cs) h = rw h.0 refl

reverse-All {κ} : (P : ℕ → Type κ) (t : Text) → All P t → All P (reverse t)
reverse-All P [] h = tt
reverse-All P (c ∷ cs) h =
    rw (reverse-cons c cs) (All-append P (reverse cs) (c ∷ []) (reverse-All P cs h.1) (h.0, tt))

trim-All : (t : Text) → All (λ c. is_space c ≡ false) t → trim t ≡ t
unfolding trim
trim-All t h =
    rw (trim_start-All t h, trim_start-All (reverse t) (reverse-All (λ c. is_space c ≡ false) t h))
      (reverse-reverse t)

-- A digit or the point.
abbrev is_mark : ℕ → Bool
is_mark c = is_digit c || c == b'.'

mark-not_space : (c : ℕ) → is_mark c ≡ true → is_space c ≡ false
unfolding is_space
mark-not_space c h = ground arith

cents_part-mark :
    (rest : Text) → is_some (cents_part rest) ≡ true → All (λ c. is_mark c ≡ true) rest
cents_part-mark [] h = tt
cents_part-mark (p ∷ []) h = cc
cents_part-mark (p ∷ c ∷ []) h = ground arith
cents_part-mark (p ∷ c ∷ d ∷ []) h = ground arith
cents_part-mark (p ∷ c ∷ d ∷ e ∷ es) h = cc

span_digits-mark :
    (t : Text) → is_some (cents_part (span_digits t).1) ≡ true → All (λ c. is_mark c ≡ true) t
unfolding span_digits
span_digits-mark [] h = tt
span_digits-mark (c ∷ cs) h = elim (Bool-cases (is_digit c)) [
  | inl e ↦ (ground arith, span_digits-mark cs (rw e at h))
  | inr e ↦ cents_part-mark (c ∷ cs) (rw e at h)
]

whole_part-cents_part :
    (parts : Text × Text) → is_some (whole_part parts) ≡ true → is_some (cents_part parts.1) ≡ true
whole_part-cents_part ([], rest) h = cc
whole_part-cents_part (c ∷ cs, rest) h = ground arith

is_some_value {ℓ} : {A : Type ℓ} (o : Option A) → is_some o ≡ true → (a : A) × (o ≡ some a)
is_some_value none h = cc
is_some_value (some a) h = (a, refl)

amount_digit : (c : ℕ) (cs : Text) → is_amount (c ∷ cs) ≡ true → is_digit c ≡ true
unfolding is_amount span_digits
amount_digit c cs h = elim (Bool-cases (is_digit c)) [ inl d ↦ d | inr d ↦ cc (rw d at h) ]

signed_amount : (t : Text) → is_amount t ≡ true → (n : ℕ) × (signed t ≡ some (pos n))
unfolding is_amount
signed_amount [] h = unfold span_digits in cc
signed_amount (c ∷ cs) h =
    let (n, e) = is_some_value (whole_part (span_digits (c ∷ cs))) h in
    let digit = amount_digit c cs h in
    let minus : (c == b'-') ≡ false = ground arith in
    (n, rw minus (ap (λ o. bind o (λ m. some (pos m))) e))

pub parse_usd_to_cents-amount :
    (t : Text) → is_amount t ≡ true → (n : ℕ) × (parse_usd_to_cents t ≡ some (pos n))
unfolding parse_usd_to_cents is_amount
parse_usd_to_cents-amount t h =
    let marks = span_digits-mark t (whole_part-cents_part (span_digits t) h) in
    let (n, e) = signed_amount t h in
    (n, ap signed (trim-All t (All-mono t mark-not_space marks)) ∙ e)
