-- ===== src/Shared/Usd.antt =====
-- `parseUsdToCents` and `formatCentsToUsd` (packages/shared/src/money.ts), and `String` of a number.
use serveproof.Prelude.{
  ℕ, zero, suc, ◌+◌, ◌-◌, ◌*◌, ◌/◌, ◌%◌, Bool, ◌&&◌, Option, none, some, [], ◌∷◌, ◌++◌, Text, trim,
  ltb, leb, ◌==◌, if◌then◌else◌, bind,
}
use serveproof.Prelude.Int.{ℤ, pos, negsuc}

-- `\d`.
abbrev pub is_digit : ℕ → Bool
is_digit c = leb b'0' c && leb c b'9'

-- The longest prefix of digits, and the rest.
unfoldable pub span_digits : Text → Text × Text
span_digits [] = ([], [])
span_digits (c ∷ cs) =
    let (ds, rest) = span_digits cs in if is_digit c then (c ∷ ds, rest) else ([], c ∷ cs)

-- `Number` of a string of digits, read after some digits.
unfoldable pub number_after : ℕ → Text → ℕ
number_after n [] = n
number_after n (c ∷ cs) = number_after (10 * n + (c - b'0')) cs

-- The group of cents, `frac.padEnd(2, "0")`: one or two digits after a point, up to the end.
abbrev pub cents_part : Text → Option ℕ
cents_part [] = some 0
cents_part (p ∷ []) = none
cents_part (p ∷ c ∷ []) = if p == b'.' && is_digit c then some (10 * (c - b'0')) else none
cents_part (p ∷ c ∷ d ∷ []) =
    if p == b'.' && is_digit c && is_digit d then some (10 * (c - b'0') + (d - b'0')) else none
cents_part _ = none

abbrev pub whole_part : Text × Text → Option ℕ
whole_part ([], rest) = none
whole_part (c ∷ cs, rest) =
    bind (cents_part rest) (λ cents. some (number_after 0 (c ∷ cs) * 100 + cents))

abbrev pub negate : ℕ → ℤ
negate zero = pos 0
negate (suc n) = negsuc n

abbrev pub signed : Text → Option ℤ
signed [] = none
signed (c ∷ cs) =
    if c == b'-'
    then bind (whole_part (span_digits cs)) (λ n. some (negate n))
    else bind (whole_part (span_digits (c ∷ cs))) (λ n. some (pos n))

-- `none` is the exception.
unfoldable pub parse_usd_to_cents : Text → Option ℤ
unfolding trim span_digits number_after
parse_usd_to_cents value = signed (trim value)

-- `String(n)`, with fuel.
unfoldable pub digits : ℕ → ℕ → Text
digits zero n = []
digits (suc fuel) n =
    let rest = digits fuel (n / 10) in
    if ltb n 10 then (b'0' + n) ∷ [] else rest ++ ((b'0' + n % 10) ∷ [])

unfoldable pub show_number : ℕ → Text
unfolding digits
show_number n = digits (suc n) n

abbrev pub abs : ℤ → ℕ
abs (pos n) = n
abs (negsuc n) = suc n

abbrev pub sign : ℤ → Text
sign (pos n) = []
sign (negsuc n) = b'-' ∷ []

-- `padStart(2, "0")`.
abbrev pub pad_two : Text → Text
pad_two [] = b'0' ∷ b'0' ∷ []
pad_two (c ∷ []) = b'0' ∷ c ∷ []
pad_two (c ∷ d ∷ cs) = c ∷ d ∷ cs

unfoldable pub format_cents_to_usd : ℤ → Text
unfolding show_number
format_cents_to_usd cents =
    sign cents
    ++ (show_number (abs cents / 100) ++ (b'.' ∷ pad_two (show_number (abs cents % 100))))
