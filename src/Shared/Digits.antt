-- ===== src/Shared/Digits.antt =====
-- The digits that `encodeBase58` (packages/shared/src/base58.ts) computes stand for the number that the
-- bytes stand for.
use serveproof.Prelude.{
  ℕ, ◌+◌, ◌*◌, ◌/◌, ◌<◌, ◌≡◌, refl, ap, sym, suc, zero, ◌∙◌, List, [], ◌∷◌, ◌++◌, All, arith,
}
use serveproof.Prelude.Tables.{All-append}
use serveproof.Shared.Base58.{add_carry, carry_digits, push_byte, push_bytes, value_of, bytes_value}

abbrev AllDigits : List ℕ → Type 0
AllDigits = All (λ d. d < 58)

-- The digits stay below 58 and the carry below 256; with the digits of the carry behind them they stand
-- for 256 times the number, plus the byte.
add_carry_lem :
    (ds : List ℕ) (carry : ℕ)
    → AllDigits ds
    → carry < 256
    → let (ds', carry') = add_carry ds carry in
      (carry' < 256)
      × AllDigits ds'
      × ((xs : List ℕ) → value_of xs ≡ carry' → value_of (ds' ++ xs) ≡ 256 * value_of ds + carry)
unfolding add_carry
add_carry_lem [] carry small h = (h, tt, λ xs e. omega arith)
add_carry_lem (d ∷ ds) carry (dig, digs) h =
    let value = d * 256 + carry in
    let (small, digits, sums) = add_carry_lem ds (value / 58) digs (omega arith) in
    (small, (omega arith, digits), λ xs e. omega (arith, sums xs e))

carry_digits_lem :
    (carry : ℕ)
    → carry < 256
    → (value_of (carry_digits 2 carry) ≡ carry) × AllDigits (carry_digits 2 carry)
unfolding carry_digits
carry_digits_lem carry h = ground arith

push_byte_lem :
    (ds : List ℕ) (byte : ℕ)
    → AllDigits ds
    → byte < 256
    → (value_of (push_byte ds byte) ≡ 256 * value_of ds + byte) × AllDigits (push_byte ds byte)
unfolding push_byte
push_byte_lem ds byte digs h =
    let (small, digits, sums) = add_carry_lem ds byte digs h in
    let (value, digits') = carry_digits_lem (add_carry ds byte).1 small in
    (sums _ value, All-append _ (add_carry ds byte).0 _ digits digits')

-- The digits of a byte string are below 58, and stand for its number in base 256.
pub value_of-push_bytes :
    (ds bytes : List ℕ)
    → All (λ d. d < 58) ds
    → All (λ b. b < 256) bytes
    → (value_of (push_bytes ds bytes) ≡ bytes_value (value_of ds) bytes)
      × All (λ d. d < 58) (push_bytes ds bytes)
unfolding push_bytes
value_of-push_bytes ds [] digs small = (refl, digs)
value_of-push_bytes ds (b ∷ bs) digs (h, small) =
    let (value, digits) = push_byte_lem ds b digs h in
    let (value', digits') = value_of-push_bytes (push_byte ds b) bs digits small in
    (value' ∙ ap (λ v. bytes_value v bs) (omega (arith, value)), digits')

carry_digits_zero : (fuel : ℕ) → carry_digits fuel 0 ≡ []
unfolding carry_digits
carry_digits_zero zero = refl
carry_digits_zero (suc fuel) = refl

carry_digits_more :
    (fuel carry : ℕ) → carry < 256 → carry_digits (suc (suc fuel)) carry ≡ carry_digits 2 carry
unfolding carry_digits
carry_digits_more fuel carry h =
    let none_left : carry / 58 / 58 ≡ 0 = omega arith in rw (none_left, carry_digits_zero fuel) refl

-- Two rounds end the loop over the carry: with digits below 58 and a byte, more rounds give the same
-- digits.
pub push_byte-ends :
    (fuel byte : ℕ) (ds : List ℕ)
    → All (λ d. d < 58) ds
    → byte < 256
    → push_byte ds byte
      ≡ (add_carry ds byte).0 ++ carry_digits (suc (suc fuel)) (add_carry ds byte).1
unfolding push_byte
push_byte-ends fuel byte ds digs h =
    let (small, digits, sums) = add_carry_lem ds byte digs h in
    ap (λ xs. (add_carry ds byte).0 ++ xs)
      (sym (carry_digits_more fuel (add_carry ds byte).1 small))
