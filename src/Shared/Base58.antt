-- ===== src/Shared/Base58.antt =====
-- `encodeBase58` (packages/shared/src/base58.ts).
use mathlib.Core.List.{reverse}
use serveproof.Prelude.{
  ℕ, zero, suc, ◌+◌, ◌*◌, ◌/◌, ◌%◌, List, [], ◌∷◌, ◌++◌, map, Text, text, ◌==◌, if◌then◌else◌,
  get_or,
}

abbrev alphabet : Text
alphabet = text "123456789ABCDEFGHJKLMNPQRSTUVWXYZabcdefghijkmnopqrstuvwxyz"

-- `while (zeros < bytes.length && bytes[zeros] === 0) zeros++`.
unfoldable pub leading_zeros : List ℕ → ℕ
leading_zeros [] = 0
leading_zeros (b ∷ bs) = let rest = leading_zeros bs in if b == 0 then rest + 1 else 0

-- The inner loop over the digits, least significant first: the new digits and the carry.
unfoldable pub add_carry : List ℕ → ℕ → List ℕ × ℕ
add_carry [] carry = ([], carry)
add_carry (d ∷ ds) carry =
    let value = d * 256 + carry in
    let rest = add_carry ds (value / 58) in (value % 58 ∷ rest.0, rest.1)

-- `while (carry > 0)`, with fuel.
unfoldable pub carry_digits : ℕ → ℕ → List ℕ
carry_digits zero carry = []
carry_digits (suc fuel) carry =
    let rest = carry_digits fuel (carry / 58) in if carry == 0 then [] else carry % 58 ∷ rest

-- One byte. A carry is below 256, so that two rounds are enough.
unfoldable pub push_byte : List ℕ → ℕ → List ℕ
unfolding add_carry carry_digits
push_byte digits byte = let (ds, carry) = add_carry digits byte in ds ++ carry_digits 2 carry

unfoldable pub push_bytes : List ℕ → List ℕ → List ℕ
unfolding push_byte
push_bytes digits [] = digits
push_bytes digits (b ∷ bs) = push_bytes (push_byte digits b) bs

abbrev ones : ℕ → Text
ones zero = []
ones (suc n) = b'1' ∷ ones n

unfoldable pub encode_base58 : List ℕ → Text
unfolding leading_zeros push_bytes
encode_base58 bytes =
    ones (leading_zeros bytes)
    ++ map (λ d. get_or alphabet d 0) (reverse (push_bytes (0 ∷ []) bytes))

-- The number that a list of digits or bytes stands for.
abbrev pub value_of : List ℕ → ℕ
value_of [] = 0
value_of (d ∷ ds) = d + 58 * value_of ds

abbrev pub bytes_value : ℕ → List ℕ → ℕ
bytes_value acc [] = acc
bytes_value acc (b ∷ bs) = bytes_value (acc * 256 + b) bs
