-- ===== src/Shared/Blockhash.antt =====
-- When a signed transaction may be sent again or replaced (packages/shared/src/solana-transaction.ts).
use serveproof.Prelude.{ℕ, Bool, true, false, not, ◌&&◌, ◌||◌, Option, none, some, ltb}

pub data Confirmation : Type 0 where
  processed confirmed finalized : Confirmation

unfoldable pub is_blockhash_expired : ℕ → ℕ → Bool
is_blockhash_expired current last_valid = ltb last_valid current

abbrev pub is_unseen : Option Confirmation → Bool
is_unseen none = true
is_unseen (some c) = false

abbrev is_processed : Option Confirmation → Bool
is_processed (some processed) = true
is_processed _ = false

unfoldable pub should_rebroadcast : Option Confirmation → Bool → Bool
should_rebroadcast status expired = not expired && (is_unseen status || is_processed status)

unfoldable pub can_replace_blockhash : Option Confirmation → Bool → Bool
can_replace_blockhash status expired = expired && is_unseen status
