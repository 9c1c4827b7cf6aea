-- ===== src/Settlement/Send.antt =====
-- `buildTransaction` and `submitSigned` (apps/api/src/payouts/payouts.service.ts). Each reads its payout,
-- asks the chain, and then claims the row by a conditional update; the claims take the row that was read
-- and the store of that later moment, which other calls may have changed.
use serveproof.Prelude.{
  ℕ, Bool, true, false, not, ◌&&◌, ◌||◌, Option, none, some, [], ◌∷◌, ◌++◌, Text, text, text_eq,
  if◌then◌else◌, is_some, bind,
}
use serveproof.Prelude.Http.{
  Result, ok, Exception, not_found, bad_request, conflict, failure, require, or_throw, ◌>>=◌, ◌>>◌,
}
use serveproof.Settlement.Types.{
  payment_failed, initiated, submitted, failed, Payout, Store, Chain, Library,
}
use serveproof.Settlement.Queries.{
  is_failed, is_initiated, is_submitted, is_buildable, is_sent, find_payout, find_allocation,
  find_batch, find_wallet, find_venue, claim_payout, can_claim, set_allocation,
}
use serveproof.Shared.Base58.{encode_base58}
use serveproof.Shared.Blockhash.{is_blockhash_expired}

-- The effects of a method, and the exception that it throws after them.
pub record Outcome : Type 0 where
  pub store : Store
  pub thrown : Option Exception

abbrev pub done : Store → Outcome
done st = record { store = st; thrown = none }

abbrev pub thrown_after : Exception → Store → Outcome
thrown_after e st = record { store = st; thrown = some e }

-- A built transaction that was recorded may still land, unless its last valid block has passed.
abbrev pub may_rebuild : Chain → Payout → Bool
may_rebuild chain p = elim p.last_valid_height [
  | none ↦ true
  | some h ↦
      not (is_initiated p.status || is_failed p.status) || is_blockhash_expired chain.block_height h
]

abbrev pub initiate : Library → Chain → ℕ → Option ℕ → Payout → Text → Payout → Payout
initiate lib chain now user read signer p = record p {
  status = initiated;
  settlement_pda = some (lib.settlement_pda read.payment_id);
  recent_blockhash = some chain.latest_blockhash;
  last_valid_height = some chain.latest_valid_height;
  signed_transaction = none;
  tx_signature = none;
  last_broadcast_at = none;
  broadcast_attempts = 0;
  initiated_at = some now;
  initiated_by = elim user [ none ↦ read.initiated_by | some u ↦ some u ];
  submitted_by = none;
  signer_wallet = some signer;
  failed_reason = none;
}

-- Everything up to the claim: the signer, from the row that was read.
unfoldable pub check_build : Library → Chain → Option Text → Payout → Store → Result Text
unfolding find_venue find_wallet find_allocation find_batch is_blockhash_expired
check_build lib chain mint p st = do
  require (is_buildable p.status) conflict
  require (not (is_some (chain.settlement p.payment_id))) conflict
  require (may_rebuild chain p) conflict
  v ← or_throw (find_venue p.venue st) bad_request
  signer ← or_throw v.payout_signer bad_request
  wallet ← or_throw (bind p.wallet (λ i. find_wallet i st)) bad_request
  a ← or_throw (find_allocation p.allocation st) failure
  b ← or_throw (find_batch a.batch st) failure
  hash ← or_throw b.allocation_hash bad_request
  m ← or_throw mint bad_request
  require (lib.is_pubkey signer && lib.is_pubkey wallet.address && lib.is_pubkey m) failure
  require (lib.is_hash hash) failure
  ok signer

unfoldable pub claim_build : Library → Chain → ℕ → Option ℕ → Payout → Text → Store → Result Store
unfolding can_claim claim_payout
claim_build lib chain now user p signer st =
    require (can_claim p.id is_buildable st) conflict
    >> ok (claim_payout p.id is_buildable (initiate lib chain now user p signer) st)

unfoldable pub build_transaction :
    Library → Chain → Option Text → ℕ → ℕ → Option ℕ → Store → Result Store
unfolding find_payout check_build claim_build
build_transaction lib chain mint now i user st = do
  p ← or_throw (find_payout i st) not_found
  signer ← check_build lib chain mint p st
  claim_build lib chain now user p signer st

-- A claim that finds the row no longer INITIATED returns it if it is sent, and throws if not.
abbrev pub lost_claim : Option Payout → Store → Outcome
lost_claim none st = thrown_after conflict st
lost_claim (some p) st = if is_sent p.status then done st else thrown_after conflict st

abbrev pub expire : Payout → Payout
expire p = record p {
  status = failed;
  failed_reason = some (text "blockhash_expired_before_submit");
}

-- The blockhash has expired before the submission.
unfoldable pub claim_expired : Payout → Store → Outcome
unfolding can_claim claim_payout set_allocation find_payout
claim_expired p st =
    if can_claim p.id is_initiated st
    then thrown_after conflict (
        set_allocation p.allocation (λ a. record a { payment = payment_failed })
          (claim_payout p.id is_initiated expire st))
    else lost_claim (find_payout p.id st) st

abbrev pub broadcast : ℕ → Text → Text → Option ℕ → Payout → Payout → Payout
broadcast now signature raw user read p = record p {
  status = submitted;
  tx_signature = some signature;
  signed_transaction = some raw;
  last_broadcast_at = some now;
  broadcast_attempts = 1;
  submitted_by = elim user [ none ↦ read.submitted_by | some u ↦ some u ];
}

abbrev pub note_send_error : Option Text → ℕ → Store → Store
note_send_error none i st = st
note_send_error (some message) i st =
    claim_payout i is_submitted
      (λ p. record p { failed_reason = some (text "initial_broadcast:" ++ message) }) st

abbrev pub send : Chain → Payout → Text → Text → Store → Store
send chain p signature raw claimed =
    let sent =
      note_send_error chain.send_error p.id
        (record claimed { sent = claimed.sent ++ (raw ∷ []) }) in
    record sent { jobs = sent.jobs ++ (record { payout = p.id; signature = signature } ∷ []) }

-- The claim, the broadcast and the confirmation job. (`slice(0, 500)` of the error is left out.)
unfoldable pub claim_submit : Chain → ℕ → Option ℕ → Payout → Text → Text → Store → Outcome
unfolding can_claim claim_payout find_payout
claim_submit chain now user p signature raw st =
    if can_claim p.id is_initiated st
    then done (
        send chain p signature raw
          (claim_payout p.id is_initiated (broadcast now signature raw user p) st))
    else lost_claim (find_payout p.id st) st

abbrev pub same_hash : Option Text → Option Text → Bool
same_hash (some a) (some b) = text_eq a b
same_hash _ _ = false

-- The signature and the raw bytes of a transaction that fits the payout.
unfoldable pub check_signed : Library → Text → Payout → Result (Text × Text)
unfolding encode_base58 text_eq
check_signed lib signed p = do
  require (is_some p.recent_blockhash && is_some p.last_valid_height) conflict
  tx ← or_throw (lib.decode signed) failure
  require (same_hash tx.blockhash p.recent_blockhash) bad_request
  bytes ← or_throw tx.signature bad_request
  raw ← or_throw tx.raw failure
  ok (encode_base58 bytes, raw)

abbrev pub expired_at : Chain → Option ℕ → Bool
expired_at chain none = false
expired_at chain (some h) = is_blockhash_expired chain.block_height h

unfoldable pub submit_signed : Library → Chain → ℕ → ℕ → Text → Option ℕ → Store → Result Outcome
unfolding find_payout check_signed claim_expired claim_submit is_blockhash_expired
submit_signed lib chain now i signed user st = do
  p ← or_throw (find_payout i st) not_found
  if is_sent p.status then ok (done st) else do
    require (is_initiated p.status) conflict
    (signature, raw) ← check_signed lib signed p
    ok (
        if expired_at chain p.last_valid_height
        then claim_expired p st
        else claim_submit chain now user p signature raw st)
