-- ===== src/Settlement/Worker.antt =====
-- `SolanaSettlementService` (apps/worker/src/solana-settlement.service.ts). The payouts that a job reads
-- are the rows at its start; the writes go to the store of their own moment.
use serveproof.Prelude.{
  ℕ, ◌==◌, ◌+◌, ◌*◌, Bool, false, not, ◌&&◌, Option, none, some, [], ◌∷◌, ◌++◌, Text, text, text_eq,
  leb, if◌then◌else◌, is_some, bind,
}
use serveproof.Prelude.Http.{failure}
use serveproof.Settlement.Types.{
  settled, payment_failed, confirmed, finalized, failed, Payout, Job, Store, SettlementRecord,
  SignatureStatus, Chain,
}
use serveproof.Settlement.Queries.{
  is_failed, is_submitted, is_finalized, is_tracked, find_payout, find_allocation, set_payout,
  claim_payout, set_allocation, rebuild_income, refresh_batch,
}
use serveproof.Settlement.Send.{Outcome, done, thrown_after, expired_at}
use serveproof.Shared.Blockhash.{
  Confirmation, processed, is_blockhash_expired, should_rebroadcast, can_replace_blockhash,
}
use serveproof.Shared.Blockhash

unfoldable pub mark_failed : ℕ → ℕ → Text → Store → Store
unfolding set_payout set_allocation
mark_failed i aid why st =
    set_allocation aid (λ a. record a { payment = payment_failed })
      (set_payout i (λ p. record p { status = failed; failed_reason = some why }) st)

-- A number that is present and not 0.
abbrev pub truthy : Option ℕ → Option ℕ
truthy none = none
truthy (some n) = if n == 0 then none else some n

abbrev pub finalize_row : Chain → Option ℕ → SettlementRecord → Payout → Payout
finalize_row chain slot r p = record p {
  status = finalized;
  slot = elim (truthy slot) [ none ↦ p.slot | some s ↦ some s ];
  block_time = elim (truthy (bind (truthy slot) chain.block_time)) [
    | none ↦ p.block_time
    | some t ↦ some (t * 1000)
  ];
  settled_at = some (r.settled_at * 1000);
  failed_reason = none;
}

abbrev pub refresh_batch_of : ℕ → Store → Store
refresh_batch_of aid st = elim (find_allocation aid st) [
  | none ↦ st
  | some a ↦ refresh_batch a.batch st
]

-- The writes of `finalizeFromChain`, once the record is found.
unfoldable pub settle_row : Chain → Option ℕ → Payout → ℕ → SettlementRecord → Store → Store
unfolding set_payout set_allocation find_allocation refresh_batch rebuild_income
settle_row chain slot p aid r st = rebuild_income p.venue (
    refresh_batch_of aid (
      set_allocation aid (λ a. record a { payment = settled })
        (set_payout p.id (finalize_row chain slot r) st)))

abbrev pub finalize_found : Chain → Option ℕ → ℕ → Option Payout → Store → Outcome
finalize_found chain slot aid none st = done st
finalize_found chain slot aid (some p) st =
    if is_finalized p.status
    then done (rebuild_income p.venue st)
    else elim (chain.final_settlement p.payment_id) [
      | none ↦ thrown_after failure st
      | some r ↦ done (settle_row chain slot p aid r st)
    ]

unfoldable pub finalize_from_chain : Chain → Option ℕ → ℕ → ℕ → Store → Outcome
unfolding find_payout settle_row rebuild_income
finalize_from_chain chain slot i aid st = finalize_found chain slot aid (find_payout i st) st

abbrev pub rebroadcast_parts : Payout → Option Text → Option Text → Store → Store
rebroadcast_parts p (some signature) (some raw) st =
    let counted =
      claim_payout p.id is_tracked (λ q. record q { broadcast_attempts = q.broadcast_attempts + 1 })
        st in
    record counted { sent = counted.sent ++ (raw ∷ []) }
rebroadcast_parts p _ _ st = st

-- The instant of the last broadcast is not modelled.
unfoldable pub rebroadcast : Payout → Store → Store
unfolding claim_payout
rebroadcast p st = rebroadcast_parts p p.tx_signature p.signed_transaction st

-- `failIfObservedForkWasDropped`: `none` is `false`.
unfoldable pub fail_if_fork_dropped : Chain → Payout → Text → ℕ → Bool → Store → Option Outcome
unfolding finalize_from_chain mark_failed
fail_if_fork_dropped chain p signature observed_slot expired st =
    if not expired
    then none
    else if leb chain.final_slot observed_slot
    then none
    else if chain.final_transaction signature
    then none
    else if is_some (chain.final_settlement p.payment_id)
    then some (finalize_from_chain chain none p.id p.allocation st)
    else some (done (mark_failed p.id p.allocation (text "fork_dropped_after_blockhash_expiry") st))

abbrev pub confirm_submitted : Payout → Store → Store
confirm_submitted p st =
    if is_submitted p.status then set_payout p.id (λ q. record q { status = confirmed }) st else st

-- The settlement record decides, or the attempt has failed for the given reason.
abbrev pub settle_or_fail : Chain → Payout → Text → Store → Outcome
settle_or_fail chain p why st =
    if is_some (chain.final_settlement p.payment_id)
    then finalize_from_chain chain none p.id p.allocation st
    else done (mark_failed p.id p.allocation why st)

abbrev pub or_await : Option Outcome → Store → Outcome
or_await none st = thrown_after failure st
or_await (some o) st = o

-- A signature that is confirmed: `awaiting finalization`.
unfoldable pub confirm_confirmed : Chain → Payout → Text → SignatureStatus → Store → Outcome
unfolding set_payout fail_if_fork_dropped is_blockhash_expired
confirm_confirmed chain p signature s st =
    let st' = confirm_submitted p st in
    or_await
      (fail_if_fork_dropped chain p signature s.slot (expired_at chain p.last_valid_height) st') st'

abbrev pub confirmation_of : Option SignatureStatus → Option Confirmation
confirmation_of none = none
confirmation_of (some s) = s.confirmation

-- A signature that is not confirmed: it is sent again while its blockhash is valid. (The write of
-- SUBMITTED over SUBMITTED is left out.)
unfoldable pub confirm_pending : Chain → Payout → Text → Option SignatureStatus → Store → Outcome
unfolding rebroadcast fail_if_fork_dropped finalize_from_chain mark_failed is_blockhash_expired
    should_rebroadcast can_replace_blockhash
confirm_pending chain p signature status st =
    let expired = expired_at chain p.last_valid_height in
    if not (is_some status) && can_replace_blockhash none expired
    then settle_or_fail chain p (text "transaction_dropped") st
    else if expired
    then or_await (bind status (λ s. fail_if_fork_dropped chain p signature s.slot expired st)) st
    else thrown_after failure
        (if should_rebroadcast (confirmation_of status) false then rebroadcast p st else st)

abbrev pub by_confirmation :
    Chain → Payout → Text → SignatureStatus → Option Confirmation → Store → Outcome
by_confirmation chain p signature s (some Blockhash.finalized) st =
    finalize_from_chain chain (some s.slot) p.id p.allocation st
by_confirmation chain p signature s (some Blockhash.confirmed) st =
    confirm_confirmed chain p signature s st
by_confirmation chain p signature s _ st = confirm_pending chain p signature (some s) st

abbrev pub by_error : Chain → Payout → Text → SignatureStatus → Option Text → Store → Outcome
by_error chain p signature s (some e) st = settle_or_fail chain p e st
by_error chain p signature s none st = by_confirmation chain p signature s s.confirmation st

abbrev pub by_status : Chain → Payout → Text → Option SignatureStatus → Store → Outcome
by_status chain p signature none st = confirm_pending chain p signature none st
by_status chain p signature (some s) st = by_error chain p signature s s.error st

abbrev pub same_signature : Option Text → Text → Bool
same_signature none t = false
same_signature (some s) t = text_eq s t

abbrev pub confirm_found : Chain → Text → Option Payout → Store → Outcome
confirm_found chain signature none st = done st
confirm_found chain signature (some p) st =
    if is_finalized p.status
    then done (rebuild_income p.venue st)
    else if is_failed p.status
    then done st
    else if not (same_signature p.tx_signature signature)
    then done st
    else by_status chain p signature (chain.signature_status signature) st

-- `processConfirmation`; a thrown error makes the queue try again.
unfoldable pub process_confirmation : Chain → Job → Store → Outcome
unfolding find_payout rebuild_income finalize_from_chain mark_failed confirm_confirmed
    confirm_pending text_eq
process_confirmation chain job st = confirm_found chain job.signature (find_payout job.payout st) st
