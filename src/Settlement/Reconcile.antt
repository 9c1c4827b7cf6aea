-- ===== src/Settlement/Reconcile.antt =====
-- `reconcileStalePayouts` and the event indexer (apps/worker/src/solana-settlement.service.ts).
use serveproof.Prelude.Sort.{sort_by}
use serveproof.Prelude.{
  ℕ, zero, suc, ◌+◌, Bool, true, false, not, ◌&&◌, ◌||◌, Option, none, some, List, [], ◌∷◌, Text,
  text, ltb, if◌then◌else◌, or_else, is_some, bind,
}
use serveproof.Prelude.Tables.{filter_rows}
use serveproof.Settlement.Types.{confirmed, Payout, Store, SignatureStatus, Chain}
use serveproof.Settlement.Queries.{
  is_usdc, is_initiated, is_submitted, is_stale, find_payment, set_payout,
}
use serveproof.Settlement.Send.{Outcome, done, expired_at}
use serveproof.Shared.Blockhash.{
  processed, should_rebroadcast, can_replace_blockhash, is_blockhash_expired,
}
use serveproof.Shared.Blockhash
use serveproof.Settlement.Worker.{
  mark_failed, finalize_from_chain, fail_if_fork_dropped, confirm_submitted, rebroadcast,
}

-- No signature is observed, or one of no known confirmation.
unfoldable pub reconcile_unseen : Chain → ℕ → Payout → Bool → Store → Store
unfolding mark_failed rebroadcast should_rebroadcast can_replace_blockhash
reconcile_unseen chain now p observed st =
    let expired = expired_at chain p.last_valid_height in
    if not observed && is_some p.last_valid_height && can_replace_blockhash none expired
    then mark_failed p.id p.allocation
        (if is_some p.tx_signature
          then text "transaction_dropped"
          else text "blockhash_expired_before_submit")
        st
    else if is_some p.last_valid_height && should_rebroadcast none expired
    then rebroadcast p st
    else if not (is_some p.last_valid_height)
        && is_some p.initiated_at
        && ltb (or_else p.initiated_at 0 + 600000) now
    then mark_failed p.id p.allocation (text "legacy_attempt_timeout") st
    else st

abbrev pub or_done : Option Outcome → Store → Outcome
or_done none st = done st
or_done (some o) st = o

abbrev pub fork_outcome : Chain → Payout → SignatureStatus → Store → Option Outcome
fork_outcome chain p s st =
    bind p.tx_signature
      (λ t. fail_if_fork_dropped chain p t s.slot (expired_at chain p.last_valid_height) st)

abbrev pub reconcile_observed :
    Chain
    → ℕ
    → Payout
    → SignatureStatus
    → Option Text
    → Option Blockhash.Confirmation
    → Store
    → Outcome
reconcile_observed chain now p s (some e) c st = done (mark_failed p.id p.allocation e st)
reconcile_observed chain now p s none (some Blockhash.finalized) st =
    done (mark_failed p.id p.allocation (text "finalized_without_settlement") st)
reconcile_observed chain now p s none (some Blockhash.confirmed) st =
    let st' = confirm_submitted p st in or_done (fork_outcome chain p s st') st'
reconcile_observed chain now p s none (some processed) st = or_done (fork_outcome chain p s st) (
    if should_rebroadcast (some processed) (expired_at chain p.last_valid_height)
    then rebroadcast p st
    else st)
reconcile_observed chain now p s none none st = done (reconcile_unseen chain now p true st)

abbrev pub reconcile_status : Chain → ℕ → Payout → Option SignatureStatus → Store → Outcome
reconcile_status chain now p none st = done (reconcile_unseen chain now p false st)
reconcile_status chain now p (some s) st =
    reconcile_observed chain now p s s.error s.confirmation st

-- One round of the loop.
unfoldable pub reconcile_payout : Chain → ℕ → Payout → Store → Outcome
unfolding finalize_from_chain mark_failed fail_if_fork_dropped rebroadcast reconcile_unseen
    should_rebroadcast is_blockhash_expired
reconcile_payout chain now p st =
    if is_some (chain.final_settlement p.payment_id)
    then finalize_from_chain chain none p.id p.allocation st
    else reconcile_status chain now p (bind p.tx_signature chain.signature_status) st

-- The loop ends at an exception.
unfoldable pub reconcile_loop : Chain → ℕ → List Payout → Store → Outcome
unfolding reconcile_payout
reconcile_loop chain now [] st = done st
reconcile_loop chain now (p ∷ ps) st =
    let o = reconcile_payout chain now p st in
    let rest = reconcile_loop chain now ps o.store in if is_some o.thrown then o else rest

-- Oldest first; rows without an instant come last.
abbrev starts_later : Option ℕ → Option ℕ → Bool
starts_later (some a) (some b) = ltb b a
starts_later none (some b) = true
starts_later _ none = false

abbrev take_rows : ℕ → List Payout → List Payout
take_rows zero ps = []
take_rows (suc n) [] = []
take_rows (suc n) (p ∷ ps) = p ∷ take_rows n ps

unfoldable pub reconcile_stale : Chain → ℕ → Store → Outcome
unfolding filter_rows sort_by reconcile_loop
reconcile_stale chain now st =
    reconcile_loop chain now
      (take_rows 50 (
        sort_by (λ p q. starts_later p.initiated_at q.initiated_at)
          (filter_rows (λ p. is_usdc (some p.rail) && is_stale p.status) st.payouts)))
      st

-- The indexer of `PayoutSettled`, which names the payout by the hash of its payment id: the write, by the
-- id of the row that it has read.
abbrev pub confirm_event : Option Payout → Store → Store
confirm_event none st = st
confirm_event (some p) st =
    if is_submitted p.status || is_initiated p.status
    then set_payout p.id (λ q. record q { status = confirmed }) st
    else st

-- It reads in the first store and writes in the second, which other calls may have changed.
unfoldable pub index_settled : ℕ → Store → Store → Store
unfolding find_payment set_payout
index_settled payment_id read st = confirm_event (find_payment payment_id read) st
