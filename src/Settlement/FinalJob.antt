-- ===== src/Settlement/FinalJob.antt =====
-- A confirmation job of apps/worker/src/solana-settlement.service.ts takes no FINALIZED payout back.
use serveproof.Prelude.{
  ℕ, ◌≡◌, inl, inr, refl, ap, ◌∙◌, Bool, true, false, not, ◌&&◌, Option, none, some, Text, ◌==◌,
  is_some, bind, Bool-cases, arith,
}
use serveproof.Prelude.Tables.{find_row, find_row-true}
use serveproof.Settlement.Types.{Payout, Job, Store, SignatureStatus, Chain}
use serveproof.Settlement.Queries.{is_failed, is_finalized, find_payout, rebuild_income}
use serveproof.Settlement.Send.{expired_at}
use serveproof.Settlement.Finality.{final_at}
use serveproof.Shared.Blockhash.{
  Confirmation, processed, is_blockhash_expired, should_rebroadcast, can_replace_blockhash,
}
use serveproof.Shared.Blockhash
use serveproof.Settlement.Worker.{
  confirm_pending, confirm_confirmed, by_status, by_error, by_confirmation, process_confirmation,
  confirm_found, same_signature, confirm_submitted, rebroadcast, fail_if_fork_dropped, or_await,
  confirmation_of,
}
use serveproof.Settlement.Finality.{IsFinalAt, IsOpenAt}
use serveproof.Settlement.FinalWorker.{
  finalize_from_chain-final, rebroadcast-final, settle_or_fail-final, fork_dropped-final,
  confirm_submitted-final,
}

confirm_confirmed-final :
    (i : ℕ) (chain : Chain) (p : Payout) (signature : Text) (s : SignatureStatus) (st : Store)
    → IsOpenAt p.id st
    → IsFinalAt i st
    → IsFinalAt i (confirm_confirmed chain p signature s st).store
unfolding confirm_confirmed
confirm_confirmed-final i chain p signature s st o e =
    let (o', e') = confirm_submitted-final i p st o e in
    fork_dropped-final i s.slot chain p signature (expired_at chain p.last_valid_height)
      (confirm_submitted p st) o' e'

await_fork-final :
    (i : ℕ) (chain : Chain) (p : Payout) (signature : Text) (status : Option SignatureStatus)
    (expired : Bool) (st : Store)
    → IsOpenAt p.id st
    → IsFinalAt i st
    → IsFinalAt i
        (or_await
          (bind status (λ s. fail_if_fork_dropped chain p signature s.slot expired st))
          st).store
await_fork-final i chain p signature none expired st o e = e
await_fork-final i chain p signature (some s) expired st o e =
    fork_dropped-final i s.slot chain p signature expired st o e

confirm_pending-final :
    (i : ℕ) (chain : Chain) (p : Payout) (signature : Text) (status : Option SignatureStatus)
    (st : Store)
    → IsOpenAt p.id st
    → IsFinalAt i st
    → IsFinalAt i (confirm_pending chain p signature status st).store
unfolding confirm_pending rebroadcast
confirm_pending-final i chain p signature status st o e =
    elim (Bool-cases
      (not (is_some status) && can_replace_blockhash none (expired_at chain p.last_valid_height))) [
        | inl k ↦ rw k (settle_or_fail-final i chain p _ st o e)
        | inr k ↦ elim (Bool-cases (expired_at chain p.last_valid_height)) [
          | inl l ↦ rw (k, l) (await_fork-final i chain p signature status true st o e)
          | inr l ↦ elim (Bool-cases (should_rebroadcast (confirmation_of status) false)) [
            | inl m ↦ rw (k, l, m) (rebroadcast-final i p p.tx_signature p.signed_transaction st e)
            | inr m ↦ rw (k, l, m) e
          ]
        ]
      ]

by_confirmation-final :
    (i : ℕ) (chain : Chain) (p : Payout) (signature : Text) (s : SignatureStatus)
    (c : Option Confirmation) (st : Store)
    → IsOpenAt p.id st
    → IsFinalAt i st
    → IsFinalAt i (by_confirmation chain p signature s c st).store
by_confirmation-final i chain p signature s (some Blockhash.finalized) st o e =
    finalize_from_chain-final i p.id p.allocation chain (some s.slot) st e
by_confirmation-final i chain p signature s (some Blockhash.confirmed) st o e =
    confirm_confirmed-final i chain p signature s st o e
by_confirmation-final i chain p signature s (some processed) st o e =
    confirm_pending-final i chain p signature (some s) st o e
by_confirmation-final i chain p signature s none st o e =
    confirm_pending-final i chain p signature (some s) st o e

by_error-final :
    (i : ℕ) (chain : Chain) (p : Payout) (signature : Text) (s : SignatureStatus) (c : Option Text)
    (st : Store)
    → IsOpenAt p.id st
    → IsFinalAt i st
    → IsFinalAt i (by_error chain p signature s c st).store
by_error-final i chain p signature s (some why) st o e = settle_or_fail-final i chain p why st o e
by_error-final i chain p signature s none st o e =
    by_confirmation-final i chain p signature s s.confirmation st o e

by_status-final :
    (i : ℕ) (chain : Chain) (p : Payout) (signature : Text) (c : Option SignatureStatus)
    (st : Store)
    → IsOpenAt p.id st
    → IsFinalAt i st
    → IsFinalAt i (by_status chain p signature c st).store
by_status-final i chain p signature none st o e =
    confirm_pending-final i chain p signature none st o e
by_status-final i chain p signature (some s) st o e =
    by_error-final i chain p signature s s.error st o e

confirm_found-final :
    (i : ℕ) (chain : Chain) (signature : Text) (o : Option Payout) (st : Store)
    → ((p : Payout) → o ≡ some p → find_payout p.id st ≡ some p)
    → IsFinalAt i st
    → IsFinalAt i (confirm_found chain signature o st).store
unfolding rebuild_income
confirm_found-final i chain signature none st h e = e
confirm_found-final i chain signature (some p) st h e = elim (Bool-cases (is_finalized p.status)) [
  | inl k ↦ rw k e
  | inr k ↦ elim (Bool-cases (is_failed p.status)) [
    | inl l ↦ rw (k, l) e
    | inr l ↦ elim (Bool-cases (not (same_signature p.tx_signature signature))) [
      | inl m ↦ rw (k, l, m) e
      | inr m ↦
          rw (k, l, m)
            (by_status-final i chain p signature (chain.signature_status signature) st
              (p, h p refl, k) e)
    ]
  ]
]

own_id :
    (j : ℕ) (st : Store) {p : Payout} → find_payout j st ≡ some p → find_payout p.id st ≡ some p
unfolding find_payout
own_id j st {p} f =
    let k = find_row-true (λ r. r.id == j) st.payouts f in
    ap (λ m. find_row (λ r. r.id == m) st.payouts) (same_id p.id j k) ∙ f
  where
    same_id : (a b : ℕ) → (a == b) ≡ true → a ≡ b
    same_id a b k = ground arith

-- A confirmation job that runs on its own leaves every FINALIZED payout FINALIZED, whatever the chain
-- answers: its own payout and all others.
pub process_confirmation-final :
    (i : ℕ) (chain : Chain) (job : Job) (st : Store)
    → final_at i st ≡ true
    → final_at i (process_confirmation chain job st).store ≡ true
unfolding process_confirmation
process_confirmation-final i chain job st e =
    confirm_found-final i chain job.signature (find_payout job.payout st) st
      (λ p f. own_id job.payout st f) e
