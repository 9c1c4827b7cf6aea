-- ===== src/Examples/Payments.antt =====
-- The payments (apps/api/src/payouts/payouts.service.ts,
-- apps/worker/src/solana-settlement.service.ts) at concrete inputs.
use mathlib.Core.Option.{some-injective}
use serveproof.Prelude.{ℕ, ◌≡◌, refl, sym, true, false, none, some, [], ◌∷◌, text}
use serveproof.Prelude.Http.{ok, OnOk, methods}
use serveproof.Shared.Blockhash.{can_replace_blockhash, is_blockhash_expired}
use serveproof.Settlement.Types.{
  bank_reference, usdc, payable, pending, PayoutStatus, created, initiated, confirmed, submitted,
  finalized, failed, Batch, Allocation, Payout, Job, Store, Chain, Library,
}
use serveproof.Settlement.Queries.{
  find_payout, find_payment, find_allocation, find_batch, find_worker,
}
use serveproof.Settlement.Create.{blank_payout, check_create, create_usdc_payout}
use serveproof.Settlement.Legacy.{attest_update, register_legacy}
use serveproof.Settlement.Send.{
  done, claim_build, build_transaction, claim_expired, claim_submit, submit_signed,
}
use serveproof.Settlement.Worker.{by_status, process_confirmation}
use serveproof.Settlement.Finality.{final_in, final_at}
use serveproof.Settlement.FinalApi.{create_usdc_payout-final}
use serveproof.Settlement.Reconcile.{index_settled}
use serveproof.Settlement.FinalRound.{index_settled-final}
use serveproof.Settlement.FinalJob.{process_confirmation-final}
use serveproof.Settlement.Safety.{Broadcasts, submit_signed-Broadcasts}
use serveproof.Settlement.Queries.{find_wallet, find_venue}
use serveproof.Settlement.Live.{dropped, dropped-initiated}
use serveproof.Settlement.Acts.{build, submit, lapse, Rows}
use serveproof.Settlement.Machine.{claims-Rows}
use serveproof.Settlement.Overlaps.{
  register_legacy-in_flight, by_status-overwrites, stale_reads-overwrite,
}

abbrev batch : Batch
batch = record { id = 1; venue = 3; status = payable; allocation_hash = some (text "h") }

abbrev allocation : ℕ → Allocation
allocation i = record {
  id = i;
  batch = 1;
  worker = some 10;
  net_allocated = 500;
  payout_rail = some usdc;
  payment = pending;
}

abbrev payout : ℕ → ℕ → PayoutStatus → Payout
payout i a status = record (blank_payout i (allocation a) 10 batch) {
  status = status;
  wallet = some 4;
  tx_signature = some (text "s");
  recent_blockhash = some (text "r");
  last_valid_height = some 100;
}

abbrev two_payouts : PayoutStatus → Store
two_payouts status = record {
  wallets = record { id = 4; address = text "w"; is_active = true } ∷ [];
  workers = record { id = 10; default_wallet = some 4 } ∷ [];
  venues = record { id = 3; payout_signer = some (text "v") } ∷ [];
  batches = batch ∷ [];
  allocations = allocation 7 ∷ allocation 8 ∷ [];
  payouts = payout 20 7 finalized ∷ payout 21 8 status ∷ [];
  jobs = [];
  sent = [];
  projections = [];
  next_id = 50;
}

-- A chain at block 101 that has seen nothing.
abbrev chain : Chain
chain = record {
  block_height = 101;
  settlement = λ i. none;
  final_settlement = λ i. none;
  signature_status = λ s. none;
  final_slot = 101;
  final_transaction = λ s. false;
  block_time = λ s. none;
  latest_blockhash = text "q";
  latest_valid_height = 250;
  send_error = none;
}

abbrev library : Library
library = record {
  is_pubkey = λ t. true;
  settlement_pda = λ i. text "p";
  is_hash = λ t. true;
  decode = λ t.
      some (record { blockhash = some (text "r"); signature = some (1 ∷ 2 ∷ []); raw = some t });
}

-- The payout that was read as FAILED is still FAILED when the call writes, and another one is FINALIZED.
create_usdc_payout-final_example :
    OnOk
      (λ st'. final_at 20 st' ≡ true)
      (create_usdc_payout library chain 8 none (two_payouts failed) (two_payouts failed))
unfolding final_in find_payment find_payout
create_usdc_payout-final_example =
    create_usdc_payout-final 20 library chain 8 none (two_payouts failed) (two_payouts failed)
      (λ p e _. (payout 21 8 failed, rw (sym (some-injective (payout 21 8 failed) p e)) refl, refl))
      refl

abbrev job : Job
job = record { payout = 21; signature = text "s" }

process_confirmation-final_example :
    final_at 20 (process_confirmation chain job (two_payouts submitted)).store ≡ true
unfolding final_in
process_confirmation-final_example =
    process_confirmation-final 20 chain job (two_payouts submitted) refl

submit_signed-Broadcasts_example :
    OnOk
      (λ o. Broadcasts chain 21 (two_payouts initiated) o.store)
      (submit_signed library chain 5 21 (text "raw") none (two_payouts initiated))
submit_signed-Broadcasts_example =
    submit_signed-Broadcasts library chain 5 21 (text "raw") none (two_payouts initiated)

register_legacy-in_flight_example :
    (st' : Store) × (register_legacy 5 8 bank_reference
        (text "ref")
        (some 9)
        (two_payouts submitted)
      ≡ ok st')
    × (find_payment 8 st'
        ≡ some (attest_update 5 bank_reference (text "ref") (some 9) (payout 21 8 submitted)))
    × (st'.jobs ≡ [])
unfolding find_allocation find_batch find_payment
register_legacy-in_flight_example =
    register_legacy-in_flight 5 8 bank_reference (text "ref") (some 9) (two_payouts submitted)
      {a = allocation 8} {b = batch} {w = 10} {p = payout 21 8 submitted} refl refl refl refl refl
      refl

by_status-overwrites_example :
    find_payout 21
      (by_status chain (payout 21 8 submitted) (text "s") none (two_payouts finalized)).store
    ≡ some (record (payout 21 8 finalized) {
      status = failed;
      failed_reason = some (text "transaction_dropped");
    })
unfolding find_payout can_replace_blockhash is_blockhash_expired
by_status-overwrites_example =
    by_status-overwrites chain (payout 21 8 submitted) (text "s") (two_payouts finalized)
      {x = payout 21 8 finalized} refl refl refl

index_settled-final_example :
    final_at 20 (index_settled 8 (two_payouts submitted) (two_payouts submitted)) ≡ true
unfolding final_in find_payment find_payout
index_settled-final_example =
    index_settled-final 20 8 (two_payouts submitted) (two_payouts submitted)
      (λ p e _.
        (payout 21 8 submitted, rw (sym (some-injective (payout 21 8 submitted) p e)) refl, refl))
      refl

-- The payout that was read as FAILED, and the one that was read as SUBMITTED, is FINALIZED by then.
stale_reads-overwrite_example :
    ((st' : Store) × (y : Payout) × (create_usdc_payout library chain 8 none
          (two_payouts failed)
          (two_payouts finalized)
        ≡ ok st')
      × (find_payout 21 st' ≡ some y)
      × (y.status ≡ created))
    × (find_payout 21 (index_settled 8 (two_payouts submitted) (two_payouts finalized))
        ≡ some (record (payout 21 8 finalized) { status = confirmed }))
unfolding find_payment find_payout check_create is_blockhash_expired find_allocation find_batch
    find_worker find_wallet methods
stale_reads-overwrite_example =
    stale_reads-overwrite library chain 8 8 none (two_payouts failed) (two_payouts submitted)
      (two_payouts finalized) (two_payouts finalized) {p = payout 21 8 failed}
      {q = payout 21 8 submitted} {x = payout 21 8 finalized} {y = payout 21 8 finalized} refl refl
      refl refl refl refl refl

dropped-initiated_example :
    (st' : Store) × (st'' : Store) × (q : Payout) × (process_confirmation chain job
        (two_payouts submitted)
      ≡ done st')
    × (find_payout 21 st' ≡ some (dropped (payout 21 8 submitted)))
    × (build_transaction library chain (some (text "m")) 5 21 none st' ≡ ok st'')
    × (find_payout 21 st'' ≡ some q)
    × (q.status ≡ initiated)
    × (q.recent_blockhash ≡ some (text "q"))
unfolding find_payout is_blockhash_expired find_venue find_wallet find_allocation find_batch
dropped-initiated_example =
    dropped-initiated library chain chain (text "m") (text "v") (text "s") 5 100 none
      (two_payouts submitted) (payout 21 8 submitted) refl refl refl refl refl refl refl refl refl
      (record {
        venue = record { id = 3; payout_signer = some (text "v") };
        wallet = record { id = 4; address = text "w"; is_active = true };
        allocation = allocation 8;
        batch = batch;
        hash = text "h";
        found_venue = refl;
        found_signer = refl;
        found_wallet = refl;
        found_allocation = refl;
        found_batch = refl;
        found_hash = refl;
        valid_keys = refl;
        valid_hash = refl;
      })

claims-Rows_example :
    OnOk
      (λ st'. Rows build 21 (two_payouts initiated).payouts st'.payouts)
      (claim_build library chain 5 none (payout 21 8 initiated) (text "v") (two_payouts initiated))
    × Rows submit 21
        (two_payouts initiated).payouts
        (claim_submit chain 5 none
          (payout 21 8 initiated)
          (text "s")
          (text "raw")
          (two_payouts initiated)).store.payouts
    × Rows lapse 21
        (two_payouts initiated).payouts
        (claim_expired (payout 21 8 initiated) (two_payouts initiated)).store.payouts
claims-Rows_example =
    claims-Rows library chain 5 none (payout 21 8 initiated) (text "v") (text "s") (text "raw")
      (two_payouts initiated)
