-- ===== src/Settlement/Create.antt =====
-- `createUsdcPayout` (apps/api/src/payouts/payouts.service.ts).
-- `createUsdcPayout` reads its rows, asks the chain, and then writes by the id that it read; the write
-- takes what was read and the store of that later moment, which other calls may have changed.
use serveproof.Prelude.{
  ℕ, ◌+◌, Bool, true, false, not, ◌||◌, Option, none, some, [], ◌∷◌, ◌++◌, text, ltb, if◌then◌else◌,
  is_some, bind,
}
use serveproof.Prelude.Http.{
  Result, ok, not_found, bad_request, conflict, failure, require, or_throw, ◌>>=◌, ◌>>◌,
}
use serveproof.Settlement.Types.{
  usdc, PaymentStatus, pending, settled, PayoutStatus, created, initiated, submitted, confirmed,
  finalized, Wallet, Worker, Batch, Allocation, Payout, Store, Chain, Library,
}
use serveproof.Settlement.Queries.{
  is_payable, is_settled, is_pending, is_usdc, is_failed, find_payment, find_allocation, find_batch,
  find_worker, find_wallet, set_payout, set_allocation, rebuild_income, refresh_batch,
}
use serveproof.Shared.BaseUnits.{cents_to_base_units}
use serveproof.Shared.Blockhash.{is_blockhash_expired}

-- The payment status that goes with a payout in flight or at its end.
abbrev pub healed_status : PayoutStatus → Option PaymentStatus
healed_status finalized = some settled
healed_status created = some pending
healed_status initiated = some pending
healed_status submitted = some pending
healed_status confirmed = some pending
healed_status _ = none

abbrev pub same_payment : PaymentStatus → PaymentStatus → Bool
same_payment settled t = is_settled t
same_payment pending t = is_pending t
same_payment _ t = false

abbrev pub refresh_paid : PaymentStatus → Allocation → Batch → Store → Store
refresh_paid settled a b st = rebuild_income b.venue (refresh_batch a.batch st)
refresh_paid _ a b st = st

abbrev pub heal : Option PaymentStatus → Allocation → Batch → Store → Store
heal none a b st = st
heal (some t) a b st =
    if not (same_payment t a.payment) || not (is_usdc a.payout_rail)
    then refresh_paid t a b
        (set_allocation a.id (λ r. record r { payout_rail = some usdc; payment = t }) st)
    else st

-- The row of a payout as it is created, or created again after a failure.
abbrev pub renew : Allocation → Worker → Batch → Wallet → Option ℕ → Payout → Payout
renew a w b wallet user p = record p {
  payment_id = a.id;
  allocation = a.id;
  worker = w.id;
  venue = b.venue;
  wallet = some wallet.id;
  rail = usdc;
  asset = text "tUSDC";
  amount_base_units = cents_to_base_units a.net_allocated;
  amount_cents = a.net_allocated;
  status = created;
  tx_signature = none;
  settlement_pda = none;
  recent_blockhash = none;
  last_valid_height = none;
  signed_transaction = none;
  last_broadcast_at = none;
  broadcast_attempts = 0;
  initiated_at = none;
  initiated_by = user;
  submitted_by = none;
  signer_wallet = none;
  settled_at = none;
  failed_reason = none;
}

abbrev pub blank_payout : ℕ → Allocation → ℕ → Batch → Payout
blank_payout i a w b = record {
  id = i;
  payment_id = a.id;
  allocation = a.id;
  worker = w;
  venue = b.venue;
  wallet = none;
  rail = usdc;
  asset = [];
  amount_base_units = 0;
  amount_cents = a.net_allocated;
  status = created;
  external_reference = none;
  tx_signature = none;
  settlement_pda = none;
  recent_blockhash = none;
  last_valid_height = none;
  signed_transaction = none;
  last_broadcast_at = none;
  broadcast_attempts = 0;
  slot = none;
  block_time = none;
  initiated_at = none;
  initiated_by = none;
  submitted_by = none;
  signer_wallet = none;
  settled_at = none;
  failed_reason = none;
}

abbrev pub mark_pending : Allocation → Store → Store
mark_pending a = set_allocation a.id (λ r. record r { payout_rail = some usdc; payment = pending })

-- `isBlockhashExpired`, where a height was recorded.
abbrev pub can_replace : Chain → Option ℕ → Bool
can_replace chain none = true
can_replace chain (some h) = is_blockhash_expired chain.block_height h

abbrev pub active_wallet : Store → Worker → Option Wallet
active_wallet st w =
    bind (bind w.default_wallet (λ i. find_wallet i st))
      (λ wallet. if wallet.is_active then some wallet else none)

-- What the method has read; `existing` is the payout that has the payment id already.
pub record Found : Type 0 where
  pub allocation : Allocation
  pub worker : Worker
  pub batch : Batch
  pub wallet : Wallet
  pub existing : Option Payout

-- A payout that is not FAILED is left alone; of a FAILED one the blockhash must have expired.
abbrev pub may_write : Chain → Option Payout → Bool
may_write chain none = true
may_write chain (some p) = not (is_failed p.status) || can_replace chain p.last_valid_height

-- Everything up to the write.
unfoldable pub check_create : Library → Chain → ℕ → Store → Result Found
unfolding find_allocation find_batch find_worker find_wallet find_payment is_blockhash_expired
check_create lib chain aid st = do
  a ← or_throw (find_allocation aid st) not_found
  b ← or_throw (find_batch a.batch st) failure
  w ← or_throw (bind a.worker (λ i. find_worker i st)) bad_request
  require (is_payable b.status) bad_request
  require (not (is_settled a.payment)) conflict
  require (ltb 0 a.net_allocated) bad_request
  wallet ← or_throw (active_wallet st w) bad_request
  require (lib.is_pubkey wallet.address) failure
  require (may_write chain (find_payment a.id st)) conflict
  ok record {
    allocation = a;
    worker = w;
    batch = b;
    wallet = wallet;
    existing = find_payment a.id st;
  }

abbrev pub renew_found : Option ℕ → Found → Payout → Payout
renew_found user f = renew f.allocation f.worker f.batch f.wallet user

-- The payment id is a unique key: the creation of a second payout throws.
abbrev pub create_or_heal : Option ℕ → Found → Option Payout → Store → Result Store
create_or_heal user f none st =
    let new = renew_found user f (blank_payout st.next_id f.allocation f.worker.id f.batch) in
    require (not (is_some (find_payment f.allocation.id st))) failure
    >> ok (
        mark_pending f.allocation
          (record st { payouts = st.payouts ++ (new ∷ []); next_id = st.next_id + 1 }))
create_or_heal user f (some p) st =
    if not (is_failed p.status)
    then ok (heal (healed_status p.status) f.allocation f.batch st)
    else ok (mark_pending f.allocation (set_payout p.id (renew_found user f) st))

unfoldable pub write_create : Option ℕ → Found → Store → Result Store
unfolding find_payment set_allocation set_payout refresh_batch rebuild_income cents_to_base_units
write_create user f st = create_or_heal user f f.existing st

-- The call reads in the first store and writes in the second.
unfoldable pub create_usdc_payout : Library → Chain → ℕ → Option ℕ → Store → Store → Result Store
unfolding check_create write_create
create_usdc_payout lib chain aid user read st = do
  f ← check_create lib chain aid read
  write_create user f st
