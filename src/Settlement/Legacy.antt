-- ===== src/Settlement/Legacy.antt =====
-- `registerLegacyEvidence` (apps/api/src/payouts/payouts.service.ts).
use serveproof.Prelude.{ℕ, ◌+◌, ◌&&◌, Option, some, Text, text, ◌==◌, if◌then◌else◌, is_some}
use serveproof.Prelude.Http.{
  Result, ok, not_found, bad_request, conflict, failure, require, or_throw, ◌>>=◌, ◌>>◌,
}
use serveproof.Prelude.Tables.{find_row, upsert_row}
use serveproof.Settlement.Types.{Rail, settled, finalized, Batch, Allocation, Payout, Store}
use serveproof.Settlement.Queries.{
  is_payable, is_settled, is_finalized, find_allocation, find_batch, set_allocation, rebuild_income,
  refresh_batch,
}
use serveproof.Settlement.Create.{blank_payout}

-- The upsert of the payout that attests a payment by a legacy rail.
abbrev pub attest_update : ℕ → Rail → Text → Option ℕ → Payout → Payout
attest_update now rail reference user p = record p {
  rail = rail;
  external_reference = some reference;
  status = finalized;
  settled_at = some now;
  submitted_by = user;
}

abbrev pub attest_create : ℕ → Rail → Text → Option ℕ → Payout → Payout
attest_create now rail reference user p = record p {
  rail = rail;
  asset = text "USD";
  external_reference = some reference;
  status = finalized;
  settled_at = some now;
  initiated_by = user;
  submitted_by = user;
}

-- The method behind its checks.
unfoldable pub record_legacy : ℕ → Rail → Text → Option ℕ → Allocation → ℕ → Batch → Store → Store
unfolding upsert_row set_allocation refresh_batch rebuild_income
record_legacy now rail reference user a w b st =
    let saved : Store = record st {
      payouts =
          upsert_row (λ p. p.payment_id == a.id) (attest_update now rail reference user)
            (attest_create now rail reference user (blank_payout st.next_id a w b)) st.payouts;
      next_id = st.next_id + 1;
    } in
    rebuild_income b.venue (
      refresh_batch a.batch
        (set_allocation a.id (λ r. record r { payout_rail = some rail; payment = settled }) saved))

-- `rail` is one of the five legacy rails.
unfoldable pub register_legacy : ℕ → ℕ → Rail → Text → Option ℕ → Store → Result Store
unfolding find_allocation find_batch find_row record_legacy rebuild_income
register_legacy now aid rail reference user st = do
  a ← or_throw (find_allocation aid st) not_found
  b ← or_throw (find_batch a.batch st) failure
  w ← or_throw a.worker bad_request
  if is_settled a.payment
      then require
          (is_some (find_row (λ p. p.allocation == a.id && is_finalized p.status) st.payouts))
          conflict
        >> ok (rebuild_income b.venue st)
      else require (is_payable b.status) bad_request
        >> ok (record_legacy now rail reference user a w b st)
