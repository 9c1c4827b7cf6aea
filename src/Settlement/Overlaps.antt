-- ===== src/Settlement/Overlaps.antt =====
-- What happens where two ways of paying, or two runs, meet (apps/api/src/payouts/payouts.service.ts,
-- apps/worker/src/solana-settlement.service.ts).
use mathlib.Core.Option
use serveproof.Prelude.{
  ℕ, ◌≡◌, refl, ap, ◌∙◌, true, false, Option, none, some, Text, text, ◌==◌, ==_refl, or_else, ◌||◌,
}
use serveproof.Prelude.Http.{ok, methods}
use serveproof.Prelude.Tables.{find_row-true, find_row-update_row, find_row-upsert_row}
use serveproof.Settlement.Types.{
  Rail, created, confirmed, failed, Library, Batch, Allocation, Payout, Store, Chain,
}
use serveproof.Settlement.Queries.{
  is_payable, is_settled, is_submitted, is_initiated, find_payout, find_payment, find_allocation,
  find_batch, set_payout, set_allocation, rebuild_income, refresh_batch,
}
use serveproof.Settlement.Reconcile.{index_settled}
use serveproof.Settlement.Create.{
  Found, renew_found, check_create, write_create, create_usdc_payout, mark_pending, blank_payout,
}
use serveproof.Settlement.Legacy.{attest_update, attest_create, record_legacy, register_legacy}
use serveproof.Settlement.Send.{expired_at}
use serveproof.Shared.Blockhash.{can_replace_blockhash}
use serveproof.Settlement.Worker.{mark_failed, confirm_pending, by_status}

-- A legacy payment can be registered for an allocation whose USDC payout is in any status, also one
-- whose transaction is SUBMITTED: the call returns, the payout becomes FINALIZED on the legacy rail,
-- and its transaction, its blockhash and the queued jobs stay as they were.
pub register_legacy-in_flight :
    (now aid : ℕ) (rail : Rail) (reference : Text) (user : Option ℕ) (st : Store) {a : Allocation}
    {b : Batch} {w : ℕ} {p : Payout}
    → find_allocation aid st ≡ some a
    → find_batch a.batch st ≡ some b
    → a.worker ≡ some w
    → is_settled a.payment ≡ false
    → is_payable b.status ≡ true
    → find_payment a.id st ≡ some p
    → (st' : Store) × (register_legacy now aid rail reference user st ≡ ok st')
      × (find_payment a.id st' ≡ some (attest_update now rail reference user p))
      × (st'.jobs ≡ st.jobs)
unfolding register_legacy methods record_legacy find_payment set_allocation refresh_batch
    rebuild_income
register_legacy-in_flight now aid rail reference user st {a} {b} {w} {p} fa fb fw n y fp = (
  record_legacy now rail reference user a w b st,
  rw (fa, fb, fw, n, y) refl,
  find_row-upsert_row (λ x. x.payment_id == a.id) (attest_update now rail reference user)
        (attest_create now rail reference user (blank_payout st.next_id a w b)) st.payouts
        (λ x k. k) (==_refl a.id)
      ∙ ap
          (λ o. some (
            or_else (Option.map (attest_update now rail reference user) o)
              (attest_create now rail reference user (blank_payout st.next_id a w b))))
          fp,
  refl,
)

-- The worker's write of FAILED does not look at the row: a run that read its payout `p` before, found
-- no status for its signature, its blockhash expired and no settlement record, makes the row FAILED
-- whatever its status has become since then, FINALIZED included.
pub by_status-overwrites :
    (chain : Chain) (p : Payout) (signature : Text) (st : Store) {x : Payout}
    → find_payout p.id st ≡ some x
    → can_replace_blockhash none (expired_at chain p.last_valid_height) ≡ true
    → chain.final_settlement p.payment_id ≡ none
    → find_payout p.id (by_status chain p signature none st).store
      ≡ some (record x { status = failed; failed_reason = some (text "transaction_dropped") })
unfolding confirm_pending mark_failed set_payout set_allocation find_payout
by_status-overwrites chain p signature st {x} f c n =
    rw (c, n)
      (find_row-update_row (λ r. r.id == p.id) _ st.payouts f
        (find_row-true (λ r. r.id == p.id) st.payouts f))

-- Two more writes do not look at the row. A `createUsdcPayout` that has passed its checks and read its
-- payout as FAILED takes it to CREATED, and an event of the indexer that has read its payout as INITIATED
-- or SUBMITTED takes it to CONFIRMED, whatever the status has become since then, FINALIZED included.
pub stale_reads-overwrite :
    (lib : Library) (chain : Chain) (aid payment_id : ℕ) (user : Option ℕ)
    (read read' st s' : Store) {f : Found} {p q x y : Payout}
    → check_create lib chain aid read ≡ ok f
    → f.existing ≡ some p
    → p.status ≡ failed
    → find_payout p.id st ≡ some x
    → find_payment payment_id read' ≡ some q
    → (is_submitted q.status || is_initiated q.status) ≡ true
    → find_payout q.id s' ≡ some y
    → ((st' : Store) × (z : Payout) × (create_usdc_payout lib chain aid user read st ≡ ok st')
        × (find_payout p.id st' ≡ some z)
        × (z.status ≡ created))
      × (find_payout q.id (index_settled payment_id read' s')
          ≡ some (record y { status = confirmed }))
unfolding create_usdc_payout write_create methods index_settled set_payout set_allocation
    find_payout
stale_reads-overwrite lib chain aid payment_id user read read' st s' {f} {p} {q} {x} {y} checked fp
      was_failed fx fq was_open fy =
    (
      (
        mark_pending f.allocation (set_payout p.id (renew_found user f) st),
        renew_found user f x,
        rw (checked, fp, was_failed) refl,
        find_row-update_row (λ r. r.id == p.id) (renew_found user f) st.payouts fx
            (find_row-true (λ r. r.id == p.id) st.payouts fx),
        refl,
      ),
      rw (fq, was_open)
          (find_row-update_row (λ r. r.id == q.id) _ s'.payouts fy
            (find_row-true (λ r. r.id == q.id) s'.payouts fy)),
    )
