-- ===== src/Settlement/Live.antt =====
-- A payment whose transaction was dropped can be paid again (apps/api/src/payouts/payouts.service.ts,
-- apps/worker/src/solana-settlement.service.ts).
use mathlib.Core.Option.{some-injective}
use serveproof.Prelude.{
  inl, inr, Bool-cases, ℕ, ◌≡◌, refl, ap, ◌∙◌, Bool, true, ◌&&◌, Option, none, some, List, [], ◌∷◌,
  Text, text, text_eq_refl, ◌==◌, ==_refl, is_some, bind,
}
use serveproof.Prelude.Http.{ok, methods}
use serveproof.Prelude.Tables.{find_row, find_row-true, find_row-update_row, find_row-update_rows}
use serveproof.Settlement.Types.{
  payment_failed, submitted, initiated, failed, Wallet, Venue, Batch, Allocation, Payout, Store,
  Chain, Library,
}
use serveproof.Settlement.Queries.{
  is_buildable, find_payout, find_allocation, find_batch, find_wallet, find_venue, set_payout,
  set_allocation, claim_payout, can_claim,
}
use serveproof.Settlement.Send.{
  done, initiate, may_rebuild, check_build, claim_build, build_transaction,
}
use serveproof.Shared.Blockhash.{is_blockhash_expired, can_replace_blockhash}
use serveproof.Settlement.Worker.{mark_failed, confirm_pending, process_confirmation}

abbrev pub dropped : Payout → Payout
dropped p = record p { status = failed; failed_reason = some (text "transaction_dropped") }

mark_failed-find_payout :
    (i aid : ℕ) (why : Text) (st : Store) {p : Payout}
    → find_payout i st ≡ some p
    → find_payout i (mark_failed i aid why st)
      ≡ some (record p { status = failed; failed_reason = some why })
unfolding mark_failed find_payout set_payout set_allocation
mark_failed-find_payout i aid why st {p} e =
    find_row-update_row (λ p. p.id == i) _ st.payouts e
      (find_row-true (λ p. p.id == i) st.payouts e)

mark_failed-find_allocation :
    (i aid : ℕ) (why : Text) (st : Store) {a : Allocation}
    → find_allocation aid st ≡ some a
    → find_allocation aid (mark_failed i aid why st) ≡ some (record a { payment = payment_failed })
unfolding mark_failed find_allocation set_payout set_allocation
mark_failed-find_allocation i aid why st {a} e =
    find_row-update_row (λ a. a.id == aid) _ st.allocations e
      (find_row-true (λ a. a.id == aid) st.allocations e)

-- The job of a SUBMITTED payout whose transaction was not seen before its blockhash expired.
process_confirmation-dropped :
    (chain : Chain) (i h : ℕ) (signature : Text) (st : Store) {p : Payout}
    → find_payout i st ≡ some p
    → p.status ≡ submitted
    → p.tx_signature ≡ some signature
    → p.last_valid_height ≡ some h
    → is_blockhash_expired chain.block_height h ≡ true
    → chain.signature_status signature ≡ none
    → chain.final_settlement p.payment_id ≡ none
    → process_confirmation chain (record { payout = i; signature = signature }) st
      ≡ done (mark_failed p.id p.allocation (text "transaction_dropped") st)
unfolding process_confirmation confirm_pending can_replace_blockhash
process_confirmation-dropped chain i h signature st {p} e sub sig height expired unseen unsettled =
    rw (e, sub, sig, text_eq_refl signature, unseen, height, expired, unsettled) refl

-- What a payout needs, apart from its own row, for a transaction to be built.
pub record IsReady (lib : Library) (mint signer : Text) (p : Payout) (st : Store) : Type 0 where
  pub venue : Venue
  pub wallet : Wallet
  pub allocation : Allocation
  pub batch : Batch
  pub hash : Text
  pub found_venue : find_venue p.venue st ≡ some venue
  pub found_signer : venue.payout_signer ≡ some signer
  pub found_wallet : bind p.wallet (λ i. find_wallet i st) ≡ some wallet
  pub found_allocation : find_allocation p.allocation st ≡ some allocation
  pub found_batch : find_batch allocation.batch st ≡ some batch
  pub found_hash : batch.allocation_hash ≡ some hash
  pub valid_keys :
      (lib.is_pubkey signer && lib.is_pubkey wallet.address && lib.is_pubkey mint) ≡ true
  pub valid_hash : lib.is_hash hash ≡ true

check_build-ready :
    (lib : Library) (chain : Chain) (mint signer : Text) (p : Payout) (st : Store)
    → IsReady lib mint signer p st
    → is_buildable p.status ≡ true
    → chain.settlement p.payment_id ≡ none
    → may_rebuild chain p ≡ true
    → check_build lib chain (some mint) p st ≡ ok signer
unfolding check_build methods
check_build-ready lib chain mint signer p st r buildable unsettled may =
    rw
      (
        buildable, unsettled, may, r.found_venue, r.found_signer, r.found_wallet,
        r.found_allocation, r.found_batch, r.found_hash, r.valid_keys, r.valid_hash,
      )
      refl

find_row-and {ℓ} :
    {A : Type ℓ} (q r : A → Bool) (xs : List A) {x : A}
    → find_row q xs ≡ some x
    → r x ≡ true
    → is_some (find_row (λ y. q y && r y) xs) ≡ true
unfolding find_row
find_row-and q r [] e h = cc
find_row-and q r (y ∷ xs) {x} e h = elim (Bool-cases (q y)) [
  | inl a ↦ let same = some-injective y x (rw a at e) in rw (a, ap r same ∙ h) refl
  | inr a ↦ rw a (find_row-and q r xs (rw a at e) h)
]

claim_build-found :
    (lib : Library) (chain : Chain) (now : ℕ) (user : Option ℕ) (p : Payout) (signer : Text)
    (st : Store)
    → find_payout p.id st ≡ some p
    → is_buildable p.status ≡ true
    → (st' : Store) × (claim_build lib chain now user p signer st ≡ ok st')
      × (find_payout p.id st' ≡ some (initiate lib chain now user p signer p))
unfolding claim_build methods can_claim claim_payout find_payout
claim_build-found lib chain now user p signer st e h = (
  claim_payout p.id is_buildable (initiate lib chain now user p signer) st,
  rw (find_row-and (λ q. q.id == p.id) (λ q. is_buildable q.status) st.payouts e h) refl,
  find_row-update_rows (λ q. q.id == p.id && is_buildable q.status) (λ q. q.id == p.id)
      (initiate lib chain now user p signer) st.payouts (λ q. refl) e (rw (==_refl p.id, h) refl),
)

-- Marking as failed leaves the rest of what a payout needs.
mark_failed-IsReady :
    (lib : Library) (mint signer why : Text) (p : Payout) (st : Store)
    → IsReady lib mint signer p st
    → IsReady lib mint signer
        (record p { status = failed; failed_reason = some why })
        (mark_failed p.id p.allocation why st)
unfolding mark_failed set_payout set_allocation find_venue find_wallet find_batch
mark_failed-IsReady lib mint signer why p st r = record {
  venue = r.venue;
  wallet = r.wallet;
  allocation = record (r.allocation) { payment = payment_failed };
  batch = r.batch;
  hash = r.hash;
  found_venue = r.found_venue;
  found_signer = r.found_signer;
  found_wallet = r.found_wallet;
  found_allocation = mark_failed-find_allocation p.id p.allocation why st r.found_allocation;
  found_batch = r.found_batch;
  found_hash = r.found_hash;
  valid_keys = r.valid_keys;
  valid_hash = r.valid_hash;
}

-- A SUBMITTED payout whose transaction no node has seen and whose blockhash has expired is not stuck: its
-- confirmation job runs to its end and makes it FAILED, and a transaction can be built for it again
-- at any chain state past the same last valid block, if no settlement record exists and what a payout
-- needs is there; it is INITIATED then, with the new blockhash.
pub dropped-initiated :
    (lib : Library) (chain chain' : Chain) (mint signer signature : Text) (now h : ℕ)
    (user : Option ℕ) (st : Store) (p : Payout)
    → find_payout p.id st ≡ some p
    → p.status ≡ submitted
    → p.tx_signature ≡ some signature
    → p.last_valid_height ≡ some h
    → is_blockhash_expired chain.block_height h ≡ true
    → chain.signature_status signature ≡ none
    → chain.final_settlement p.payment_id ≡ none
    → is_blockhash_expired chain'.block_height h ≡ true
    → chain'.settlement p.payment_id ≡ none
    → IsReady lib mint signer p st
    → (st' : Store) × (st'' : Store) × (q : Payout) × (process_confirmation chain
          (record { payout = p.id; signature = signature })
          st
        ≡ done st')
      × (find_payout p.id st' ≡ some (dropped p))
      × (build_transaction lib chain' (some mint) now p.id user st' ≡ ok st'')
      × (find_payout p.id st'' ≡ some q)
      × (q.status ≡ initiated)
      × (q.recent_blockhash ≡ some chain'.latest_blockhash)
unfolding build_transaction methods
dropped-initiated lib chain chain' mint signer signature now h user st p e sub sig height expired
      unseen unsettled expired' unsettled' ready =
    let why = text "transaction_dropped" in
    let st' = mark_failed p.id p.allocation why st in
    let found = mark_failed-find_payout p.id p.allocation why st e in
    let may : may_rebuild chain' (dropped p) ≡ true = rw (height, expired') refl in
    let ready' = mark_failed-IsReady lib mint signer why p st ready in
    let built =
      check_build-ready lib chain' mint signer (dropped p) st' ready' refl unsettled' may in
    let (st'', claimed, found') =
      claim_build-found lib chain' now user (dropped p) signer st' found refl in
    (
      st',
      st'',
      initiate lib chain' now user (dropped p) signer (dropped p),
      process_confirmation-dropped chain p.id h signature st e sub sig height expired unseen
          unsettled,
      found,
      rw (found, built) claimed,
      found',
      refl,
      refl,
    )
