-- ===== src/Settlement/Finality.antt =====
-- What the writes to the payouts do to FINALIZED ones, one by one (apps/api/src/payouts/payouts.service.ts
-- and apps/worker/src/solana-settlement.service.ts).
use serveproof.Prelude.{
  ℕ, ◌≡◌, refl, Bool, true, false, ◌&&◌, some, List, [], ◌∷◌, ◌++◌, ◌==◌, if◌then◌else◌, arith,
}
use serveproof.Prelude.Tables.{find_row, update_row, update_rows, upsert_row}
use serveproof.Settlement.Types.{PayoutStatus, finalized, Payout, Store}
use serveproof.Settlement.Queries.{is_finalized, find_payout, set_payout, claim_payout}

-- The payout with this id is FINALIZED.
unfoldable pub final_in : ℕ → List Payout → Bool
final_in i [] = false
final_in i (p ∷ ps) = let rest = final_in i ps in if p.id == i then is_finalized p.status else rest

abbrev pub final_at : ℕ → Store → Bool
final_at i st = final_in i st.payouts

abbrev pub IsFinalAt : ℕ → Store → Type 0
IsFinalAt i st = final_at i st ≡ true

-- The payout with this id exists and is not FINALIZED.
abbrev pub IsOpenAt : ℕ → Store → Type 0
IsOpenAt j st = (x : Payout) × (find_payout j st ≡ some x) × (is_finalized x.status ≡ false)

-- An update that leaves final rows final.
pub final_in-update_row :
    (i : ℕ) (q : Payout → Bool) (f : Payout → Payout) (ps : List Payout)
    → ((p : Payout)
        → ((f p).id ≡ p.id) × (is_finalized p.status ≡ true → is_finalized (f p).status ≡ true))
    → final_in i ps ≡ true
    → final_in i (update_row q f ps) ≡ true
unfolding final_in update_row
final_in-update_row i q f [] h e = cc
final_in-update_row i q f (p ∷ ps) h e = ground (arith, h p, final_in-update_row i q f ps h)

-- An update of a row that is not final.
pub final_in-update_other :
    (i : ℕ) (q : Payout → Bool) (f : Payout → Payout) (ps : List Payout) {x : Payout}
    → ((p : Payout) → (f p).id ≡ p.id)
    → find_row q ps ≡ some x
    → is_finalized x.status ≡ false
    → final_in i ps ≡ true
    → final_in i (update_row q f ps) ≡ true
unfolding final_in update_row find_row
final_in-update_other i q f [] h k n e = cc
final_in-update_other i q f (p ∷ ps) {x} h k n e =
    ground (arith, h p, final_in-update_other i q f ps {x = x} h)

pub final_in-update_rows :
    (i : ℕ) (q : Payout → Bool) (f : Payout → Payout) (ps : List Payout)
    → ((p : Payout)
        → ((f p).id ≡ p.id)
          × (q p ≡ true → is_finalized p.status ≡ true → is_finalized (f p).status ≡ true))
    → final_in i ps ≡ true
    → final_in i (update_rows q f ps) ≡ true
unfolding final_in update_rows
final_in-update_rows i q f [] h e = cc
final_in-update_rows i q f (p ∷ ps) h e = ground (arith, h p, final_in-update_rows i q f ps h)

pub final_in-upsert_row :
    (i : ℕ) (q : Payout → Bool) (f : Payout → Payout) (new : Payout) (ps : List Payout)
    → ((p : Payout) → ((f p).id ≡ p.id) × (is_finalized (f p).status ≡ true))
    → final_in i ps ≡ true
    → final_in i (upsert_row q f new ps) ≡ true
unfolding final_in upsert_row
final_in-upsert_row i q f new [] h e = cc
final_in-upsert_row i q f new (p ∷ ps) h e = ground (arith, h p, final_in-upsert_row i q f new ps h)

pub final_in-append :
    (i : ℕ) (ps qs : List Payout) → final_in i ps ≡ true → final_in i (ps ++ qs) ≡ true
unfolding final_in
final_in-append i [] qs e = cc
final_in-append i (p ∷ ps) qs e = ground (arith, final_in-append i ps qs)

finalized_of : (t : PayoutStatus) → is_finalized t ≡ true → t ≡ finalized
finalized_of finalized h = refl
finalized_of _ h = cc

-- A claim of rows that are not final.
pub claim_payout-final :
    (i j : ℕ) (allowed : PayoutStatus → Bool) (f : Payout → Payout) (st : Store)
    → ((p : Payout) → (f p).id ≡ p.id)
    → allowed finalized ≡ false
    → final_at i st ≡ true
    → final_at i (claim_payout j allowed f st) ≡ true
unfolding claim_payout
claim_payout-final i j allowed f st h n e =
    final_in-update_rows i (λ p. p.id == j && allowed p.status) f st.payouts
      (λ p. (h p, λ q k. absurd (excluded p q k))) e
  where
    excluded :
        (p : Payout) → (p.id == j && allowed p.status) ≡ true → is_finalized p.status ≡ true → ⊥
    excluded p q k = let t = finalized_of p.status k in ground (arith, rw t at q)

-- An update of a row that is not final.
pub set_payout-final :
    (i j : ℕ) (f : Payout → Payout) (st : Store) {x : Payout}
    → ((p : Payout) → (f p).id ≡ p.id)
    → find_payout j st ≡ some x
    → is_finalized x.status ≡ false
    → final_at i st ≡ true
    → final_at i (set_payout j f st) ≡ true
unfolding set_payout find_payout
set_payout-final i j f st h k n e = final_in-update_other i (λ p. p.id == j) f st.payouts h k n e
