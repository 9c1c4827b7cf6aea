-- ===== src/Evidence/Again.antt =====
-- Importing a file again (apps/api/src/evidence/evidence.service.ts).
use serveproof.Prelude.{ℕ, ◌≡◌, refl, ap, ◌∙◌, Option, none, some, List, [], ◌∷◌, Text, ◌==◌}
use serveproof.Prelude.Http.{
  Result, ok, err, not_found, bad_request, conflict, forbidden, unauthorized, failure, OnOk,
  OnOk-bind, OnOk-or_throw, returns, methods, throws,
}
use serveproof.Prelude.Tables.{find_row}
use serveproof.Prelude.Upserts.{upsert_all-idempotent}
use serveproof.Platform.{Platform}
use serveproof.Batches.Types as Batches
use serveproof.Batches.Types.{Hashes}
use serveproof.Batches.Calculate.{calculate}
use serveproof.Evidence.Rows.{Clock, CsvRow}
use serveproof.Evidence.Normalize.{Normalized, normalize_csv}
use serveproof.Evidence.Import.{VenueRow, Store, worker_by_external_id}
use serveproof.Evidence.Upload.{
  Summary, summary, write_evidence, business_dates, with_evidence, record_attempt, calculate_dates,
  import_csv,
}
use serveproof.Evidence.Keys.{same_tip-IsKeyed, same_shift-IsKeyed}

-- The tables that an import reads and writes, other than those of the batches.
abbrev HasEvidence : Store → Store → Type 0
HasEvidence st st' =
    (st'.tips ≡ st.tips)
    × (st'.shifts ≡ st.shifts)
    × (st'.accounts ≡ st.accounts)
    × (st'.venues ≡ st.venues)

record_attempt-HasEvidence :
    (date : Text) (st : Store) (r : Result Batches.Store)
    → HasEvidence st (record_attempt date st r).0
record_attempt-HasEvidence date st (ok b) = (refl, refl, refl, refl)
record_attempt-HasEvidence date st (err not_found) = (refl, refl, refl, refl)
record_attempt-HasEvidence date st (err bad_request) = (refl, refl, refl, refl)
record_attempt-HasEvidence date st (err conflict) = (refl, refl, refl, refl)
record_attempt-HasEvidence date st (err forbidden) = (refl, refl, refl, refl)
record_attempt-HasEvidence date st (err unauthorized) = (refl, refl, refl, refl)
record_attempt-HasEvidence date st (err failure) = (refl, refl, refl, refl)

calculate_dates-HasEvidence :
    (pl : Platform) (h : Hashes) (venue now : ℕ) (actor : Option ℕ) (dates : List Text) (st : Store)
    → HasEvidence st (calculate_dates pl h venue now actor dates st).0
unfolding calculate_dates
calculate_dates-HasEvidence pl h venue now actor [] st = (refl, refl, refl, refl)
calculate_dates-HasEvidence pl h venue now actor (date ∷ dates) st =
    let r = calculate pl h venue date none now actor (with_evidence st) in
    let (a, b, c, d) = record_attempt-HasEvidence date st r in
    let (e, f, g, k) =
      calculate_dates-HasEvidence pl h venue now actor dates (record_attempt date st r).0 in
    (e ∙ a, f ∙ b, g ∙ c, k ∙ d)

same_workers :
    (venue : ℕ) (st st' : Store)
    → st'.accounts ≡ st.accounts
    → worker_by_external_id venue st' ≡ worker_by_external_id venue st
unfolding worker_by_external_id
same_workers venue st st' e = rw e refl

write_evidence-again :
    (venue : ℕ) (n : Normalized) (st st' : Store)
    → HasEvidence (write_evidence venue n st) st'
    → ((write_evidence venue n st').tips ≡ st'.tips)
      × ((write_evidence venue n st').shifts ≡ st'.shifts)
unfolding write_evidence worker_by_external_id
write_evidence-again venue n st st' (tips, shifts, accounts, venues) =
    let workers = worker_by_external_id venue st in
    (
      rw tips (upsert_all-idempotent _ _ _ (same_tip-IsKeyed venue) n.tips st.tips),
      rw (same_workers venue st st' accounts, shifts)
          (upsert_all-idempotent _ _ _ (same_shift-IsKeyed venue workers) n.shifts st.shifts),
    )

venues_kept :
    (venue : ℕ) (n : Normalized) (st st' : Store)
    → HasEvidence (write_evidence venue n st) st'
    → st'.venues ≡ st.venues
unfolding write_evidence
venues_kept venue n st st' (tips, shifts, accounts, venues) = venues

OnOk-self {ℓ} : {A : Type ℓ} (r : Result A) → OnOk (λ a. r ≡ ok a) r
OnOk-self (ok a) = returns refl
OnOk-self (err e) = throws

module _ (pl : Platform) (h : Hashes) (clock : Clock) (row_hash : CsvRow → Text) where
  import_csv_lem :
      (venue : ℕ) (csv : Text) (now : ℕ) (actor : Option ℕ) (st : Store) {v : VenueRow}
      {n : Normalized}
      → find_row (λ v. v.id == venue) st.venues ≡ some v
      → normalize_csv clock row_hash v.timezone csv ≡ ok n
      → (s : Summary) × (import_csv pl h clock row_hash venue csv now actor st
          ≡ ok (
            (calculate_dates pl h venue now actor (business_dates n) (write_evidence venue n st)).0,
            s,
          ))
  unfolding import_csv methods
  import_csv_lem venue csv now actor st {v} {n} e f =
      let done =
        calculate_dates pl h venue now actor (business_dates n) (write_evidence venue n st) in
      (summary (worker_by_external_id venue st) n done.1, rw (e, f) refl)

  second_import :
      (venue : ℕ) (csv : Text) (now : ℕ) (actor : Option ℕ) (st first : Store) (v : VenueRow)
      (n : Normalized)
      → find_row (λ v. v.id == venue) st.venues ≡ some v
      → normalize_csv clock row_hash v.timezone csv ≡ ok n
      → HasEvidence (write_evidence venue n st) first
      → (st' : Store) × (s : Summary) × (import_csv pl h clock row_hash venue csv now actor first
          ≡ ok (st', s))
        × (st'.tips ≡ first.tips)
        × (st'.shifts ≡ first.shifts)
  second_import venue csv now actor st first v n found normal kept =
      let found' = ap (find_row (λ v. v.id == venue)) (venues_kept venue n st first kept) ∙ found in
      let (s, e) = import_csv_lem venue csv now actor first found' normal in
      let (tips, shifts) = write_evidence-again venue n st first kept in
      let written = write_evidence venue n first in
      let (tips', shifts', accounts, venues) =
        calculate_dates-HasEvidence pl h venue now actor (business_dates n) written in
      (_, s, e, tips' ∙ tips, shifts' ∙ shifts)

  -- After an import that returned, importing the same file again, at any time and by anyone, returns and
  -- leaves the tips and shifts as the first import left them.
  pub import_csv-again :
      (venue : ℕ) (csv : Text) (now now' : ℕ) (actor actor' : Option ℕ) (st : Store)
      → OnOk
          (λ r.
            (st' : Store) × (s : Summary) × (import_csv pl h clock row_hash venue csv now' actor'
                r.0
              ≡ ok (st', s))
            × (st'.tips ≡ r.0.tips)
            × (st'.shifts ≡ r.0.shifts))
          (import_csv pl h clock row_hash venue csv now actor st)
  unfolding import_csv
  import_csv-again venue csv now now' actor actor' st = OnOk-or_throw _ _ _ λ v found.
      OnOk-bind _ _ (OnOk-self _) λ n normal.
        let written = write_evidence venue n st in
        let kept = calculate_dates-HasEvidence pl h venue now actor (business_dates n) written in
        returns (second_import venue csv now' actor' st _ v n found normal kept)
