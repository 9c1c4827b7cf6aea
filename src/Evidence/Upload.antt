-- ===== src/Evidence/Upload.antt =====
-- The body of `importCsv` (apps/api/src/evidence/evidence.service.ts): the upserts, and the calculation
-- of each business date of the file.
use serveproof.Prelude.{
  ℕ, true, false, not, Option, none, List, [], ◌∷◌, ◌++◌, map, Text, text_eq, ◌==◌, is_some, length,
}
use serveproof.Prelude.Http.{Result, ok, err, not_found, conflict, or_throw, ◌>>=◌}
use serveproof.Prelude.Sort.{sort_by}
use serveproof.Prelude.Tables.{find_row, count_rows}
use serveproof.Prelude.Upserts.{upsert_all}
use serveproof.Platform.{Platform, text_gt}
use serveproof.Allocation.Maps.{map_get, includes}
use serveproof.Batches.Types as Batches
use serveproof.Batches.Types.{Hashes}
use serveproof.Batches.Calculate.{calculate}
use serveproof.Evidence.Rows.{Clock, CsvRow}
use serveproof.Evidence.Normalize.{Normalized, normalize_csv}
use serveproof.Evidence.Import.{
  Store, same_tip, put_tip, new_tip, same_shift, put_shift, new_shift, mapped_worker,
  worker_by_external_id,
}

pub data Outcome : Type 0 where
  computed skipped not_computed : Outcome

pub record Attempt : Type 0 where
  pub business_date : Text
  pub outcome : Outcome

pub record Summary : Type 0 where
  pub tips_upserted : ℕ
  pub shifts_upserted : ℕ
  pub mapped_shifts : ℕ
  pub unmapped_shifts : ℕ
  pub business_dates : List Text
  pub attempts : List Attempt
  pub errors : List ℕ

-- Two loops of upserts.
unfoldable pub write_evidence : ℕ → Normalized → Store → Store
unfolding upsert_all text_eq map_get worker_by_external_id
write_evidence venue n st =
    let workers = worker_by_external_id venue st in
    record st {
      tips = upsert_all (same_tip venue) put_tip (new_tip venue) n.tips st.tips;
      shifts =
          upsert_all (same_shift venue) (put_shift workers) (new_shift venue workers) n.shifts
            st.shifts;
    }

-- `[...new Set(dates)].sort()`.
unfoldable pub distinct : List Text → List Text → List Text
unfolding includes
distinct seen [] = seen
distinct seen (d ∷ ds) = elim (includes seen d) [
  | true ↦ distinct seen ds
  | false ↦ distinct (seen ++ (d ∷ [])) ds
]

unfoldable pub business_dates : Normalized → List Text
unfolding distinct sort_by text_gt
business_dates n =
    sort_by text_gt
      (distinct [] (map (λ s. s.business_date) n.shifts ++ map (λ t. t.business_date) n.tips))

-- What `calculate` reads.
abbrev pub with_evidence : Store → Batches.Store
with_evidence st = record st.batches {
  tips = map (λ t. t.row) st.tips;
  shifts = map (λ s. s.row) st.shifts;
}

abbrev pub record_attempt : Text → Store → Result Batches.Store → Store × Attempt
record_attempt date st (ok b) =
    (record st { batches = b }, record { business_date = date; outcome = computed })
record_attempt date st (err conflict) = (st, record { business_date = date; outcome = skipped })
record_attempt date st (err _) = (st, record { business_date = date; outcome = not_computed })

unfoldable pub calculate_dates :
    Platform → Hashes → ℕ → ℕ → Option ℕ → List Text → Store → Store × List Attempt
unfolding calculate
calculate_dates pl h venue now actor [] st = (st, [])
calculate_dates pl h venue now actor (date ∷ dates) st =
    let (next, attempt) =
      record_attempt date st (calculate pl h venue date none now actor (with_evidence st)) in
    let (last, attempts) = calculate_dates pl h venue now actor dates next in
    (last, attempt ∷ attempts)

abbrev pub summary : List (Text × Text) → Normalized → List Attempt → Summary
summary workers n attempts = record {
  tips_upserted = length n.tips;
  shifts_upserted = length n.shifts;
  mapped_shifts = count_rows (λ d. is_some (mapped_worker workers d)) n.shifts;
  unmapped_shifts = count_rows (λ d. not (is_some (mapped_worker workers d))) n.shifts;
  business_dates = business_dates n;
  attempts = attempts;
  errors = n.errors;
}

module _ (pl : Platform) (h : Hashes) (clock : Clock) (row_hash : CsvRow → Text) where
  unfoldable pub import_csv : ℕ → Text → ℕ → Option ℕ → Store → Result (Store × Summary)
  unfolding find_row count_rows normalize_csv write_evidence business_dates calculate_dates
  import_csv venue csv now actor st = do
    v ← or_throw (find_row (λ v. v.id == venue) st.venues) not_found
    n ← normalize_csv clock row_hash v.timezone csv
    let done = calculate_dates pl h venue now actor (business_dates n) (write_evidence venue n st)
    ok (done.0, summary (worker_by_external_id venue st) n done.1)
