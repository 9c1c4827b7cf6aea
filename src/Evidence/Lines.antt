-- ===== src/Evidence/Lines.antt =====
-- What becomes of the lines of a file in `normalizeCsv` (apps/api/src/evidence/csv-normalizer.ts).
use serveproof.Prelude.{
  ℕ, zero, suc, ◌+◌, ◌≤◌, ◌<◌, ◌≡◌, refl, Bool, true, false, Option, none, some, is_some, List, [],
  ◌∷◌, ◌++◌, Text, length, length-append, All, arith,
}
use serveproof.Prelude.Int.{ℤ, pos, negsuc}
use serveproof.Prelude.Http.{
  Result, ok, err, OnOk, OnOk-ok, OnOk-bind, OnOk-or_throw, returns, methods,
}
use serveproof.Prelude.Tables.{All-append}
use serveproof.Evidence.Csv.{split_csv_line}
use serveproof.Evidence.Rows.{Clock, CsvRow, is_amount, parse_row, row_object}
use serveproof.Evidence.Amounts.{parse_row-amount, parse_usd_to_cents-amount}
use serveproof.Evidence.Normalize.{
  Normalized, tips_of, add_row, normalize_row, normalize_lines, lines_of, normalize_csv,
  no_evidence,
}

-- Each of `n` lines is a shift or an error, with at most one tip, which is positive, for a shift.
abbrev pub Accounts : ℕ → Normalized → Type 0
Accounts n r =
    (length r.shifts + length r.errors ≡ n)
    × (length r.tips ≤ length r.shifts)
    × All (λ t. 0 < t.gross) r.tips

-- Each of `n` lines is an error.
abbrev pub Errors : ℕ → Normalized → Type 0
Errors n r = (r.shifts ≡ []) × (r.tips ≡ []) × (length r.errors ≡ n)

module _ (clock : Clock) (row_hash : CsvRow → Text) (zone : Text) where
  tips_of-positive :
      (row : CsvRow) (date : Text) (cents : ℤ)
      → (length (tips_of clock row_hash zone row date cents) ≤ 1)
        × All (λ t. 0 < t.gross) (tips_of clock row_hash zone row date cents)
  tips_of-positive row date (negsuc n) = (omega arith, tt)
  tips_of-positive row date (pos zero) = (omega arith, tt)
  tips_of-positive row date (pos (suc n)) = (omega arith, (omega arith, tt))

  add_row-Accounts :
      (n : ℕ) (row : CsvRow) (date : Text) (cents : ℤ) (r : Normalized)
      → Accounts n r
      → Accounts (n + 1) (add_row clock row_hash zone row date cents r)
  add_row-Accounts n row date cents r (count, at_most, positive) =
      let new = tips_of clock row_hash zone row date cents in
      let one = tips_of-positive row date cents in
      (
        omega (arith, length-append r.shifts (_ ∷ [])),
        omega (arith, length-append r.shifts (_ ∷ []), length-append r.tips new),
        All-append (λ t. 0 < t.gross) r.tips new positive one.1,
      )

  -- Whether the zone is known does not depend on the instant.
  abbrev pub IsZone : Bool → Type 0
  IsZone known = (i : ℕ) → is_some (clock.business_date i zone) ≡ known

  found_date : (o : Option Text) → is_some o ≡ true → (d : Text) × (o ≡ some d)
  found_date none h = cc
  found_date (some d) h = (d, refl)

  no_date : (o : Option Text) → is_some o ≡ false → o ≡ none
  no_date none h = refl
  no_date (some d) h = cc

  add_error-Accounts :
      (n number : ℕ) (r : Normalized)
      → Accounts n r
      → Accounts (n + 1) (record r { errors = r.errors ++ (number ∷ []) })
  add_error-Accounts n number r (count, at_most, positive) =
      (omega (arith, length-append r.errors (number ∷ [])), at_most, positive)

  normalize_row-Accounts :
      (n number : ℕ) (row : Result CsvRow) (r : Normalized)
      → IsZone true
      → OnOk (λ row. is_amount row.gross_tip ≡ true) row
      → Accounts n r
      → (r' : Normalized) × (normalize_row clock row_hash zone number row r ≡ ok r')
        × Accounts (n + 1) r'
  unfolding methods
  normalize_row-Accounts n number (err e) r known h acc =
      (record r { errors = r.errors ++ (number ∷ []) }, refl, add_error-Accounts n number r acc)
  normalize_row-Accounts n number (ok row) r known h acc =
      let (date, d) = found_date _ (known (clock.instant row.clock_in)) in
      let (cents, e) = parse_usd_to_cents-amount row.gross_tip (OnOk-ok h refl) in
      let next = add_row clock row_hash zone row date (pos cents) r in
      (next, rw (d, e) refl, add_row-Accounts n row date (pos cents) r acc)

  normalize_lines-Accounts :
      (headers : List Text) (n m number : ℕ) (lines : List Text) (r : Normalized)
      → IsZone true
      → n + length lines ≡ m
      → Accounts n r
      → (r' : Normalized) × (normalize_lines clock row_hash zone headers number lines r ≡ ok r')
        × Accounts m r'
  unfolding normalize_lines methods
  normalize_lines-Accounts headers n m number [] r known total (count, at_most, positive) =
      (r, refl, (omega arith, at_most, positive))
  normalize_lines-Accounts headers n m number (line ∷ lines) r known total acc =
      let object = row_object headers (split_csv_line line) [] in
      let (next, e, acc') =
        normalize_row-Accounts n number (parse_row clock object) r known
          (parse_row-amount clock object) acc in
      let (last, f, acc'') =
        normalize_lines-Accounts headers (n + 1) m (number + 1) lines next known (omega arith)
          acc' in
      (last, rw e f, acc'')

  normalize_row-Errors :
      (n number : ℕ) (row : Result CsvRow) (r : Normalized)
      → IsZone false
      → Errors n r
      → OnOk (Errors (n + 1)) (normalize_row clock row_hash zone number row r)
  normalize_row-Errors n number (err e) r unknown (s, t, k) =
      returns (s, t, omega (arith, length-append r.errors (number ∷ [])))
  normalize_row-Errors n number (ok row) r unknown errors =
      rw (no_date _ (unknown (clock.instant row.clock_in))) (OnOk-or_throw none _ _ λ d e. cc)

  normalize_lines-Errors :
      (headers : List Text) (n m number : ℕ) (lines : List Text) (r : Normalized)
      → IsZone false
      → n + length lines ≡ m
      → Errors n r
      → OnOk (Errors m) (normalize_lines clock row_hash zone headers number lines r)
  unfolding normalize_lines
  normalize_lines-Errors headers n m number [] r unknown total (s, t, k) =
      returns (s, t, omega arith)
  normalize_lines-Errors headers n m number (line ∷ lines) r unknown total errors =
      OnOk-bind _ _ (normalize_row-Errors n number _ r unknown errors) λ next errors'.
        normalize_lines-Errors headers (n + 1) m (number + 1) lines next unknown (omega arith)
          errors'

-- What becomes of `n` lines, by whether the zone is known.
abbrev pub Normalizes : Bool → ℕ → Result Normalized → Type 0
Normalizes true n m = (r : Normalized) × (m ≡ ok r) × Accounts n r
Normalizes false n m = OnOk (Errors n) m

-- Where the runtime knows the time zone of the venue, a file of a header and at least one more line is
-- normalized without an exception: each line after the header becomes one shift or one error, and the
-- tips are positive and at most one for a shift. Where it does not, the call throws unless each of these
-- lines is an error.
pub normalize_csv-Accounts :
    (clock : Clock) (row_hash : CsvRow → Text) (zone csv : Text) (header line : Text)
    (lines : List Text) (known : Bool)
    → ((i : ℕ) → is_some (clock.business_date i zone) ≡ known)
    → lines_of csv ≡ header ∷ line ∷ lines
    → Normalizes known (length (line ∷ lines)) (normalize_csv clock row_hash zone csv)
unfolding normalize_csv
normalize_csv-Accounts clock row_hash zone csv header line lines true known e = rw e (
    normalize_lines-Accounts clock row_hash zone (split_csv_line header) 0 (length (line ∷ lines)) 2
      (line ∷ lines) no_evidence known (omega arith) (refl, omega arith, tt))
normalize_csv-Accounts clock row_hash zone csv header line lines false unknown e = rw e (
    normalize_lines-Errors clock row_hash zone (split_csv_line header) 0 (length (line ∷ lines)) 2
      (line ∷ lines) no_evidence unknown (omega arith) (refl, refl, refl))
