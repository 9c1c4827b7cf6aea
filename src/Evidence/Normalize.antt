-- ===== src/Evidence/Normalize.antt =====
-- `normalizeCsv` (apps/api/src/evidence/csv-normalizer.ts).
use serveproof.Prelude.{
  ℕ, zero, suc, ◌+◌, ◌/◌, Bool, true, false, List, [], ◌∷◌, ◌++◌, map, Text, text, trim,
}
use serveproof.Prelude.Int.{ℤ, pos, negsuc, sub_ℕ}
use serveproof.Prelude.Http.{Result, ok, err, failure, or_throw, ◌>>=◌}
use serveproof.Prelude.Tables.{filter_rows}
use serveproof.Allocation.Types.{TipType}
use serveproof.Settlement.Types.{Rail}
use serveproof.Shared.Usd.{negate, parse_usd_to_cents}
use serveproof.Evidence.Csv.{split_csv_line, split_lines, split_from}
use serveproof.Evidence.Rows.{Clock, CsvRow, parse_row, row_object}

pub record TipDraft : Type 0 where
  pub provider : Text
  pub external_payment_id : Text
  pub tip_type : TipType
  pub gross : ℕ
  pub business_date : Text
  pub source_hash : Text
  pub source_rail : Rail
  pub source_payroll_status : Text

pub record ShiftDraft : Type 0 where
  pub provider : Text
  pub external_shift_id : Text
  pub external_worker_id : Text
  pub role : Text
  pub clock_in : ℕ
  pub clock_out : ℕ
  pub worked_minutes : ℤ
  pub business_date : Text
  pub source_hash : Text
  pub source_rail : Rail
  pub source_payroll_status : Text

-- `errors` are the line numbers.
pub record Normalized : Type 0 where
  pub tips : List TipDraft
  pub shifts : List ShiftDraft
  pub errors : List ℕ

abbrev pub no_evidence : Normalized
no_evidence = record { tips = []; shifts = []; errors = [] }

-- `Math.round(ms / 60_000)`, which rounds a half up.
abbrev pub round_minutes : ℤ → ℤ
round_minutes (pos ms) = pos ((ms + 30000) / 60000)
round_minutes (negsuc n) = negate ((suc n + 29999) / 60000)

abbrev pub is_filled : Text → Bool
is_filled [] = false
is_filled (c ∷ cs) = true

-- The lines of a text, trimmed, without the empty ones.
unfoldable pub lines_of : Text → List Text
unfolding split_lines trim filter_rows
lines_of csv = filter_rows is_filled (map trim (split_lines [] csv))

-- `sha256(JSON.stringify(row))` is a parameter.
module _ (clock : Clock) (row_hash : CsvRow → Text) (zone : Text) where
  abbrev pub shift_of : CsvRow → Text → ShiftDraft
  shift_of row date = record {
    provider = row.provider;
    external_shift_id = row.shift_external_id;
    external_worker_id = row.worker_external_id;
    role = row.role;
    clock_in = clock.instant row.clock_in;
    clock_out = clock.instant row.clock_out;
    worked_minutes =
        round_minutes (sub_ℕ (clock.instant row.clock_out) (clock.instant row.clock_in));
    business_date = date;
    source_hash = row_hash row;
    source_rail = row.payout_route;
    source_payroll_status = row.payroll_status;
  }

  -- No tip for an amount of 0.
  abbrev pub tips_of : CsvRow → Text → ℤ → List TipDraft
  tips_of row date (negsuc n) = []
  tips_of row date (pos zero) = []
  tips_of row date (pos (suc n)) =
      record {
        provider = row.provider;
        external_payment_id = text "csv:" ++ row.shift_external_id;
        tip_type = row.tip_type;
        gross = suc n;
        business_date = date;
        source_hash = row_hash row;
        source_rail = row.payout_route;
        source_payroll_status = row.payroll_status;
      }
      ∷ []

  abbrev pub add_row : CsvRow → Text → ℤ → Normalized → Normalized
  add_row row date cents r = record r {
    shifts = r.shifts ++ (shift_of row date ∷ []);
    tips = r.tips ++ tips_of row date cents;
  }

  -- The body of the loop, once the line is parsed.
  abbrev pub normalize_row : ℕ → Result CsvRow → Normalized → Result Normalized
  normalize_row number (err e) r = ok (record r { errors = r.errors ++ (number ∷ []) })
  normalize_row number (ok row) r = do
    date ← or_throw (clock.business_date (clock.instant row.clock_in) zone) failure
    cents ← or_throw (parse_usd_to_cents row.gross_tip) failure
    ok (add_row row date cents r)

  unfoldable pub normalize_lines : List Text → ℕ → List Text → Normalized → Result Normalized
  unfolding parse_row row_object split_from
  normalize_lines headers number [] r = ok r
  normalize_lines headers number (line ∷ lines) r = do
    next ← normalize_row number (parse_row clock (row_object headers (split_csv_line line) [])) r
    normalize_lines headers (number + 1) lines next

  -- The number of a line counts from 1; that of the header is 1.
  abbrev pub normalize_from : List Text → Result Normalized
  normalize_from [] = ok (record no_evidence { errors = 0 ∷ [] })
  normalize_from (header ∷ []) = ok (record no_evidence { errors = 0 ∷ [] })
  normalize_from (header ∷ line ∷ lines) =
      normalize_lines (split_csv_line header) 2 (line ∷ lines) no_evidence

  unfoldable pub normalize_csv : Text → Result Normalized
  unfolding lines_of normalize_lines
  normalize_csv csv = normalize_from (lines_of csv)
