-- ===== src/Evidence/Rows.antt =====
-- `csvEvidenceRowSchema` (packages/shared/src/csv.ts), with what zod's `min`, `enum` and `regex` check,
-- and `normalizeCsv` (apps/api/src/evidence/csv-normalizer.ts).
use serveproof.Prelude.{
  ℕ, Bool, Option, none, some, List, [], ◌∷◌, Text, text, text_eq, if◌then◌else◌, is_some, bind,
}
use serveproof.Prelude.Http.{Result, ok, failure, or_throw, ◌>>=◌}
use serveproof.Allocation.Types.{
  TipType, cash_tip, card_tip, qr_tip, automatic_gratuity, service_charge,
}
use serveproof.Allocation.Maps.{map_get, map_set}
use serveproof.Settlement.Types.{
  Rail, cash_retained, cash_drawer, payroll, payout_provider, bank_reference, usdc,
}
use serveproof.Shared.Usd.{span_digits, whole_part}

-- zod's `iso.datetime`, `Date`, the time zone database and SHA-256. Instants are milliseconds from an
-- origin before all of them.
pub record Clock : Type 0 where
  pub is_datetime : Text → Bool
  pub instant : Text → ℕ
  -- `businessDateInTimezone`; `none` is the exception of `Intl.DateTimeFormat`.
  pub business_date : ℕ → Text → Option Text

pub record CsvRow : Type 0 where
  pub provider : Text
  pub venue_external_id : Text
  pub worker_external_id : Text
  pub shift_external_id : Text
  pub tip_type : TipType
  pub gross_tip : Text
  pub clock_in : Text
  pub clock_out : Text
  pub role : Text
  pub payout_route : Rail
  pub payroll_status : Text

unfoldable pub tip_type_of : Text → Option TipType
unfolding text_eq
tip_type_of t =
    if text_eq t (text "CASH_TIP")
    then some cash_tip
    else if text_eq t (text "CARD_TIP")
    then some card_tip
    else if text_eq t (text "QR_TIP")
    then some qr_tip
    else if text_eq t (text "AUTOMATIC_GRATUITY")
    then some automatic_gratuity
    else if text_eq t (text "SERVICE_CHARGE")
    then some service_charge
    else none

unfoldable pub rail_of : Text → Option Rail
unfolding text_eq
rail_of t =
    if text_eq t (text "CASH_RETAINED")
    then some cash_retained
    else if text_eq t (text "CASH_DRAWER")
    then some cash_drawer
    else if text_eq t (text "PAYROLL")
    then some payroll
    else if text_eq t (text "PAYOUT_PROVIDER")
    then some payout_provider
    else if text_eq t (text "BANK_REFERENCE")
    then some bank_reference
    else if text_eq t (text "USDC")
    then some usdc
    else none

-- `z.string().min(1)`.
abbrev pub nonempty : Text → Option Text
nonempty [] = none
nonempty (c ∷ cs) = some (c ∷ cs)

abbrev pub checked : (Text → Bool) → Text → Option Text
checked test t = if test t then some t else none

-- The regular expression of `gross_tip`.
unfoldable pub is_amount : Text → Bool
unfolding span_digits
is_amount t = is_some (whole_part (span_digits t))

-- A missing key is an error of every field.
abbrev pub field : Text → List (Text × Text) → Option Text
field name object = map_get name object

-- `safeParse`; the issues of a failure are not modelled.
unfoldable pub parse_row : Clock → List (Text × Text) → Result CsvRow
unfolding map_get text_eq tip_type_of rail_of is_amount
parse_row clock object = do
  provider ← or_throw (bind (field (text "provider") object) nonempty) failure
  venue ← or_throw (bind (field (text "venue_external_id") object) nonempty) failure
  worker ← or_throw (bind (field (text "worker_external_id") object) nonempty) failure
  shift ← or_throw (bind (field (text "shift_external_id") object) nonempty) failure
  tip_type ← or_throw (bind (field (text "tip_type") object) tip_type_of) failure
  gross ← or_throw (bind (field (text "gross_tip") object) (checked is_amount)) failure
  start ← or_throw (bind (field (text "clock_in") object) (checked clock.is_datetime)) failure
  end ← or_throw (bind (field (text "clock_out") object) (checked clock.is_datetime)) failure
  role ← or_throw (bind (field (text "role") object) nonempty) failure
  rail ← or_throw (bind (field (text "payout_route") object) rail_of) failure
  status ← or_throw (bind (field (text "payroll_status") object) nonempty) failure
  ok record {
    provider = provider;
    venue_external_id = venue;
    worker_external_id = worker;
    shift_external_id = shift;
    tip_type = tip_type;
    gross_tip = gross;
    clock_in = start;
    clock_out = end;
    role = role;
    payout_route = rail;
    payroll_status = status;
  }

-- `Object.fromEntries`: a later entry of a key replaces the value. A column without a value is empty.
unfoldable pub row_object : List Text → List Text → List (Text × Text) → List (Text × Text)
unfolding map_set
row_object [] values object = object
row_object (h ∷ hs) [] object = row_object hs [] (map_set h [] object)
row_object (h ∷ hs) (v ∷ vs) object = row_object hs vs (map_set h v object)
