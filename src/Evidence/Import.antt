-- ===== src/Evidence/Import.antt =====
-- `importCsv` (apps/api/src/evidence/evidence.service.ts).
use serveproof.Prelude.{ℕ, Bool, ◌&&◌, Option, some, List, [], ◌∷◌, ◌++◌, Text, text_eq, ◌==◌}
use serveproof.Prelude.Tables.{filter_rows}
use serveproof.Allocation.Types.{
  TipType, cash_tip, card_tip, qr_tip, automatic_gratuity, service_charge, completed, no_refund,
  worked,
}
use serveproof.Allocation.Maps.{map_get, map_set}
use serveproof.Settlement.Types.{Rail}
use serveproof.Batches.Types as Batches
use serveproof.Batches.Types.{TipRow, ShiftRow, Hashes}
use serveproof.Evidence.Normalize.{TipDraft, ShiftDraft}

pub record VenueRow : Type 0 where
  pub id : ℕ
  pub timezone : Text

-- Of `ExternalWorkerAccount`.
pub record AccountRow : Type 0 where
  pub venue : ℕ
  pub provider : Text
  pub external_worker_id : Text
  pub worker : Text
  pub is_confirmed : Bool

-- `row` is what the calculation reads.
pub record TipEvidence : Type 0 where
  pub provider : Text
  pub external_payment_id : Text
  pub source_rail : Option Rail
  pub source_payroll_status : Option Text
  pub row : TipRow

pub record ShiftEvidence : Type 0 where
  pub external_shift_id : Text
  pub clock_in : ℕ
  pub clock_out : Option ℕ
  pub source_payroll_status : Option Text
  pub row : ShiftRow

-- The evidence of `batches` is that of the tables here (`with_evidence`).
pub record Store : Type 0 where
  pub venues : List VenueRow
  pub accounts : List AccountRow
  pub tips : List TipEvidence
  pub shifts : List ShiftEvidence
  pub batches : Batches.Store

abbrev pub type_number : TipType → ℕ
type_number cash_tip = 0
type_number card_tip = 1
type_number qr_tip = 2
type_number automatic_gratuity = 3
type_number service_charge = 4

-- The unique keys.
abbrev pub same_tip : ℕ → TipDraft → TipEvidence → Bool
same_tip venue d t =
    t.row.venue == venue
    && text_eq t.provider d.provider
    && text_eq t.external_payment_id d.external_payment_id
    && type_number t.row.input.tip_type == type_number d.tip_type

abbrev pub same_shift : ℕ → ShiftDraft → ShiftEvidence → Bool
same_shift venue d s =
    s.row.venue == venue
    && text_eq s.row.input.provider d.provider
    && text_eq s.external_shift_id d.external_shift_id

-- `update` and `create` of the upserts; the defaults of the columns are those of the schema.
abbrev pub put_tip : TipDraft → TipEvidence → TipEvidence
put_tip d t = record t {
  source_rail = some d.source_rail;
  source_payroll_status = some d.source_payroll_status;
  row = record t.row {
    business_date = d.business_date;
    source_hash = d.source_hash;
    input = record t.row.input { gross = d.gross };
  };
}

abbrev pub new_tip : ℕ → TipDraft → TipEvidence
new_tip venue d = record {
  provider = d.provider;
  external_payment_id = d.external_payment_id;
  source_rail = some d.source_rail;
  source_payroll_status = some d.source_payroll_status;
  row = record {
    venue = venue;
    business_date = d.business_date;
    source_hash = d.source_hash;
    input = record {
      tip_type = d.tip_type;
      gross = d.gross;
      payment_status = some completed;
      refund_status = some no_refund;
    };
  };
}

-- The key `provider:externalWorkerId` of the map.
abbrev pub account_key : Text → Text → Text
account_key provider worker = provider ++ (b':' ∷ worker)

-- `new Map(...)`: a later entry of a key replaces the value.
unfoldable pub worker_map : List AccountRow → List (Text × Text) → List (Text × Text)
unfolding map_set
worker_map [] m = m
worker_map (a ∷ as') m =
    worker_map as' (map_set (account_key a.provider a.external_worker_id) a.worker m)

unfoldable pub worker_by_external_id : ℕ → Store → List (Text × Text)
unfolding filter_rows worker_map
worker_by_external_id venue st =
    worker_map (filter_rows (λ a. a.venue == venue && a.is_confirmed) st.accounts) []

abbrev pub mapped_worker : List (Text × Text) → ShiftDraft → Option Text
mapped_worker workers d = map_get (account_key d.provider d.external_worker_id) workers

abbrev pub put_shift : List (Text × Text) → ShiftDraft → ShiftEvidence → ShiftEvidence
put_shift workers d s = record s {
  clock_in = d.clock_in;
  clock_out = some d.clock_out;
  source_payroll_status = some d.source_payroll_status;
  row = record s.row {
    business_date = d.business_date;
    source_hash = d.source_hash;
    source_rail = some d.source_rail;
    input = record s.row.input {
      worker_id = mapped_worker workers d;
      external_worker_id = d.external_worker_id;
      role = d.role;
      worked_minutes = d.worked_minutes;
    };
  };
}

abbrev pub new_shift : ℕ → List (Text × Text) → ShiftDraft → ShiftEvidence
new_shift venue workers d = record {
  external_shift_id = d.external_shift_id;
  clock_in = d.clock_in;
  clock_out = some d.clock_out;
  source_payroll_status = some d.source_payroll_status;
  row = record {
    venue = venue;
    business_date = d.business_date;
    source_hash = d.source_hash;
    source_rail = some d.source_rail;
    input = record {
      worker_id = mapped_worker workers d;
      external_worker_id = d.external_worker_id;
      provider = d.provider;
      role = d.role;
      worked_minutes = d.worked_minutes;
      shift_status = worked;
    };
  };
}
