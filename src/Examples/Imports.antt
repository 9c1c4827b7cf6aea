-- ===== src/Examples/Imports.antt =====
-- The import of evidence (apps/api/src/evidence) at concrete inputs.
use serveproof.Prelude.{◌≡◌, refl, true, none, some, [], ◌∷◌, ◌++◌, Text, text}
use serveproof.Prelude.Http.{ok, OnOk}
use serveproof.Platform.{exact_platform}
use serveproof.Shared.Usd.{number_after}
use serveproof.Batches.Types.{Hashes}
use serveproof.Evidence.Csv.{split_csv_line}
use serveproof.Evidence.Fields.{join_fields, split_csv_line-join_fields}
use serveproof.Evidence.Rows.{Clock, CsvRow}
use serveproof.Evidence.Normalize.{lines_of, normalize_csv}
use serveproof.Evidence.Lines.{Normalizes, normalize_csv-Accounts}
use serveproof.Evidence.Import.{Store}
use serveproof.Evidence.Upload.{Summary, import_csv}
use serveproof.Evidence.Again.{import_csv-again}

split_csv_line-join_fields_example :
    split_csv_line (join_fields (text "a,b") (text "c" ∷ [] ∷ [])) ≡ text "a,b" ∷ text "c" ∷ [] ∷ []
split_csv_line-join_fields_example = split_csv_line-join_fields (text "a,b") (text "c" ∷ [] ∷ [])

joined : join_fields (text "a,b") (text "c" ∷ [] ∷ []) ≡ text "\"a,b\",c,"
unfolding join_fields
joined = refl

abbrev clock : Clock
clock = record {
  is_datetime = λ t. true;
  instant = number_after 0;
  business_date = λ i z. some (text "2026-07-18");
}

abbrev header : Text
header =
    text
      "provider,venue_external_id,worker_external_id,shift_external_id,tip_type,gross_tip,clock_in,clock_out,role,payout_route,payroll_status"

abbrev good_line : Text
good_line = text "toast,v,\"w,1\",s1,CARD_TIP,12.50,60000,180000,bar,USDC,ok"

abbrev bad_line : Text
bad_line = text "toast,v,w2,s2,TIP,12.50,60000,180000,bar,USDC,ok"

abbrev file : Text
file = header ++ (13 ∷ 10 ∷ good_line) ++ (10 ∷ 10 ∷ bad_line)

abbrev hash : CsvRow → Text
hash row = row.shift_external_id

normalize_csv-Accounts_example : Normalizes true 2 (normalize_csv clock hash (text "UTC") file)
unfolding lines_of
normalize_csv-Accounts_example =
    normalize_csv-Accounts clock hash (text "UTC") file header good_line (bad_line ∷ []) true
      (λ i. refl) refl

abbrev hashes : Hashes
hashes = record { of_evidence = λ t s. []; of_result = λ v b. [] }

abbrev empty_store : Store
empty_store = record {
  venues = record { id = 3; timezone = text "UTC" } ∷ [];
  accounts =
      record {
        venue = 3;
        provider = text "toast";
        external_worker_id = text "w,1";
        worker = text "k";
        is_confirmed = true;
      }
      ∷ [];
  tips = [];
  shifts = [];
  batches = record {
    venues = 3 ∷ [];
    policies = [];
    tips = [];
    shifts = [];
    batches = [];
    allocations = [];
    workers = [];
    audits = [];
    next_id = 1;
  };
}

import_csv-again_example :
    OnOk
      (λ r.
        (st' : Store) × (s : Summary) × (import_csv exact_platform hashes clock hash 3 file 9
            (some 1)
            r.0
          ≡ ok (st', s))
        × (st'.tips ≡ r.0.tips)
        × (st'.shifts ≡ r.0.shifts))
      (import_csv exact_platform hashes clock hash 3 file 8 none empty_store)
import_csv-again_example =
    import_csv-again exact_platform hashes clock hash 3 file 8 9 none (some 1) empty_store
