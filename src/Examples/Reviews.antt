-- ===== src/Examples/Reviews.antt =====
-- The batches and policies (apps/api/src/allocations/allocations.service.ts,
-- apps/api/src/policies/policies.service.ts) at concrete inputs.
use serveproof.Prelude.{
  ℕ, ◌<◌, ◌≡◌, true, ◌&&◌, Option, none, some, List, [], ◌∷◌, ◌++◌, Text, text, ◌==◌, All,
}
use serveproof.Prelude.Int.{pos}
use serveproof.Prelude.Http.{OnOk}
use serveproof.Prelude.Tables.{filter_rows}
use serveproof.Platform.{exact_platform}
use serveproof.Allocation.Types.{card_tip, approved}
use serveproof.Allocation.Maps.{map_get}
use serveproof.Settlement.Types.{Rail, usdc, payroll, BatchStatus, calculated, payable}
use serveproof.Batches.Types.{
  ShiftRow, role_weighted_hours, Terms, Policy, Batch, Store, Hashes, batch_approved,
}
use serveproof.Batches.Plan.{plan_rails}
use serveproof.Batches.Agreed.{rails_of, agreed, plan_rails-agreed}
use serveproof.Batches.Calculate.{choose_policy, calculate, new_policy, create_version}
use serveproof.Batches.Review.{find_batch, is_calculated, approve}
use serveproof.Batches.Stored.{IsStored, calculate-IsStored}
use serveproof.Batches.Closed.{is_closed, calculate-closed, create_version-active, approve_lem}

abbrev shift_row : Text → Option Rail → ShiftRow
shift_row worker rail = record {
  venue = 3;
  business_date = text "2026-07-18";
  source_hash = worker;
  source_rail = rail;
  input = record {
    worker_id = some worker;
    external_worker_id = worker;
    provider = text "square";
    role = text "bar";
    worked_minutes = pos 60;
    shift_status = approved;
  };
}

abbrev shift_rows : List ShiftRow
shift_rows =
    shift_row (text "a") (some usdc)
    ∷ shift_row (text "b") (some payroll)
    ∷ shift_row (text "a") none
    ∷ shift_row (text "b") (some usdc)
    ∷ []

abbrev terms : Terms
terms = record {
  allocation_type = role_weighted_hours;
  engine = record {
    role_weights = (text "bar", 7) ∷ [];
    excluded_roles = [];
    pool_inclusion = λ t. some true;
  };
  tip_out_rules = [];
  effective_from = 1;
}

abbrev first_policy : Policy
first_policy = record {
  id = 1;
  venue = 3;
  version = 1;
  is_active = true;
  effective_to = none;
  created_by = 9;
  terms = terms;
}

abbrev batch_of : ℕ → BatchStatus → ℕ → Batch
batch_of i status version = record {
  id = i;
  venue = 3;
  business_date = text "2026-07-18";
  policy = 1;
  policy_version = version;
  status = status;
  pool = 0;
  evidence_hash = [];
  allocation_hash = [];
  review_issues = [];
  calculated_at = 0;
  calculated_by = none;
  approved_at = none;
  approved_by = none;
}

abbrev venue_store : Store
venue_store = record {
  venues = 3 ∷ [];
  policies = first_policy ∷ [];
  tips =
      record {
        venue = 3;
        business_date = text "2026-07-18";
        source_hash = text "t";
        input = record {
          tip_type = card_tip;
          gross = 900;
          payment_status = none;
          refund_status = none;
        };
      }
      ∷ [];
  shifts = shift_rows;
  batches = batch_of 6 payable 0 ∷ batch_of 7 calculated 1 ∷ [];
  allocations = [];
  workers = [];
  audits = [];
  next_id = 50;
}

abbrev hashes : Hashes
hashes = record { of_evidence = λ t s. []; of_result = λ v b. [] }

plan_rails-agreed_example :
    map_get (text "b") (plan_rails shift_rows) ≡ agreed (rails_of (text "b") shift_rows)
plan_rails-agreed_example = plan_rails-agreed (text "b") shift_rows

calculate-closed_example :
    OnOk
      (λ st'. filter_rows is_closed st'.batches ≡ filter_rows is_closed venue_store.batches)
      (calculate exact_platform hashes 3 (text "2026-07-18") none 8 (some 9) venue_store)
calculate-closed_example =
    calculate-closed exact_platform hashes 3 (text "2026-07-18") none 8 (some 9) venue_store

create_version-active_example :
    (filter_rows
        (λ p. p.venue == 3 && p.is_active)
        (create_version 3 9 8 terms venue_store).policies
      ≡ new_policy 3 9 8 terms venue_store ∷ [])
    × All
        (λ p. p.version < (new_policy 3 9 8 terms venue_store).version)
        (filter_rows (λ p. p.venue == 3) venue_store.policies)
create_version-active_example = create_version-active 3 9 8 terms venue_store

approve_lem_example :
    OnOk
      (λ st'.
        (b : Batch) × (find_batch 7 venue_store ≡ some b)
        × (is_calculated b.status ≡ true)
        × (find_batch 7 st'
            ≡ some (record b { status = payable; approved_by = some 9; approved_at = some 8 }))
        × (st'.audits
            ≡ venue_store.audits
              ++ (record { action = batch_approved; venue = b.venue; actor = 9; entity = 7 } ∷ [])))
      (approve 7 9 8 venue_store)
approve_lem_example = approve_lem 7 9 8 venue_store

calculate-IsStored_example :
    OnOk
      (λ st'.
        (p : Policy) × (choose_policy 3 none venue_store ≡ some p)
        × IsStored 3 (text "2026-07-18") p.version 8 st')
      (calculate exact_platform hashes 3 (text "2026-07-18") none 8 (some 9) venue_store)
calculate-IsStored_example =
    calculate-IsStored exact_platform hashes 3 (text "2026-07-18") none 8 (some 9) venue_store tt
