-- ===== src/Examples/Links.antt =====
-- The connections of external workers (apps/api/src/mappings/mappings.service.ts) at concrete inputs.
use serveproof.Prelude.{
  ℕ, ◌+◌, ◌≡◌, refl, none, some, Option, List, [], ◌∷◌, Text, text, text_eq, sum_by,
}
use serveproof.Settlement.Types.{PaymentStatus, unpaid, settled, calculated}
use serveproof.Batches.Types as Batches
use serveproof.Batches.Types.{Allocation}
use serveproof.Mappings.Connect.{Account, confirmed, attach_one, attach_held}
use serveproof.Mappings.Kept.{total_in, unpaid_in, attach_held-total, attach_one-settled}
use serveproof.Prelude.Tables.{find_row}

abbrev share : ℕ → Option Text → Text → ℕ → PaymentStatus → Allocation
share i worker external net payment = record {
  id = i;
  batch = 1;
  identity = record {
    worker_id = worker;
    provider = some (text "square");
    external_worker_id = some external;
  };
  pooled_tip = net;
  net_allocated = net;
  planned_rail = none;
  payment = payment;
}

abbrev shares : PaymentStatus → List Allocation
shares payment =
    share 1 (some (text "w")) (text "e1") 500 payment ∷ share 2 none (text "e2") 300 unpaid ∷ []

abbrev batches : List Batches.Batch
batches =
    record {
      id = 1;
      venue = 3;
      business_date = [];
      policy = 1;
      policy_version = 1;
      status = calculated;
      pool = 800;
      evidence_hash = [];
      allocation_hash = [];
      review_issues = [];
      calculated_at = 1;
      calculated_by = none;
      approved_at = none;
      approved_by = none;
    }
    ∷ []

abbrev account : Account
account = record {
  id = 9;
  venue = 3;
  provider = text "square";
  external_worker_id = text "e2";
  worker = text "w";
  status = confirmed;
  verified_by = none;
}

attach_held-total_example :
    total_in 1 (attach_held account batches (shares unpaid)) ≡ total_in 1 (shares unpaid)
attach_held-total_example =
    attach_held-total 1 account batches (shares unpaid) ((refl, tt), (tt, tt))

merged :
    attach_held account batches (shares unpaid)
    ≡ share 1 (some (text "w")) (text "e1") 800 unpaid ∷ []
unfolding attach_held
merged = refl

attach_one-settled_example :
    sum_by
        (unpaid_in 1)
        (attach_one (text "w") (share 2 none (text "e2") 300 unpaid) (shares settled))
      + 300
    ≡ sum_by (unpaid_in 1) (shares settled)
unfolding find_row text_eq
attach_one-settled_example =
    attach_one-settled (text "w") (share 2 none (text "e2") 300 unpaid) (shares settled)
      {x = share 1 (some (text "w")) (text "e1") 500 settled} ((refl, tt), (tt, tt)) refl refl refl
      refl refl
