-- ===== src/Settlement/Machine.antt =====
-- The claims of `buildTransaction` and `submitSigned` are steps of the machine
-- (apps/api/src/payouts/payouts.service.ts).
use serveproof.Prelude.{
  ℕ, ◌≡◌, refl, ◌∙◌, inl, inr, true, false, Option, none, some, List, [], ◌∷◌, ◌++◌, Text,
  Bool-cases,
}
use serveproof.Prelude.Http.{OnOk, OnOk-require, returns}
use serveproof.Settlement.Types.{
  PayoutStatus, created, initiated, failed, Payout, Store, Chain, Library,
}
use serveproof.Settlement.Queries.{
  is_buildable, is_initiated, is_submitted, is_sent, find_payout, claim_payout, can_claim,
  set_allocation,
}
use serveproof.Settlement.Send.{
  initiate, claim_build, lost_claim, expire, claim_expired, broadcast, note_send_error,
  claim_submit,
}
use serveproof.Settlement.Acts.{
  Act, build, submit, lapse, next, Rows, Admits, update_rows-Rows, find_row-Rows, update_rows-kept,
}

initiate-Admits :
    (lib : Library) (chain : Chain) (now : ℕ) (user : Option ℕ) (p : Payout) (signer : Text)
    → Admits build is_buildable (initiate lib chain now user p signer)
initiate-Admits lib chain now user p signer = (λ q. (refl, moves q.status), stays)
  where
    moves : (s : PayoutStatus) → is_buildable s ≡ true → initiated ≡ next build s
    moves created h = refl
    moves initiated h = refl
    moves failed h = refl
    moves _ h = cc

    stays : (s : PayoutStatus) → is_buildable s ≡ false → s ≡ next build s
    stays created h = cc
    stays initiated h = cc
    stays failed h = cc
    stays _ h = refl

-- The acts on an INITIATED payout.
initiated-Admits :
    (act : Act) (f : Payout → Payout)
    → ((p : Payout) → ((f p).id ≡ p.id) × ((f p).status ≡ next act initiated))
    → ((s : PayoutStatus) → is_initiated s ≡ false → s ≡ next act s)
    → Admits act is_initiated f
initiated-Admits act f h stays = (λ p. ((h p).0, λ e. (h p).1 ∙ moves p.status e), stays)
  where
    moves : (s : PayoutStatus) → is_initiated s ≡ true → next act initiated ≡ next act s
    moves initiated e = refl
    moves _ e = cc

submit_stays : (s : PayoutStatus) → is_initiated s ≡ false → s ≡ next submit s
submit_stays initiated h = cc
submit_stays _ h = refl

lapse_stays : (s : PayoutStatus) → is_initiated s ≡ false → s ≡ next lapse s
lapse_stays initiated h = cc
lapse_stays _ h = refl

lost_claim-payouts : (o : Option Payout) (st : Store) → (lost_claim o st).store.payouts ≡ st.payouts
lost_claim-payouts none st = refl
lost_claim-payouts (some p) st = elim (Bool-cases (is_sent p.status)) [
  | inl e ↦ rw e refl
  | inr e ↦ rw e refl
]

claim_build-Rows :
    (lib : Library) (chain : Chain) (now : ℕ) (user : Option ℕ) (p : Payout) (signer : Text)
    (st : Store)
    → OnOk
        (λ st'. Rows build p.id st.payouts st'.payouts)
        (claim_build lib chain now user p signer st)
unfolding claim_build claim_payout
claim_build-Rows lib chain now user p signer st = OnOk-require _ _ _ λ _. returns (
    update_rows-Rows build p.id is_buildable _ st.payouts
      (initiate-Admits lib chain now user p signer))

claim_expired-Rows :
    (p : Payout) (st : Store) → Rows lapse p.id st.payouts (claim_expired p st).store.payouts
unfolding claim_expired set_allocation claim_payout can_claim
claim_expired-Rows p st =
    let admits = initiated-Admits lapse expire (λ q. (refl, refl)) lapse_stays in
    elim (Bool-cases (can_claim p.id is_initiated st)) [
      | inl e ↦ rw e (update_rows-Rows lapse p.id is_initiated expire st.payouts admits)
      | inr e ↦
          rw (e, lost_claim-payouts (find_payout p.id st) st)
            (find_row-Rows lapse p.id is_initiated expire st.payouts admits e)
    ]

note_send_error-Rows :
    (act : Act) (o : Option Text) (i : ℕ) (ps : List Payout) (st : Store)
    → Rows act i ps st.payouts
    → Rows act i ps (note_send_error o i st).payouts
unfolding claim_payout
note_send_error-Rows act none i ps st rows = rows
note_send_error-Rows act (some message) i ps st rows =
    update_rows-kept act i is_submitted _ (λ q. (refl, refl)) rows

claim_submit-Rows :
    (chain : Chain) (now : ℕ) (user : Option ℕ) (p : Payout) (signature raw : Text) (st : Store)
    → Rows submit p.id st.payouts (claim_submit chain now user p signature raw st).store.payouts
unfolding claim_submit claim_payout can_claim
claim_submit-Rows chain now user p signature raw st =
    let step = broadcast now signature raw user p in
    let admits = initiated-Admits submit step (λ q. (refl, refl)) submit_stays in
    elim (Bool-cases (can_claim p.id is_initiated st)) [
      | inl e ↦
          let claimed = claim_payout p.id is_initiated step st in
          rw e (
            note_send_error-Rows submit chain.send_error p.id st.payouts
              (record claimed { sent = claimed.sent ++ (raw ∷ []) })
              (update_rows-Rows submit p.id is_initiated step st.payouts admits))
      | inr e ↦
          rw (e, lost_claim-payouts (find_payout p.id st) st)
            (find_row-Rows submit p.id is_initiated step st.payouts admits e)
    ]

-- The claims of buildTransaction and submitSigned, in whatever store they run and whatever row was read
-- before, are single steps of the machine on the payout of that row: a build that returns takes it from
-- CREATED, INITIATED or FAILED to INITIATED, a submission from INITIATED to SUBMITTED, an expiry from
-- INITIATED to FAILED, and each leaves the payout's other statuses and all other rows as they were.
pub claims-Rows :
    (lib : Library) (chain : Chain) (now : ℕ) (user : Option ℕ) (p : Payout)
    (signer signature raw : Text) (st : Store)
    → OnOk
        (λ st'. Rows build p.id st.payouts st'.payouts)
        (claim_build lib chain now user p signer st)
      × Rows submit p.id st.payouts (claim_submit chain now user p signature raw st).store.payouts
      × Rows lapse p.id st.payouts (claim_expired p st).store.payouts
claims-Rows lib chain now user p signer signature raw st = (
  claim_build-Rows lib chain now user p signer st,
  claim_submit-Rows chain now user p signature raw st,
  claim_expired-Rows p st,
)
