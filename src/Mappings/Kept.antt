-- ===== src/Mappings/Kept.antt =====
-- Attaching held shares pays nobody less (apps/api/src/mappings/mappings.service.ts).
use serveproof.Prelude.{
  ℕ, ◌+◌, ◌≡◌, refl, ap, sym, ◌∙◌, inl, inr, Bool, true, false, not, ◌&&◌, Option, none, some, List,
  [], ◌∷◌, Text, ◌==◌, ==_iff, if◌then◌else◌, is_some, All, sum_by, Bool-cases, arith,
}
use mathlib.Core.Path.{subst}
use mathlib.Core.Option.{some-injective}
use serveproof.Prelude.Tables.{find_row, filter_rows, update_row, find_row-true}
use serveproof.Prelude.Filters.{filter_rows-Holds}
use serveproof.Settlement.Queries.{is_settled}
use serveproof.Batches.Types as Batches
use serveproof.Batches.Types.{Allocation}
use serveproof.Mappings.Connect.{
  Account, is_text, has_worker, is_held, add_share, set_worker, merge, attach_one, attach_all,
  attach_held,
}
use serveproof.Mappings.Tables.{
  All-both, IsUnique, by_key, find_row-by_key, IsUnique-update_row, IsUnique-filter_rows,
  by_key-update_other, by_key-filter_other, filter_rows-by_key, sum-update_row, sum-filter_key,
}

abbrev pub id_of : Allocation → ℕ
id_of a = a.id

-- What a batch owes in all, to workers and for held shares.
abbrev pub share_in : ℕ → Allocation → ℕ
share_in b a = if a.batch == b then a.net_allocated else 0

abbrev pub total_in : ℕ → List Allocation → ℕ
total_in b = sum_by (share_in b)

abbrev is_free : Allocation → Bool
is_free a = not (is_some a.identity.worker_id)

-- A held row of the table.
abbrev InTable : List Allocation → Allocation → Type 0
InTable as' a = (by_key id_of a.id as' ≡ some a) × (is_free a ≡ true)

-- A row that has a worker is another row.
free-not_text : (o : Option Text) (t : Text) → not (is_some o) ≡ true → is_text o t ≡ false
free-not_text none t h = refl
free-not_text (some s) t h = cc

apart :
    (worker : Text) (a x : Allocation) (as' : List Allocation)
    → InTable as' a
    → by_key id_of x.id as' ≡ some x
    → has_worker worker x ≡ true
    → (a.id == x.id) ≡ false
apart worker a x as' (e, free) k h = elim (Bool-cases (a.id == x.id)) [
  | inl s ↦
      let same_id : a.id ≡ x.id = (==_iff a.id x.id).0 s in
      let same =
        some-injective a x (sym (subst (λ i. by_key id_of i as' ≡ some a) same_id e) ∙ k) in
      cc (ap (has_worker worker) same, free-not_text a.identity.worker_id worker free, h)
  | inr n ↦ n
]

merge-total :
    (b : ℕ) (worker : Text) (a : Allocation) (existing : Option Allocation) (as' : List Allocation)
    → IsUnique id_of as'
    → InTable as' a
    → find_row (λ x. x.batch == a.batch && has_worker worker x) as' ≡ existing
    → total_in b (merge worker a existing as') ≡ total_in b as'
merge-total b worker a none as' u (e, free) k =
    omega (arith, sum-update_row id_of (share_in b) (λ y. y.id == a.id) (set_worker worker) as' e)
merge-total b worker a (some x) as' u (e, free) k =
    let test = find_row-true (λ x. x.batch == a.batch && has_worker worker x) as' k in
    let found = find_row-by_key id_of (λ x. x.batch == a.batch && has_worker worker x) as' u k in
    let other = apart worker a x as' (e, free) found (ground arith) in
    let updated = update_row (λ y. y.id == x.id) (add_share a) as' in
    let grown = sum-update_row id_of (share_in b) (λ y. y.id == x.id) (add_share a) as' found in
    let shrunk =
      sum-filter_key id_of (share_in b) a.id updated
        (IsUnique-update_row id_of (λ y. y.id == x.id) (add_share a) as' (λ x. refl) u)
        (by_key-update_other id_of a.id x.id (add_share a) as' (λ x. refl) other e) in
    let joined : share_in b (add_share a x) ≡ share_in b x + share_in b a = ground (arith, test) in
    omega (arith, grown, shrunk, joined)

merge-IsUnique :
    (worker : Text) (a : Allocation) (existing : Option Allocation) (as' : List Allocation)
    → IsUnique id_of as'
    → IsUnique id_of (merge worker a existing as')
merge-IsUnique worker a none as' u = IsUnique-update_row id_of _ _ as' (λ x. refl) u
merge-IsUnique worker a (some x) as' u =
    IsUnique-filter_rows id_of _ _ (IsUnique-update_row id_of _ _ as' (λ x. refl) u)

merge-InTable :
    (worker : Text) (a c : Allocation) (existing : Option Allocation) (as' : List Allocation)
    → IsUnique id_of as'
    → find_row (λ x. x.batch == a.batch && has_worker worker x) as' ≡ existing
    → (c.id == a.id) ≡ false
    → InTable as' c
    → InTable (merge worker a existing as') c
merge-InTable worker a c none as' u k n (e, free) =
    (by_key-update_other id_of c.id a.id (set_worker worker) as' (λ x. refl) n e, free)
merge-InTable worker a c (some x) as' u k n (e, free) =
    let test = find_row-true (λ x. x.batch == a.batch && has_worker worker x) as' k in
    let found = find_row-by_key id_of (λ x. x.batch == a.batch && has_worker worker x) as' u k in
    let other = apart worker c x as' (e, free) found (ground arith) in
    (
      by_key-filter_other id_of c.id a.id (update_row (λ y. y.id == x.id) (add_share a) as') n
          (by_key-update_other id_of c.id x.id (add_share a) as' (λ x. refl) other e),
      free,
    )

attach_all-total :
    (b : ℕ) (worker : Text) (held as' : List Allocation)
    → IsUnique id_of as'
    → IsUnique id_of held
    → All (InTable as') held
    → total_in b (attach_all worker held as') ≡ total_in b as'
unfolding attach_all attach_one
attach_all-total b worker [] as' u v h = refl
attach_all-total b worker (a ∷ held) as' u (other, v) (here, h) =
    let existing = find_row (λ x. x.batch == a.batch && has_worker worker x) as' in
    attach_all-total b worker held (merge worker a existing as')
      (merge-IsUnique worker a existing as' u) v
      (All-both (λ c. (c.id == a.id) ≡ false) (InTable as') (InTable (merge worker a existing as'))
        held (λ c n k. merge-InTable worker a c existing as' u refl n k) other h)
    ∙ merge-total b worker a existing as' u here refl

-- Attaching the held shares of a connection leaves what each batch owes in all as it was, if the ids of the
-- allocations differ.
pub attach_held-total :
    (b : ℕ) (m : Account) (batches : List Batches.Batch) (as' : List Allocation)
    → IsUnique id_of as'
    → total_in b (attach_held m batches as') ≡ total_in b as'
unfolding attach_held
attach_held-total b m batches as' u =
    let held = filter_rows (is_held m batches) as' in
    attach_all-total b m.worker held as' u (IsUnique-filter_rows id_of (is_held m batches) as' u) (
      All-both (λ a. by_key id_of a.id as' ≡ some a) (λ a. is_held m batches a ≡ true) (InTable as')
        held (λ a k h. (k, ground arith)) (filter_rows-by_key id_of (is_held m batches) as' u)
        (filter_rows-Holds (is_held m batches) as'))

-- What a batch still has to pay.
abbrev pub unpaid_in : ℕ → Allocation → ℕ
unpaid_in b a = if a.batch == b && not (is_settled a.payment) then a.net_allocated else 0

-- A held share of a batch in which the worker's own share is PAID already is added to that share and counts
-- as unpaid no more, though nobody paid it: what the batch still has to pay falls by it.
pub attach_one-settled :
    (worker : Text) (a : Allocation) (as' : List Allocation) {x : Allocation}
    → IsUnique id_of as'
    → by_key id_of a.id as' ≡ some a
    → is_some a.identity.worker_id ≡ false
    → is_settled a.payment ≡ false
    → find_row (λ y. y.batch == a.batch && has_worker worker y) as' ≡ some x
    → is_settled x.payment ≡ true
    → sum_by (unpaid_in a.batch) (attach_one worker a as') + a.net_allocated
      ≡ sum_by (unpaid_in a.batch) as'
unfolding attach_one
attach_one-settled worker a as' {x} u e free open_a k paid =
    let test = find_row-true (λ x. x.batch == a.batch && has_worker worker x) as' k in
    let found = find_row-by_key id_of (λ x. x.batch == a.batch && has_worker worker x) as' u k in
    let other = apart worker a x as' (e, rw free refl) found (ground arith) in
    let updated = update_row (λ y. y.id == x.id) (add_share a) as' in
    let grown =
      sum-update_row id_of (unpaid_in a.batch) (λ y. y.id == x.id) (add_share a) as' found in
    let shrunk =
      sum-filter_key id_of (unpaid_in a.batch) a.id updated
        (IsUnique-update_row id_of (λ y. y.id == x.id) (add_share a) as' (λ x. refl) u)
        (by_key-update_other id_of a.id x.id (add_share a) as' (λ x. refl) other e) in
    let nothing : unpaid_in a.batch (add_share a x) ≡ unpaid_in a.batch x = ground (arith, paid) in
    let own : unpaid_in a.batch a ≡ a.net_allocated = ground (arith, open_a) in
    rw k (omega (arith, grown, shrunk, nothing, own))
