-- ===== src/Mappings/Connect.antt =====
-- `createMapping` for a known worker, `respondToMapping`, `verifyMapping` and `attachHeldAllocations` of
-- apps/api/src/mappings/mappings.service.ts. The invitation mail is left out.
use serveproof.Prelude.{
  ℕ, ◌+◌, Bool, true, false, not, ◌&&◌, ◌||◌, Option, none, some, List, [], ◌∷◌, ◌++◌, Text,
  text_eq, ltb, ◌==◌, if◌then◌else◌, is_some, length,
}
use serveproof.Prelude.Http.{
  Result, ok, not_found, bad_request, forbidden, require, or_throw, ◌>>=◌, ◌>>◌,
}
use serveproof.Prelude.Tables.{
  find_row, filter_rows, update_row, update_rows, upsert_row, count_rows,
}
use serveproof.Batches.Types as Batches
use serveproof.Batches.Types.{ShiftRow, Allocation}

pub data MappingStatus : Type 0 where
  pending confirmed rejected : MappingStatus

pub record Account : Type 0 where
  pub id : ℕ
  pub venue : ℕ
  pub provider : Text
  pub external_worker_id : Text
  pub worker : Text
  pub status : MappingStatus
  pub verified_by : Option ℕ

pub record Owner : Type 0 where
  pub worker : Text
  pub user : ℕ

-- `rebuilt` are the venues whose income projection was rebuilt, in order.
pub record Store : Type 0 where
  pub accounts : List Account
  pub owners : List Owner
  pub rebuilt : List ℕ
  pub next_id : ℕ
  pub batches : Batches.Store

abbrev pub is_account : ℕ → Text → Text → Account → Bool
is_account venue provider external m =
    m.venue == venue && text_eq m.provider provider && text_eq m.external_worker_id external

-- The upsert makes a connection PENDING again, whatever it was.
unfoldable pub create_mapping : Text → ℕ → Text → Text → Store → Result Store
unfolding find_row upsert_row text_eq
create_mapping worker venue provider external st = do
  _ ← or_throw (find_row (λ o. text_eq o.worker worker) st.owners) not_found
  ok record st {
    accounts =
        upsert_row (is_account venue provider external)
          (λ m. record m { worker = worker; status = pending; verified_by = none })
          (record {
            id = st.next_id;
            venue = venue;
            provider = provider;
            external_worker_id = external;
            worker = worker;
            status = pending;
            verified_by = none;
          })
          st.accounts;
    next_id = st.next_id + 1;
  }

abbrev pub is_text : Option Text → Text → Bool
is_text none t = false
is_text (some s) t = text_eq s t

-- The batch of an allocation is one of the venue.
unfoldable pub in_venue : ℕ → ℕ → List Batches.Batch → Bool
in_venue batch venue [] = false
in_venue batch venue (b ∷ bs) = (b.id == batch && b.venue == venue) || in_venue batch venue bs

-- A share without a worker, of this external worker in a batch of the venue.
abbrev pub is_held : Account → List Batches.Batch → Allocation → Bool
is_held m batches a =
    not (is_some a.identity.worker_id)
    && is_text a.identity.provider m.provider
    && is_text a.identity.external_worker_id m.external_worker_id
    && in_venue a.batch m.venue batches

abbrev pub has_worker : Text → Allocation → Bool
has_worker worker a = is_text a.identity.worker_id worker

abbrev pub add_share : Allocation → Allocation → Allocation
add_share a x = record x {
  pooled_tip = x.pooled_tip + a.pooled_tip;
  net_allocated = x.net_allocated + a.net_allocated;
}

abbrev pub set_worker : Text → Allocation → Allocation
set_worker worker a = record a { identity = record (a.identity) { worker_id = some worker } }

-- A share is added to the one that the worker has in the batch, or becomes the worker's.
abbrev pub merge : Text → Allocation → Option Allocation → List Allocation → List Allocation
merge worker a none as' = update_row (λ y. y.id == a.id) (set_worker worker) as'
merge worker a (some x) as' =
    filter_rows (λ y. not (y.id == a.id)) (update_row (λ y. y.id == x.id) (add_share a) as')

unfoldable pub attach_one : Text → Allocation → List Allocation → List Allocation
unfolding find_row filter_rows update_row text_eq
attach_one worker a as' =
    merge worker a (find_row (λ x. x.batch == a.batch && has_worker worker x) as') as'

unfoldable pub attach_all : Text → List Allocation → List Allocation → List Allocation
unfolding attach_one
attach_all worker [] as' = as'
attach_all worker (a ∷ held) as' = attach_all worker held (attach_one worker a as')

unfoldable pub attach_held : Account → List Batches.Batch → List Allocation → List Allocation
unfolding attach_all filter_rows in_venue text_eq
attach_held m batches as' = attach_all m.worker (filter_rows (is_held m batches) as') as'

abbrev pub is_rejected : MappingStatus → Bool
is_rejected rejected = true
is_rejected _ = false

abbrev pub is_confirmed : MappingStatus → Bool
is_confirmed confirmed = true
is_confirmed _ = false

abbrev pub is_unmapped : Account → ShiftRow → Bool
is_unmapped m s =
    s.venue == m.venue
    && text_eq s.input.provider m.provider
    && text_eq s.input.external_worker_id m.external_worker_id
    && not (is_some s.input.worker_id)

abbrev pub map_shift : Text → ShiftRow → ShiftRow
map_shift worker s = record s { input = record (s.input) { worker_id = some worker } }

-- The writes of `verifyMapping`: the connection, the shifts, the held shares, and the projection if any
-- of them changed. (A failing rebuild is only logged.)
unfoldable pub connect : Account → ℕ → Store → Store
unfolding update_row update_rows count_rows attach_held
connect m user st =
    let held = length (filter_rows (is_held m st.batches.batches) st.batches.allocations) in
    let mapped = count_rows (is_unmapped m) st.batches.shifts in
    record st {
      accounts =
          update_row (λ n. n.id == m.id)
            (λ n. record n { status = confirmed; verified_by = some user }) st.accounts;
      rebuilt = if ltb 0 (mapped + held) then st.rebuilt ++ (m.venue ∷ []) else st.rebuilt;
      batches = record (st.batches) {
        shifts = update_rows (is_unmapped m) (map_shift m.worker) st.batches.shifts;
        allocations = attach_held m st.batches.batches st.batches.allocations;
      };
    }

abbrev pub reject : Account → ℕ → Store → Store
reject m user st = record st {
  accounts =
      update_row (λ n. n.id == m.id) (λ n. record n { status = rejected; verified_by = some user })
        st.accounts;
}

-- `accept` is the decision.
unfoldable pub respond_to_mapping : ℕ → ℕ → Bool → Store → Result Store
unfolding find_row update_row text_eq connect
respond_to_mapping i user accept st = do
  m ← or_throw (find_row (λ m. m.id == i) st.accounts) not_found
  owner ← or_throw (find_row (λ o. text_eq o.worker m.worker) st.owners) not_found
  require (owner.user == user) forbidden
  if not accept
      then (do require (not (is_confirmed m.status)) bad_request; ok (reject m user st))
      else (do
        require (not (is_rejected m.status)) bad_request
        ok (if is_confirmed m.status then st else connect m user st))
