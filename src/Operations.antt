-- ===== src/Operations.antt =====
-- utils/useTorrentOperations.ts of ui/desktop/src/renderer: the operations on several torrents. A batch is
-- a call of `Promise.all`; its requests settle_request one by one, in any order and mixed with those of others.
pub mod Batches
mod Tests
use orc_torrent.Prelude.{
  ℕ, suc, ◌+◌, ◌-◌, Bool, true, false, not, ◌&&◌, ◌||◌, Option, none, some, List, [], ◌∷◌, ◌++◌,
  length, ◌==◌, if◌then◌else◌,
}
use Prim.Native.String.{String}
use orc_torrent.Prelude.Assoc.{string_eq, nat_eq, lookup, insert, delete}

pub data Operation : Type 0 where
  start stop remove recheck announce : Operation

abbrev pub op_id : Operation → String
op_id start = "start"
op_id stop = "stop"
op_id remove = "remove"
op_id recheck = "recheck"
op_id announce = "announce"

pub record Batch : Type 0 where
  pub operation : Operation
  -- the requests that have not settled
  pub waiting : ℕ
  -- `Promise.all` has thrown
  pub rejected : Bool

pub record Hook : Type 0 where
  -- `loadingOperations`
  pub loading : List {0} (String × Unit)
  pub batches : List (ℕ × Batch)
  pub next : ℕ
  -- the requests sent, latest first, and the calls of onSuccess, onError and onRefresh
  pub requests : List (Operation × String)
  pub successes : ℕ
  pub errors : ℕ
  pub refreshes : ℕ

abbrev pub send_all :
    Operation → List String → List (Operation × String) → List (Operation × String)
send_all op [] sent = sent
send_all op (id ∷ ids) sent = send_all op ids ((op, id) ∷ sent)

-- `setLoading(opId, true)` and the requests
unfoldable pub begin_batch : Operation → List String → Hook → Hook
begin_batch op ids s = record s {
  loading = insert (op_id op) tt s.loading;
  batches = (s.next, record { operation = op; waiting = length ids; rejected = false }) ∷ s.batches;
  next = suc s.next;
  requests = send_all op ids s.requests;
}

-- a hint instead of the operation, which two of the handlers give
abbrev pub refuse : Operation → Hook → Hook
refuse recheck s = record s { successes = suc s.successes }
refuse announce s = record s { successes = suc s.successes }
refuse _ s = s

-- the confirmation that the removal asks for
abbrev pub is_confirmed : Operation → Bool → Bool
is_confirmed remove confirmed = confirmed
is_confirmed _ confirmed = true

-- the handlers, up to the wait; handleBulkPause is that of `stop`
unfoldable pub handle : Bool → Bool → Operation → List String → Hook → Hook
unfolding begin_batch
handle online confirmed op [] s = refuse op s
handle online confirmed op (id ∷ ids) s =
    if not online
    then refuse op s
    else if is_confirmed op confirmed
    then begin_batch op (id ∷ ids) s
    else s

-- A request of a batch settles.
unfoldable pub settle_in : ℕ → Bool → Batch → Hook → Hook
settle_in n ok b s =
    let c = record b { waiting = b.waiting - 1 } in
    if b.rejected
    then record s { batches = insert n c s.batches }
    else if not ok
    then record s {
      batches = insert n (record c { rejected = true }) s.batches;
      errors = suc s.errors;
      loading = delete (op_id b.operation) s.loading;
    }
    else if c.waiting == 0
    then record s {
      batches = delete n s.batches;
      successes = suc s.successes;
      refreshes = suc s.refreshes;
      loading = delete (op_id b.operation) s.loading;
    }
    else record s { batches = insert n c s.batches }

abbrev pub settle_found : ℕ → Bool → Option Batch → Hook → Hook
settle_found n ok none s = s
settle_found n ok (some b) s = settle_in n ok b s

unfoldable pub settle_request : ℕ → Bool → Hook → Hook
unfolding settle_in
settle_request n ok s = settle_found n ok (lookup n s.batches) s

pub data Event : Type 0 where
  calls : (online confirmed : Bool) (op : Operation) (ids : List String) → Event
  settles : (n : ℕ) (ok : Bool) → Event

unfoldable pub step : Event → Hook → Hook
unfolding handle settle_request
step (calls online confirmed op ids) s = handle online confirmed op ids s
step (settles n ok) s = settle_request n ok s

unfoldable pub run : List Event → Hook → Hook
unfolding step
run [] s = s
run (e ∷ es) s = run es (step e s)
