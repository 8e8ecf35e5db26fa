-- ===== src/Operations/Batches.antt =====
-- How a batch of utils/useTorrentOperations.ts (ui/desktop/src/renderer) ends.
use orc_torrent.Prelude.{
  ℕ, suc, ◌+◌, ◌-◌, ◌≡◌, refl, ◌∙◌, ap, arith, Bool, true, false, ◌&&◌, none, some, List, [], ◌∷◌,
  length, ◌==◌, if◌then◌else◌,
}
use mathlib.Core.Path.{subst, sym}
use Prim.Native.String.{String}
use orc_torrent.Prelude.Assoc.{
  string_eq, nat_eq, lookup, insert, delete, lookup-insert, lookup-delete,
}
use orc_torrent.Operations.{
  Operation, start, stop, remove, recheck, announce, is_confirmed, op_id, Batch, Hook, begin_batch,
  handle, settle_in, settle_found, settle_request, Event, settles, calls, step, run,
}

abbrev pub all_ok : List Bool → Bool
all_ok [] = true
all_ok (ok ∷ oks) = ok && all_ok oks

abbrev pub settlements : ℕ → List Bool → List Event
settlements n [] = []
settlements n (ok ∷ oks) = settles n ok ∷ settlements n oks

settle_request-found :
    (n : ℕ) (ok : Bool) (b : Batch) (s : Hook)
    → lookup n s.batches ≡ some b
    → settle_request n ok s ≡ settle_in n ok b s
unfolding settle_request
settle_request-found n ok b s h = ap (λ o. settle_found n ok o s) h

lookup-stored :
    (n : ℕ) (b : Batch) (batches : List (ℕ × Batch)) → lookup n (insert n b batches) ≡ some b
lookup-stored n b batches = ground (arith, lookup-insert n n b batches, nat_eq.beq_iff n n)

-- what a run of settlements does to the counts and the flags
abbrev pub Counts : (refreshes errors : ℕ) → List {0} (String × Unit) → Hook → Type 0
Counts refreshes errors loading t =
    (t.refreshes ≡ refreshes) × (t.errors ≡ errors) × (t.loading ≡ loading)

-- A batch that was rejected changes nothing any more but its own record.
rejected-Counts :
    (n w : ℕ) (op : Operation) (oks : List Bool) (s : Hook)
    → lookup n s.batches ≡ some (record { operation = op; waiting = w; rejected = true })
    → Counts s.refreshes s.errors s.loading (run (settlements n oks) s)
unfolding run step settle_in
rejected-Counts n w op [] s h = (refl, refl, refl)
rejected-Counts n w op (ok ∷ oks) s h =
    let b : Batch = record { operation = op; waiting = w; rejected = true } in
    let c : Batch = record b { waiting = w - 1 } in
    let t = record s { batches = insert n c s.batches } in
    subst (λ u. Counts s.refreshes s.errors s.loading (run (settlements n oks) u))
      (sym (settle_request-found n ok b s h))
      (rejected-Counts n (w - 1) op oks t (lookup-stored n c s.batches))

abbrev fresh_batch : Operation → ℕ → Batch
fresh_batch op w = record { operation = op; waiting = w; rejected = false }

settle_in-more :
    (n m : ℕ) (op : Operation) (s : Hook)
    → settle_in n true (fresh_batch op (suc (suc m))) s
      ≡ record s { batches = insert n (fresh_batch op (suc m)) s.batches }
unfolding settle_in
settle_in-more n m op s =
    let e : suc (suc m) - 1 ≡ suc m = omega arith in
    let q : (suc m == 0) ≡ false = ground arith in rw (e, q) refl

settle_in-last :
    (n : ℕ) (op : Operation) (s : Hook)
    → settle_in n true (fresh_batch op 1) s ≡ record s {
      batches = delete n s.batches;
      successes = suc s.successes;
      refreshes = suc s.refreshes;
      loading = delete (op_id op) s.loading;
    }
unfolding settle_in
settle_in-last n op s = refl

waiting-Counts :
    (n : ℕ) (op : Operation) (ok : Bool) (oks : List Bool) (s : Hook)
    → lookup n s.batches
      ≡ some (record { operation = op; waiting = length (ok ∷ oks); rejected = false })
    → (let good = all_ok (ok ∷ oks) in
        Counts
          (s.refreshes + (if good then 1 else 0))
          (s.errors + (if good then 0 else 1))
          (delete (op_id op) s.loading)
          (run (settlements n (ok ∷ oks)) s))
unfolding run step settle_in
waiting-Counts n op false oks s h =
    let c : Batch = record {
      operation = op;
      waiting = length (false ∷ oks) - 1;
      rejected = true;
    } in
    let t = record s {
      batches = insert n c s.batches;
      errors = suc s.errors;
      loading = delete (op_id op) s.loading;
    } in
    let r = rejected-Counts n (length (false ∷ oks) - 1) op oks t (lookup-stored n c s.batches) in
    subst
      (λ u.
        Counts (s.refreshes + 0) (s.errors + 1) (delete (op_id op) s.loading)
          (run (settlements n oks) u))
      (sym (settle_request-found n false (fresh_batch op (length (false ∷ oks))) s h))
      (omega (arith, r.0), omega (arith, r.1), r.2)
waiting-Counts n op true [] s h =
    subst (λ u. Counts (s.refreshes + 1) (s.errors + 0) (delete (op_id op) s.loading) u)
      (sym (settle_request-found n true (fresh_batch op 1) s h ∙ settle_in-last n op s))
      (omega arith, omega arith, refl)
waiting-Counts n op true (ok ∷ oks) s h =
    let c = fresh_batch op (length (ok ∷ oks)) in
    let t = record s { batches = insert n c s.batches } in
    subst
      (λ u.
        Counts (s.refreshes + (if all_ok (ok ∷ oks) then 1 else 0))
          (s.errors + (if all_ok (ok ∷ oks) then 0 else 1)) (delete (op_id op) s.loading)
          (run (settlements n (ok ∷ oks)) u))
      (sym (
        settle_request-found n true (fresh_batch op (suc (length (ok ∷ oks)))) s h
        ∙ settle_in-more n (length oks) op s))
      (waiting-Counts n op ok oks t (lookup-stored n c s.batches))

is_confirmed-true : (op : Operation) → is_confirmed op true ≡ true
is_confirmed-true remove = refl
is_confirmed-true start = refl
is_confirmed-true stop = refl
is_confirmed-true recheck = refl
is_confirmed-true announce = refl

handle-begins :
    (op : Operation) (id : String) (ids : List String) (s : Hook)
    → handle true true op (id ∷ ids) s ≡ begin_batch op (id ∷ ids) s
unfolding handle
handle-begins op id ids s = rw (is_confirmed-true op) refl

begun-lookup :
    (op : Operation) (id : String) (ids : List String) (w : ℕ) (s : Hook)
    → w ≡ length (id ∷ ids)
    → lookup s.next (begin_batch op (id ∷ ids) s).batches ≡ some (fresh_batch op w)
unfolding begin_batch lookup
begun-lookup op id ids w s h = ground (arith, h, nat_eq.beq_iff s.next s.next)

deleted-lookup : (k : String) (m : List {0} (String × Unit)) → lookup k (delete k m) ≡ none
deleted-lookup k m = ground (arith, lookup-delete k k m, string_eq.beq_iff k k)

-- Where the app is online, the user confirms and some torrents are chosen, once every request of the
-- operation has settled, in whatever order, the data is refreshed once if all of them succeeded and an
-- error is shown once, without a refresh, if not; and the flag of the operation is down.
pub partial_failure :
    (op : Operation) (id : String) (ids : List String) (ok : Bool) (oks : List Bool) (s : Hook)
    → length (ok ∷ oks) ≡ length (id ∷ ids)
    → (let t = run (calls true true op (id ∷ ids) ∷ settlements s.next (ok ∷ oks)) s in
        let good = all_ok (ok ∷ oks) in
        (t.refreshes ≡ s.refreshes + (if good then 1 else 0))
        × (t.errors ≡ s.errors + (if good then 0 else 1))
        × (lookup (op_id op) t.loading ≡ none))
unfolding run step begin_batch
partial_failure op id ids ok oks s h =
    let t = begin_batch op (id ∷ ids) s in
    let c = waiting-Counts s.next op ok oks t (begun-lookup op id ids (length (ok ∷ oks)) s h) in
    let u = run (settlements s.next (ok ∷ oks)) in
    let e = ap u (handle-begins op id ids s) in
    (
      ap (λ v. v.refreshes) e ∙ c.0,
      ap (λ v. v.errors) e ∙ c.1,
      ap (λ v. lookup (op_id op) v.loading) e
          ∙ ap (λ m. lookup (op_id op) m) c.2
          ∙ deleted-lookup (op_id op) t.loading,
    )
