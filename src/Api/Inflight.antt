-- ===== src/Api/Inflight.antt =====
-- The map `inflightRequests` of ui/desktop/src/renderer/utils/api.ts. A request's promise is a number;
-- its `finally` runs when it settles, with success or without.
use orc_torrent.Prelude.{
  ℕ, suc, ◌<◌, ◌≡◌, ◌≢◌, ◌↔◌, refl, arith, Option-cases, inl, inr, none, some, List, [], ◌∷◌,
}
use Prim.Native.String.{String}
use orc_torrent.Prelude.Assoc.{
  string_eq, nat_eq, lookup, insert, delete, lookup-insert, lookup-delete,
}

pub record Inflight : Type 0 where
  -- `inflightRequests`, by the path: the method and the body are the same for all its keys
  pub requests : List (String × ℕ)
  -- the promises that have not settled, with their paths
  pub flying : List (ℕ × String)
  pub next : ℕ

unfoldable pub idle : Inflight
idle = record { requests = []; flying = []; next = 0 }

-- `getJson` up to its promise
unfoldable pub get_json : String → Inflight → Inflight × ℕ
get_json path s = elim (lookup path s.requests) [
  | some n ↦ (s, n)
  | none ↦ (
    record {
      requests = insert path s.next s.requests;
      flying = insert s.next path s.flying;
      next = suc s.next;
    },
    s.next,
  )
]

-- a promise settles
unfoldable pub settle : ℕ → Inflight → Inflight
settle n s = elim (lookup n s.flying) [
  | none ↦ s
  | some path ↦ record s { requests = delete path s.requests; flying = delete n s.flying }
]

pub data Event : Type 0 where
  gets : String → Event
  settles : ℕ → Event

unfoldable pub step : Event → Inflight → Inflight
unfolding get_json settle
step (gets path) s = (get_json path s).0
step (settles n) s = settle n s

unfoldable pub run : List Event → Inflight → Inflight
run [] s = s
run (e ∷ es) s = run es (step e s)

-- The map holds exactly the promises that have not settled, each under its path.
pub record IsExact (s : Inflight) : Type 0 where
  pub at : (n : ℕ) (p : String) → (lookup n s.flying ≡ some p) ↔ (lookup p s.requests ≡ some n)
  pub old : (n : ℕ) (p : String) → lookup n s.flying ≡ some p → n < s.next

get_json-IsExact : (path : String) (s : Inflight) → IsExact s → IsExact (get_json path s).0
unfolding get_json
get_json-IsExact path s h = elim (Option-cases (lookup path s.requests)) [
  | inr (n, e) ↦ rw (e, get_json) h
  | inl e ↦
      rw (e, get_json)
        (record {
          at = λ n p. ground (
            arith,
            e,
            h.at n p,
            h.old n p,
            h.at n path,
            lookup-insert path p s.next s.requests,
            lookup-insert s.next n path s.flying,
            string_eq.beq_iff path p,
          );
          old = λ n p. ground (arith, h.old n p, lookup-insert s.next n path s.flying);
        })
]

settle-IsExact : (n : ℕ) (s : Inflight) → IsExact s → IsExact (settle n s)
unfolding settle
settle-IsExact n s h = elim (Option-cases (lookup n s.flying)) [
  | inl e ↦ rw (e, settle) h
  | inr (path, e) ↦
      rw (e, settle)
        (record {
          at = λ m p. ground (
            arith,
            e,
            h.at m p,
            h.at n path,
            h.at m path,
            h.at n p,
            lookup-delete path p s.requests,
            lookup-delete n m s.flying,
            string_eq.beq_iff path p,
          );
          old = λ m p. ground (arith, h.old m p, lookup-delete n m s.flying);
        })
]

step-IsExact : (e : Event) (s : Inflight) → IsExact s → IsExact (step e s)
unfolding step
step-IsExact (gets path) s h = get_json-IsExact path s h
step-IsExact (settles n) s h = settle-IsExact n s h

run-IsExact : (es : List Event) (s : Inflight) → IsExact s → IsExact (run es s)
unfolding run
run-IsExact [] s h = h
run-IsExact (e ∷ es) s h = run-IsExact es (step e s) (step-IsExact e s h)

idle-IsExact : IsExact idle
unfolding idle lookup
idle-IsExact = record { at = λ n p. ground arith; old = λ n p h. ground (arith, h) }

-- Over every sequence of calls and settlings, two promises of one path that have not settled are the
-- same, and the next call of `getJson` for a path gets the promise that has not settled, if there is one,
-- and makes a new one only if there is none.
pub one_in_flight :
    (es : List Event) (path : String)
    → ((m n : ℕ)
        → lookup m (run es idle).flying ≡ some path
        → lookup n (run es idle).flying ≡ some path
        → m ≡ n)
      × ((n : ℕ)
          → lookup n (run es idle).flying ≡ some path
          → get_json path (run es idle) ≡ (run es idle, n))
      × (((n : ℕ) → lookup n (run es idle).flying ≢ some path)
          → (get_json path (run es idle)).1 ≡ (run es idle).next)
unfolding get_json
one_in_flight es path =
    let s = run es idle in
    let h = run-IsExact es idle idle-IsExact in
    (
      λ m n p q. ground (arith, h.at m path, h.at n path),
      λ n p. rw ((h.at n path).0 p, get_json) refl,
      λ none_flies. elim (Option-cases (lookup path s.requests)) [
        | inl e ↦ rw (e, get_json) refl
        | inr (n, e) ↦ elim (none_flies n ((h.at n path).1 e)) [ ]
      ],
    )
