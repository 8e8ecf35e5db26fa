-- ===== src/Cache/Flicker.antt =====
-- The two fallbacks of `getStatus` against flickering: when they apply, and what they leave behind.
use orc_torrent.Prelude.{
  ℕ, ◌-◌, ◌≡◌, ◌⊎◌, refl, ◌≤◌, sym, ◌∙◌, true, false, ◌&&◌, some, List, arith, All, ltb,
  if◌then◌else◌, Bool-cases, Option-cases, inl, inr,
}
use Prim.Native.String.{String}
use orc_torrent.Types.{State, is_error, is_active}
use orc_torrent.Prelude.Assoc.{string_eq, lookup}
use orc_torrent.Cache.{
  status_key, key_eq, Entry, Flight, Cache, Answer, hit, joined, resolved, rejected, empty,
  join_or_start, get_cached, get_status, status_then, status_catch, store_status, holds_back,
  status_ttl,
}
use orc_torrent.Cache.Sound.{empty-IsSound}
use orc_torrent.Cache.Requests.{Tracks, empty-Tracks, other_key, still_flying}
use orc_torrent.Cache.Events.{Event, find_flight, landed, run}
use orc_torrent.Cache.Stuck.{IsStuck, run-IsStuck}
use orc_torrent.Cache.Dedup.{NotClear, run-Tracks}

module _ {C S : Type 0} (state_of : S → State) where
  -- An error that arrives within 3 s of a cached status that was downloading or seeding is answered
  -- by that status; any other status is answered by itself, and is cached with its time.
  pub status_then_lem :
      (id : String) (now : ℕ) (d : S) (e : Entry S) (s : Cache C S)
      → lookup id s.status ≡ some e
      → (status_then state_of id now d s).1 ≡ (
          if is_error (state_of d) && is_active (state_of e.payload) && ltb (now - e.timestamp) 3000
          then resolved e.payload
          else resolved d)
  unfolding status_then store_status
  status_then_lem id now d e s p = rw (p, status_then) (ground arith)

  -- Until `clear` is called, a status request that was not forced never gets a fallback when it
  -- settles: a status is passed on as it is, an error state included, and a failure is a failure.
  pub unforced_no_fallback :
      (es : List (Event C S)) (n : ℕ) (f : Flight) (id : String) (now : ℕ) (d : S)
      → All NotClear es
      → find_flight n (run state_of es empty).flying ≡ some f
      → f.key ≡ status_key id
      → f.forced ≡ false
      → let s = landed n (run state_of es empty) in
        ((status_then state_of id now d s).1 ≡ resolved d) × ((status_catch id now s).1 ≡ rejected)
  unfolding status_then store_status status_catch landed
  unforced_no_fallback es n f id now d c p k u =
      let t = run-Tracks state_of es empty c empty-IsSound empty-Tracks in
      let none_there = t.bare n f id p k u in
      (rw (none_there, status_then), rw (none_there, status_catch))

module _ {C S : Type 0} (state_of : S → State) where
  held_back-IsStuck :
      (id : String) (now : ℕ) (d : S) (n : ℕ) (f : Flight) (e : Entry S) (s : Cache C S)
      → Tracks s
      → find_flight n s.flying ≡ some f
      → f.key ≡ status_key id
      → lookup id s.status ≡ some e
      → holds_back state_of now d e ≡ true
      → IsStuck (status_key id) n (status_then state_of id now d (landed n s)).0
  unfolding status_then landed
  held_back-IsStuck id now d n f e s t here k p back =
      rw (p, status_then)
        (rw back (record {
          pending = rw (← k) (t.at n f here);
          idle = λ m g q same.
              let (q', ne) = still_flying n m s.flying q in
              ne (other_key s n m f g t here q' (k ∙ sym same));
        }))

  -- What an unforced `getStatus` returns: a status that is cached and not too old, or the promise.
  abbrev pub OldAnswer : String → ℕ → ℕ → Cache C S → Answer S → Type 0
  OldAnswer id n later s a =
      (a ≡ joined n)
      ⊎ ((e : Entry S) × (lookup id s.status ≡ some e)
          × (later - e.timestamp ≤ status_ttl)
          × (a ≡ hit e.payload))

  unforced-OldAnswer :
      (id : String) (n later : ℕ) (s : Cache C S)
      → lookup (status_key id) s.pending ≡ some n
      → ((get_status id false later s).0.flying ≡ s.flying)
        × OldAnswer id n later s (get_status id false later s).1
  unfolding get_status join_or_start get_cached
  unforced-OldAnswer id n later s h = elim (Option-cases (lookup id s.status)) [
    | inl p ↦ rw (p, get_status, get_cached) (rw (h, join_or_start) (refl, inl refl))
    | inr (e, p) ↦
        rw (p, get_status, get_cached)
          (elim (Bool-cases (ltb status_ttl (later - e.timestamp))) [
            | inl old ↦ rw old (rw (h, join_or_start) (refl, inl refl))
            | inr fresh ↦ rw fresh (refl, inr (e, refl, ground (arith, fresh), refl))
          ])
  ]

  -- Once an error has been held back, its request stays pending though it has settled: until `clear`
  -- is called, whatever else happens, a forced `getStatus` of that torrent makes no request, and
  -- returns that same promise, which resolved to the status cached then. An unforced one makes no request
  -- either, and returns that promise or a cached status that is not older than its time to live.
  pub held_back_for_good :
      (id : String) (now : ℕ) (d : S) (n : ℕ) (f : Flight) (e : Entry S)
      (before after : List (Event C S)) (later : ℕ)
      → All NotClear before
      → find_flight n (run state_of before empty).flying ≡ some f
      → f.key ≡ status_key id
      → lookup id (run state_of before empty).status ≡ some e
      → holds_back state_of now d e ≡ true
      → All NotClear after
      → let s = run state_of before empty in
        let stuck = run state_of after (status_then state_of id now d (landed n s)).0 in
        (get_status id true later stuck ≡ (stuck, joined n))
        × ((get_status id false later stuck).0.flying ≡ stuck.flying)
        × OldAnswer id n later stuck (get_status id false later stuck).1
        × ((status_then state_of id now d (landed n s)).1 ≡ resolved e.payload)
  unfolding get_status join_or_start
  held_back_for_good id now d n f e before after later c here k p back c' =
      let s = run state_of before empty in
      let t = run-Tracks state_of before empty c empty-IsSound empty-Tracks in
      let first = held_back-IsStuck id now d n f e s t here k p back in
      let last = run-IsStuck state_of (status_key id) n after _ c' first in
      (
        rw (last.pending, get_status, join_or_start),
        (unforced-OldAnswer id n later _ last.pending).0,
        (unforced-OldAnswer id n later _ last.pending).1,
        unfold status_then landed in rw (p, status_then) (rw back),
      )
