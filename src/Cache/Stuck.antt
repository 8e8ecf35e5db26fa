-- ===== src/Cache/Stuck.antt =====
-- A pending request that settled long ago (utils/torrentCache.ts of ui/desktop/src/renderer), and what leaves it
-- pending.
use orc_torrent.Prelude.{
  ℕ, ◌≡◌, ◌≢◌, Bool, true, false, some, List, [], ◌∷◌, arith, All, Bool-cases, Option-cases, inl,
  inr,
}
use Prim.Native.String.{String}
use orc_torrent.Types.{State}
use orc_torrent.Prelude.Assoc.{string_eq, lookup, delete, lookup-insert, lookup-delete}
use orc_torrent.Cache.{
  Key, content_key, status_key, same_key_iff, key_eq, Entries, Flight, Cache, join_or_start,
  get_cached, get_content, get_status, content_then, content_catch, status_then, status_catch,
  holds_back, set_cached, invalidate, content_ttl, status_ttl,
}
use orc_torrent.Cache.Requests.{still_flying}
use orc_torrent.Cache.Events.{
  Event, ask_content, ask_status, content_resolves, content_rejects, status_resolves,
  status_rejects, invalidates, clears, find_flight, land, landed, content_settles-rule,
  status_settles-rule, step, run,
}
use orc_torrent.Cache.Dedup.{NotClear}

-- No request for the key is in flight, and yet one is pending: its promise settled long ago.
pub record IsStuck {C S : Type 0} (k : Key) (n : ℕ) (s : Cache C S) : Type 0 where
  pub pending : lookup k s.pending ≡ some n
  pub idle : (m : ℕ) (f : Flight) → find_flight m s.flying ≡ some f → f.key ≢ k

module _ {C S : Type 0} (k : Key) (n : ℕ) where
  join_or_start-IsStuck :
      (A : Type 0) (j : Key) (forced : Bool) (s : Cache C S)
      → IsStuck k n s
      → IsStuck k n (join_or_start {A = A} j forced s).0
  unfolding join_or_start
  join_or_start-IsStuck A j forced s h = elim (Option-cases (lookup j s.pending)) [
    | inr (m, e) ↦ rw (e, join_or_start) h
    | inl e ↦
        rw (e, join_or_start)
          (record {
            pending =
                ground (arith, lookup-insert j k s.next s.pending, h.pending, same_key_iff j k);
            idle = λ m f p. unfold find_flight in ground (arith, h.pending, h.idle m f);
          })
  ]

  with_content :
      (m : Entries C) (s : Cache C S) → IsStuck k n s → IsStuck k n (record s { content = m })
  with_content m s h = record { pending = h.pending; idle = h.idle }

  with_status :
      (m : Entries S) (s : Cache C S) → IsStuck k n s → IsStuck k n (record s { status = m })
  with_status m s h = record { pending = h.pending; idle = h.idle }

  get_content-IsStuck :
      (id : String) (forced : Bool) (now : ℕ) (s : Cache C S)
      → IsStuck k n s
      → IsStuck k n (get_content id forced now s).0
  unfolding get_content
  get_content-IsStuck id true now s h = join_or_start-IsStuck C (content_key id) true s h
  get_content-IsStuck id false now s h =
      let m = (get_cached now content_ttl id s.content).1 in
      let t = with_content m s h in
      elim (Option-cases (get_cached now content_ttl id s.content).0) [
        | inl e ↦
            rw (e, get_content)
              (join_or_start-IsStuck C (content_key id) false (record s { content = m }) t)
        | inr (c, e) ↦ rw (e, get_content) t
      ]

  get_status-IsStuck :
      (id : String) (forced : Bool) (now : ℕ) (s : Cache C S)
      → IsStuck k n s
      → IsStuck k n (get_status id forced now s).0
  unfolding get_status
  get_status-IsStuck id true now s h = join_or_start-IsStuck S (status_key id) true s h
  get_status-IsStuck id false now s h =
      let m = (get_cached now status_ttl id s.status).1 in
      let t = with_status m s h in
      elim (Option-cases (get_cached now status_ttl id s.status).0) [
        | inl e ↦
            rw (e, get_status)
              (join_or_start-IsStuck S (status_key id) false (record s { status = m }) t)
        | inr (c, e) ↦ rw (e, get_status) t
      ]

  -- Another request settles.
  settled-IsStuck :
      (s : Cache C S) (m : ℕ) (f : Flight) (j : Key) (c : Entries C) (d : Entries S)
      → IsStuck k n s
      → find_flight m s.flying ≡ some f
      → f.key ≡ j
      → IsStuck k n (record s {
        content = c;
        status = d;
        flying = land m s.flying;
        pending = delete j s.pending;
      })
  settled-IsStuck s m f j c d h here same = record {
    pending =
        ground
          (arith, lookup-delete j k s.pending, h.pending, same_key_iff j k, h.idle m f here, same);
    idle = λ i g p. h.idle i g (still_flying m i s.flying p).0;
  }

module _ {C S : Type 0} (state_of : S → State) (k : Key) (n : ℕ) where
  status_then-IsStuck :
      (id : String) (now : ℕ) (d : S) (m : ℕ) (f : Flight) (s : Cache C S)
      → IsStuck k n s
      → find_flight m s.flying ≡ some f
      → f.key ≡ status_key id
      → IsStuck k n (status_then state_of id now d (landed m s)).0
  unfolding status_then landed
  status_then-IsStuck id now d m f s h here e =
      let stored =
        settled-IsStuck k n s m f (status_key id) s.content (set_cached now id d s.status) h here
          e in
      elim (Option-cases (lookup id s.status)) [
        | inl p ↦ rw (p, status_then) stored
        | inr (o, p) ↦
            rw (p, status_then)
              (elim (Bool-cases (holds_back state_of now d o)) [
                | inl back ↦ rw back (record {
                  pending = h.pending;
                  idle = λ i g q. h.idle i g (still_flying m i s.flying q).0;
                })
                | inr store ↦ rw store stored
              ])
      ]

  step-IsStuck :
      (e : Event C S) (s : Cache C S) → NotClear e → IsStuck k n s → IsStuck k n (step state_of e s)
  unfolding step
  step-IsStuck (ask_content id forced now) s c h = get_content-IsStuck k n id forced now s h
  step-IsStuck (ask_status id forced now) s c h = get_status-IsStuck k n id forced now s h
  step-IsStuck (content_resolves m now x) s c h =
      content_settles-rule (IsStuck k n) m (λ id t. (content_then id now x t).0) s h
        (λ f id here e.
          unfold content_then landed in
          settled-IsStuck k n s m f (content_key id) (set_cached now id x s.content) s.status h here
            e)
  step-IsStuck (content_rejects m) s c h =
      content_settles-rule (IsStuck k n) m (λ id t. (content_catch id t).0) s h
        (λ f id here e.
          unfold content_catch landed in
          settled-IsStuck k n s m f (content_key id) s.content s.status h here e)
  step-IsStuck (status_resolves m now d) s c h =
      status_settles-rule (IsStuck k n) m (λ id t. (status_then state_of id now d t).0) s h
        (λ f id here e. status_then-IsStuck id now d m f s h here e)
  step-IsStuck (status_rejects m now) s c h =
      status_settles-rule (IsStuck k n) m (λ id t. (status_catch id now t).0) s h
        (λ f id here e.
          unfold status_catch landed in
          settled-IsStuck k n s m f (status_key id) s.content s.status h here e)
  step-IsStuck (invalidates id) s c h =
      unfold invalidate in record { pending = h.pending; idle = h.idle }
  step-IsStuck clears s c h = absurd c

  pub run-IsStuck :
      (es : List (Event C S)) (s : Cache C S)
      → All NotClear es
      → IsStuck k n s
      → IsStuck k n (run state_of es s)
  unfolding run
  run-IsStuck [] s c h = h
  run-IsStuck (e ∷ es) s c h = run-IsStuck es (step state_of e s) c.1 (step-IsStuck e s c.0 h)
