-- ===== src/Cache/Dedup.antt =====
-- TorrentCache while `clear` is not called: one request for a key at a time, and what becomes of the
-- fallbacks of `getStatus`.
use orc_torrent.Prelude.{
  ℕ, ◌≡◌, Bool, true, false, none, some, List, [], ◌∷◌, arith, All, Bool-cases, Option-cases, inl,
  inr,
}
use mathlib.Core.Path.{subst}
use Prim.Native.String.{String}
use orc_torrent.Types.{State}
use orc_torrent.Prelude.Assoc.{string_eq, lookup, delete, lookup-delete}
use orc_torrent.Cache.{
  content_key, status_key, key_eq, Entries, Flight, Cache, empty, get_cached, get_content,
  get_status, content_then, content_catch, status_then, status_catch, holds_back, set_cached,
  invalidate, content_ttl, status_ttl,
}
use orc_torrent.Cache.Size.{set_cached-none}
use orc_torrent.Cache.Sound.{IsSound, step-IsSound, empty-IsSound}
use orc_torrent.Cache.Requests.{
  Tracks, empty-Tracks, join_or_start-Tracks, other_key, settled-Tracks, left-Tracks,
}
use orc_torrent.Cache.Events.{
  Event, ask_content, ask_status, content_resolves, content_rejects, status_resolves,
  status_rejects, invalidates, clears, find_flight, land, landed, content_settles-rule,
  status_settles-rule, step, run,
}

abbrev pub NotClear : {C S : Type 0} → Event C S → Type 0
NotClear clears = ⊥
NotClear _ = Unit

module _ {A : Type 0} (now ttl : ℕ) (k : String) (m : Entries A) where
  get_cached-miss : (get_cached now ttl k m).0 ≡ none → lookup k (get_cached now ttl k m).1 ≡ none
  unfolding get_cached
  get_cached-miss h = ground (arith, lookup-delete k k m, string_eq.beq_iff k k)

  get_cached-none : (j : String) → lookup j m ≡ none → lookup j (get_cached now ttl k m).1 ≡ none
  unfolding get_cached
  get_cached-none j h = ground (arith, lookup-delete k j m)

module _ {C S : Type 0} where
  with_content : (s : Cache C S) (m : Entries C) → Tracks s → Tracks (record s { content = m })
  with_content s m h = record { at = h.at; old = h.old; bare = h.bare }

  with_status :
      (s : Cache C S) (m : Entries S)
      → Tracks s
      → ((id : String) → lookup id s.status ≡ none → lookup id m ≡ none)
      → Tracks (record s { status = m })
  with_status s m h k = record {
    at = h.at;
    old = h.old;
    bare = λ n f id p q u. k id (h.bare n f id p q u);
  }

  get_content-Tracks :
      (id : String) (forced : Bool) (now : ℕ) (s : Cache C S)
      → Tracks s
      → Tracks (get_content id forced now s).0
  unfolding get_content
  get_content-Tracks id true now s h =
      join_or_start-Tracks C (content_key id) true s h (λ i e u. cc)
  get_content-Tracks id false now s h =
      let m = (get_cached now content_ttl id s.content).1 in
      let t = with_content s m h in
      elim (Option-cases (get_cached now content_ttl id s.content).0) [
        | inl e ↦
            rw (e, get_content)
              (join_or_start-Tracks C (content_key id) false (record s { content = m }) t
                (λ i p u. ground arith))
        | inr (c, e) ↦ rw (e, get_content) t
      ]

  get_status-Tracks :
      (id : String) (forced : Bool) (now : ℕ) (s : Cache C S)
      → Tracks s
      → Tracks (get_status id forced now s).0
  unfolding get_status
  get_status-Tracks id true now s h = join_or_start-Tracks S (status_key id) true s h (λ i e u. cc)
  get_status-Tracks id false now s h =
      let m = (get_cached now status_ttl id s.status).1 in
      let t = with_status s m h (get_cached-none now status_ttl id s.status) in
      elim (Option-cases (get_cached now status_ttl id s.status).0) [
        | inl e ↦
            rw (e, get_status)
              (join_or_start-Tracks S (status_key id) false (record s { status = m }) t
                (λ i p u. ground (arith, get_cached-miss now status_ttl id s.status)))
        | inr (c, e) ↦ rw (e, get_status) t
      ]

  content_settled-Tracks :
      (id : String) (n : ℕ) (f : Flight) (m : Entries C) (s : Cache C S)
      → Tracks s
      → find_flight n s.flying ≡ some f
      → f.key ≡ content_key id
      → Tracks (record s {
        content = m;
        flying = land n s.flying;
        pending = delete (content_key id) s.pending;
      })
  content_settled-Tracks id n f m s h here k =
      subst
        (λ key.
          Tracks
            (record s { content = m; flying = land n s.flying; pending = delete key s.pending }))
        k (settled-Tracks s n f m s.status h here (λ i ne p. p))

  status_settled-Tracks :
      (id : String) (n : ℕ) (f : Flight) (m : Entries S) (s : Cache C S)
      → Tracks s
      → find_flight n s.flying ≡ some f
      → f.key ≡ status_key id
      → ((i : String) → string_eq.beq id i ≡ false → lookup i s.status ≡ none → lookup i m ≡ none)
      → Tracks (record s {
        status = m;
        flying = land n s.flying;
        pending = delete (status_key id) s.pending;
      })
  status_settled-Tracks id n f m s h here k kept =
      subst
        (λ key.
          Tracks
            (record s { status = m; flying = land n s.flying; pending = delete key s.pending }))
        k
        (settled-Tracks s n f s.content m h here
          (λ i ne p. kept i (ground (arith, ne, k, string_eq.beq_iff id i)) p))

module _ {C S : Type 0} (state_of : S → State) where
  status_then-Tracks :
      (id : String) (now : ℕ) (d : S) (n : ℕ) (f : Flight) (s : Cache C S)
      → IsSound s
      → Tracks s
      → find_flight n s.flying ≡ some f
      → f.key ≡ status_key id
      → Tracks (status_then state_of id now d (landed n s)).0
  unfolding status_then landed
  status_then-Tracks id now d n f s v h here k =
      let stored =
        status_settled-Tracks id n f (set_cached now id d s.status) s h here k
          (λ i ne p. set_cached-none now id d s.status i v.status_unique p ne) in
      elim (Option-cases (lookup id s.status)) [
        | inl e ↦ rw (e, status_then) stored
        | inr (e, p) ↦
            rw (p, status_then)
              (elim (Bool-cases (holds_back state_of now d e)) [
                | inl back ↦ rw back (left-Tracks s n h)
                | inr store ↦ rw store stored
              ])
      ]

  pub step-Tracks :
      (e : Event C S) (s : Cache C S)
      → NotClear e
      → IsSound s
      → Tracks s
      → Tracks (step state_of e s)
  unfolding step
  step-Tracks (ask_content id forced now) s c v h = get_content-Tracks id forced now s h
  step-Tracks (ask_status id forced now) s c v h = get_status-Tracks id forced now s h
  step-Tracks (content_resolves n now x) s c v h =
      content_settles-rule Tracks n (λ id t. (content_then id now x t).0) s h
        (λ f id here k.
          unfold content_then landed in
          content_settled-Tracks id n f (set_cached now id x s.content) s h here k)
  step-Tracks (content_rejects n) s c v h =
      content_settles-rule Tracks n (λ id t. (content_catch id t).0) s h
        (λ f id here k.
          unfold content_catch landed in content_settled-Tracks id n f s.content s h here k)
  step-Tracks (status_resolves n now d) s c v h =
      status_settles-rule Tracks n (λ id t. (status_then state_of id now d t).0) s h
        (λ f id here k. status_then-Tracks id now d n f s v h here k)
  step-Tracks (status_rejects n now) s c v h =
      status_settles-rule Tracks n (λ id t. (status_catch id now t).0) s h
        (λ f id here k.
          unfold status_catch landed in
          status_settled-Tracks id n f s.status s h here k (λ i ne p. p))
  step-Tracks (invalidates id) s c v h =
      unfold invalidate in
      record {
        at = h.at;
        old = h.old;
        bare = λ n f i p q u. ground (arith, lookup-delete id i s.status, h.bare n f i p q u);
      }
  step-Tracks clears s c v h = absurd c

  pub run-Tracks :
      (es : List (Event C S)) (s : Cache C S)
      → All NotClear es
      → IsSound s
      → Tracks s
      → Tracks (run state_of es s)
  unfolding run
  run-Tracks [] s c v h = h
  run-Tracks (e ∷ es) s c v h =
      run-Tracks es (step state_of e s) c.1 (step-IsSound state_of e s v) (step-Tracks e s c.0 v h)

  -- Until `clear` is called, two requests in flight for one key are the same request.
  pub one_request_per_key :
      (es : List (Event C S)) (n m : ℕ) (f g : Flight)
      → All NotClear es
      → find_flight n (run state_of es empty).flying ≡ some f
      → find_flight m (run state_of es empty).flying ≡ some g
      → f.key ≡ g.key
      → n ≡ m
  one_request_per_key es n m f g c p q e =
      other_key (run state_of es empty) n m f g (run-Tracks es empty c empty-IsSound empty-Tracks) p
        q e
