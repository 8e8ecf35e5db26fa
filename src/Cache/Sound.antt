-- ===== src/Cache/Sound.antt =====
-- TorrentCache over its life: the maps have distinct keys and the caches keep to their bound.
use orc_torrent.Prelude.{
  ℕ, ◌≤◌, Bool, true, false, List, [], ◌∷◌, length, arith, Option-cases, inl, inr,
}
use Prim.Native.String.{String}
use orc_torrent.Types.{State}
use orc_torrent.Prelude.Assoc.{string_eq, length-delete, Unique, insert-Unique, delete-Unique}
use orc_torrent.Cache.{
  Key, content_key, status_key, key_eq, Entries, Cache, max_cache_size, get_cached, empty,
  join_or_start, get_content, get_status, content_then, content_catch, status_then, status_catch,
  invalidate, clear, content_ttl, status_ttl,
}
use orc_torrent.Cache.Size.{set_cached-Unique, length-set_cached}
use orc_torrent.Cache.Events.{
  Event, ask_content, ask_status, content_resolves, content_rejects, status_resolves,
  status_rejects, invalidates, clears, landed, content_settles-rule, status_settles-rule, step, run,
}

pub record IsSound {C S : Type 0} (s : Cache C S) : Type 0 where
  pub content_unique : Unique s.content
  pub status_unique : Unique s.status
  pub pending_unique : Unique s.pending
  pub content_fits : length s.content ≤ max_cache_size
  pub status_fits : length s.status ≤ max_cache_size

module _ {A : Type 0} (now ttl : ℕ) (k : String) (m : Entries A) where
  get_cached-Unique : Unique m → Unique (get_cached now ttl k m).1
  unfolding get_cached
  get_cached-Unique u = ground (arith, delete-Unique k m)

  length-get_cached : length (get_cached now ttl k m).1 ≤ length m
  unfolding get_cached
  length-get_cached = ground (arith, length-delete k m)

module _ {C S : Type 0} where
  pub empty-IsSound : IsSound (empty {C = C} {S = S})
  unfolding empty
  empty-IsSound = record {
    content_unique = tt;
    status_unique = tt;
    pending_unique = tt;
    content_fits = omega arith;
    status_fits = omega arith;
  }

  join_or_start-IsSound :
      (A : Type 0) (k : Key) (forced : Bool) (s : Cache C S)
      → IsSound s
      → IsSound (join_or_start {A = A} k forced s).0
  unfolding join_or_start
  join_or_start-IsSound A k forced s h = ground (arith, insert-Unique k s.next s.pending)

  with_content :
      (m : Entries C) (s : Cache C S)
      → IsSound s
      → Unique m
      → length m ≤ max_cache_size
      → IsSound (record s { content = m })
  with_content m s h u l = ground arith

  with_status :
      (m : Entries S) (s : Cache C S)
      → IsSound s
      → Unique m
      → length m ≤ max_cache_size
      → IsSound (record s { status = m })
  with_status m s h u l = ground arith

  get_content-IsSound :
      (id : String) (forced : Bool) (now : ℕ) (s : Cache C S)
      → IsSound s
      → IsSound (get_content id forced now s).0
  unfolding get_content
  get_content-IsSound id true now s h = join_or_start-IsSound C (content_key id) true s h
  get_content-IsSound id false now s h =
      let m = (get_cached now content_ttl id s.content).1 in
      let t =
        with_content m s h (get_cached-Unique now content_ttl id s.content h.content_unique)
          (omega (arith, length-get_cached now content_ttl id s.content)) in
      elim (Option-cases (get_cached now content_ttl id s.content).0) [
        | inl e ↦
            rw (e, get_content)
              (join_or_start-IsSound C (content_key id) false (record s { content = m }) t)
        | inr (c, e) ↦ rw (e, get_content) t
      ]

  get_status-IsSound :
      (id : String) (forced : Bool) (now : ℕ) (s : Cache C S)
      → IsSound s
      → IsSound (get_status id forced now s).0
  unfolding get_status
  get_status-IsSound id true now s h = join_or_start-IsSound S (status_key id) true s h
  get_status-IsSound id false now s h =
      let m = (get_cached now status_ttl id s.status).1 in
      let t =
        with_status m s h (get_cached-Unique now status_ttl id s.status h.status_unique)
          (omega (arith, length-get_cached now status_ttl id s.status)) in
      elim (Option-cases (get_cached now status_ttl id s.status).0) [
        | inl e ↦
            rw (e, get_status)
              (join_or_start-IsSound S (status_key id) false (record s { status = m }) t)
        | inr (c, e) ↦ rw (e, get_status) t
      ]

  landed-IsSound : (n : ℕ) (s : Cache C S) → IsSound s → IsSound (landed n s)
  unfolding landed
  landed-IsSound n s h = ground arith

  content_then-IsSound :
      (id : String) (now : ℕ) (c : C) (s : Cache C S)
      → IsSound s
      → IsSound (content_then id now c s).0
  unfolding content_then
  content_then-IsSound id now c s h = ground (
    arith,
    set_cached-Unique now id c s.content,
    length-set_cached now id c s.content,
    delete-Unique (content_key id) s.pending,
  )

  content_catch-IsSound : (id : String) (s : Cache C S) → IsSound s → IsSound (content_catch id s).0
  unfolding content_catch
  content_catch-IsSound id s h = ground (arith, delete-Unique (content_key id) s.pending)

  status_then-IsSound :
      (state_of : S → State) (id : String) (now : ℕ) (d : S) (s : Cache C S)
      → IsSound s
      → IsSound (status_then state_of id now d s).0
  unfolding status_then
  status_then-IsSound state_of id now d s h = ground (
    arith,
    set_cached-Unique now id d s.status,
    length-set_cached now id d s.status,
    delete-Unique (status_key id) s.pending,
  )

  status_catch-IsSound :
      (id : String) (now : ℕ) (s : Cache C S) → IsSound s → IsSound (status_catch id now s).0
  unfolding status_catch
  status_catch-IsSound id now s h = ground (arith, delete-Unique (status_key id) s.pending)

  invalidate-IsSound : (id : String) (s : Cache C S) → IsSound s → IsSound (invalidate id s)
  unfolding invalidate
  invalidate-IsSound id s h = ground (
    arith,
    delete-Unique id s.content,
    delete-Unique id s.status,
    length-delete id s.content,
    length-delete id s.status,
  )

  clear-IsSound : (s : Cache C S) → IsSound s → IsSound (clear s)
  unfolding clear
  clear-IsSound s h = ground arith

module _ {C S : Type 0} (state_of : S → State) where
  -- Every call and every settling keeps the cache sound.
  pub step-IsSound : (e : Event C S) (s : Cache C S) → IsSound s → IsSound (step state_of e s)
  unfolding step
  step-IsSound (ask_content id forced now) s h = get_content-IsSound id forced now s h
  step-IsSound (ask_status id forced now) s h = get_status-IsSound id forced now s h
  step-IsSound (content_resolves n now c) s h =
      content_settles-rule IsSound n (λ id t. (content_then id now c t).0) s h
        (λ f id _ _. content_then-IsSound id now c (landed n s) (landed-IsSound n s h))
  step-IsSound (content_rejects n) s h =
      content_settles-rule IsSound n (λ id t. (content_catch id t).0) s h
        (λ f id _ _. content_catch-IsSound id (landed n s) (landed-IsSound n s h))
  step-IsSound (status_resolves n now d) s h =
      status_settles-rule IsSound n (λ id t. (status_then state_of id now d t).0) s h
        (λ f id _ _. status_then-IsSound state_of id now d (landed n s) (landed-IsSound n s h))
  step-IsSound (status_rejects n now) s h =
      status_settles-rule IsSound n (λ id t. (status_catch id now t).0) s h
        (λ f id _ _. status_catch-IsSound id now (landed n s) (landed-IsSound n s h))
  step-IsSound (invalidates id) s h = invalidate-IsSound id s h
  step-IsSound clears s h = clear-IsSound s h

  pub run-IsSound :
      (es : List (Event C S)) (s : Cache C S) → IsSound s → IsSound (run state_of es s)
  unfolding run
  run-IsSound [] s h = h
  run-IsSound (e ∷ es) s h = run-IsSound es (step state_of e s) (step-IsSound e s h)

  -- From an empty cache, after any calls and any settling of requests, both caches hold at most 200
  -- entries and no map holds a key twice.
  pub run-empty-IsSound : (es : List (Event C S)) → IsSound (run state_of es empty)
  run-empty-IsSound es = run-IsSound es empty empty-IsSound
