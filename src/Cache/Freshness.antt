-- ===== src/Cache/Freshness.antt =====
-- How long TorrentCache answers from what it stored.
use orc_torrent.Prelude.{
  ℕ, ◌-◌, ◌≡◌, Bool, true, false, not, ◌&&◌, arith, leb, if◌then◌else◌, Option-cases, inl, inr,
}
use Prim.Native.String.{String}
use orc_torrent.Types.{State, is_error}
use orc_torrent.Prelude.Assoc.{string_eq, lookup, lookup-delete}
use orc_torrent.Cache.{
  content_key, status_key, key_eq, same_key_iff, Cache, hit, started, join_or_start, get_cached,
  get_content, get_status, content_then, status_then, store_status,
}
use orc_torrent.Cache.Size.{lookup-set_cached_self}
use orc_torrent.Cache.Sound.{IsSound}

module _ {C S : Type 0} where
  -- After a file list was fetched, an unforced read within 60 s returns it; a later one, or a forced
  -- one, starts a new request.
  pub content_read_back :
      (id : String) (now later : ℕ) (forced : Bool) (c : C) (s : Cache C S)
      → IsSound s
      → (get_content id forced later (content_then id now c s).0).1
        ≡ (if not forced && leb (later - now) 60000 then hit c else started s.next)
  unfolding get_content content_then get_cached join_or_start
  content_read_back id now later true c s h = ground (
    arith,
    lookup-delete (content_key id) (content_key id) s.pending,
    same_key_iff (content_key id) (content_key id),
  )
  content_read_back id now later false c s h = ground (
    arith,
    lookup-set_cached_self now id c s.content h.content_unique,
    lookup-delete (content_key id) (content_key id) s.pending,
    same_key_iff (content_key id) (content_key id),
  )

module _ {C S : Type 0} (state_of : S → State) where
  status_then_stores :
      (id : String) (now : ℕ) (d : S) (s : Cache C S)
      → is_error (state_of d) ≡ false
      → status_then state_of id now d s ≡ store_status id now d s
  unfolding status_then
  status_then_stores id now d s h = elim (Option-cases (lookup id s.status)) [
    | inl p ↦ rw (p, status_then)
    | inr (e, p) ↦ rw (p, status_then) (rw h)
  ]

  -- After a status without an error arrived, an unforced read within 2.5 s returns it; a later one,
  -- or a forced one, starts a new request.
  pub status_read_back :
      (id : String) (now later : ℕ) (forced : Bool) (d : S) (s : Cache C S)
      → IsSound s
      → is_error (state_of d) ≡ false
      → (get_status id forced later (status_then state_of id now d s).0).1
        ≡ (if not forced && leb (later - now) 2500 then hit d else started s.next)
  unfolding get_status store_status get_cached join_or_start
  status_read_back id now later true d s h e = rw (status_then_stores id now d s e) (
      ground (
        arith,
        lookup-delete (status_key id) (status_key id) s.pending,
        same_key_iff (status_key id) (status_key id),
      ))
  status_read_back id now later false d s h e = rw (status_then_stores id now d s e) (
      ground (
        arith,
        lookup-set_cached_self now id d s.status h.status_unique,
        lookup-delete (status_key id) (status_key id) s.pending,
        same_key_iff (status_key id) (status_key id),
      ))
