-- ===== src/Cache/Requests.antt =====
-- Request deduplication of TorrentCache: how `pendingRequests` follows the requests in flight.
use orc_torrent.Prelude.{
  ℕ, ◌<◌, ◌≡◌, ◌≢◌, refl, sym, ◌∙◌, ap, Bool, false, none, some, List, [], ◌∷◌, arith, ◌==◌,
  Bool-cases, Option-cases, inl, inr,
}
use Prim.Native.String.{String}
use orc_torrent.Prelude.Assoc.{string_eq, lookup, delete, lookup-insert, lookup-delete}
use orc_torrent.Cache.{
  Key, status_key, same_key_iff, key_eq, Entries, Flight, Cache, empty, join_or_start,
}
use orc_torrent.Cache.Events.{find_flight, land}

pub find_flight-land_self : (n : ℕ) (fs : List Flight) → find_flight n (land n fs) ≡ none
unfolding find_flight land
find_flight-land_self n [] = refl
find_flight-land_self n (f ∷ fs) = ground (arith, find_flight-land_self n fs)

find_flight-land_ne :
    (n m : ℕ) (fs : List Flight) → n ≢ m → find_flight m (land n fs) ≡ find_flight m fs
unfolding find_flight land
find_flight-land_ne n m [] h = refl
find_flight-land_ne n m (f ∷ fs) h = ground (arith, find_flight-land_ne n m fs h)

pub still_flying :
    (n m : ℕ) (fs : List Flight) {g : Flight}
    → find_flight m (land n fs) ≡ some g
    → (find_flight m fs ≡ some g) × (n ≢ m)
still_flying n m fs {g} p = elim (Bool-cases (n == m)) [
  | inl same ↦
      let e : n ≡ m = ground arith in
      absurd (cc (find_flight-land_self n fs, ap (λ k. find_flight k (land n fs)) e, p))
  | inr other ↦ let ne : n ≢ m = ground arith in (sym (find_flight-land_ne n m fs ne) ∙ p, ne)
]

-- Every flight is the pending request of its key, numbers are given once, and while a status
-- request that was not forced is in flight, the cache has no entry for its torrent.
pub record Tracks {C S : Type 0} (s : Cache C S) : Type 0 where
  pub at : (n : ℕ) (f : Flight) → find_flight n s.flying ≡ some f → lookup f.key s.pending ≡ some n
  pub old : (k : Key) (n : ℕ) → lookup k s.pending ≡ some n → n < s.next
  pub bare :
      (n : ℕ) (f : Flight) (id : String)
      → find_flight n s.flying ≡ some f
      → f.key ≡ status_key id
      → f.forced ≡ false
      → lookup id s.status ≡ none

module _ {C S : Type 0} where
  pub empty-Tracks : Tracks (empty {C = C} {S = S})
  unfolding empty find_flight lookup
  empty-Tracks = record { at = λ n f h. cc; old = λ k n h. cc; bare = λ n f id h e u. cc }

  -- A new request may be unforced only where its torrent's status is not cached.
  pub join_or_start-Tracks :
      (A : Type 0) (k : Key) (forced : Bool) (s : Cache C S)
      → Tracks s
      → ((id : String) → k ≡ status_key id → forced ≡ false → lookup id s.status ≡ none)
      → Tracks (join_or_start {A = A} k forced s).0
  unfolding join_or_start
  join_or_start-Tracks A k forced s h free = elim (Option-cases (lookup k s.pending)) [
    | inr (n, e) ↦ rw (e, join_or_start) h
    | inl e ↦
        rw (e, join_or_start)
          (record {
            at = λ n f p.
                unfold find_flight in
                ground (
                  arith,
                  lookup-insert k f.key s.next s.pending,
                  h.at n f,
                  h.old f.key n,
                  same_key_iff k f.key,
                );
            old = λ j n p. ground (arith, lookup-insert k j s.next s.pending, h.old j n);
            bare = λ n f id p q u. unfold find_flight in ground (arith, h.bare n f id, free id);
          })
  ]

  -- Two flights have two keys.
  pub other_key :
      (s : Cache C S) (n m : ℕ) (f g : Flight)
      → Tracks s
      → find_flight n s.flying ≡ some f
      → find_flight m s.flying ≡ some g
      → f.key ≡ g.key
      → n ≡ m
  other_key s n m f g h p q e = cc (h.at n f p, h.at m g q)

  -- The handlers of a flight drop its key from `pendingRequests`, and write what they like of the
  -- caches but the entries of other unforced requests.
  pub settled-Tracks :
      (s : Cache C S) (n : ℕ) (f : Flight) (c : Entries C) (d : Entries S)
      → Tracks s
      → find_flight n s.flying ≡ some f
      → ((id : String) → status_key id ≢ f.key → lookup id s.status ≡ none → lookup id d ≡ none)
      → Tracks (record s {
        content = c;
        status = d;
        flying = land n s.flying;
        pending = delete f.key s.pending;
      })
  settled-Tracks s n f c d h here kept = record {
    at = λ m g p.
        let (p', ne) = still_flying n m s.flying p in
        ground (
          arith,
          lookup-delete f.key g.key s.pending,
          h.at m g p',
          same_key_iff f.key g.key,
          other_key s n m f g h here p',
        );
    old = λ j m p. ground (arith, lookup-delete f.key j s.pending, h.old j m);
    bare = λ m g id p q u.
        let (p', ne) = still_flying n m s.flying p in
        kept id (λ e. ne (other_key s n m f g h here p' (sym e ∙ sym q))) (h.bare m g id p' q u);
  }

  -- A flight may also end with its key left behind.
  pub left-Tracks :
      (s : Cache C S) (n : ℕ) → Tracks s → Tracks (record s { flying = land n s.flying })
  left-Tracks s n h = record {
    at = λ m g p. h.at m g (still_flying n m s.flying p).0;
    old = h.old;
    bare = λ m g id p q u. h.bare m g id (still_flying n m s.flying p).0 q u;
  }
