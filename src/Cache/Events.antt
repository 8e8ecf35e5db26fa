-- ===== src/Cache/Events.antt =====
-- The life of a TorrentCache (utils/torrentCache.ts): calls of its methods, and the settling of the
-- requests that it started, in any order. A request settles once, and its handlers run at once.
use orc_torrent.Prelude.{
  ℕ, ◌≡◌, refl, Option-cases, inl, inr, Bool, Option, none, some, List, [], ◌∷◌, ◌==◌,
  if◌then◌else◌,
}
use Prim.Native.String.{String}
use orc_torrent.Types.{State}
use orc_torrent.Cache.{
  content_key, status_key, Flight, Cache, get_content, get_status, content_then, content_catch,
  status_then, status_catch, invalidate, clear,
}

-- Requests go by their numbers, times are the clock's.
pub data Event (C S : Type 0) : Type 0 where
  ask_content ask_status : String → Bool → ℕ → Event C S
  content_resolves : ℕ → ℕ → C → Event C S
  content_rejects : ℕ → Event C S
  status_resolves : ℕ → ℕ → S → Event C S
  status_rejects : ℕ → ℕ → Event C S
  invalidates : String → Event C S
  clears : Event C S

-- the flight with a number
unfoldable pub find_flight : ℕ → List Flight → Option Flight
find_flight n [] = none
find_flight n (f ∷ fs) = if f.number == n then some f else find_flight n fs

unfoldable pub land : ℕ → List Flight → List Flight
land n [] = []
land n (f ∷ fs) = let rest = land n fs in if f.number == n then rest else f ∷ rest

module _ {C S : Type 0} where
  unfoldable pub landed : ℕ → Cache C S → Cache C S
  landed n s = record s { flying = land n s.flying }

  -- what a request's handlers do: of content and of status
  unfoldable pub content_settles : ℕ → (String → Cache C S → Cache C S) → Cache C S → Cache C S
  unfolding landed
  content_settles n handler s = elim (find_flight n s.flying) [
    | none ↦ s
    | some f ↦ elim f.key [ content_key id ↦ handler id (landed n s) | status_key id ↦ s ]
  ]

  unfoldable pub status_settles : ℕ → (String → Cache C S → Cache C S) → Cache C S → Cache C S
  unfolding landed
  status_settles n handler s = elim (find_flight n s.flying) [
    | none ↦ s
    | some f ↦ elim f.key [ content_key id ↦ s | status_key id ↦ handler id (landed n s) ]
  ]

-- To show something of what a settling leaves, show it of the state as it was, and of what the
-- handlers make of it if the request is in flight and of their kind.
module _ {C S : Type 0} (P : Cache C S → Type 0) (n : ℕ) (handler : String → Cache C S → Cache C S)
    (s : Cache C S) where
  pub content_settles-rule :
      P s
      → ((f : Flight) (id : String)
          → find_flight n s.flying ≡ some f
          → f.key ≡ content_key id
          → P (handler id (landed n s)))
      → P (content_settles n handler s)
  unfolding content_settles
  content_settles-rule h k = elim (Option-cases (find_flight n s.flying)) [
    | inl e ↦ rw (e, content_settles) h
    | inr (f, e) ↦
        rw (e, content_settles)
          ((elim f.key
              as (λ key.
                f.key ≡ key
                → P (elim key [ content_key id ↦ handler id (landed n s) | status_key id ↦ s ])) [
                  | content_key id ↦ λ same. k f id e same
                  | status_key id ↦ λ same. h
                ])
            refl)
  ]

  pub status_settles-rule :
      P s
      → ((f : Flight) (id : String)
          → find_flight n s.flying ≡ some f
          → f.key ≡ status_key id
          → P (handler id (landed n s)))
      → P (status_settles n handler s)
  unfolding status_settles
  status_settles-rule h k = elim (Option-cases (find_flight n s.flying)) [
    | inl e ↦ rw (e, status_settles) h
    | inr (f, e) ↦
        rw (e, status_settles)
          ((elim f.key
              as (λ key.
                f.key ≡ key
                → P (elim key [ content_key id ↦ s | status_key id ↦ handler id (landed n s) ])) [
                  | content_key id ↦ λ same. h
                  | status_key id ↦ λ same. k f id e same
                ])
            refl)
  ]

module _ {C S : Type 0} (state_of : S → State) where
  unfoldable pub step : Event C S → Cache C S → Cache C S
  unfolding content_settles status_settles
  step (ask_content id forced now) s = (get_content id forced now s).0
  step (ask_status id forced now) s = (get_status id forced now s).0
  step (content_resolves n now c) s = content_settles n (λ id t. (content_then id now c t).0) s
  step (content_rejects n) s = content_settles n (λ id t. (content_catch id t).0) s
  step (status_resolves n now d) s =
      status_settles n (λ id t. (status_then state_of id now d t).0) s
  step (status_rejects n now) s = status_settles n (λ id t. (status_catch id now t).0) s
  step (invalidates id) s = invalidate id s
  step clears s = clear s

  unfoldable pub run : List (Event C S) → Cache C S → Cache C S
  run [] s = s
  run (e ∷ es) s = run es (step e s)
