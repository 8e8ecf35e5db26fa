-- ===== src/Cache.antt =====
-- utils/torrentCache.ts of ui/desktop/src/renderer: the class TorrentCache. `Date.now()` is an
-- argument, in milliseconds. The payload types are parameters; of a status the code reads `state`.
-- A request's promise is a number. What a promise will settle to is not known when it is made, so
-- its handlers are operations of their own, which run when the platform settles it.
pub mod Events
pub mod Size
pub mod Sound
pub mod Requests
pub mod Dedup
pub mod Stuck
pub mod Flicker
pub mod Freshness
mod Tests
use orc_torrent.Prelude.{
  ℕ, suc, ◌+◌, ◌-◌, ◌≡◌, ◌↔◌, arith, Bool, true, false, ◌&&◌, Option, none, some, List, [], ◌∷◌,
  length, ltb, leb, ◌==◌, if◌then◌else◌,
}
use Prim.Native.String.{String}
use orc_torrent.Prelude.Assoc.{Eq, string_eq, lookup, insert, delete}
use orc_torrent.Types.{State, is_error, is_active}

-- `content:${torrentId}` and `status:${torrentId}`
pub data Key : Type 0 where
  content_key status_key : String → Key

abbrev pub same_key : Key → Key → Bool
same_key (content_key a) (content_key b) = string_eq.beq a b
same_key (status_key a) (status_key b) = string_eq.beq a b
same_key _ _ = false

pub same_key_iff : (a b : Key) → (same_key a b ≡ true) ↔ (a ≡ b)
same_key_iff (content_key a) (content_key b) = ground (arith, string_eq.beq_iff a b)
same_key_iff (status_key a) (status_key b) = ground (arith, string_eq.beq_iff a b)
same_key_iff (content_key a) (status_key b) = ground arith
same_key_iff (status_key a) (content_key b) = ground arith

instance abbrev pub key_eq : Eq Key
key_eq = record { beq = same_key; beq_iff = same_key_iff }

-- `CacheEntry`; no caller passes an `etag`, so the field is always undefined and is left out
pub record Entry (A : Type 0) : Type 0 where
  pub payload : A
  pub timestamp : ℕ

-- A cache is keyed by the torrent's id: the prefix of its keys is the same for all of them.
abbrev pub Entries : Type 0 → Type 0
Entries A = List (String × Entry A)

abbrev pub content_ttl : ℕ
content_ttl = 60000

abbrev pub status_ttl : ℕ
status_ttl = 2500

abbrev pub max_cache_size : ℕ
max_cache_size = 200

-- A request that has not settled: its promise, its key, and whether the caller forced it.
pub record Flight : Type 0 where
  pub number : ℕ
  pub key : Key
  pub forced : Bool

pub record Cache (C S : Type 0) : Type 0 where
  pub content : Entries C
  pub status : Entries S
  pub pending : List (Key × ℕ)
  pub flying : List Flight
  pub next : ℕ

-- what a caller gets at once: cached data, or the promise of a request that runs or is made
pub data Answer (A : Type 0) : Type 0 where
  hit : A → Answer A
  joined started : ℕ → Answer A

-- how a promise settles after its handlers
pub data Settled (A : Type 0) : Type 0 where
  resolved : A → Settled A
  rejected : Settled A

module _ {A : Type 0} where
  -- A clock that went back gives age 0 here and a negative age there: neither passes a test.
  pub get_cached : ℕ → ℕ → String → Entries A → Option A × Entries A
  get_cached now ttl k m = elim (lookup k m) [
    | none ↦ (none, m)
    | some e ↦ if ltb ttl (now - e.timestamp) then (none, delete k m) else (some e.payload, m)
  ]

  -- the head of a stable sort by timestamp: the first of the smallest
  oldest_from : String → ℕ → Entries A → String
  oldest_from k t [] = k
  oldest_from k t ((j, e) ∷ m) =
      let older = ltb e.timestamp t in
      oldest_from (if older then j else k) (if older then e.timestamp else t) m

  pub oldest : Entries A → Option String
  unfolding oldest_from
  oldest [] = none
  oldest ((k, e) ∷ m) = some (oldest_from k e.timestamp m)

  evict : Entries A → Entries A
  unfolding oldest
  evict m = elim (oldest m) [ none ↦ m | some k ↦ delete k m ]

  pub set_cached : ℕ → String → A → Entries A → Entries A
  set_cached now k a m =
      insert k (record { payload = a; timestamp = now })
        (if leb max_cache_size (length m) then evict m else m)

module _ {C S : Type 0} where
  pub empty : Cache C S
  empty = record { content = []; status = []; pending = []; flying = []; next = 0 }

  -- `pendingRequests.get`, or else the new request
  pub join_or_start : {A : Type 0} → Key → Bool → Cache C S → Cache C S × Answer A
  join_or_start k forced s = elim (lookup k s.pending) [
    | some n ↦ (s, joined n)
    | none ↦ (
      record s {
        pending = insert k s.next s.pending;
        flying = record { number = s.next; key = k; forced = forced } ∷ s.flying;
        next = suc s.next;
      },
      started s.next,
    )
  ]

  pub get_content : String → Bool → ℕ → Cache C S → Cache C S × Answer C
  get_content id forced now s =
      let (found, m) =
        if forced then (none, s.content) else get_cached now content_ttl id s.content in
      elim found [
        | some c ↦ (record s { content = m }, hit c)
        | none ↦ join_or_start (content_key id) forced (record s { content = m })
      ]

  pub get_status : String → Bool → ℕ → Cache C S → Cache C S × Answer S
  get_status id forced now s =
      let (found, m) = if forced then (none, s.status) else get_cached now status_ttl id s.status in
      elim found [
        | some c ↦ (record s { status = m }, hit c)
        | none ↦ join_or_start (status_key id) forced (record s { status = m })
      ]

  -- `.then` of `getContent`
  pub content_then : String → ℕ → C → Cache C S → Cache C S × Settled C
  content_then id now c s = (
    record s {
      content = set_cached now id c s.content;
      pending = delete (content_key id) s.pending;
    },
    resolved c,
  )

  -- `.catch` of `getContent`
  pub content_catch : String → Cache C S → Cache C S × Settled C
  content_catch id s = (record s { pending = delete (content_key id) s.pending }, rejected)

  store_status : String → ℕ → S → Cache C S → Cache C S × Settled S
  store_status id now d s = (
    record s { status = set_cached now id d s.status; pending = delete (status_key id) s.pending },
    resolved d,
  )

  -- `.catch` of `getStatus`
  pub status_catch : String → ℕ → Cache C S → Cache C S × Settled S
  status_catch id now s = (
    record s { pending = delete (status_key id) s.pending },
    elim (lookup id s.status) [
      | none ↦ rejected
      | some e ↦ if ltb (now - e.timestamp) 5000 then resolved e.payload else rejected
    ],
  )

  pub invalidate : String → Cache C S → Cache C S
  invalidate id s = record s { content = delete id s.content; status = delete id s.status }

  -- The promises that run are not stopped.
  pub clear : Cache C S → Cache C S
  clear s = record s { content = []; status = []; pending = [] }

  pub get_stats : Cache C S → ℕ × ℕ × ℕ
  get_stats s = (length s.content, length s.status, length s.pending)

-- A recent active status outlives an error.
abbrev pub holds_back : {S : Type 0} → (S → State) → ℕ → S → Entry S → Bool
holds_back state_of now d e =
    is_error (state_of d) && is_active (state_of e.payload) && ltb (now - e.timestamp) 3000

module _ {C S : Type 0} (state_of : S → State) where
  -- `.then` of `getStatus`
  pub status_then : String → ℕ → S → Cache C S → Cache C S × Settled S
  unfolding store_status
  status_then id now d s = elim (lookup id s.status) [
    | none ↦ store_status id now d s
    | some e ↦
        if holds_back state_of now d e then (s, resolved e.payload) else store_status id now d s
  ]
