-- ===== src/Fetcher.antt =====
-- utils/torrentFetcher.ts of ui/desktop/src/renderer: the retry loops around getJson and the batches
-- of status requests. What getJson answers is an argument, by the attempt's number; of an error the
-- code reads its status, and whether it is an abort or speaks of "timed out".
pub mod Loops
pub mod Batches
mod Tests
use orc_torrent.Prelude.{
  ℕ, zero, suc, ◌+◌, ◌*◌, ◌^◌, Bool, true, false, ◌&&◌, ◌||◌, Option, none, some, List, [], ◌∷◌,
  ltb, leb, length, take, drop, if◌then◌else◌,
}
use Prim.Native.String.{String}
use orc_torrent.Prelude.Assoc.{string_eq, insert}

-- the options in use, their defaults being 3 and 500 ms
pub record Options : Type 0 where
  pub retries : ℕ
  pub retry_delay : ℕ

abbrev pub default_options : Options
default_options = record { retries = 3; retry_delay = 500 }

pub record Error : Type 0 where
  pub status : Option ℕ
  pub timed_out : Bool

pub data Reply (A : Type 0) : Type 0 where
  value : A → Reply A
  error : Error → Reply A

-- how a loop ends, after how many attempts, and how long it slept
pub record Ended (A : Type 0) : Type 0 where
  pub reply : Reply A
  pub attempts : ℕ
  pub slept : ℕ

-- "Don't retry on 4xx errors"
pub is_client_error : Error → Bool
is_client_error e = elim e.status [ none ↦ false | some n ↦ leb 400 n && ltb n 500 ]

-- the errors that most loops throw at once; the one for row snapshots has no test for aborts
pub is_final : Error → Bool
unfolding is_client_error
is_final e = is_client_error e || e.timed_out

-- The loop, which the source writes out four times, from attempt `i` with the attempts left after it:
-- what errors it throws at once, how long it sleeps after attempt `i`, and the request.
pub retry_loop : {A : Type 0} → (Error → Bool) → (ℕ → ℕ) → (ℕ → Reply A) → ℕ → ℕ → ℕ → Ended A
retry_loop stops delay request zero i slept = record {
  reply = request i;
  attempts = suc i;
  slept = slept;
}
retry_loop stops delay request (suc left) i slept =
    let later = retry_loop stops delay request left (suc i) (slept + delay i) in
    elim (request i) [
      | value a ↦ record { reply = value a; attempts = suc i; slept = slept }
      | error e ↦
          if stops e then record { reply = error e; attempts = suc i; slept = slept } else later
    ]

module _ {A : Type 0} (o : Options) (request : ℕ → Reply A) where
  -- `opts.retryDelay * Math.pow(2, attempt)`
  pub backoff : ℕ → ℕ
  backoff attempt = o.retry_delay * 2 ^ attempt

  pub fetch_torrents : Ended A
  unfolding retry_loop backoff is_final
  fetch_torrents = retry_loop is_final backoff request o.retries 0 0

  -- the request that `fetchTorrentStatus` hands to the cache
  pub fetch_torrent_status : Ended A
  unfolding retry_loop backoff is_final
  fetch_torrent_status = retry_loop is_final backoff request o.retries 0 0

  pub fetch_row_snapshot : Ended A
  unfolding retry_loop backoff is_client_error
  fetch_row_snapshot = retry_loop is_client_error backoff request o.retries 0 0

  -- the request that `fetchTorrentContent` hands to the cache: `retryCount` is raised before it is used
  pub fetch_torrent_content : Ended A
  unfolding retry_loop backoff is_final
  fetch_torrent_content = retry_loop is_final (λ i. backoff (suc i)) request o.retries 0 0

abbrev pub batch_size : ℕ
batch_size = 25

-- What the request for the id at a position gave: a status, or null for an error.
module _ {S : Type 0} (status : ℕ → String → Option S) where
  -- `batchResults.forEach`
  pub collect : ℕ → List String → List (String × S) → List (String × S)
  collect i [] results = results
  collect i (id ∷ ids) results =
      collect (suc i) ids (elim (status i id) [ none ↦ results | some s ↦ insert id s results ])

  -- the loop over the batches
  pub fetch_batches : ℕ → ℕ → List String → List (String × S) → Option (List (String × S))
  unfolding collect
  fetch_batches fuel i [] results = some results
  fetch_batches zero i (id ∷ ids) results = none
  fetch_batches (suc fuel) i (id ∷ ids) results =
      fetch_batches fuel (i + batch_size) (drop batch_size (id ∷ ids))
        (collect i (take batch_size (id ∷ ids)) results)

  -- A batch takes at least one id, so this fuel is enough.
  pub fetch_torrent_statuses : List String → Option (List (String × S))
  unfolding fetch_batches
  fetch_torrent_statuses ids = fetch_batches (length ids) 0 ids []
