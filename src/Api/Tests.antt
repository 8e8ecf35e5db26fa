-- ===== src/Api/Tests.antt =====
-- The theorems about utils/api.ts at concrete requests. A response of fetch is a number or a record.
use orc_torrent.Prelude.{
  ℕ, zero, suc, ◌≤◌, ◌<◌, ◌≡◌, ◌≢◌, refl, arith, true, false, Option, some, List, [], ◌∷◌,
}
use Prim.Native.String.{String}
use orc_torrent.Prelude.Assoc.{string_eq, nat_eq, lookup}
use orc_torrent.Api.{
  Connection, connected, Attempt, responds, throws, fetch_error, abort_error, response, Response,
  fetch_with_retry, is_abort, is_retryable_error,
}
use orc_torrent.Api.Retry.{is_retried, fetch_with_retry-recovers}
use orc_torrent.Api.Inflight.{Event, gets, settles, run, idle, get_json, one_in_flight}

-- a timeout and a lost connection, then a response
abbrev third_time : ℕ → Attempt ℕ
third_time zero = throws abort_error true
third_time (suc zero) = throws fetch_error false
third_time (suc (suc n)) = responds 7

abbrev never : ℕ → Attempt ℕ
never n = throws fetch_error false

abbrev alone : ℕ → Connection → Connection
alone i c = c

retried_twice : (j : ℕ) → 0 ≤ j → j < 2 → is_retried (third_time j) ≡ true
unfolding is_abort is_retryable_error
retried_twice zero l k = refl
retried_twice (suc zero) l k = refl
retried_twice (suc (suc n)) l k = ground arith

fetch_with_retry-recovers_example :
    fetch_with_retry third_time alone 2 0 connected
    ≡ record { outcome = response 7; fetches = 3; connection = connected }
fetch_with_retry-recovers_example =
    fetch_with_retry-recovers third_time alone 2 2 0 connected 7 (omega arith) (omega arith)
      retried_twice refl

never-is_retried : (j : ℕ) → 0 ≤ j → j ≤ 2 → is_retried (never j) ≡ true
unfolding is_abort is_retryable_error
never-is_retried j l k = refl

abbrev parse : String → Option ℕ
parse t = some 1

abbrev busy : Response
busy = record { ok = false; status = 503; text = some "busy" }

abbrev fine : Response
fine = record { ok = true; status = 200; text = some "1" }

abbrev answers : ℕ → Attempt Response
answers n = responds busy

abbrev calls : List Event
calls = gets "/torrents" ∷ gets "/vpn" ∷ gets "/torrents" ∷ settles 1 ∷ []

one_in_flight_example :
    ((m n : ℕ)
      → lookup m (run calls idle).flying ≡ some "/torrents"
      → lookup n (run calls idle).flying ≡ some "/torrents"
      → m ≡ n)
    × ((n : ℕ)
        → lookup n (run calls idle).flying ≡ some "/torrents"
        → get_json "/torrents" (run calls idle) ≡ (run calls idle, n))
    × (((n : ℕ) → lookup n (run calls idle).flying ≢ some "/torrents")
        → (get_json "/torrents" (run calls idle)).1 ≡ (run calls idle).next)
one_in_flight_example = one_in_flight calls "/torrents"
