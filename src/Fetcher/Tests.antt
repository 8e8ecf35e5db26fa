-- ===== src/Fetcher/Tests.antt =====
-- The theorems about utils/torrentFetcher.ts at concrete requests.
use orc_torrent.Prelude.{
  ℕ, zero, suc, true, false, Option, none, some, List, [], ◌∷◌, if◌then◌else◌,
}
use Prim.Native.String.{String}
use orc_torrent.Prelude.Assoc.{string_eq}
use orc_torrent.Fetcher.{Error, Reply, value, error}

abbrev server_error : Error
server_error = record { status = some 503; timed_out = false }

abbrev timeout : Error
timeout = record { status = none; timed_out = true }

-- an error, then an answer
abbrev second_time : ℕ → Reply ℕ
second_time zero = error server_error
second_time (suc n) = value 7

abbrev slow : ℕ → Reply ℕ
slow n = error timeout

abbrev ids : List String
ids = "a" ∷ "b" ∷ "a" ∷ []

-- the request for `b` fails
abbrev status : ℕ → String → Option ℕ
status i id = if string_eq.beq id "b" then none else some i
