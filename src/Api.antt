-- ===== src/Api.antt =====
-- utils/api.ts of ui/desktop/src/renderer: requests to the daemon with retries, and what becomes of
-- a response. The platform's `fetch` is an argument, by the attempt's number; so is what other
-- requests do to the shared `connectionState` while one waits. Error texts are constructors.
pub mod Retry
pub mod Json
pub mod Inflight
mod Tests
use orc_torrent.Prelude.{
  ℕ, zero, suc, ◌+◌, ◌-◌, Bool, true, false, ◌&&◌, Option, none, some, ltb, leb, ◌==◌,
  if◌then◌else◌,
}
use Prim.Native.String.{String}
use orc_torrent.Prelude.Assoc.{string_eq}

abbrev pub max_retries : ℕ
max_retries = 2

pub data Connection : Type 0 where
  connected disconnected reconnecting : Connection

-- What `fetch` throws: an abort, a TypeError that speaks of fetch, an error with a `status`, which
-- may be undefined, or another one.
pub data Thrown : Type 0 where
  abort_error fetch_error other_error : Thrown
  status_error : Option ℕ → Thrown

-- one call of `fetch`: a response, or an error and whether the request's own timeout had aborted it
pub data Attempt (R : Type 0) : Type 0 where
  responds : R → Attempt R
  throws : Thrown → Bool → Attempt R

-- the texts of `createApiError`
pub data Failure : Type 0 where
  timed_out cancelled connection_failed : Failure
  rethrown : Thrown → Failure

pub data Outcome (R : Type 0) : Type 0 where
  response : R → Outcome R
  failure : Failure → Outcome R

-- what a request ends with, how many calls of `fetch` it made, and the state it leaves
pub record Ended (R : Type 0) : Type 0 where
  pub outcome : Outcome R
  pub fetches : ℕ
  pub connection : Connection

pub is_abort : Thrown → Bool
is_abort abort_error = true
is_abort _ = false

pub is_retryable_error : Thrown → Bool
is_retryable_error abort_error = false
is_retryable_error fetch_error = true
is_retryable_error (status_error none) = true
is_retryable_error (status_error (some n)) = leb 500 n && ltb n 600
is_retryable_error other_error = false

-- before the call of `fetch`
pub connect : Connection → Connection
connect disconnected = reconnecting
connect c = c

-- `if (connectionState === "connected")` before a retry
pub lose : Connection → Connection
lose connected = reconnecting
lose c = c

-- the end of the `catch`
pub give_up : ℕ → Thrown → Connection → Option Failure × Connection
give_up retries fetch_error c = (some connection_failed, disconnected)
give_up retries t c = (some (rethrown t), if retries == 0 then disconnected else c)

-- The `catch`, with the retries left: the failure to throw, or `none` for another attempt.
pub on_error : ℕ → Thrown → Bool → Connection → Option Failure × Connection
unfolding is_abort is_retryable_error lose give_up
on_error retries t was_aborted c =
    if is_abort t
    then (if was_aborted
        then (if ltb 0 retries then (none, c) else (some timed_out, disconnected))
        else (some cancelled, c))
    else if ltb 0 retries && is_retryable_error t
    then (none, lose c)
    else give_up retries t c

module _ {R : Type 0} (fetch : ℕ → Attempt R) (others : ℕ → Connection → Connection) where
  -- The attempt with number `i`; `others` runs while it waits for `fetch`, and between two attempts.
  -- With no retries left `on_error` never asks for another attempt.
  pub fetch_with_retry : ℕ → ℕ → Connection → Ended R
  unfolding on_error connect
  fetch_with_retry zero i c = elim (fetch i) [
    | responds r ↦ record { outcome = response r; fetches = suc i; connection = connected }
    | throws t a ↦
        let (f, d) = on_error 0 t a (others i (connect c)) in
        record {
          outcome = elim f [ none ↦ failure (rethrown t) | some x ↦ failure x ];
          fetches = suc i;
          connection = d;
        }
  ]
  fetch_with_retry (suc retries) i c = elim (fetch i) [
    | responds r ↦ record { outcome = response r; fetches = suc i; connection = connected }
    | throws t a ↦
        let (f, d) = on_error (suc retries) t a (others i (connect c)) in
        elim f [
          | none ↦ fetch_with_retry retries (suc i) (others i d)
          | some x ↦ record { outcome = failure x; fetches = suc i; connection = d }
        ]
  ]

-- a response: `ok`, `status` and its text, `none` where reading it fails
pub record Response : Type 0 where
  pub ok : Bool
  pub status : ℕ
  pub text : Option String

-- an `ApiError`: its status, and whether it is marked as a network error
pub record ApiError : Type 0 where
  pub status : Option ℕ
  pub is_network_error : Bool

pub data Result (T : Type 0) : Type 0 where
  value : T → Result T
  error : ApiError → Result T

-- `createApiError` for what `fetchWithRetry` throws, and the `catch` of its callers: an error with a
-- `status` goes on as it is.
pub api_error : Failure → ApiError
api_error (rethrown (status_error n)) = record { status = n; is_network_error = false }
api_error _ = record { status = none; is_network_error = true }

-- the parser of the platform is an argument
module _ {T : Type 0} (parse : String → Option T) where
  -- `r.json()`
  pub read_json : Response → Result T
  read_json r = elim r.text [
    | none ↦ error (record { status = none; is_network_error = true })
    | some t ↦ elim (parse t) [
      | none ↦ error (record { status = none; is_network_error = true })
      | some v ↦ value v
    ]
  ]

  -- the end of `getJson`
  pub get_result : Outcome Response → Result T
  unfolding read_json api_error
  get_result (failure f) = error (api_error f)
  get_result (response r) =
      if r.ok
      then read_json r
      else error (record { status = some r.status; is_network_error = false })

  -- the end of `postJson`, `patchJson` and `deleteJson`: an empty text is the empty object
  pub send_result : T → Outcome Response → Result T
  unfolding read_json api_error
  send_result empty_object (failure f) = error (api_error f)
  send_result empty_object (response r) =
      if r.ok
      then (elim r.text [
        | none ↦ read_json r
        | some t ↦ if string_eq.beq t "" then value empty_object else read_json r
      ])
      else error (record { status = some r.status; is_network_error = false })
