-- ===== src/Cache/Tests.antt =====
-- Runs of TorrentCache's model, and the theorems at inputs. A status is its state, a content a number.
use orc_torrent.Prelude.{
  ℕ, zero, suc, ◌+◌, ◌≤◌, ◌≡◌, refl, true, false, none, List, [], ◌∷◌, length, ap, inl, inr,
  Bool-cases, arith,
}
use Prim.Native.String.{String}
use orc_torrent.Types.{State, downloading, error}
use orc_torrent.Prelude.Assoc.{string_eq, lookup, insert, delete, Unique}
use orc_torrent.Prelude.Codes.{codes}
use orc_torrent.Cache.{
  status_key, Entries, Flight, joined, resolved, empty, join_or_start, set_cached, get_status,
  status_then, store_status,
}
use orc_torrent.Cache.Events.{
  Event, ask_content, ask_status, status_resolves, find_flight, land, landed, step, run,
}
use orc_torrent.Cache.Sound.{IsSound, run-empty-IsSound}
use orc_torrent.Cache.Dedup.{one_request_per_key}
use orc_torrent.Cache.Flicker.{OldAnswer, held_back_for_good}

abbrev state_of : State → State
state_of s = s

abbrev history : List (Event ℕ State)
history = ask_status "a" true 0 ∷ status_resolves 0 0 downloading ∷ ask_status "a" true 1000 ∷ []

abbrev flight : Flight
flight = record { number = 1; key = status_key "a"; forced = true }

held_back : (run state_of history empty).flying ≡ flight ∷ []
unfolding run step get_status join_or_start find_flight land lookup insert delete status_then
    store_status set_cached empty
held_back = refl

run-empty-IsSound_example : IsSound (run state_of history empty)
run-empty-IsSound_example = run-empty-IsSound state_of history

one_request_per_key_example : ◌≡◌ {A = ℕ} 1 1
unfolding run step get_status join_or_start find_flight land lookup insert delete status_then
    store_status set_cached empty
one_request_per_key_example =
    one_request_per_key state_of history 1 1 flight flight (tt, (tt, (tt, tt))) refl refl refl

abbrev unforced : List (Event ℕ State)
unforced = ask_status "a" false 0 ∷ []

held_back_for_good_example :
    let s = run state_of history empty in
    let stuck =
      run state_of
        (ask_content "a" false 9000 ∷ [])
        (status_then state_of "a" 1500 error (landed 1 s)).0 in
    (get_status "a" true 9999 stuck ≡ (stuck, joined 1))
    × ((get_status "a" false 9999 stuck).0.flying ≡ stuck.flying)
    × OldAnswer state_of "a" 1 9999 stuck (get_status "a" false 9999 stuck).1
    × ((status_then state_of "a" 1500 error (landed 1 s)).1 ≡ resolved downloading)
unfolding run step get_status join_or_start find_flight land lookup insert delete status_then
    store_status set_cached empty
held_back_for_good_example =
    held_back_for_good state_of "a" 1500 error 1 flight
      (record { payload = downloading; timestamp = 0 }) history (ask_content "a" false 9000 ∷ [])
      9999 (tt, (tt, (tt, tt))) refl refl refl refl (tt, tt)

-- `n` entries, keyed by texts of `n` letters, the shortest written first
abbrev letters : ℕ → String
letters zero = ""
letters (suc n) = String.◌∷◌ "a" (letters n)

abbrev filled : ℕ → Entries ℕ
filled zero = []
filled (suc n) = (letters n, record { payload = n; timestamp = n + 5 }) ∷ filled n

length-letters : (n : ℕ) → length (codes (letters n)) ≡ n
length-letters zero = refl
length-letters (suc n) = ap suc (length-letters n)

lookup-filled : (n m : ℕ) → m ≤ n → lookup (letters n) (filled m) ≡ none
unfolding lookup
lookup-filled n zero h = refl
lookup-filled n (suc m) h = elim (Bool-cases (string_eq.beq (letters m) (letters n))) [
  | inl same ↦
      let e = ap (λ t. length (codes t)) ((string_eq.beq_iff (letters m) (letters n)).0 same) in
      absurd (omega (arith, e, length-letters n, length-letters m))
  | inr other ↦ rw other (lookup-filled n m (omega arith))
]

filled-Unique : (n : ℕ) → Unique (filled n)
filled-Unique zero = tt
filled-Unique (suc n) = (lookup-filled n n (omega arith), filled-Unique n)
