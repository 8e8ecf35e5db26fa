-- ===== src/Ports/Waits.antt =====
-- The wait for a healthy daemon (ui/desktop/src/main/main.ts).
use orc_torrent.Prelude.{
  ℕ, zero, suc, ◌+◌, ◌*◌, ◌/◌, ◌≤◌, ◌≡◌, ◌≢◌, arith, Bool, true, false, none, some, ltb,
}
use orc_torrent.Ports.{grow, wait_from, wait_for_healthy}

-- The delay grows and stays between 100 and 500 ms.
grow-bounds : (delay : ℕ) → 100 ≤ delay → delay ≤ 500 → (delay ≤ grow delay) × (grow delay ≤ 500)
grow-bounds delay h k = (omega (arith, h, k), omega (arith, h, k))

-- the time at which an attempt begins, counted from the start, if those before it failed
abbrev pub time_of : (ℕ → ℕ) → (count attempt elapsed delay : ℕ) → ℕ
time_of pause zero attempt elapsed delay = elapsed
time_of pause (suc n) attempt elapsed delay =
    time_of pause n (suc attempt) (elapsed + pause attempt + delay) (grow delay)

wait_from-ends :
    (answers : ℕ → Bool) (pause : ℕ → ℕ) (timeout fuel attempt elapsed delay : ℕ)
    → 100 ≤ delay
    → delay ≤ 500
    → timeout ≤ elapsed + 100 * fuel
    → wait_from answers pause timeout fuel attempt elapsed delay ≢ none
unfolding wait_from
wait_from-ends answers pause timeout zero attempt elapsed delay l u h e = ground (arith, e, h)
wait_from-ends answers pause timeout (suc f) attempt elapsed delay l u h e =
    let g = grow-bounds delay l u in
    let r =
      wait_from-ends answers pause timeout f (suc attempt) (elapsed + pause attempt + delay)
        (grow delay) (omega (arith, g.0, l)) g.1 (omega (arith, h, l)) in
    ground (arith, e, r)

-- For every clock and every sequence of answers the wait comes to an end: the turns that it is given are
-- enough.
pub wait_for_healthy-ends :
    (answers : ℕ → Bool) (pause : ℕ → ℕ) (timeout : ℕ)
    → wait_for_healthy answers pause timeout ≢ none
unfolding wait_for_healthy
wait_for_healthy-ends answers pause timeout =
    wait_from-ends answers pause timeout (suc (timeout / 100)) 0 0 100 (omega arith) (omega arith)
      (omega arith)

-- The daemon is found healthy after a number of attempts that fail.
abbrev pub FirstHealthy : (ℕ → Bool) → (count attempt : ℕ) → Type 0
FirstHealthy answers zero attempt = answers attempt ≡ true
FirstHealthy answers (suc n) attempt =
    (answers attempt ≡ false) × FirstHealthy answers n (suc attempt)

time_of-elapsed :
    (pause : ℕ → ℕ) (n attempt elapsed delay : ℕ) → elapsed ≤ time_of pause n attempt elapsed delay
time_of-elapsed pause zero attempt elapsed delay = omega arith
time_of-elapsed pause (suc n) attempt elapsed delay =
    omega
      (arith, time_of-elapsed pause n (suc attempt) (elapsed + pause attempt + delay) (grow delay))

wait_from-FirstHealthy :
    (answers : ℕ → Bool) (pause : ℕ → ℕ) (timeout fuel n attempt elapsed delay : ℕ)
    → 100 ≤ delay
    → delay ≤ 500
    → timeout ≤ elapsed + 100 * fuel
    → FirstHealthy answers n attempt
    → wait_from answers pause timeout fuel attempt elapsed delay
      ≡ some (ltb (time_of pause n attempt elapsed delay) timeout)
unfolding wait_from
wait_from-FirstHealthy answers pause timeout zero n attempt elapsed delay l u h k =
    ground (arith, h, time_of-elapsed pause n attempt elapsed delay)
wait_from-FirstHealthy answers pause timeout (suc f) zero attempt elapsed delay l u h k =
    rw k (ground arith)
wait_from-FirstHealthy answers pause timeout (suc f) (suc n) attempt elapsed delay l u h k =
    let g = grow-bounds delay l u in
    let r =
      wait_from-FirstHealthy answers pause timeout f n (suc attempt)
        (elapsed + pause attempt + delay) (grow delay) (omega (arith, g.0, l)) g.1
        (omega (arith, h, l)) k.1 in
    rw (k.0, r)
      (ground (
        arith,
        time_of-elapsed pause n (suc attempt) (elapsed + pause attempt + delay) (grow delay),
      ))

-- Where the daemon is found healthy after a number of attempts that fail, the wait tells so exactly if
-- that attempt begins before the timeout, and else tells that it is not.
pub wait_for_healthy-FirstHealthy :
    (answers : ℕ → Bool) (pause : ℕ → ℕ) (timeout n : ℕ)
    → FirstHealthy answers n 0
    → wait_for_healthy answers pause timeout ≡ some (ltb (time_of pause n 0 0 100) timeout)
unfolding wait_for_healthy
wait_for_healthy-FirstHealthy answers pause timeout n k =
    wait_from-FirstHealthy answers pause timeout (suc (timeout / 100)) n 0 0 100 (omega arith)
      (omega arith) (omega arith) k
