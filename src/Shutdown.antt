-- ===== src/Shutdown.antt =====
-- The end of a daemon that the app started (gracefulShutdownIfOwned of ui/desktop/src/main/main.ts): the request to
-- shut down, the wait for the process to exit, and its kill. Times are in milliseconds.
pub mod Ends
mod Tests
use orc_torrent.Prelude.{
  ℕ, zero, suc, ◌+◌, ◌-◌, Bool, true, false, not, ◌&&◌, ◌||◌, Option, none, some, ltb,
  if◌then◌else◌,
}

-- what the app sees of the process: `killed`, and whether `exitCode` is not null
pub record Proc : Type 0 where
  pub killed : Bool
  pub exited : Bool

abbrev pub is_gone : Proc → Bool
is_gone p = p.killed || p.exited

abbrev pub patience : ℕ
patience = 3000

abbrev pub pause : ℕ
pause = 120

-- one for each pause, and one more
abbrev pub enough_turns : ℕ
enough_turns = 26

-- what was done: whether the daemon was asked to shut down, when the wait ended, whether the process was killed
pub record ShutdownResult : Type 0 where
  pub asked : Bool
  pub ended : Option ℕ
  pub kills : Bool

-- What the process is like at a time, and how late a pause ends that begins at a time, are arguments.
module _ (observe : ℕ → Proc) (late : ℕ → ℕ) where
  -- the `while` loop, with the turns left: the time at which it ends
  unfoldable pub wait_for_exit : ℕ → ℕ → ℕ → Option ℕ
  wait_for_exit zero start now = none
  wait_for_exit (suc turns) start now =
      let later = wait_for_exit turns start (now + pause + late now) in
      if ltb (now - start) patience
      then (if is_gone (observe now) then some now else later)
      else some now

  abbrev pub kill_if_there : Option ℕ → Bool
  kill_if_there none = false
  kill_if_there (some t) = not (is_gone (observe t))

  -- The second argument tells whether the process is there and the app's own, the third when the request to shut down
  -- has been answered or has failed.
  unfoldable pub graceful_shutdown_if_owned : Bool → ℕ → ShutdownResult
  graceful_shutdown_if_owned owned start =
      let ended = wait_for_exit enough_turns start start in
      if owned
      then record { asked = true; ended = ended; kills = kill_if_there ended }
      else record { asked = false; ended = none; kills = false }
