-- ===== src/Ports.antt =====
-- The port hygiene of the main process (ui/desktop/src/main/main.ts) on Windows, and its wait for a healthy
-- daemon. The operating system and the daemon are a world that each question changes: the process that
-- listens at a port and is an orc-daemon, the health of the daemon, whether a process could be killed, and
-- whether the daemon's port is in use.
pub mod Kills
pub mod Waits
mod Tests
use orc_torrent.Prelude.{
  ℕ, zero, suc, ◌+◌, ◌*◌, ◌/◌, min, Bool, true, false, not, ◌&&◌, ◌||◌, Option, none, some, List,
  [], ◌∷◌, ◌++◌, ltb, ◌==◌, if◌then◌else◌,
}

abbrev pub has : ℕ → List ℕ → Bool
has p [] = false
has p (q ∷ pids) = q == p || has p pids

-- what was asked and done, in order
pub data Act : Type 0 where
  saw_health : Bool → Act
  kills : ℕ → Act

pub record Hygiene (W : Type 0) : Type 0 where
  pub world : W
  pub acts : List Act
  -- `killedPids`, in the order of insertion, and `cleaned`
  pub killed : List ℕ
  pub cleaned : ℕ

-- what the cleanup of the daemon's port returns, with the rest of its state
pub record Outcome (W : Type 0) : Type 0 where
  pub world : W
  pub acts : List Act
  pub cleaned : Bool
  pub pid : Option ℕ

abbrev pub peer_ports : List ℕ
peer_ports = 6881 ∷ 6882 ∷ 6883 ∷ 6884 ∷ 6885 ∷ 6886 ∷ 6887 ∷ 6888 ∷ 6889 ∷ 6890 ∷ []

abbrev pub daemon_port : ℕ
daemon_port = 8733

module _ {W : Type 0} (find_process : ℕ → W → Option ℕ × W) (is_healthy : W → Bool × W)
    (kill_process : ℕ → W → Bool × W) (port_in_use : W → Bool × W) where
  -- `killedPids.add` of a process that is not there yet, or no change
  unfoldable pub kill_peer : ℕ → Hygiene W → Hygiene W
  kill_peer pid s =
      let (ok, w) = kill_process pid s.world in
      let acts = s.acts ++ (kills pid ∷ []) in
      if ok
      then record {
        world = w;
        acts = acts;
        killed = s.killed ++ (pid ∷ []);
        cleaned = suc s.cleaned;
      }
      else record s { world = w; acts = acts }

  -- the process that was found at a port
  unfoldable pub check_peer : ℕ → Hygiene W → Hygiene W
  unfolding kill_peer
  check_peer pid s =
      if has pid s.killed
      then s
      else (let (healthy, w) = is_healthy s.world in
          let t = record s { world = w; acts = s.acts ++ (saw_health healthy ∷ []) } in
          if healthy then t else kill_peer pid t)

  -- a process number of 0 is as good as none
  abbrev pub found_peer : Option ℕ → Hygiene W → Hygiene W
  found_peer none s = s
  found_peer (some zero) s = s
  found_peer (some (suc p)) s = check_peer (suc p) s

  unfoldable pub cleanup_ports : List ℕ → Hygiene W → Hygiene W
  unfolding check_peer
  cleanup_ports [] s = s
  cleanup_ports (port ∷ ports) s =
      let (pid, w) = find_process port s.world in
      cleanup_ports ports (found_peer pid (record s { world = w }))

  unfoldable pub cleanup_stale_peer_ports : W → Hygiene W
  unfolding cleanup_ports
  cleanup_stale_peer_ports w =
      cleanup_ports peer_ports (record { world = w; acts = []; killed = []; cleaned = 0 })

  abbrev pub kept : W → List Act → Outcome W
  kept w acts = record { world = w; acts = acts; cleaned = false; pid = none }

  -- the process at the daemon's port is killed, and the port is looked at again
  unfoldable pub kill_daemon : ℕ → W → List Act → Outcome W
  kill_daemon pid w acts =
      let (ok, v) = kill_process pid w in
      let done = acts ++ (kills pid ∷ []) in
      if ok
      then (let (used, u) = port_in_use v in
          record { world = u; acts = done; cleaned = not used; pid = some pid })
      else record { world = v; acts = done; cleaned = false; pid = some pid }

  abbrev pub found_daemon : Option ℕ → W → List Act → Outcome W
  found_daemon none w acts = kept w acts
  found_daemon (some zero) w acts = kept w acts
  found_daemon (some (suc p)) w acts = kill_daemon (suc p) w acts

  unfoldable pub cleanup_stale_processes_on_port : Bool → W → Outcome W
  unfolding kill_daemon
  cleanup_stale_processes_on_port force w =
      let (used, v) = port_in_use w in
      if not used
      then kept v []
      else (let (healthy, u) = is_healthy v in
          if healthy && not force
          then kept u (saw_health healthy ∷ [])
          else (let (pid, t) = find_process daemon_port u in
              found_daemon pid t (saw_health healthy ∷ [])))

-- `Math.round(delay * 1.15)`, for the delays that occur, and the cap
abbrev pub grow : ℕ → ℕ
grow delay = min 500 ((delay * 115 + 50) / 100)

-- The loop of waitForHealthy at its `attempt`, with the time since its start and the delay: `answers`
-- tells what a check finds, `pause` how long the check takes and the timer is late. `none` where the fuel
-- does not last.
unfoldable pub wait_from :
    (answers : ℕ → Bool) (pause : ℕ → ℕ) (timeout fuel attempt elapsed delay : ℕ) → Option Bool
wait_from answers pause timeout zero attempt elapsed delay =
    if ltb elapsed timeout then none else some false
wait_from answers pause timeout (suc f) attempt elapsed delay =
    let rest =
      wait_from answers pause timeout f (suc attempt) (elapsed + pause attempt + delay)
        (grow delay) in
    if ltb elapsed timeout then (if answers attempt then some true else rest) else some false

-- a turn for each 100 ms
unfoldable pub wait_for_healthy : (ℕ → Bool) → (ℕ → ℕ) → ℕ → Option Bool
unfolding wait_from
wait_for_healthy answers pause timeout =
    wait_from answers pause timeout (suc (timeout / 100)) 0 0 100
