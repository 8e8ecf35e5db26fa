-- ===== src/Ports/Kills.antt =====
-- What the port hygiene kills (ui/desktop/src/main/main.ts).
use orc_torrent.Prelude.{
  ℕ, zero, suc, ◌≡◌, inl, inr, refl, arith, Bool-cases, Bool, true, false, not, ◌&&◌, ◌||◌, Option,
  none, some, List, [], ◌∷◌, ◌++◌, length, length-append, ◌==◌, ==_iff, if◌then◌else◌,
}
use orc_torrent.Ports.{
  has, Act, saw_health, kills, Hygiene, Outcome, kill_peer, check_peer, found_peer, cleanup_ports,
  cleanup_stale_peer_ports, peer_ports, daemon_port, kept, kill_daemon, found_daemon,
  cleanup_stale_processes_on_port,
}

abbrev pub Distinct : List ℕ → Type 0
Distinct [] = Unit
Distinct (p ∷ pids) = (has p pids ≡ false) × Distinct pids

has-append : (p q : ℕ) (pids : List ℕ) → has p (pids ++ (q ∷ [])) ≡ (has p pids || q == p)
has-append p q [] = ground arith
has-append p q (r ∷ pids) = ground (arith, has-append p q pids)

append-Distinct :
    (q : ℕ) (pids : List ℕ) → has q pids ≡ false → Distinct pids → Distinct (pids ++ (q ∷ []))
append-Distinct q [] n h = (refl, tt)
append-Distinct q (p ∷ pids) n h = (
  ground (arith, n, h.0, has-append p q pids, ==_iff p q, ==_iff q p),
  append-Distinct q pids (ground (arith, n)) h.1,
)

-- Each process is killed right after the daemon was seen without health, or where `force` is set.
abbrev pub Cautious : Bool → Bool → List Act → Type 0
Cautious force sick [] = Unit
Cautious force sick (saw_health healthy ∷ acts) = Cautious force (not healthy) acts
Cautious force sick (kills p ∷ acts) = ((force || sick) ≡ true) × Cautious force false acts

-- whether the last act saw the daemon without health
abbrev after : Bool → List Act → Bool
after sick [] = sick
after sick (saw_health healthy ∷ acts) = after (not healthy) acts
after sick (kills p ∷ acts) = after false acts

append-Cautious :
    (force sick : Bool) (acts more : List Act)
    → Cautious force sick acts
    → Cautious force (after sick acts) more
    → Cautious force sick (acts ++ more)
append-Cautious force sick [] more h k = k
append-Cautious force sick (saw_health healthy ∷ acts) more h k =
    append-Cautious force (not healthy) acts more h k
append-Cautious force sick (kills p ∷ acts) more h k =
    (h.0, append-Cautious force false acts more h.1 k)

after-append :
    (sick : Bool) (acts more : List Act) → after sick (acts ++ more) ≡ after (after sick acts) more
after-append sick [] more = refl
after-append sick (saw_health healthy ∷ acts) more = after-append (not healthy) acts more
after-append sick (kills p ∷ acts) more = after-append false acts more

record IsClean {W : Type 0} (s : Hygiene W) : Type 0 where
  distinct : Distinct s.killed
  count : s.cleaned ≡ length s.killed
  cautious : Cautious false false s.acts

either-IsClean :
    {W : Type 0} (b : Bool) (s t : Hygiene W) → IsClean s → IsClean t → IsClean (if b then s else t)
either-IsClean true s t h k = h
either-IsClean false s t h k = k

module _ {W : Type 0} (find_process : ℕ → W → Option ℕ × W) (is_healthy : W → Bool × W)
    (kill_process : ℕ → W → Bool × W) (port_in_use : W → Bool × W) where
  kill_peer-IsClean :
      (pid : ℕ) (s : Hygiene W)
      → has pid s.killed ≡ false
      → after false s.acts ≡ true
      → IsClean s
      → IsClean (kill_peer find_process is_healthy kill_process port_in_use pid s)
  unfolding kill_peer
  kill_peer-IsClean pid s n a h =
      let c = append-Cautious false false s.acts (kills pid ∷ []) h.cautious (a, tt) in
      either-IsClean (kill_process pid s.world).0 _ _
        (record {
          distinct = append-Distinct pid s.killed n h.distinct;
          count = omega (arith, h.count, length-append s.killed (pid ∷ []));
          cautious = c;
        })
        (record { distinct = h.distinct; count = h.count; cautious = c })

  abbrev seen : Bool → W → Hygiene W → Hygiene W
  seen healthy w s = record s { world = w; acts = s.acts ++ (saw_health healthy ∷ []) }

  seen-IsClean : (healthy : Bool) (w : W) (s : Hygiene W) → IsClean s → IsClean (seen healthy w s)
  seen-IsClean healthy w s h = record {
    distinct = h.distinct;
    count = h.count;
    cautious = append-Cautious false false s.acts (saw_health healthy ∷ []) h.cautious tt;
  }

  unhealthy-IsClean :
      (healthy : Bool) (pid : ℕ) (w : W) (s : Hygiene W)
      → has pid s.killed ≡ false
      → IsClean s
      → IsClean (
          if healthy
          then seen healthy w s
          else kill_peer find_process is_healthy kill_process port_in_use pid (seen healthy w s))
  unhealthy-IsClean true pid w s n h = seen-IsClean true w s h
  unhealthy-IsClean false pid w s n h =
      kill_peer-IsClean pid (seen false w s) n (after-append false s.acts (saw_health false ∷ []))
        (seen-IsClean false w s h)

  check_peer-IsClean :
      (pid : ℕ) (s : Hygiene W)
      → IsClean s
      → IsClean (check_peer find_process is_healthy kill_process port_in_use pid s)
  unfolding check_peer
  check_peer-IsClean pid s h = elim (Bool-cases (has pid s.killed)) [
    | inl e ↦ rw e h
    | inr e ↦ rw e (unhealthy-IsClean (is_healthy s.world).0 pid (is_healthy s.world).1 s e h)
  ]

  found_peer-IsClean :
      (o : Option ℕ) (s : Hygiene W)
      → IsClean s
      → IsClean (found_peer find_process is_healthy kill_process port_in_use o s)
  found_peer-IsClean none s h = h
  found_peer-IsClean (some zero) s h = h
  found_peer-IsClean (some (suc p)) s h = check_peer-IsClean (suc p) s h

  cleanup_ports-IsClean :
      (ports : List ℕ) (s : Hygiene W)
      → IsClean s
      → IsClean (cleanup_ports find_process is_healthy kill_process port_in_use ports s)
  unfolding cleanup_ports
  cleanup_ports-IsClean [] s h = h
  cleanup_ports-IsClean (port ∷ ports) s h =
      let (pid, w) = find_process port s.world in
      let t : IsClean (record s { world = w }) = record {
        distinct = h.distinct;
        count = h.count;
        cautious = h.cautious;
      } in
      cleanup_ports-IsClean ports _ (found_peer-IsClean pid (record s { world = w }) t)

  -- Whatever the operating system and the daemon answer, the cleanup of the peer ports kills a process only
  -- right after it saw the daemon without health, the processes that it reports as killed differ, and the
  -- number that it reports is theirs.
  pub peer_ports-Cautious :
      (w : W)
      → (let s = cleanup_stale_peer_ports find_process is_healthy kill_process port_in_use w in
          Cautious false false s.acts × Distinct s.killed × (s.cleaned ≡ length s.killed))
  unfolding cleanup_stale_peer_ports
  peer_ports-Cautious w =
      let h =
        cleanup_ports-IsClean peer_ports (record { world = w; acts = []; killed = []; cleaned = 0 })
          (record { distinct = tt; count = refl; cautious = tt }) in
      (h.cautious, h.distinct, h.count)

  kill_daemon-acts :
      (pid : ℕ) (w : W) (acts : List Act)
      → (kill_daemon find_process is_healthy kill_process port_in_use pid w acts).acts
        ≡ acts ++ (kills pid ∷ [])
  unfolding kill_daemon
  kill_daemon-acts pid w acts = ground arith

  found_daemon-Cautious :
      (force healthy : Bool) (o : Option ℕ) (w : W)
      → (force || not healthy) ≡ true
      → Cautious force false
          (found_daemon find_process is_healthy kill_process port_in_use o w
            (saw_health healthy ∷ [])).acts
  found_daemon-Cautious force healthy none w h = tt
  found_daemon-Cautious force healthy (some zero) w h = tt
  found_daemon-Cautious force healthy (some (suc p)) w h =
      rw (kill_daemon-acts (suc p) w (saw_health healthy ∷ [])) (h, tt)

  either-Cautious :
      (force b : Bool) (x y : Outcome W)
      → Cautious force false x.acts
      → Cautious force false y.acts
      → Cautious force false (if b then x else y).acts
  either-Cautious force true x y h k = h
  either-Cautious force false x y h k = k

  asked-Cautious :
      (force healthy : Bool) (w : W)
      → Cautious force false
          (if healthy && not force
            then kept find_process is_healthy kill_process port_in_use w (saw_health healthy ∷ [])
            else found_daemon find_process is_healthy kill_process port_in_use
                (find_process daemon_port w).0
                (find_process daemon_port w).1
                (saw_health healthy ∷ [])).acts
  asked-Cautious false true w = tt
  asked-Cautious true true w =
      found_daemon-Cautious true true (find_process daemon_port w).0 (find_process daemon_port w).1
        refl
  asked-Cautious true false w =
      found_daemon-Cautious true false (find_process daemon_port w).0 (find_process daemon_port w).1
        refl
  asked-Cautious false false w =
      found_daemon-Cautious false false (find_process daemon_port w).0
        (find_process daemon_port w).1 refl

  -- Whatever the operating system and the daemon answer, the cleanup of the daemon's port kills a process
  -- only right after it saw the daemon without health, unless it was forced.
  pub daemon_port-Cautious :
      (force : Bool) (w : W)
      → Cautious force false
          (cleanup_stale_processes_on_port find_process is_healthy kill_process port_in_use force
            w).acts
  unfolding cleanup_stale_processes_on_port
  daemon_port-Cautious force w =
      either-Cautious force (not (port_in_use w).0) _ _ tt
        (asked-Cautious force (is_healthy (port_in_use w).1).0 (is_healthy (port_in_use w).1).1)
