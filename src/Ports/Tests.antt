-- ===== src/Ports/Tests.antt =====
-- Runs of the port hygiene's model, and the theorems about it at concrete inputs.
use orc_torrent.Prelude.{
  ℕ, suc, ◌≡◌, ◌||◌, refl, Bool, true, false, Option, none, some, [], ◌∷◌, length, ltb, ◌==◌,
  if◌then◌else◌,
}
use orc_torrent.Ports.{saw_health, kills, cleanup_stale_peer_ports, cleanup_stale_processes_on_port}
use orc_torrent.Ports.Kills.{Cautious, Distinct, peer_ports-Cautious}

-- A system in which process 7 holds two peer ports and the daemon's port, the daemon is not healthy, and the
-- first kill is refused; the world counts the kills.
abbrev find : ℕ → ℕ → Option ℕ × ℕ
find port w = (if port == 6881 || port == 6882 || port == 8733 then some 7 else none, w)

abbrev sick : ℕ → Bool × ℕ
sick w = (false, w)

abbrev kill : ℕ → ℕ → Bool × ℕ
kill pid w = (ltb 0 w, suc w)

abbrev in_use : ℕ → Bool × ℕ
in_use w = (ltb w 2, w)

peer_run :
    (cleanup_stale_peer_ports find sick kill in_use 0).acts
    ≡ saw_health false ∷ kills 7 ∷ saw_health false ∷ kills 7 ∷ []
unfolding cleanup_stale_peer_ports
peer_run = refl

peer_ports-Cautious_example :
    Cautious false false (cleanup_stale_peer_ports find sick kill in_use 0).acts
    × Distinct (cleanup_stale_peer_ports find sick kill in_use 0).killed
    × ((cleanup_stale_peer_ports find sick kill in_use 0).cleaned
        ≡ length (cleanup_stale_peer_ports find sick kill in_use 0).killed)
peer_ports-Cautious_example = peer_ports-Cautious find sick kill in_use 0

port_run : (cleanup_stale_processes_on_port find sick kill in_use false 1).cleaned ≡ true
unfolding cleanup_stale_processes_on_port
port_run = refl

-- the third check finds the daemon healthy; a check takes 20 ms
abbrev third : ℕ → Bool
third i = i == 2
