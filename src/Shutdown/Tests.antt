-- ===== src/Shutdown/Tests.antt =====
-- Runs of the daemon's shutdown, and its theorem at a concrete input.
use orc_torrent.Prelude.{ℕ, ◌≤◌, ◌≡◌, ◌⊎◌, refl, arith, true, false, not, some, leb}
use orc_torrent.Shutdown.{Proc, is_gone, wait_for_exit, graceful_shutdown_if_owned}
use orc_torrent.Shutdown.Ends.{graceful_shutdown_if_owned-ends}

abbrev exits_at : ℕ → ℕ → Proc
exits_at exit t = record { killed = false; exited = leb exit t }

abbrev on_time : ℕ → ℕ
on_time now = 0

stays : (graceful_shutdown_if_owned (exits_at 9000) on_time true 0).kills ≡ true
unfolding graceful_shutdown_if_owned wait_for_exit
stays = refl

exits : (graceful_shutdown_if_owned (exits_at 200) on_time true 0).ended ≡ some 240
unfolding graceful_shutdown_if_owned wait_for_exit
exits = refl

not_owned : (graceful_shutdown_if_owned (exits_at 9000) on_time false 0).kills ≡ false
unfolding graceful_shutdown_if_owned
not_owned = refl

graceful_shutdown_if_owned-ends_example :
    (let r = graceful_shutdown_if_owned (exits_at 200) on_time true 0 in
      (t : ℕ) × (r.ended ≡ some t)
      × (t ≤ 3120)
      × ((is_gone (exits_at 200 t) ≡ true) ⊎ (3000 ≤ t))
      × (r.kills ≡ not (is_gone (exits_at 200 t))))
graceful_shutdown_if_owned-ends_example =
    graceful_shutdown_if_owned-ends (exits_at 200) on_time 0 0 (λ now. omega arith)
