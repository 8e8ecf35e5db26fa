-- ===== src/Shutdown/Ends.antt =====
-- How the shutdown of the daemon ends (ui/desktop/src/main/main.ts).
use orc_torrent.Prelude.{
  ℕ, zero, suc, ◌+◌, ◌-◌, ◌*◌, ◌≤◌, ◌<◌, ◌≡◌, ◌⊎◌, refl, ap, ◌∙◌, arith, true, false, not, Option,
  some, ltb, Bool-cases, inl, inr,
}
use orc_torrent.Shutdown.{
  Proc, is_gone, patience, pause, wait_for_exit, kill_if_there, graceful_shutdown_if_owned,
}

module _ (observe : ℕ → Proc) (late : ℕ → ℕ) where
  -- The wait ends at a time: with the process gone, or once the patience is over.
  abbrev pub EndsAt : ℕ → ℕ → Option ℕ → Type 0
  EndsAt start latest o =
      (t : ℕ) × (o ≡ some t)
      × (start ≤ t)
      × (t ≤ latest)
      × ((is_gone (observe t) ≡ true) ⊎ (start + patience ≤ t))

  wait_for_exit-EndsAt :
      (latest : ℕ)
      → ((now : ℕ) → late now ≤ latest)
      → (turns start now : ℕ) → start ≤ now
      → now < start + patience + pause + latest
      → start + patience ≤ now + pause * turns
      → EndsAt start
          (start + patience + pause + latest)
          (wait_for_exit observe late (suc turns) start now)
  unfolding wait_for_exit
  wait_for_exit-EndsAt latest l zero start now s b f =
      elim (Bool-cases (ltb (now - start) patience)) [
        | inr e ↦ rw e (now, refl, s, omega (arith, b), inr (ground (arith, e, s)))
        | inl e ↦ absurd (ground (arith, e, f, s))
      ]
  wait_for_exit-EndsAt latest l (suc turns) start now s b f =
      elim (Bool-cases (ltb (now - start) patience)) [
        | inr e ↦ rw e (now, refl, s, omega (arith, b), inr (ground (arith, e, s)))
        | inl e ↦ rw e (elim (Bool-cases (is_gone (observe now))) [
          | inl g ↦ rw g (now, refl, s, omega (arith, b), inl g)
          | inr g ↦ rw g (
              wait_for_exit-EndsAt latest l turns start (now + pause + late now) (omega (arith, s))
                (ground (arith, e, s, l now)) (omega (arith, f)))
        ])
      ]

  -- Where pauses end at most `latest` milliseconds late, the wait for a daemon that the app started ends, after at most
  -- 3120 milliseconds and the lateness of one pause, and not before the process is gone or three seconds are over; the
  -- process is killed exactly if it is still there then.
  pub graceful_shutdown_if_owned-ends :
      (latest start : ℕ)
      → ((now : ℕ) → late now ≤ latest)
      → (let r = graceful_shutdown_if_owned observe late true start in
          (t : ℕ) × (r.ended ≡ some t)
          × (t ≤ start + 3120 + latest)
          × ((is_gone (observe t) ≡ true) ⊎ (start + 3000 ≤ t))
          × (r.kills ≡ not (is_gone (observe t))))
  unfolding graceful_shutdown_if_owned
  graceful_shutdown_if_owned-ends latest start l =
      let (t, e, s, b, g) =
        wait_for_exit-EndsAt latest l 25 start start (omega arith) (omega arith) (omega arith) in
      (t, e, omega (arith, b), g, ap (kill_if_there observe late) e)

  -- A daemon that exits for good within three seconds is not killed.
  pub exit-not_killed :
      (latest start exit : ℕ)
      → ((now : ℕ) → late now ≤ latest)
      → ((u : ℕ) → exit ≤ u → is_gone (observe u) ≡ true)
      → exit ≤ start + 3000
      → (graceful_shutdown_if_owned observe late true start).kills ≡ false
  exit-not_killed latest start exit l h k =
      let (t, e, b, g, q) = graceful_shutdown_if_owned-ends latest start l in
      let gone : is_gone (observe t) ≡ true = elim g [
        | inl y ↦ y
        | inr o ↦ h t (omega (arith, k, o))
      ] in
      q ∙ ap not gone
