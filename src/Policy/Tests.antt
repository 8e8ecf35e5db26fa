-- ===== src/Policy/Tests.antt =====
-- Runs of the policy's model, and its theorems at concrete inputs.
use orc_torrent.Prelude.{◌≡◌, refl, arith, true, false, none, some, [], ◌∷◌}
use orc_torrent.Prelude.Assoc.{nat_eq, lookup, delete}
use orc_torrent.Policy.{
  standard, hardened, profile_policy, f_kill_switch, f_ip_blocklist, get_flag, flag, merge,
}
use orc_torrent.Policy.Hook.{
  PolicyHook, polls, updates, settles, applies_profile, poll, change, run,
}
use orc_torrent.Policy.Profiles.{keeps_back}
use orc_torrent.Policy.Stale.{stale_poll_reverts}
use orc_torrent.Policy.Loading.{Busy, Waits, loading-Waits}

blocks : keeps_back f_ip_blocklist (profile_policy hardened) ≡ true
unfolding profile_policy
blocks = refl

abbrev hook : PolicyHook
hook = record {
  online = true;
  state = some (profile_policy standard);
  error = false;
  loading = false;
  requests = (1, poll) ∷ [];
  next = 2;
  sent = [];
}

polled : lookup 1 hook.requests ≡ some poll
unfolding lookup
polled = refl

stale_poll_reverts_example :
    (let d = profile_policy standard in
      let made = merge (flag f_kill_switch true) d in
      let t =
        run
          (updates (flag f_kill_switch true)
            ∷ settles 2 (some made)
            ∷ settles 1 (some d)
            ∷ updates (flag f_ip_blocklist true)
            ∷ [])
          hook in
      (t.sent ≡ merge (flag f_ip_blocklist true) d ∷ made ∷ [])
      × (get_flag f_kill_switch (merge (flag f_ip_blocklist true) d) ≡ get_flag f_kill_switch d))
stale_poll_reverts_example =
    stale_poll_reverts f_kill_switch f_ip_blocklist true true (profile_policy standard) 1 hook refl
      refl (omega arith) polled refl

abbrev changing : PolicyHook
changing = record hook { loading = true; requests = (1, change) ∷ [] }

changed : lookup 1 changing.requests ≡ some change
unfolding lookup
changed = refl

idle-Waits : Waits hook
idle-Waits l = ground (arith, l)

loads : (run (polls ∷ applies_profile hardened ∷ settles 1 none ∷ []) hook).loading ≡ true
unfolding run lookup delete
loads = refl

loading-Waits_example : Busy (run (polls ∷ applies_profile hardened ∷ settles 1 none ∷ []) hook)
loading-Waits_example =
    loading-Waits (polls ∷ applies_profile hardened ∷ settles 1 none ∷ []) hook idle-Waits loads
