-- ===== src/Policy/Hook.antt =====
-- The hook usePolicy (ui/desktop/src/renderer/utils/usePolicy.ts): its polls and its changes, which settle in any
-- order. Requests go by numbers, the newest first; an error is there or not.
use orc_torrent.Prelude.{
  ℕ, suc, Bool, true, false, Option, none, some, List, [], ◌∷◌, if◌then◌else◌,
}
use orc_torrent.Prelude.Assoc.{nat_eq, lookup, delete}
use orc_torrent.Policy.{DesiredPolicy, PolicyProfile, profile_policy, Patch, merge}

-- what a request is for: a poll, a change, or the refresh after a change that failed
pub data Purpose : Type 0 where
  poll change recovery : Purpose

pub record PolicyHook : Type 0 where
  pub online : Bool
  pub state : Option DesiredPolicy
  pub error : Bool
  pub loading : Bool
  pub requests : List (ℕ × Purpose)
  pub next : ℕ
  -- the policies sent to the daemon, the newest first
  pub sent : List DesiredPolicy

pub data Event : Type 0 where
  polls : Event
  goes_online : Bool → Event
  updates : Patch → Event
  applies_profile : PolicyProfile → Event
  settles : ℕ → Option DesiredPolicy → Event

abbrev pub ask : Purpose → PolicyHook → PolicyHook
ask p s = record s { error = false; requests = (s.next, p) ∷ s.requests; next = suc s.next }

abbrev pub refresh : PolicyHook → PolicyHook
refresh s = if s.online then ask poll s else record s { state = none }

abbrev pub send : DesiredPolicy → PolicyHook → PolicyHook
send d s = ask change (record s { loading = true; sent = d ∷ s.sent })

abbrev pub update_any : Option DesiredPolicy → Patch → PolicyHook → PolicyHook
update_any none patch s = s
update_any (some d) patch s = if s.online then send (merge patch d) s else s

unfoldable pub update : Patch → PolicyHook → PolicyHook
update patch s = update_any s.state patch s

unfoldable pub apply_profile : PolicyProfile → PolicyHook → PolicyHook
apply_profile p s = if s.online then send (profile_policy p) s else s

-- what follows a request; a change that fails sets the error and refreshes, and it was sent while online
abbrev pub request_then : Purpose → Option DesiredPolicy → PolicyHook → PolicyHook
request_then poll (some d) s = record s { state = some d }
request_then poll none s = record s { error = true }
request_then change (some d) s = record s { state = some d; loading = false }
request_then change none s = ask recovery (record s { error = true })
request_then recovery (some d) s = record s { state = some d; loading = false }
request_then recovery none s = record s { error = true; loading = false }

abbrev pub settle_asked : Option Purpose → ℕ → Option DesiredPolicy → PolicyHook → PolicyHook
settle_asked none n a s = s
settle_asked (some p) n a s = request_then p a (record s { requests = delete n s.requests })

unfoldable pub step : Event → PolicyHook → PolicyHook
unfolding update apply_profile
step polls s = refresh s
step (goes_online b) s = refresh (record s { online = b })
step (updates patch) s = update patch s
step (applies_profile p) s = apply_profile p s
step (settles n a) s = settle_asked (lookup n s.requests) n a s

unfoldable pub run : List Event → PolicyHook → PolicyHook
unfolding step
run [] s = s
run (e ∷ es) s = run es (step e s)
