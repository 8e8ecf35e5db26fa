-- ===== src/App/Resume.antt =====
-- The auto-resume effect of ui/App.tsx (ui/desktop/src/renderer): it runs whenever one of the values that
-- it names changes, and starts the stopped torrents when the daemon comes online.
use orc_torrent.Prelude.{
  ◌≡◌, ◌≢◌, inl, inr, Option-cases, arith, Bool, true, false, not, ◌&&◌, ◌||◌, Option, none, some,
  List, [], ◌∷◌, All, if◌then◌else◌,
}
use Prim.Native.String.{String}
use orc_torrent.Prelude.Assoc.{string_eq, lookup}
use orc_torrent.Types.{State, stopped, same_state}

-- of the kill switch's configuration: is it enabled, is its enforcement engaged or armed
pub record KillSwitch : Type 0 where
  pub enabled : Bool
  pub enforced : Bool

-- what the effect sees when it runs; `vpn_detected` is `vpnStatus?.detected`
pub record Sight : Type 0 where
  pub online : Bool
  pub kill_switch : Option KillSwitch
  pub vpn_detected : Bool
  pub torrents : List String
  pub statuses : List (String × State)

-- the refs `wasOnline` and `hasAutoResumed`
pub record Session : Type 0 where
  pub was_online : Bool
  pub has_auto_resumed : Bool

abbrev pub is_stopped : List (String × State) → String → Bool
is_stopped statuses id = elim (lookup id statuses) [ none ↦ false | some s ↦ same_state s stopped ]

unfoldable pub stopped_ids : List (String × State) → List String → List String
stopped_ids statuses [] = []
stopped_ids statuses (id ∷ ids) =
    let rest = stopped_ids statuses ids in if is_stopped statuses id then id ∷ rest else rest

-- The ids that are started; none where the effect returns early.
unfoldable pub auto_resume : Sight → Session → Session × List String
unfolding stopped_ids
auto_resume v s =
    let just_came_online = v.online && not s.was_online in
    let t = record s { was_online = v.online } in
    let done = record t { has_auto_resumed = true } in
    if not just_came_online || s.has_auto_resumed then (t, []) else elim v.kill_switch [
      | none ↦ (t, [])
      | some k ↦
          if (k.enabled && k.enforced) || (k.enabled && not v.vpn_detected)
          then (done, [])
          else (done, stopped_ids v.statuses v.torrents)
    ]

unfoldable pub resumes : List Sight → Session → Session × List (List String)
unfolding auto_resume
resumes [] s = (s, [])
resumes (v ∷ vs) s =
    let (t, ids) = auto_resume v s in let (u, later) = resumes vs t in (u, ids ∷ later)

-- A run of the effect that starts something saw the daemon come online, with the kill switch's
-- configuration there, not enforced, and a VPN if the switch is on.
pub auto_resume-safe :
    (v : Sight) (s : Session)
    → (auto_resume v s).1 ≢ []
    → (v.online ≡ true)
      × (s.was_online ≡ false)
      × (s.has_auto_resumed ≡ false)
      × ((k : KillSwitch) × (v.kill_switch ≡ some k)
          × ((k.enabled && (k.enforced || not v.vpn_detected)) ≡ false))
unfolding auto_resume
auto_resume-safe v s h = elim (Option-cases v.kill_switch) [
  | inl e ↦ ground (arith, h, e)
  | inr (k, e) ↦
      let q : (v.online ≡ true)
          × (s.was_online ≡ false)
          × (s.has_auto_resumed ≡ false)
          × ((k.enabled && (k.enforced || not v.vpn_detected)) ≡ false) =
        ground (arith, h, e) in
      (q.0, q.1, q.2, (k, e, q.3))
]

-- The effect does nothing while the daemon stays online.
stays_online-resumes :
    (vs : List Sight) (s : Session)
    → s.was_online ≡ true
    → All (λ u. u.online ≡ true) vs
    → All (λ ids. ids ≡ []) (resumes vs s).1
unfolding resumes auto_resume
stays_online-resumes [] s w h = tt
stays_online-resumes (v ∷ vs) s w h = (
  ground (arith, w, h.0),
  stays_online-resumes vs (auto_resume v s).0 (ground (arith, w, h.0)) h.1,
)

-- Where the daemon comes online before the kill switch's configuration is there, nothing is resumed,
-- neither then nor at any run of the effect while the daemon stays online, whatever arrives later.
pub late_kill_switch :
    (v : Sight) (vs : List Sight) (s : Session)
    → v.online ≡ true
    → v.kill_switch ≡ none
    → All (λ u. u.online ≡ true) vs
    → All (λ ids. ids ≡ []) (resumes (v ∷ vs) s).1
unfolding resumes auto_resume
late_kill_switch v vs s o k h =
    (ground (arith, o, k), stays_online-resumes vs (auto_resume v s).0 (ground (arith, o, k)) h)
