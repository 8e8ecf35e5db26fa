-- ===== src/Policy/Loading.antt =====
-- The flag `loading` of usePolicy (ui/desktop/src/renderer/utils/usePolicy.ts), which keeps the settings from being
-- changed.
use orc_torrent.Prelude.{
  ℕ, ◌<◌, ◌≡◌, refl, arith, Bool, true, false, Option, none, some, List, [], ◌∷◌, ◌==◌, ==_iff,
  Option-cases, Bool-cases, inl, inr,
}
use mathlib.Core.Path.{subst}
use orc_torrent.Prelude.Assoc.{nat_eq, lookup, delete, lookup-delete}
use orc_torrent.Policy.{DesiredPolicy, PolicyProfile, profile_policy, Patch, merge}
use orc_torrent.Policy.Hook.{
  PolicyHook, Event, Purpose, poll, change, recovery, polls, goes_online, updates, applies_profile,
  settles, step, run, update, apply_profile, ask, refresh, request_then,
}

abbrev pub is_poll : Purpose → Bool
is_poll poll = true
is_poll _ = false

-- A change, or the refresh after one, runs.
abbrev pub Busy : PolicyHook → Type 0
Busy s =
    (m : ℕ) × (p : Purpose) × (lookup m s.requests ≡ some p) × (is_poll p ≡ false) × (m < s.next)

abbrev pub Waits : PolicyHook → Type 0
Waits s = s.loading ≡ true → Busy s

lookup-asked :
    (m n : ℕ) (p q : Purpose) (l : List (ℕ × Purpose))
    → m < n
    → lookup m l ≡ some p
    → lookup m ((n, q) ∷ l) ≡ some p
unfolding lookup
lookup-asked m n p q l h k = ground (arith, h, k)

ask-Busy : (q : Purpose) (s : PolicyHook) → Busy s → Busy (ask q s)
ask-Busy q s (m, p, h, k, l) = (m, p, lookup-asked m s.next p q s.requests l h, k, omega (arith, l))

asked-Busy : (q : Purpose) (s : PolicyHook) → is_poll q ≡ false → Busy (ask q s)
unfolding lookup
asked-Busy q s k = (s.next, q, ground arith, k, omega arith)

refresh-Waits : (s : PolicyHook) → Waits s → Waits (refresh s)
refresh-Waits s w = elim (Bool-cases s.online) [
  | inl e ↦ rw e (λ l. ask-Busy poll s (w l))
  | inr e ↦ rw e w
]

update-Waits : (patch : Patch) (s : PolicyHook) → Waits s → Waits (update patch s)
unfolding update
update-Waits patch s w = elim (Option-cases s.state) [
  | inl e ↦ rw e w
  | inr (d, e) ↦ rw e (elim (Bool-cases s.online) [
    | inl o ↦
        rw o
          (λ l. asked-Busy change (record s { loading = true; sent = merge patch d ∷ s.sent }) refl)
    | inr o ↦ rw o w
  ])
]

other-key :
    (m n : ℕ) (p : Purpose) (l : List (ℕ × Purpose))
    → lookup n l ≡ some poll
    → lookup m l ≡ some p
    → is_poll p ≡ false
    → lookup m (delete n l) ≡ some p
other-key m n p l e h k = elim (Bool-cases (n == m)) [
  | inr d ↦ ground (arith, d, h, lookup-delete n m l)
  | inl d ↦
      let moved = subst (λ x. lookup x l ≡ some poll) ((==_iff n m).0 d) e in
      ground (arith, moved, h, k)
]

delete-Busy :
    (n : ℕ) (s : PolicyHook)
    → lookup n s.requests ≡ some poll
    → Busy s
    → Busy (record s { requests = delete n s.requests })
delete-Busy n s e (m, p, h, k, l) = (m, p, other-key m n p s.requests e h k, k, l)

settle_poll-Waits :
    (n : ℕ) (a : Option DesiredPolicy) (s : PolicyHook)
    → lookup n s.requests ≡ some poll
    → Waits s
    → Waits (request_then poll a (record s { requests = delete n s.requests }))
settle_poll-Waits n (some d) s e w = λ l. delete-Busy n s e (w l)
settle_poll-Waits n none s e w = λ l. delete-Busy n s e (w l)

settle-Waits :
    (n : ℕ) (p : Purpose) (a : Option DesiredPolicy) (s : PolicyHook)
    → lookup n s.requests ≡ some p
    → Waits s
    → Waits (request_then p a (record s { requests = delete n s.requests }))
settle-Waits n poll a s e w = settle_poll-Waits n a s e w
settle-Waits n change (some d) s e w = λ l. ground (arith, l)
settle-Waits n change none s e w =
    λ l. asked-Busy recovery (record s { error = true; requests = delete n s.requests }) refl
settle-Waits n recovery (some d) s e w = λ l. ground (arith, l)
settle-Waits n recovery none s e w = λ l. ground (arith, l)

apply_profile-Waits : (p : PolicyProfile) (s : PolicyHook) → Waits s → Waits (apply_profile p s)
unfolding apply_profile
apply_profile-Waits p s w = elim (Bool-cases s.online) [
  | inl o ↦
      rw o (λ l.
        asked-Busy change (record s { loading = true; sent = profile_policy p ∷ s.sent }) refl)
  | inr o ↦ rw o w
]

step-Waits : (e : Event) (s : PolicyHook) → Waits s → Waits (step e s)
unfolding step
step-Waits polls s w = refresh-Waits s w
step-Waits (goes_online b) s w = refresh-Waits (record s { online = b }) w
step-Waits (updates patch) s w = update-Waits patch s w
step-Waits (applies_profile p) s w = apply_profile-Waits p s w
step-Waits (settles n a) s w = elim (Option-cases (lookup n s.requests)) [
  | inl e ↦ rw e w
  | inr (p, e) ↦ rw e (settle-Waits n p a s e w)
]

-- From a hook that is not loading or rightly so, in whatever order polls and changes are asked for and settle, while `loading` is
-- set a change runs or the refresh after a failed one: nothing leaves the settings locked for good.
pub loading-Waits :
    (es : List Event) (s : PolicyHook) → Waits s → (run es s).loading ≡ true → Busy (run es s)
unfolding run
loading-Waits [] s w = w
loading-Waits (e ∷ es) s w = loading-Waits es (step e s) (step-Waits e s w)
