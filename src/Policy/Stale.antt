-- ===== src/Policy/Stale.antt =====
-- What changes and polls do to each other (ui/desktop/src/renderer/utils/usePolicy.ts).
use orc_torrent.Prelude.{
  ℕ, ◌<◌, ◌≡◌, refl, ap, ◌∙◌, arith, Bool, true, false, Option, none, some, List, [], ◌∷◌,
  if◌then◌else◌,
}
use orc_torrent.Prelude.Assoc.{nat_eq, lookup, delete, lookup-delete}
use orc_torrent.Policy.{DesiredPolicy, Flag, Patch, same_flag, get_flag, flag, merge}
use orc_torrent.Policy.Merge.{get_flag-set_flag}
use orc_torrent.Policy.Hook.{
  PolicyHook, Purpose, poll, change, recovery, updates, settles, step, run, update, ask, send,
  request_then,
}

update-sends :
    (patch : Patch) (d : DesiredPolicy) (s : PolicyHook)
    → s.online ≡ true
    → s.state ≡ some d
    → update patch s ≡ send (merge patch d) s
unfolding update
update-sends patch d s h g = rw (g, h) refl

lookup-first : (n : ℕ) (p : Purpose) (l : List (ℕ × Purpose)) → lookup n ((n, p) ∷ l) ≡ some p
unfolding lookup
lookup-first n p l = ground arith

lookup-older :
    (n m : ℕ) (p q : Purpose) (l : List (ℕ × Purpose))
    → n < m
    → lookup n l ≡ some q
    → lookup n (delete m ((m, p) ∷ l)) ≡ some q
unfolding lookup delete
lookup-older n m p q l h k = ground (arith, h, k, lookup-delete m n l)

-- A poll that was asked before a setting was changed and is answered after the change puts the old policy back:
-- the next change of another setting then sends the first setting's old value.
pub stale_poll_reverts :
    (j k : Flag) (b c : Bool) (d : DesiredPolicy) (n : ℕ) (s : PolicyHook)
    → s.online ≡ true
    → s.state ≡ some d
    → n < s.next
    → lookup n s.requests ≡ some poll
    → same_flag k j ≡ false
    → (let made = merge (flag j b) d in
        let t =
          run
            (updates (flag j b)
              ∷ settles s.next (some made)
              ∷ settles n (some d)
              ∷ updates (flag k c)
              ∷ [])
            s in
        (t.sent ≡ merge (flag k c) d ∷ made ∷ s.sent)
        × (get_flag j (merge (flag k c) d) ≡ get_flag j d))
unfolding run merge
stale_poll_reverts j k b c d n s h g l p f =
    let made = merge (flag j b) d in
    let s1 = send made s in
    let s2 = request_then change (some made) (record s1 { requests = delete s.next s1.requests }) in
    let s3 = request_then poll (some d) (record s2 { requests = delete n s2.requests }) in
    rw
      (
        update-sends (flag j b) d s h g,
        lookup-first s.next change s.requests,
        lookup-older n s.next change poll s.requests l p,
        update-sends (flag k c) d s3 h refl,
      )
      (refl, get_flag-set_flag j k c d ∙ ap (λ t. if t then c else get_flag j d) f)

abbrev pub has_answer : {A : Type 0} → Option A → Bool
has_answer none = false
has_answer (some a) = true

recovery-ends :
    (a : Option DesiredPolicy) (s : PolicyHook)
    → s.error ≡ false
    → ((request_then recovery a s).error ≡ (if has_answer a then false else true))
      × ((request_then recovery a s).loading ≡ false)
recovery-ends none s h = (refl, refl)
recovery-ends (some d) s h = (h, refl)

-- A change that fails leaves no error behind: the refresh that follows clears it before anything else happens, and
-- only if that fails too is there an error in the end.
pub failed_change_hides_error :
    (n : ℕ) (a : Option DesiredPolicy) (s : PolicyHook)
    → lookup n s.requests ≡ some change
    → (let t = step (settles n none) s in
        (t.error ≡ false)
        × (t.loading ≡ s.loading)
        × ((step (settles s.next a) t).error ≡ (if has_answer a then false else true))
        × ((step (settles s.next a) t).loading ≡ false))
unfolding step
failed_change_hides_error n a s h =
    let rest = delete n s.requests in
    let t = ask recovery (record s { error = true; requests = rest }) in
    let ends = recovery-ends a (record t { requests = delete s.next t.requests }) refl in
    rw (h, lookup-first s.next recovery rest) (refl, refl, ends.0, ends.1)
