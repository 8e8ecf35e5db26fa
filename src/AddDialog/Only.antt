-- ===== src/AddDialog/Only.antt =====
-- Which torrent the dialog opens for (ui/desktop/src/renderer/ui/App.tsx).
use orc_torrent.Prelude.{
  ℕ, ◌≡◌, ◌⊎◌, refl, ap, arith, Bool, true, false, ◌&&◌, Option, none, some, List, [], ◌∷◌,
  Bool-cases, inl, inr,
}
use Prim.Native.String.{String}
use orc_torrent.Prelude.Assoc.{string_eq, nat_eq, lookup, delete}
use mathlib.Core.Path.{subst}
use orc_torrent.AddDialog.{
  FileDialog, DialogReply, has_data, is_new, fails, Event, adds, fires, replies, escapes,
  same_torrent, await_dialog, handle_torrent_added, timer_fires, show_reply, reply_to,
  escape_dialog, step, run,
}

abbrev pub no_add : Event → Bool
no_add (adds id b) = false
no_add _ = true

abbrev pub no_adds : List Event → Bool
no_adds [] = true
no_adds (e ∷ es) = no_add e && no_adds es

module _ (id : String) (opened found : List String) where
  -- what was shown since: nothing, the dialog for the torrent, or the modal for it
  abbrev pub Once : FileDialog → Type 0
  Once s =
      ((s.opened ≡ opened) × (s.found ≡ found))
      ⊎ ((s.opened ≡ id ∷ opened) × (s.found ≡ found))
      ⊎ ((s.opened ≡ opened) × (s.found ≡ id ∷ found))

  -- the torrent is waited for, or nothing is and it was shown at most once
  abbrev pub Waiting : FileDialog → Type 0
  Waiting s =
      ((s.pending ≡ some id) × (s.opened ≡ opened) × (s.found ≡ found))
      ⊎ ((s.pending ≡ none) × Once s)

  Waiting-Once : (s : FileDialog) → Waiting s → Once s
  Waiting-Once s (inl (p, o, f)) = inl (o, f)
  Waiting-Once s (inr (p, o)) = o

  show_reply-Waiting :
      (r : DialogReply) (s : FileDialog)
      → s.opened ≡ opened
      → s.found ≡ found
      → Waiting (show_reply r id s)
  show_reply-Waiting has_data s o f = inr (refl, inr (inr (o, ap (λ l. id ∷ l) f)))
  show_reply-Waiting is_new s o f = inr (refl, inr (inl (ap (λ l. id ∷ l) o, f)))
  show_reply-Waiting fails s o f = inr (refl, inr (inl (ap (λ l. id ∷ l) o, f)))

  reply_to-Waiting :
      (o : Option String) (n : ℕ) (r : DialogReply) (s : FileDialog)
      → Waiting s
      → Waiting (reply_to o n r s)
  reply_to-Waiting none n r s w = w
  reply_to-Waiting (some j) n r s (inl (p, o, f)) =
      let t = record s { requests = delete n s.requests } in
      elim (Bool-cases (same_torrent s.pending j)) [
        | inl e ↦
            let q : id ≡ j =
              (string_eq.beq_iff id j).0 (subst (λ x. same_torrent x j ≡ true) p e) in
            rw e (subst (λ k. Waiting (show_reply r k t)) q (show_reply-Waiting r t o f))
        | inr e ↦ rw e (inl (p, o, f))
      ]
  reply_to-Waiting (some j) n r s (inr (p, o)) =
      let e : same_torrent s.pending j ≡ false = rw p refl in rw e (inr (p, o))

  timer_fires-Waiting :
      (o : Option String) (n : ℕ) (s : FileDialog) → Waiting s → Waiting (timer_fires o n s)
  timer_fires-Waiting none n s w = w
  timer_fires-Waiting (some j) n s w = w

  escape_dialog-Waiting : (s : FileDialog) → Waiting s → Waiting (escape_dialog s)
  escape_dialog-Waiting s w = elim (Bool-cases s.shows) [
    | inl e ↦ rw e (inr (refl, Waiting-Once s w))
    | inr e ↦ rw e w
  ]

  step-Waiting : (e : Event) (s : FileDialog) → no_add e ≡ true → Waiting s → Waiting (step e s)
  unfolding step
  step-Waiting (adds j b) s h w = ground (arith, h)
  step-Waiting (fires n) s h w = timer_fires-Waiting (lookup n s.timers) n s w
  step-Waiting (replies n r) s h w = reply_to-Waiting (lookup n s.requests) n r s w
  step-Waiting escapes s h w = escape_dialog-Waiting s w

  run-Waiting :
      (es : List Event) (s : FileDialog) → no_adds es ≡ true → Waiting s → Waiting (run es s)
  unfolding run
  run-Waiting [] s h w = w
  run-Waiting (e ∷ es) s h w =
      run-Waiting es (step e s) (ground (arith, h)) (step-Waiting e s (ground (arith, h)) w)

-- Where a torrent is added with its files at hand, and neither it is waited for nor its dialog shows, then as long as
-- no other is added, whatever timers fire, requests settle and Escape is pressed, for torrents added before as well,
-- the dialog opens or the modal shows for this torrent only, and at most once.
pub only_last_added :
    (id : String) (es : List Event) (s : FileDialog)
    → same_torrent s.pending id ≡ false
    → same_torrent s.torrent id ≡ false
    → no_adds es ≡ true
    → Once id s.opened s.found (run es (step (adds id true) s))
unfolding step handle_torrent_added
only_last_added id es s p q h =
    rw (p, q)
      (Waiting-Once id s.opened s.found (run es (await_dialog id s))
        (run-Waiting id s.opened s.found es (await_dialog id s) h (inl (refl, refl, refl))))
