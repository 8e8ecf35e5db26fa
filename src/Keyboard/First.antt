-- ===== src/Keyboard/First.antt =====
-- Which shortcut a key calls (ui/desktop/src/renderer/utils/keyboard.ts).
use orc_torrent.Prelude.{
  ◌≡◌, ◌⊎◌, ◌↔◌, inl, inr, refl, ap, arith, Bool, ◌||◌, true, false, Option, none, some, List, [],
  ◌∷◌, ◌++◌, All, Bool-cases,
}
use orc_torrent.Prelude.Assoc.{list_eq, nat_eq}
use orc_torrent.Prelude.Codes.{Text, codes}
use orc_torrent.Country.{same_text}
use orc_torrent.Keyboard.{
  agrees, escape, KeyEvent, Shortcut, Handler, key_matches, matches_shortcut, first_match,
  handle_key_down,
}

-- what a shortcut says of a modifier key: nothing, that it is down, or that it is not
abbrev pub Wants : Option Bool → Type 0 → Type 0
Wants none P = Unit
Wants (some true) P = P
Wants (some false) P = ¬ P

-- Ctrl or Meta is down.
abbrev pub Commands : KeyEvent → Type 0
Commands e = (e.ctrl_key ≡ true) ⊎ (e.meta_key ≡ true)

-- The event is that of the shortcut: its key is the same but for case, or its code is "key" before the shortcut's key
-- but for case, and its modifiers are as the shortcut says.
abbrev pub Fits : (Text → Text) → KeyEvent → Shortcut → Type 0
Fits lower e s =
    ((lower e.key ≡ lower s.key) ⊎ (lower e.code ≡ lower (codes "key" ++ s.key)))
    × Wants s.ctrl (Commands e)
    × Wants s.shift (e.shift_key ≡ true)
    × Wants s.alt (e.alt_key ≡ true)
    × Wants s.meta (e.meta_key ≡ true)

-- The key is left to the text field that it is typed in.
abbrev pub IsTyped : KeyEvent → Type 0
IsTyped e = (e.in_field ≡ true) × ((e.key ≡ escape) ⊎ (¬ Commands e))

-- No handler where no shortcut fits, or the handler of a shortcut that fits while none before it does.
abbrev pub IsFirst : (Text → Text) → KeyEvent → List Shortcut → Option Handler → Type 0
IsFirst lower e shortcuts none = All (λ s. ¬ Fits lower e s) shortcuts
IsFirst lower e shortcuts (some h) =
    (before : List Shortcut) × (s : Shortcut) × (after : List Shortcut) × (shortcuts
      ≡ before ++ (s ∷ after))
    × All (λ s. ¬ Fits lower e s) before
    × Fits lower e s
    × (s.handler ≡ h)

same_text_iff : (s t : Text) → (same_text s t ≡ true) ↔ (s ≡ t)
same_text_iff s t = (list_eq ⦃e = nat_eq⦄).beq_iff s t

agrees_iff :
    (o : Option Bool) (b : Bool) (P : Type 0) → ((b ≡ true) ↔ P) → (agrees o b ≡ true) ↔ Wants o P
agrees_iff none b P h = ground arith
agrees_iff (some true) b P h = h
agrees_iff (some false) b P h = ground (arith, h, Bool-cases b)

Commands-iff : (e : KeyEvent) → ((e.ctrl_key || e.meta_key) ≡ true) ↔ Commands e
Commands-iff e = ground (arith, Bool-cases e.ctrl_key, Bool-cases e.meta_key)

key_matches_iff :
    (lower : Text → Text) (e : KeyEvent) (key : Text)
    → (key_matches lower e key ≡ true)
      ↔ ((lower e.key ≡ lower key) ⊎ (lower e.code ≡ lower (codes "key" ++ key)))
unfolding key_matches
key_matches_iff lower e key = ground (
  arith,
  same_text_iff (lower e.key) (lower key),
  same_text_iff (lower e.code) (lower (codes "key" ++ key)),
)

matches_shortcut-Fits :
    (lower : Text → Text) (e : KeyEvent) (s : Shortcut)
    → (matches_shortcut lower e s ≡ true) ↔ Fits lower e s
unfolding matches_shortcut
matches_shortcut-Fits lower e s = ground (
  arith,
  key_matches_iff lower e s.key,
  agrees_iff s.ctrl (e.ctrl_key || e.meta_key) (Commands e) (Commands-iff e),
  agrees_iff s.shift e.shift_key (e.shift_key ≡ true) (λ h. h, λ h. h),
  agrees_iff s.alt e.alt_key (e.alt_key ≡ true) (λ h. h, λ h. h),
  agrees_iff s.meta e.meta_key (e.meta_key ≡ true) (λ h. h, λ h. h),
)

skip-IsFirst :
    (lower : Text → Text) (e : KeyEvent) (s : Shortcut) (shortcuts : List Shortcut)
    (o : Option Handler)
    → ¬ Fits lower e s
    → IsFirst lower e shortcuts o
    → IsFirst lower e (s ∷ shortcuts) o
skip-IsFirst lower e s shortcuts none h i = (h, i)
skip-IsFirst lower e s shortcuts (some k) h (before, t, after, split, missed, hit, named) =
    (s ∷ before, t, after, ap (λ l. s ∷ l) split, (h, missed), hit, named)

first_match-IsFirst :
    (lower : Text → Text) (e : KeyEvent) (shortcuts : List Shortcut)
    → IsFirst lower e shortcuts (first_match lower e shortcuts)
unfolding first_match
first_match-IsFirst lower e [] = tt
first_match-IsFirst lower e (s ∷ shortcuts) =
    let f = matches_shortcut-Fits lower e s in
    elim (Bool-cases (matches_shortcut lower e s)) [
      | inl h ↦ rw h ([], s, shortcuts, refl, tt, f.0 h, refl)
      | inr h ↦ rw h (
          skip-IsFirst lower e s shortcuts (first_match lower e shortcuts)
            (λ k. ground (arith, h, f.1 k)) (first_match-IsFirst lower e shortcuts))
    ]

-- A key that is typed into a text field, the Escape key or without Ctrl and Meta, calls nothing; any other key calls
-- the handler of the first shortcut that fits it, in its key or code but for case and in its
-- modifiers, or none where none fits.
pub handle_key_down-IsFirst :
    (lower : Text → Text) (e : KeyEvent) (shortcuts : List Shortcut)
    → (IsTyped e × (handle_key_down lower shortcuts e ≡ none))
      ⊎ ((¬ IsTyped e) × IsFirst lower e shortcuts (handle_key_down lower shortcuts e))
unfolding handle_key_down
handle_key_down-IsFirst lower e shortcuts =
    let key = same_text_iff e.key escape in
    let commands = Commands-iff e in
    let first = first_match-IsFirst lower e shortcuts in
    elim (Bool-cases e.in_field) [
      | inr f ↦ rw f (inr (λ t. ground (arith, f, t), first))
      | inl f ↦ rw f (elim (Bool-cases (same_text e.key escape)) [
        | inl k ↦ rw k (inl ((refl, inl (key.0 k)), refl))
        | inr k ↦ rw k (elim (Bool-cases (e.ctrl_key || e.meta_key)) [
          | inl c ↦ rw c (inr (λ t. ground (arith, f, k, c, t, key, commands), first))
          | inr c ↦ rw c (inl ((refl, inr (λ t. ground (arith, c, commands, t))), refl))
        ])
      ])
    ]
