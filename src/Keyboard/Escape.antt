-- ===== src/Keyboard/Escape.antt =====
-- The Escape key (utils/keyboard.ts and ui/App.tsx of ui/desktop/src/renderer).
use orc_torrent.Prelude.{◌≡◌, refl, arith, true, false, none, some, List, [], ◌∷◌, ◌++◌}
use orc_torrent.Prelude.Assoc.{list_eq, nat_eq}
use orc_torrent.Prelude.Codes.{Text}
use orc_torrent.Country.{same_text}
use orc_torrent.Keyboard.{
  KeyEvent, Shortcut, close_all, escape, key_matches, matches_shortcut, first_match,
  handle_key_down, escape_shortcut, ctrl_shortcuts, torrents, View, press,
}

same_text_refl : (s : Text) → same_text s s ≡ true
same_text_refl s = ((list_eq ⦃e = nat_eq⦄).beq_iff s s).1 refl

-- shortcuts that want Ctrl
abbrev AllCtrl : List Shortcut → Type 0
AllCtrl [] = Unit
AllCtrl (s ∷ shortcuts) = (s.ctrl ≡ some true) × AllCtrl shortcuts

module _ (lower : Text → Text) (e : KeyEvent) (h : e.key ≡ escape) where
  escape_matches : key_matches lower e escape ≡ true
  unfolding key_matches
  escape_matches = rw (h, same_text_refl (lower escape)) refl

  -- In a text field, or in whatever else can be edited, the Escape key calls no handler, whatever the shortcuts are.
  pub escape_in_field :
      (shortcuts : List Shortcut) → e.in_field ≡ true → handle_key_down lower shortcuts e ≡ none
  unfolding handle_key_down
  escape_in_field shortcuts f = rw (f, h, same_text_refl escape) refl

  ctrl_missing :
      (s : Shortcut)
      → e.ctrl_key ≡ false
      → e.meta_key ≡ false
      → s.ctrl ≡ some true
      → matches_shortcut lower e s ≡ false
  unfolding matches_shortcut
  ctrl_missing s c m k = ground (arith, c, m, k)

  escape_found : matches_shortcut lower e escape_shortcut ≡ true
  unfolding matches_shortcut
  escape_found = rw escape_matches refl

  escape_first :
      (shortcuts : List Shortcut)
      → AllCtrl shortcuts
      → e.ctrl_key ≡ false
      → e.meta_key ≡ false
      → first_match lower e (shortcuts ++ (escape_shortcut ∷ [])) ≡ some close_all
  unfolding first_match
  escape_first [] a c m = rw escape_found refl
  escape_first (s ∷ shortcuts) a c m = rw (ctrl_missing s c m a.0) (escape_first shortcuts a.1 c m)

  -- Outside of them, without Ctrl and Meta and while the window is mounted and online, the Escape key closes whatever
  -- is open over the page and leads back to the page of the torrents.
  pub escape_closes :
      (v : View)
      → e.in_field ≡ false
      → e.ctrl_key ≡ false
      → e.meta_key ≡ false
      → (let w = press lower true true e v in
          (w.add_torrent_modal ≡ false)
          × (w.kill_switch_drawer ≡ false)
          × (w.file_selection_dialog ≡ false)
          × (w.help ≡ false)
          × (w.page ≡ torrents))
  unfolding press handle_key_down
  escape_closes v f c m =
      rw (f, escape_first ctrl_shortcuts (refl, (refl, (refl, (refl, tt)))) c m)
        (refl, refl, refl, refl, refl)
