-- ===== src/Keyboard/Tests.antt =====
-- Runs of the keyboard's model, and its theorems at concrete inputs.
use orc_torrent.Prelude.{◌≡◌, refl, ◌⊎◌, Bool, true, false, none, some, [], map}
use orc_torrent.Prelude.Assoc.{list_eq, nat_eq, same_list}
use orc_torrent.Prelude.Codes.{Text, codes, to_lower}
use orc_torrent.Keyboard.{KeyEvent, add_magnet, handle_key_down, keyboard_shortcuts, View, network}
use orc_torrent.Keyboard.First.{IsTyped, IsFirst, handle_key_down-IsFirst}

abbrev lower : Text → Text
lower s = map to_lower s

abbrev press_of : Text → Bool → Bool → KeyEvent
press_of key ctrl field = record {
  key = key;
  code = [];
  ctrl_key = ctrl;
  meta_key = false;
  shift_key = false;
  alt_key = false;
  in_field = field;
}

ctrl_m_in_field :
    handle_key_down lower keyboard_shortcuts (press_of (codes "M") true true) ≡ some add_magnet
unfolding handle_key_down list_eq same_list
ctrl_m_in_field = refl

plain_m : handle_key_down lower keyboard_shortcuts (press_of (codes "m") false false) ≡ none
unfolding handle_key_down list_eq same_list
plain_m = refl

abbrev view : View
view = record {
  add_torrent_modal = true;
  kill_switch_drawer = false;
  file_selection_dialog = true;
  pending_torrent = true;
  pending_dialog = true;
  help = true;
  page = network;
  search_focused = false;
}

handle_key_down-IsFirst_example :
    (IsTyped (press_of (codes "t") true true)
      × (handle_key_down lower keyboard_shortcuts (press_of (codes "t") true true) ≡ none))
    ⊎ ((¬ IsTyped (press_of (codes "t") true true))
        × IsFirst lower
            (press_of (codes "t") true true)
            keyboard_shortcuts
            (handle_key_down lower keyboard_shortcuts (press_of (codes "t") true true)))
handle_key_down-IsFirst_example =
    handle_key_down-IsFirst lower (press_of (codes "t") true true) keyboard_shortcuts
