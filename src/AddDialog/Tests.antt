-- ===== src/AddDialog/Tests.antt =====
-- Runs of the dialog for an added torrent, and its theorem at a concrete input.
use orc_torrent.Prelude.{◌≡◌, refl, true, false, none, some, [], ◌∷◌}
use orc_torrent.Prelude.Assoc.{string_eq, nat_eq, lookup, delete}
use orc_torrent.AddDialog.{FileDialog, adds, fires, replies, is_new, has_data, step, run}
use orc_torrent.AddDialog.Only.{Once, only_last_added}

abbrev idle : FileDialog
idle = record {
  pending = none;
  timeout = none;
  torrent = none;
  shows = false;
  timers = [];
  requests = [];
  next = 0;
  opened = [];
  found = [];
}

-- The first torrent's timer fired before the second one was added: its dialog does not open.
overtaken :
    (let t =
        run
          (adds "a" true
            ∷ fires 0
            ∷ adds "b" true
            ∷ replies 0 is_new
            ∷ fires 1
            ∷ replies 1 is_new
            ∷ [])
          idle in
      t.opened ≡ "b" ∷ [])
unfolding run lookup delete
overtaken = refl

abbrev waiting : FileDialog
waiting = record idle { pending = some "a"; timeout = some 0; requests = (0, "a") ∷ []; next = 1 }

only_last_added_example :
    Once "b" [] []
      (run (replies 0 is_new ∷ fires 1 ∷ replies 1 has_data ∷ []) (step (adds "b" true) waiting))
only_last_added_example =
    only_last_added "b" (replies 0 is_new ∷ fires 1 ∷ replies 1 has_data ∷ []) waiting refl refl
      refl
