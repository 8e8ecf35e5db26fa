-- ===== src/TorrentFile/Tests.antt =====
-- Runs of the torrent files' model, and the theorems about it at concrete inputs.
use orc_torrent.Prelude.{
  ◌≡◌, refl, arith, Bool, true, false, Option, none, some, List, [], ◌∷◌, ◌++◌, All, map,
}
use orc_torrent.Prelude.Assoc.{list_eq, same_list}
use orc_torrent.Prelude.Codes.{Text, codes, ends_with, starts_with, to_lower, trim, is_space}
use orc_torrent.LinkQueue.{absent, alive}
use orc_torrent.TorrentFile.{
  Found, content, Data, Desk, normalize_torrent_file_path, opens_file, ticks, ready_to_show,
  window_becomes, run,
}
use orc_torrent.TorrentFile.Slot.{runs, early_file_sent_twice}
use orc_torrent.TorrentFile.Lost.{last_file_only}

abbrev lower : Text → Text
lower s = map to_lower s

abbrev resolve : Text → Option Text
resolve p = some p

-- every file has its path for its text
abbrev found : Text → Found
found p = content p p

abbrev path : Text
path = codes "a.torrent"

abbrev file : Data
file = record { base64 = path; file_name = path }

abbrev desk : Desk
desk = record {
  window = absent;
  loaded = false;
  pending = none;
  interval = none;
  sent = [];
  errors = 0;
}

-- a long path of a share, in quotes
share :
    normalize_torrent_file_path 0x5c resolve (
      0x22 ∷ 0x5c ∷ 0x5c ∷ 0x3f ∷ 0x5c ∷ 0x55 ∷ 0x4e ∷ 0x43 ∷ 0x5c ∷ 0x61 ∷ 0x2f ∷ 0x62 ∷ 0x22 ∷ [])
    ≡ 0x5c ∷ 0x5c ∷ 0x61 ∷ 0x5c ∷ 0x62 ∷ []
unfolding normalize_torrent_file_path trim is_space starts_with ends_with list_eq same_list
share = refl

-- ticks before the page is there, and a tick behind all else
abbrev two_early : List Bool
two_early = true ∷ false ∷ []

abbrev one_late : List Bool
one_late = true ∷ []

early_file_sent_twice_example :
    ((runs lower 0x5c resolve found
        (opens_file true path
          ∷ (map ticks two_early
              ++ (window_becomes alive true
                  ∷ ready_to_show true
                  ∷ ticks true
                  ∷ map ticks one_late)))
        desk).sent
      ≡ desk.sent ++ (file ∷ file ∷ []))
    × ((runs lower 0x5c resolve found
          (opens_file true path
            ∷ (map ticks two_early
                ++ (window_becomes alive true
                    ∷ ticks true
                    ∷ ready_to_show true
                    ∷ map ticks one_late)))
          desk).sent
        ≡ desk.sent ++ (file ∷ []))
unfolding normalize_torrent_file_path trim is_space starts_with ends_with list_eq same_list
early_file_sent_twice_example =
    early_file_sent_twice lower 0x5c resolve found path file true two_early one_late desk
      (refl, refl) refl (omega arith)

last_file_only_example :
    (more : List Data) × ((run lower 0x5c resolve found
        (opens_file true path ∷ window_becomes alive true ∷ ticks true ∷ [])
        (record desk { pending = some (record { base64 = []; file_name = [] }) })).sent
      ≡ desk.sent ++ more)
    × All (λ x. x ≡ file) more
unfolding normalize_torrent_file_path trim is_space starts_with ends_with list_eq same_list
last_file_only_example =
    last_file_only lower 0x5c resolve found path file true
      (window_becomes alive true ∷ ticks true ∷ [])
      (record desk { pending = some (record { base64 = []; file_name = [] }) }) (refl, refl) refl
      (tt, (tt, tt))
