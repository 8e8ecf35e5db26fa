-- ===== src/LinkQueue/Tests.antt =====
-- Runs of the magnet links' model, and the theorems about it at concrete inputs.
use orc_torrent.Prelude.{◌+◌, ◌≤◌, ◌==◌, ◌≡◌, refl, true, some, List, [], ◌∷◌}
use orc_torrent.Prelude.Codes.{Text, codes, trim, starts_with, is_space}
use orc_torrent.LinkQueue.{
  alive, absent, Main, extract_magnet_from_argv, Event, starts_with_argv, opens_url, ready_to_show,
  window_becomes, run,
}
use orc_torrent.LinkQueue.Delivery.{count, all_given, links_kept}

abbrev main : Main
main = record { window = absent; pending = []; sent = [] }

abbrev link : Text
link = codes "magnet:?xt=a"

argv-link : extract_magnet_from_argv (codes "orc" ∷ codes " magnet:?xt=a " ∷ []) ≡ some link
unfolding extract_magnet_from_argv trim starts_with is_space
argv-link = refl

-- A second link on a command line is dropped.
second_link_dropped :
    (run
      (starts_with_argv true (link ∷ codes "magnet:?xt=b" ∷ []) ∷ [])
      (record main { window = alive })).sent
    ≡ link ∷ []
unfolding run trim starts_with is_space
second_link_dropped = refl

-- one link before the window is there, one after it
abbrev before_and_after : List Event
before_and_after =
    starts_with_argv true (codes "orc" ∷ codes " magnet:?xt=a " ∷ [])
    ∷ window_becomes alive
    ∷ opens_url true link
    ∷ []

links_kept_example :
    count link main.sent + count link main.pending + count link (all_given before_and_after)
    ≤ count link (run before_and_after main).sent + count link (run before_and_after main).pending
links_kept_example = links_kept link before_and_after main

-- A send that fails after one link leaves that link in the queue, though it was sent.
sent_and_kept :
    (run
      (ready_to_show true (λ i. i == 0) ∷ [])
      (record main { window = alive; pending = link ∷ link ∷ [] }))
    ≡ record { window = alive; pending = link ∷ link ∷ []; sent = link ∷ [] }
unfolding run
sent_and_kept = refl
