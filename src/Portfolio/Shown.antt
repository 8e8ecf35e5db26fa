-- ===== src/Portfolio/Shown.antt =====
-- The rows that a search and a filter leave (components/torrents/TorrentPortfolio.tsx of
-- ui/desktop/src/renderer), and the count of active torrents beside them.
use orc_torrent.Prelude.{
  ℕ, ◌+◌, ◌≡◌, refl, arith, Option, none, some, List, [], ◌∷◌, length, if◌then◌else◌,
}
use orc_torrent.Prelude.Assoc.{string_eq, lookup}
use orc_torrent.Prelude.Codes.{Text, trim}
use orc_torrent.Types
use orc_torrent.Types.{State, is_active, same_state}
use orc_torrent.Portfolio.{
  Torrent, Status, FilterType, passes_filter, passes, Statuses, is_shown, filtered_torrents,
  has_active, active_count,
}

active-states :
    (s : State)
    → (if is_active s then 1 else 0)
      ≡ (if same_state s Types.downloading then 1 else 0)
        + (if same_state s Types.seeding then 1 else 0)
active-states Types.stopped = refl
active-states Types.downloading = refl
active-states Types.seeding = refl
active-states Types.checking = refl
active-states Types.error = refl

-- A status that counts as active passes one of two filters, and no other does.
active-filters :
    (s : Option Status)
    → (if has_active s then 1 else 0)
      ≡ (if passes_filter FilterType.downloading s then 1 else 0)
        + (if passes_filter FilterType.seeding s then 1 else 0)
unfolding passes_filter passes
active-filters none = refl
active-filters (some s) = active-states s.state

module _ (lower : Text → Text) (query : Text) (statuses : Statuses) where
  abbrev pub rows : FilterType → List Torrent → ℕ
  rows f torrents = length (filtered_torrents lower query f statuses torrents)

  -- For a blank query, the count of active torrents is that of the rows under "downloading" and of those
  -- under "seeding" together.
  pub active_count-rows :
      (torrents : List Torrent)
      → trim query ≡ []
      → active_count statuses torrents
        ≡ rows FilterType.downloading torrents + rows FilterType.seeding torrents
  unfolding active_count filtered_torrents is_shown
  active_count-rows [] h = refl
  active_count-rows (t ∷ torrents) h =
      let ih = active_count-rows torrents h in
      let a = active-filters (lookup t.id statuses) in rw h (ground (arith, ih, a))
