-- ===== src/Trackers/Rows.antt =====
-- The order of the trackers' rows (ui/desktop/src/renderer/components/inspector/TrackersTab.tsx).
use orc_torrent.Prelude.{ℕ, ◌≡◌, List}
use mathlib.Core.List.{Perm, Pairwise}
use orc_torrent.Prelude.Codes.{Text}
use orc_torrent.Prelude.Sorting.{
  Sign, IsComparison, Comes, alike, sort_by-perm, sort_by-Pairwise, sort_by-alike,
  on_key-IsComparison, flipped-IsComparison, compare_numbers, compare_numbers-IsComparison,
}
use orc_torrent.Peers.{SortDirection, asc, desc, or_zero}
use orc_torrent.Trackers.{
  Tracker, SortField, url_field, status_field, seeders_field, leechers_field, last_announce_field,
  status_order, or_minus_one, compare_column, compare_trackers, sorted_trackers,
}

module _ (locale : Text → Text → Sign) (c : IsComparison locale) where
  by_number : (f : Tracker → ℕ) → IsComparison (λ a b. compare_numbers (f a) (f b))
  by_number f = on_key-IsComparison f compare_numbers compare_numbers-IsComparison

  compare_column-IsComparison : (f : SortField) → IsComparison (compare_column locale f)
  unfolding compare_column
  compare_column-IsComparison url_field = on_key-IsComparison (λ (t : Tracker). t.url) locale c
  compare_column-IsComparison status_field = by_number λ t. status_order t.status
  compare_column-IsComparison seeders_field = by_number λ t. or_minus_one t.seeders
  compare_column-IsComparison leechers_field = by_number λ t. or_minus_one t.leechers
  compare_column-IsComparison last_announce_field = by_number λ t. or_zero t.last_announce_ms

  compare_trackers-IsComparison :
      (f : SortField) (d : SortDirection) → IsComparison (compare_trackers locale f d)
  unfolding compare_trackers
  compare_trackers-IsComparison f asc = compare_column-IsComparison f
  compare_trackers-IsComparison f desc =
      flipped-IsComparison (compare_column locale f) (compare_column-IsComparison f)

  -- Where `localeCompare` is a comparison, the rows of the trackers are all the trackers, rearranged: no row comes
  -- before one that the chosen column and direction put ahead of it, and rows that they do not tell apart keep
  -- their order.
  pub sorted_trackers-sorted :
      (f : SortField) (d : SortDirection) (trackers : List Tracker)
      → (let rows = sorted_trackers locale f d trackers in
          let cmp = compare_trackers locale f d in
          Perm rows trackers
          × Pairwise (Comes cmp) rows
          × ((t : Tracker) → alike cmp t rows ≡ alike cmp t trackers))
  unfolding sorted_trackers
  sorted_trackers-sorted f d trackers =
      let cmp = compare_trackers locale f d in
      let k = compare_trackers-IsComparison f d in
      (
        sort_by-perm cmp trackers,
        sort_by-Pairwise cmp k trackers,
        λ t. sort_by-alike cmp k t trackers,
      )
