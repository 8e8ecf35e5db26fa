-- ===== src/Portfolio.antt =====
-- The list of torrents and its selection (ui/desktop/src/renderer): handleTorrentSelect of ui/App.tsx,
-- components/torrents/TorrentPortfolio.tsx and the checkbox of components/torrents/TorrentTable.tsx. A
-- `Set` is the list of its elements in the order of insertion.
pub mod Selection
pub mod Shown
mod Tests
use orc_torrent.Prelude.{
  ℕ, suc, Bool, true, false, not, ◌&&◌, ◌||◌, Option, none, some, List, [], ◌∷◌, ◌++◌, length,
  if◌then◌else◌,
}
use Prim.Native.String.{String}
use orc_torrent.Prelude.Assoc.{string_eq, lookup}
use orc_torrent.Prelude.Codes.{Text, codes, trim, includes}
use orc_torrent.Types
use orc_torrent.Types.{State, same_state, is_active}

-- `has` and `delete` of a set
unfoldable pub has : String → List String → Bool
has id [] = false
has id (j ∷ ids) = string_eq.beq j id || has id ids

unfoldable pub discard : String → List String → List String
discard id [] = []
discard id (j ∷ ids) = let rest = discard id ids in if string_eq.beq j id then rest else j ∷ rest

unfoldable pub handle_torrent_select : String → Bool → List String → List String
unfolding has discard
handle_torrent_select id multi prev =
    if multi then (if has id prev then discard id prev else prev ++ (id ∷ [])) else id ∷ []

pub record Torrent : Type 0 where
  pub id : String
  pub name : Text

-- The loops of `handleSelectAll`: the set that was rendered decides, the updates act on what there is.
unfoldable pub select_torrents : List String → List Torrent → List String → List String
unfolding handle_torrent_select
select_torrents rendered [] prev = prev
select_torrents rendered (t ∷ torrents) prev =
    select_torrents rendered torrents
      (if has t.id rendered then prev else handle_torrent_select t.id true prev)

unfoldable pub select_each : List String → List String → List String
unfolding handle_torrent_select
select_each [] prev = prev
select_each (id ∷ ids) prev = select_each ids (handle_torrent_select id false prev)

unfoldable pub handle_select_all : Bool → List Torrent → List String → List String
unfolding select_torrents select_each
handle_select_all selected torrents ids =
    if selected then select_torrents ids torrents ids else select_each ids ids

pub record Status : Type 0 where
  pub state : State
  -- `progress >= 1`
  pub complete : Bool

pub data FilterType : Type 0 where
  all downloading seeding completed error : FilterType

-- the filter's test on a status
unfoldable pub passes : FilterType → Status → Bool
passes all s = true
passes downloading s = same_state s.state Types.downloading
passes seeding s = same_state s.state Types.seeding
passes completed s = same_state s.state Types.seeding && s.complete
passes error s = same_state s.state Types.error

abbrev pub Statuses : Type 0
Statuses = List (String × Status)

-- a torrent with no status passes as an error
unfoldable pub passes_filter : FilterType → Option Status → Bool
unfolding passes
passes_filter all s = true
passes_filter error none = true
passes_filter _ none = false
passes_filter f (some s) = passes f s

-- `toLowerCase` is an argument.
module _ (lower : Text → Text) where
  unfoldable pub matches_query : Text → Torrent → Bool
  unfolding includes
  matches_query query t =
      includes (lower query) (lower t.name) || includes (lower query) (lower (codes t.id))

  -- the tests of the two filters, of which the first is left out for a blank query
  unfoldable pub is_shown : Text → FilterType → Statuses → Torrent → Bool
  unfolding matches_query passes_filter
  is_shown query f statuses t =
      elim (trim query) [ [] ↦ true | _ ∷ _ ↦ matches_query query t ]
      && passes_filter f (lookup t.id statuses)

  unfoldable pub filtered_torrents : Text → FilterType → Statuses → List Torrent → List Torrent
  unfolding is_shown
  filtered_torrents query f statuses [] = []
  filtered_torrents query f statuses (t ∷ torrents) =
      let rest = filtered_torrents query f statuses torrents in
      if is_shown query f statuses t then t ∷ rest else rest

abbrev pub has_active : Option Status → Bool
has_active none = false
has_active (some s) = is_active s.state

-- `activeCount`
unfoldable pub active_count : Statuses → List Torrent → ℕ
active_count statuses [] = 0
active_count statuses (t ∷ torrents) =
    let rest = active_count statuses torrents in
    if has_active (lookup t.id statuses) then suc rest else rest

-- `allSelected` and `someSelected` of the table
abbrev pub every_selected : List String → List Torrent → Bool
every_selected ids [] = true
every_selected ids (t ∷ torrents) = has t.id ids && every_selected ids torrents

unfoldable pub all_selected : List String → List Torrent → Bool
all_selected ids [] = false
all_selected ids (t ∷ torrents) = every_selected ids (t ∷ torrents)

unfoldable pub some_selected : List String → List Torrent → Bool
some_selected ids [] = false
some_selected ids (t ∷ torrents) = has t.id ids || some_selected ids torrents
