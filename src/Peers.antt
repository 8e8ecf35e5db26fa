-- ===== src/Peers.antt =====
-- The rows of the inspector's peers (ui/desktop/src/renderer/components/inspector/PeersTab.tsx): their filter, their
-- order, their labels and the sums above them. `toLowerCase` and `localeCompare` are arguments. Rates and sizes
-- are natural numbers, and a progress is in billionths.
pub mod Requests
pub mod Rows
pub mod Shown
pub mod Activity
mod Tests
use orc_torrent.Prelude.{
  ℕ, ◌+◌, Bool, true, false, not, ◌&&◌, ◌||◌, Option, none, some, List, [], ◌∷◌, length, ltb, leb,
  ◌==◌, if◌then◌else◌,
}
use orc_torrent.Prelude.Codes.{Text, includes, trim}
use orc_torrent.Prelude.Sorting.{
  Sign, negative, nought, positive, compare_numbers, on_key, flipped, sort_by,
}
use orc_torrent.Country.{Info, get_peer_country_info, same_text}

pub record Peer : Type 0 where
  pub ip : Text
  pub port : ℕ
  pub client : Option Text
  pub down_rate : ℕ
  pub up_rate : ℕ
  pub uploaded : Option ℕ
  pub progress : Option ℕ
  pub snubbed : Bool
  pub choked : Bool
  pub incoming : Bool
  pub encrypted : Bool
  pub country : Option Text

pub data SortField : Type 0 where
  ip_field country_field client_field progress_field down_field up_field uploaded_field
        status_field :
      SortField

pub data SortDirection : Type 0 where
  asc desc : SortDirection

-- `?? 0` and `|| ""`
abbrev pub or_zero : Option ℕ → ℕ
or_zero none = 0
or_zero (some n) = n

abbrev pub or_empty : Option Text → Text
or_empty none = []
or_empty (some s) = s

abbrev pub one_if : Bool → ℕ
one_if b = if b then 1 else 0

abbrev pub activity_score : Peer → ℕ
activity_score p =
    if p.snubbed
    then 0
    else if p.choked
    then 1
    else 2 + one_if (ltb 0 p.down_rate) + one_if (ltb 0 p.up_rate)

unfoldable pub compare_field : (Text → Text → Sign) → SortField → Peer → Peer → Sign
compare_field locale ip_field = on_key (λ (p : Peer). p.ip) locale
compare_field locale country_field = on_key (λ (p : Peer). or_empty p.country) locale
compare_field locale client_field = on_key (λ (p : Peer). or_empty p.client) locale
compare_field locale progress_field = on_key (λ (p : Peer). or_zero p.progress) compare_numbers
compare_field locale down_field = on_key (λ (p : Peer). p.down_rate) compare_numbers
compare_field locale up_field = on_key (λ (p : Peer). p.up_rate) compare_numbers
compare_field locale uploaded_field = on_key (λ (p : Peer). or_zero p.uploaded) compare_numbers
compare_field locale status_field = on_key activity_score compare_numbers

unfoldable pub compare_peers : (Text → Text → Sign) → SortField → SortDirection → Peer → Peer → Sign
unfolding compare_field
compare_peers locale field asc = compare_field locale field
compare_peers locale field desc = flipped (compare_field locale field)

module _ (lower : Text → Text) (upper : Text → Text) (region_name : Text → Option Text) where
  -- `?.toLowerCase().includes(lowerFilter)`
  abbrev pub option_includes : Text → Option Text → Bool
  option_includes q none = false
  option_includes q (some s) = includes q (lower s)

  unfoldable pub matches : Text → Peer → Bool
  matches q p =
      includes q (lower p.ip)
      || option_includes q p.client
      || option_includes q p.country
      || includes q (lower (get_peer_country_info upper region_name p.country p.ip).name)

  unfoldable pub matching_peers : Text → List Peer → List Peer
  unfolding matches
  matching_peers q [] = []
  matching_peers q (p ∷ peers) =
      let rest = matching_peers q peers in if matches q p then p ∷ rest else rest

  -- An empty filter keeps all.
  abbrev pub filtered_by : Text → List Peer → List Peer
  filtered_by [] peers = peers
  filtered_by (c ∷ filter) peers = matching_peers (trim (lower (c ∷ filter))) peers

  unfoldable pub filtered_peers :
      (Text → Text → Sign) → Text → SortField → SortDirection → List Peer → List Peer
  unfolding matching_peers compare_peers
  filtered_peers locale filter field direction peers =
      sort_by (compare_peers locale field direction) (filtered_by filter peers)

-- `sortField === field`
abbrev pub field_number : SortField → ℕ
field_number ip_field = 0
field_number country_field = 1
field_number client_field = 2
field_number progress_field = 3
field_number down_field = 4
field_number up_field = 5
field_number uploaded_field = 6
field_number status_field = 7

abbrev pub same_field : SortField → SortField → Bool
same_field a b = field_number a == field_number b

abbrev pub opposite : SortDirection → SortDirection
opposite asc = desc
opposite desc = asc

abbrev pub first_direction : SortField → SortDirection
first_direction down_field = desc
first_direction up_field = desc
first_direction _ = asc

unfoldable pub handle_sort : SortField → SortField × SortDirection → SortField × SortDirection
handle_sort field (current, direction) =
    if same_field current field
    then (current, opposite direction)
    else (field, first_direction field)

pub data Label : Type 0 where
  is_snubbed is_choked is_active is_downloading is_uploading is_idle : Label

unfoldable pub get_peer_status : Peer → Label
get_peer_status p =
    if p.snubbed
    then is_snubbed
    else if p.choked && p.down_rate == 0 && p.up_rate == 0
    then is_choked
    else if ltb 0 p.down_rate && ltb 0 p.up_rate
    then is_active
    else if ltb 0 p.down_rate
    then is_downloading
    else if ltb 0 p.up_rate
    then is_uploading
    else is_idle

abbrev pub whole_progress : ℕ
whole_progress = 1000000000

unfoldable pub count_peers : (Peer → Bool) → List Peer → ℕ
count_peers f [] = 0
count_peers f (p ∷ peers) = one_if (f p) + count_peers f peers

unfoldable pub sum_peers : (Peer → ℕ) → List Peer → ℕ
sum_peers f [] = 0
sum_peers f (p ∷ peers) = f p + sum_peers f peers

pub record Stats : Type 0 where
  pub total_down : ℕ
  pub total_up : ℕ
  pub display_down : ℕ
  pub display_up : ℕ
  pub downloading : ℕ
  pub uploading : ℕ
  pub seeds : ℕ
  pub incoming : ℕ
  pub encrypted : ℕ
  pub choked : ℕ
  pub total : ℕ

-- The torrent's own rates, down and up, stand in where no peer has any.
abbrev pub displayed : Bool → Option ℕ → ℕ → ℕ
displayed none_has rate sum = if none_has then elim rate [ none ↦ sum | some r ↦ r ] else sum

unfoldable pub peer_stats : Option (ℕ × ℕ) → List Peer → Stats
unfolding count_peers sum_peers
peer_stats status peers =
    let down = sum_peers (λ p. p.down_rate) peers in
    let up = sum_peers (λ p. p.up_rate) peers in
    let none_has = down == 0 && up == 0 in
    record {
      total_down = down;
      total_up = up;
      display_down = displayed none_has (elim status [ none ↦ none | some r ↦ some r.0 ]) down;
      display_up = displayed none_has (elim status [ none ↦ none | some r ↦ some r.1 ]) up;
      downloading = count_peers (λ p. ltb 0 p.down_rate) peers;
      uploading = count_peers (λ p. ltb 0 p.up_rate) peers;
      seeds = count_peers (λ p. leb whole_progress (or_zero p.progress)) peers;
      incoming = count_peers (λ p. p.incoming) peers;
      encrypted = count_peers (λ p. p.encrypted) peers;
      choked = count_peers (λ p. p.choked) peers;
      total = length peers;
    }
