-- ===== src/Peers/Rows.antt =====
-- The order of the peers' rows (ui/desktop/src/renderer/components/inspector/PeersTab.tsx).
use orc_torrent.Prelude.{
  ℕ, ◌+◌, ◌≤◌, ◌≡◌, ◌⊎◌, ◌∙◌, sym, refl, arith, Bool, true, false, List, [], ◌∷◌, Option, ltb, ◌==◌,
  if◌then◌else◌, Bool-cases,
}
use mathlib.Core.List.{Perm, Pairwise}
use mathlib.Core.List.Pairwise
use orc_torrent.Prelude.Codes.{Text}
use orc_torrent.Prelude.Sorting.{
  Sign, negate, is_positive, is_nought, sort_by, flipped-Comes, IsComparison, Comes, alike,
  sort_by-perm, sort_by-Pairwise, sort_by-alike, on_key-IsComparison, flipped-IsComparison,
  compare_numbers, compare_numbers-IsComparison,
}
use orc_torrent.Peers.Shown.{Left, filtered_by-Left}
use orc_torrent.Peers.{
  Peer, SortField, SortDirection, ip_field, country_field, client_field, progress_field, down_field,
  up_field, uploaded_field, status_field, asc, desc, or_zero, or_empty, activity_score,
  compare_field, compare_peers, filtered_by, filtered_peers,
}

negate-nought : (s : Sign) → is_nought (negate s) ≡ is_nought s
negate-nought s = ground arith

module _ (locale : Text → Text → Sign) (c : IsComparison locale) where
  compare_field-IsComparison : (f : SortField) → IsComparison (compare_field locale f)
  unfolding compare_field
  compare_field-IsComparison ip_field = on_key-IsComparison (λ (p : Peer). p.ip) locale c
  compare_field-IsComparison country_field =
      on_key-IsComparison (λ (p : Peer). or_empty p.country) locale c
  compare_field-IsComparison client_field =
      on_key-IsComparison (λ (p : Peer). or_empty p.client) locale c
  compare_field-IsComparison progress_field =
      on_key-IsComparison (λ (p : Peer). or_zero p.progress) compare_numbers
        compare_numbers-IsComparison
  compare_field-IsComparison down_field =
      on_key-IsComparison (λ (p : Peer). p.down_rate) compare_numbers compare_numbers-IsComparison
  compare_field-IsComparison up_field =
      on_key-IsComparison (λ (p : Peer). p.up_rate) compare_numbers compare_numbers-IsComparison
  compare_field-IsComparison uploaded_field =
      on_key-IsComparison (λ (p : Peer). or_zero p.uploaded) compare_numbers
        compare_numbers-IsComparison
  compare_field-IsComparison status_field =
      on_key-IsComparison activity_score compare_numbers compare_numbers-IsComparison

  compare_peers-IsComparison :
      (f : SortField) (d : SortDirection) → IsComparison (compare_peers locale f d)
  unfolding compare_peers
  compare_peers-IsComparison f asc = compare_field-IsComparison f
  compare_peers-IsComparison f desc =
      flipped-IsComparison (compare_field locale f) (compare_field-IsComparison f)

-- the directions in which a peer transfers: none, one or two
abbrev pub directions : Peer → ℕ
directions p = (if ltb 0 p.down_rate then 1 else 0) + (if ltb 0 p.up_rate then 1 else 0)

-- A peer is as active as another at most: one that is snubbed, then one that chokes us, then by its directions.
abbrev pub ActsAtMost : Peer → Peer → Type 0
ActsAtMost p q =
    (p.snubbed ≡ true)
    ⊎ ((q.snubbed ≡ false)
        × ((p.choked ≡ true) ⊎ ((q.choked ≡ false) × (directions p ≤ directions q))))

abbrev pub same_activity : Peer → Peer → Bool
same_activity p q =
    if p.snubbed
    then q.snubbed
    else if q.snubbed
    then false
    else if p.choked
    then q.choked
    else if q.choked
    then false
    else directions p == directions q

-- What a column shows of one peer is at most what it shows of another; an absent number is 0, an absent text empty.
abbrev pub AtMost : (Text → Text → Sign) → SortField → Peer → Peer → Type 0
AtMost locale ip_field p q = is_positive (locale p.ip q.ip) ≡ false
AtMost locale country_field p q =
    is_positive (locale (or_empty p.country) (or_empty q.country)) ≡ false
AtMost locale client_field p q =
    is_positive (locale (or_empty p.client) (or_empty q.client)) ≡ false
AtMost locale progress_field p q = or_zero p.progress ≤ or_zero q.progress
AtMost locale down_field p q = p.down_rate ≤ q.down_rate
AtMost locale up_field p q = p.up_rate ≤ q.up_rate
AtMost locale uploaded_field p q = or_zero p.uploaded ≤ or_zero q.uploaded
AtMost locale status_field p q = ActsAtMost p q

abbrev pub Ordered : (Text → Text → Sign) → SortField → SortDirection → Peer → Peer → Type 0
Ordered locale f asc p q = AtMost locale f p q
Ordered locale f desc p q = AtMost locale f q p

-- A column shows the same of two peers.
abbrev pub tied : (Text → Text → Sign) → SortField → Peer → Peer → Bool
tied locale ip_field p q = is_nought (locale p.ip q.ip)
tied locale country_field p q = is_nought (locale (or_empty p.country) (or_empty q.country))
tied locale client_field p q = is_nought (locale (or_empty p.client) (or_empty q.client))
tied locale progress_field p q = or_zero p.progress == or_zero q.progress
tied locale down_field p q = p.down_rate == q.down_rate
tied locale up_field p q = p.up_rate == q.up_rate
tied locale uploaded_field p q = or_zero p.uploaded == or_zero q.uploaded
tied locale status_field p q = same_activity p q

-- the peers that pass a test, in their order
abbrev pub picked : (Peer → Bool) → List Peer → List Peer
picked test [] = []
picked test (p ∷ peers) = let rest = picked test peers in if test p then p ∷ rest else rest

compare_numbers-le : (a b : ℕ) → is_positive (compare_numbers a b) ≡ false → a ≤ b
compare_numbers-le a b h = ground (arith, h)

compare_numbers-nought : (a b : ℕ) → is_nought (compare_numbers a b) ≡ (a == b)
compare_numbers-nought a b = ground arith

activity-le : (p q : Peer) → activity_score p ≤ activity_score q → ActsAtMost p q
activity-le p q h =
    ground (
      arith,
      h,
      Bool-cases p.snubbed,
      Bool-cases q.snubbed,
      Bool-cases p.choked,
      Bool-cases q.choked,
    )

activity-same : (p q : Peer) → (activity_score p == activity_score q) ≡ same_activity p q
activity-same p q = ground arith

module _ (locale : Text → Text → Sign) where
  compare_field-AtMost :
      (f : SortField) (p q : Peer) → Comes (compare_field locale f) p q → AtMost locale f p q
  unfolding compare_field
  compare_field-AtMost ip_field p q h = h
  compare_field-AtMost country_field p q h = h
  compare_field-AtMost client_field p q h = h
  compare_field-AtMost progress_field p q h =
      compare_numbers-le (or_zero p.progress) (or_zero q.progress) h
  compare_field-AtMost down_field p q h = compare_numbers-le p.down_rate q.down_rate h
  compare_field-AtMost up_field p q h = compare_numbers-le p.up_rate q.up_rate h
  compare_field-AtMost uploaded_field p q h =
      compare_numbers-le (or_zero p.uploaded) (or_zero q.uploaded) h
  compare_field-AtMost status_field p q h =
      activity-le p q (compare_numbers-le (activity_score p) (activity_score q) h)

  compare_field-tied :
      (f : SortField) (p q : Peer) → is_nought (compare_field locale f p q) ≡ tied locale f p q
  unfolding compare_field
  compare_field-tied ip_field p q = refl
  compare_field-tied country_field p q = refl
  compare_field-tied client_field p q = refl
  compare_field-tied progress_field p q =
      compare_numbers-nought (or_zero p.progress) (or_zero q.progress)
  compare_field-tied down_field p q = compare_numbers-nought p.down_rate q.down_rate
  compare_field-tied up_field p q = compare_numbers-nought p.up_rate q.up_rate
  compare_field-tied uploaded_field p q =
      compare_numbers-nought (or_zero p.uploaded) (or_zero q.uploaded)
  compare_field-tied status_field p q =
      compare_numbers-nought (activity_score p) (activity_score q) ∙ activity-same p q

  compare_peers-tied :
      (f : SortField) (d : SortDirection) (p q : Peer)
      → is_nought (compare_peers locale f d p q) ≡ tied locale f p q
  unfolding compare_peers
  compare_peers-tied f asc p q = compare_field-tied f p q
  compare_peers-tied f desc p q =
      negate-nought (compare_field locale f p q) ∙ compare_field-tied f p q

  alike-picked :
      (f : SortField) (d : SortDirection) (z : Peer) (l : List Peer)
      → alike (compare_peers locale f d) z l ≡ picked (tied locale f z) l
  unfolding alike
  alike-picked f d z [] = refl
  alike-picked f d z (p ∷ l) = rw (compare_peers-tied f d z p, alike-picked f d z l) refl

  compare_peers-Ordered :
      IsComparison locale
      → (f : SortField) (d : SortDirection) (p q : Peer) → Comes (compare_peers locale f d) p q
      → Ordered locale f d p q
  unfolding compare_peers
  compare_peers-Ordered c f asc p q h = compare_field-AtMost f p q h
  compare_peers-Ordered c f desc p q h =
      compare_field-AtMost f q p (
        sym (flipped-Comes (compare_field locale f) (compare_field-IsComparison locale c f) p q)
        ∙ h)

-- Where `localeCompare` is a comparison, the rows of the peers are those peers whose address, client, country code
-- or country name holds the trimmed filter, whatever the case, or all peers where the filter is empty, rearranged:
-- in the chosen column each row shows at most what a later row shows, or at least that where the direction is
-- descending, and rows of which the column shows the same keep their order. Peers are ordered by status as snubbed,
-- choking us, and then by the number of directions in which they transfer.
pub filtered_peers-sorted :
    (lower upper : Text → Text) (region_name : Text → Option Text) (locale : Text → Text → Sign)
    → IsComparison locale
    → (filter : Text) (f : SortField) (d : SortDirection) (peers : List Peer)
    → (let rows = filtered_peers lower upper region_name locale filter f d peers in
        (left : List Peer) × Left lower upper region_name filter peers left
        × Perm rows left
        × Pairwise (Ordered locale f d) rows
        × ((z : Peer) → picked (tied locale f z) rows ≡ picked (tied locale f z) left))
unfolding filtered_peers
filtered_peers-sorted lower upper region_name locale c filter f d peers =
    let left = filtered_by lower upper region_name filter peers in
    let cmp = compare_peers locale f d in
    let k = compare_peers-IsComparison locale c f d in
    (
      left,
      filtered_by-Left lower upper region_name filter peers,
      sort_by-perm cmp left,
      Pairwise.imp (λ p q. compare_peers-Ordered locale c f d p q) (sort_by-Pairwise cmp k left),
      λ z.
          sym (alike-picked locale f d z (sort_by cmp left))
          ∙ (sort_by-alike cmp k z left ∙ alike-picked locale f d z left),
    )
