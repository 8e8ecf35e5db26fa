-- ===== src/Peers/Shown.antt =====
-- Which peers the filter of the inspector leaves (ui/desktop/src/renderer/components/inspector/PeersTab.tsx).
use orc_torrent.Prelude.{
  ℕ, ◌≡◌, ◌⊎◌, ◌↔◌, refl, inl, inr, arith, true, Option, none, some, List, [], ◌∷◌, Bool-cases,
}
use orc_torrent.Prelude.Codes.{Text, trim}
use orc_torrent.Prelude.Pieces.{Holds, includes_iff}
use orc_torrent.Country.{get_peer_country_info}
use orc_torrent.Peers.{Peer, option_includes, matches, matching_peers, filtered_by}

module _ (lower upper : Text → Text) (region_name : Text → Option Text) where
  abbrev pub HoldsIn : Text → Option Text → Type 0
  HoldsIn q none = ⊥
  HoldsIn q (some s) = Holds q (lower s)

  -- The address, the client, the country's code or its name holds the text, which is in lower case.
  abbrev pub Mentions : Text → Peer → Type 0
  Mentions q p =
      Holds q (lower p.ip)
      ⊎ (HoldsIn q p.client
          ⊎ (HoldsIn q p.country
              ⊎ Holds q (lower (get_peer_country_info upper region_name p.country p.ip).name)))

  -- An empty filter shows all.
  abbrev pub Shown : Text → Peer → Type 0
  Shown [] p = Unit
  Shown (c ∷ filter) p = Mentions (trim (lower (c ∷ filter))) p

  -- The second list is what is left of the first: the peers that are shown, in their order, and no other.
  abbrev pub Left : Text → List Peer → List Peer → Type 0
  Left filter [] left = left ≡ []
  Left filter (p ∷ peers) left =
      (Shown filter p × ((rest : List Peer) × (left ≡ p ∷ rest) × Left filter peers rest))
      ⊎ ((¬ Shown filter p) × Left filter peers left)

  option_includes_iff :
      (q : Text) (o : Option Text)
      → (option_includes lower upper region_name q o ≡ true) ↔ HoldsIn q o
  option_includes_iff q none = ground arith
  option_includes_iff q (some s) = includes_iff q (lower s)

  matches_iff : (q : Text) (p : Peer) → (matches lower upper region_name q p ≡ true) ↔ Mentions q p
  unfolding matches
  matches_iff q p = ground (
    arith,
    includes_iff q (lower p.ip),
    option_includes_iff q p.client,
    option_includes_iff q p.country,
    includes_iff q (lower (get_peer_country_info upper region_name p.country p.ip).name),
  )

  all-Left : (peers : List Peer) → Left [] peers peers
  all-Left [] = refl
  all-Left (p ∷ peers) = inl (tt, (peers, refl, all-Left peers))

  matching_peers-Left :
      (c : ℕ) (filter : Text) (peers : List Peer)
      → Left
          (c ∷ filter)
          peers
          (matching_peers lower upper region_name (trim (lower (c ∷ filter))) peers)
  unfolding matching_peers
  matching_peers-Left c filter [] = refl
  matching_peers-Left c filter (p ∷ peers) =
      let q = trim (lower (c ∷ filter)) in
      let m = matches_iff q p in
      let rest = matching_peers-Left c filter peers in
      elim (Bool-cases (matches lower upper region_name q p)) [
        | inl h ↦ rw h (inl (m.0 h, (matching_peers lower upper region_name q peers, refl, rest)))
        | inr h ↦ rw h (inr (λ k. ground (arith, h, m.1 k), rest))
      ]

  pub filtered_by-Left :
      (filter : Text) (peers : List Peer)
      → Left filter peers (filtered_by lower upper region_name filter peers)
  filtered_by-Left [] peers = all-Left peers
  filtered_by-Left (c ∷ filter) peers = matching_peers-Left c filter peers
