-- ===== src/Fetcher/Batches.antt =====
-- fetchTorrentStatuses of ui/desktop/src/renderer/utils/torrentFetcher.ts: the batches give what one
-- pass over all the ids gives.
use orc_torrent.Prelude.{
  ℕ, zero, suc, ◌+◌, ◌≤◌, ◌≡◌, refl, ap, ◌∙◌, arith, inl, inr, Option-cases, Option, none, some,
  List, [], ◌∷◌, length, take, drop, length-drop, if◌then◌else◌,
}
use Prim.Native.String.{String}
use orc_torrent.Prelude.Assoc.{string_eq, insert, lookup, lookup-insert}
use orc_torrent.Fetcher.{batch_size, collect, fetch_batches, fetch_torrent_statuses}

module _ {S : Type 0} (status : ℕ → String → Option S) where
  collect-split :
      (n i m : ℕ) (ids : List String) (results : List (String × S))
      → m ≡ i + n
      → collect status m (drop n ids) (collect status i (take n ids) results)
        ≡ collect status i ids results
  unfolding collect
  collect-split zero i m ids results q = ap (λ x. collect status x ids results) (omega arith)
  collect-split (suc n) i m [] results q = refl
  collect-split (suc n) i m (id ∷ ids) results q =
      collect-split n (suc i) m ids
        (elim (status i id) [ none ↦ results | some s ↦ insert id s results ]) (omega arith)

  fetch_batches-collect :
      (fuel i : ℕ) (ids : List String) (results : List (String × S))
      → length ids ≤ fuel
      → fetch_batches status fuel i ids results ≡ some (collect status i ids results)
  unfolding fetch_batches collect
  fetch_batches-collect fuel i [] results h = refl
  fetch_batches-collect zero i (id ∷ ids) results h = ground arith
  fetch_batches-collect (suc fuel) i (id ∷ ids) results h =
      fetch_batches-collect fuel (i + batch_size) (drop batch_size (id ∷ ids))
        (collect status i (take batch_size (id ∷ ids)) results)
        (omega (arith, length-drop batch_size (id ∷ ids)))
      ∙ ap some (collect-split batch_size i (i + batch_size) (id ∷ ids) results refl)

  -- the last status that a request for an id gave, from a position on
  pub last_status : ℕ → String → List String → Option S
  last_status i id [] = none
  last_status i id (j ∷ ids) = elim (last_status (suc i) id ids) [
    | some s ↦ some s
    | none ↦ if string_eq.beq j id then status i j else none
  ]

  lookup-collect :
      (i : ℕ) (id : String) (ids : List String) (results : List (String × S))
      → lookup id (collect status i ids results)
        ≡ elim (last_status i id ids) [ some s ↦ some s | none ↦ lookup id results ]
  unfolding collect last_status
  lookup-collect i id [] results = refl
  lookup-collect i id (j ∷ ids) results = elim (Option-cases (status i j)) [
    | inl e ↦ rw e (ground (arith, e, lookup-collect (suc i) id ids results))
    | inr (s, e) ↦ rw e (
        ground (
          arith,
          e,
          lookup-collect (suc i) id ids (insert j s results),
          lookup-insert j id s results,
        ))
  ]

  -- The batches end, and the map that they give holds an id's last status that a request for it gave, and
  -- nothing for an id of which every request failed or that was not asked for.
  pub fetch_torrent_statuses_lem :
      (ids : List String)
      → (m : List (String × S)) × (fetch_torrent_statuses status ids ≡ some m)
        × ((id : String) → lookup id m ≡ last_status 0 id ids)
  unfolding fetch_torrent_statuses lookup
  fetch_torrent_statuses_lem ids = (
    collect status 0 ids [],
    fetch_batches-collect (length ids) 0 ids [] (omega arith),
    λ id.
        lookup-collect 0 id ids []
        ∙ elim (Option-cases (last_status 0 id ids)) [ inl e ↦ rw e refl | inr (s, e) ↦ rw e refl ],
  )
