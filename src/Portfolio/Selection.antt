-- ===== src/Portfolio/Selection.antt =====
-- "Select all" of the list of torrents (components/torrents/TorrentPortfolio.tsx of ui/desktop/src/renderer)
-- and the checkbox of the table.
use orc_torrent.Prelude.{
  ◌≡◌, ◌⊎◌, ◌≢◌, inl, inr, refl, arith, Bool, true, false, not, ◌&&◌, ◌||◌, List, [], ◌∷◌, ◌++◌,
  All, Bool-cases,
}
use Prim.Native.String.{String}
use orc_torrent.Prelude.Assoc.{string_eq}
use orc_torrent.Prelude.Codes.{Text}
use orc_torrent.Portfolio.{
  has, handle_torrent_select, Torrent, select_torrents, select_each, handle_select_all, FilterType,
  Statuses, filtered_torrents, every_selected, all_selected,
}

abbrev pub ids : List Torrent → List String
ids [] = []
ids (t ∷ torrents) = t.id ∷ ids torrents

-- Each torrent goes by its own id.
abbrev pub Distinct : List Torrent → Type 0
Distinct [] = Unit
Distinct (t ∷ torrents) = (has t.id (ids torrents) ≡ false) × Distinct torrents

has-append :
    (id j : String) (xs : List String) → has id (xs ++ (j ∷ [])) ≡ (has id xs || string_eq.beq j id)
unfolding has
has-append id j [] = ground arith
has-append id j (x ∷ xs) = ground (arith, has-append id j xs)

-- What is not in the rendered set is not in the current one either.
abbrev Fresh : List String → List Torrent → List String → Type 0
Fresh rendered torrents prev =
    All (λ t. (has t.id rendered ≡ true) ⊎ (has t.id prev ≡ false)) torrents

push-Fresh :
    (rendered : List String) (id : String) (torrents : List Torrent) (prev : List String)
    → has id (ids torrents) ≡ false
    → Fresh rendered torrents prev
    → Fresh rendered torrents (prev ++ (id ∷ []))
unfolding has
push-Fresh rendered id [] prev n h = tt
push-Fresh rendered id (t ∷ torrents) prev n h = ground (
  arith,
  n,
  has-append t.id id prev,
  push-Fresh rendered id torrents prev,
  string_eq.beq_iff t.id id,
  string_eq.beq_iff id t.id,
)

select_torrents-has :
    (id : String) (rendered : List String) (torrents : List Torrent) (prev : List String)
    → Distinct torrents
    → Fresh rendered torrents prev
    → has id (select_torrents rendered torrents prev)
      ≡ (has id prev || has id (ids torrents) && not (has id rendered))
unfolding select_torrents handle_torrent_select has
select_torrents-has id rendered [] prev d h = ground arith
select_torrents-has id rendered (t ∷ torrents) prev d h = elim (Bool-cases (has t.id rendered)) [
  | inl e ↦ rw e (
      ground (
        arith,
        e,
        select_torrents-has id rendered torrents prev d.1 h.1,
        string_eq.beq_iff t.id id,
      ))
  | inr e ↦
      (let n : has t.id prev ≡ false = ground (arith, e, h.0) in
        rw (e, n)
          (ground (
            arith,
            e,
            has-append id t.id prev,
            string_eq.beq_iff t.id id,
            select_torrents-has id rendered torrents (prev ++ (t.id ∷ [])) d.1
                (push-Fresh rendered t.id torrents prev d.0 h.1),
          )))
]

rendered-Fresh :
    (rendered : List String) (torrents : List Torrent) → Fresh rendered torrents rendered
rendered-Fresh rendered [] = tt
rendered-Fresh rendered (t ∷ torrents) =
    (ground (arith, Bool-cases (has t.id rendered)), rendered-Fresh rendered torrents)

-- Where each torrent goes by its own id, checking "select all" selects what is listed and what was selected
-- before, and nothing else.
pub select_all-has :
    (id : String) (torrents : List Torrent) (selected : List String)
    → Distinct torrents
    → has id (handle_select_all true torrents selected) ≡ (has id (ids torrents) || has id selected)
unfolding handle_select_all
select_all-has id torrents selected d =
    ground (
      arith,
      select_torrents-has id selected torrents selected d (rendered-Fresh selected torrents),
    )

-- the last of a list that is not empty
abbrev pub last : String → List String → String
last id [] = id
last id (j ∷ ids) = last j ids

-- Unchecking "select all" leaves one torrent selected, the one that was selected last.
pub deselect_all_leaves_one :
    (torrents : List Torrent) (id : String) (selected : List String)
    → handle_select_all false torrents (id ∷ selected) ≡ last id selected ∷ []
unfolding handle_select_all select_each handle_torrent_select
deselect_all_leaves_one torrents id [] = refl
deselect_all_leaves_one torrents id (j ∷ selected) = deselect_all_leaves_one torrents j selected

has-every_selected :
    (selected : List String) (torrents shown : List Torrent)
    → ((id : String) → has id (ids torrents) ≡ true → has id selected ≡ true)
    → ((id : String) → has id (ids shown) ≡ true → has id (ids torrents) ≡ true)
    → every_selected selected shown ≡ true
unfolding has
has-every_selected selected torrents [] h k = refl
has-every_selected selected torrents (t ∷ shown) h k = ground (
  arith,
  h t.id (k t.id (ground (arith, string_eq.beq_iff t.id t.id))),
  has-every_selected selected torrents shown h (λ id q. k id (ground (arith, q))),
)

all_selected-every :
    (selected : List String) (shown : List Torrent)
    → shown ≢ []
    → every_selected selected shown ≡ true
    → all_selected selected shown ≡ true
unfolding all_selected
all_selected-every selected [] n h = absurd (n refl)
all_selected-every selected (t ∷ shown) n h = h

module _ (lower : Text → Text) (query : Text) (f : FilterType) (statuses : Statuses) where
  filtered-ids :
      (id : String) (torrents : List Torrent)
      → has id (ids (filtered_torrents lower query f statuses torrents)) ≡ true
      → has id (ids torrents) ≡ true
  unfolding filtered_torrents has
  filtered-ids id [] h = h
  filtered-ids id (t ∷ torrents) h = ground (arith, h, filtered-ids id torrents)

  -- the checkbox, over the rows that a search and a filter leave
  abbrev pub checkbox : List Torrent → List String → Bool
  checkbox torrents selected =
      all_selected selected (filtered_torrents lower query f statuses torrents)

  -- Where each torrent goes by its own id and the search and the filter leave some row, the checkbox of
  -- the table is checked after "select all" was checked.
  pub select_all_checks :
      (torrents : List Torrent) (selected : List String)
      → Distinct torrents
      → filtered_torrents lower query f statuses torrents ≢ []
      → checkbox torrents (handle_select_all true torrents selected) ≡ true
  select_all_checks torrents selected d n =
      let r = handle_select_all true torrents selected in
      let every =
        has-every_selected r torrents (filtered_torrents lower query f statuses torrents)
          (λ id q. ground (arith, q, select_all-has id torrents selected d))
          (λ id. filtered-ids id torrents) in
      all_selected-every r (filtered_torrents lower query f statuses torrents) n every
