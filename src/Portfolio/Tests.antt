-- ===== src/Portfolio/Tests.antt =====
-- Runs of the torrent list's model, and the theorems about it at concrete inputs.
use orc_torrent.Prelude.{◌≡◌, ◌≢◌, refl, arith, true, List, [], ◌∷◌}
use orc_torrent.Prelude.Assoc.{lookup}
use orc_torrent.Prelude.Codes.{codes, trim, starts_with, is_space}
use orc_torrent.Types
use orc_torrent.Portfolio.{Torrent, Statuses, FilterType, filtered_torrents}

abbrev torrents : List Torrent
torrents = record { id = "a"; name = codes "one" } ∷ record { id = "b"; name = codes "two" } ∷ []

abbrev statuses : Statuses
statuses = ("a", record { state = Types.seeding; complete = true }) ∷ []

-- a search that leaves one row
one_row :
    filtered_torrents (λ s. s) (codes "ne") FilterType.completed statuses torrents
    ≡ (record { id = "a"; name = codes "one" } ∷ [])
unfolding filtered_torrents lookup trim is_space starts_with
one_row = refl

some_row : filtered_torrents (λ s. s) (codes "ne") FilterType.completed statuses torrents ≢ []
some_row = rw one_row (λ e. ground (arith, e))
