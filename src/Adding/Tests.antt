-- ===== src/Adding/Tests.antt =====
-- Runs of the model of adding torrent files, and the theorems about it at concrete inputs.
use orc_torrent.Prelude.{ℕ, ◌≡◌, refl, false, some, List, [], ◌∷◌, map}
use orc_torrent.Prelude.Assoc.{list_eq, same_list}
use orc_torrent.Prelude.Codes.{Text, codes, to_lower}
use orc_torrent.InfoHash.Sample
use orc_torrent.InfoHash.Sample.{digest, file, digest_text}
use orc_torrent.Adding.{
  got, Torrent, existing, File, Answers, find_existing, check_hash, handle_file_change,
}

abbrev btoa : List ℕ → Text
btoa s = s

abbrev opened : File
opened = record { name = codes "a.torrent"; size = 19; read = got file; read_again = got file }

abbrev items : List Torrent
items = record { id = codes "t1"; info_hash_hex = some digest_text } ∷ []

abbrev daemon : Answers
daemon = record { list = got items; post = got (some (codes "t2")); list_again = got items }

shown :
    (handle_file_change (map to_lower) btoa digest false daemon opened).0 ≡ existing (codes "t1")
unfolding handle_file_change check_hash find_existing list_eq same_list
shown = rw Sample.file_hash refl
