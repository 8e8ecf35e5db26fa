-- ===== src/InfoHash/Sample.antt =====
-- A small torrent file and a stand-in for its digest, for tests.
use orc_torrent.Prelude.{ℕ, ◌≡◌, refl, some, List, [], ◌∷◌}
use orc_torrent.Prelude.Codes.{codes}
use orc_torrent.InfoHash.{
  turn, string_byte, string_head, digit_run, after_colon, bracket, scan,
  info_hash_from_torrent_bytes,
}

-- twenty bytes, whatever is digested
abbrev pub digest : List ℕ → List ℕ
digest info =
    171 ∷ 1 ∷ 2 ∷ 3 ∷ 4 ∷ 5 ∷ 6 ∷ 7 ∷ 8 ∷ 9 ∷ 10 ∷ 11 ∷ 12 ∷ 13 ∷ 14 ∷ 15 ∷ 16 ∷ 17 ∷ 18 ∷ 255 ∷ []

abbrev pub file : List ℕ
file = codes "d4:infod4:name3:abcee"

abbrev pub digest_text : List ℕ
digest_text = codes "ab0102030405060708090a0b0c0d0e0f101112ff"

pub file_hash : info_hash_from_torrent_bytes digest file ≡ some digest_text
unfolding info_hash_from_torrent_bytes scan turn string_byte string_head digit_run after_colon
    bracket
file_hash = refl
