-- ===== src/Magnet/Tests.antt =====
-- Runs of infoHashFromMagnet's model, and the theorems at inputs.
use orc_torrent.Prelude.{ℕ, ◌≡◌, refl, none, some, List, ◌++◌, arith}
use orc_torrent.Prelude.Codes.{codes}
use orc_torrent.InfoHash.Sample.{digest, file, digest_text, file_hash}
use orc_torrent.Magnet.{Url, all_match, info_hash_from_magnet}
use orc_torrent.Magnet.Agree.{magnet-torrent_hash}

-- a parser that takes the whole link for its `xt`
abbrev whole : Url
whole s = some (some s)

abbrev upper : List ℕ
upper = codes "0123456789ABCDEF0123456789ABCDEF01234567"

upper_link :
    info_hash_from_magnet whole (codes "URN:BTIH:" ++ upper)
    ≡ some (codes "0123456789abcdef0123456789abcdef01234567")
unfolding info_hash_from_magnet all_match
upper_link = refl

base32_link : info_hash_from_magnet whole (codes "urn:btih:ABCDEFGHIJKLMNOPQRSTUVWXYZ234567") ≡ none
unfolding info_hash_from_magnet all_match
base32_link = refl

magnet-torrent_hash_example :
    info_hash_from_magnet whole (codes "urn:btih:" ++ digest_text) ≡ some digest_text
magnet-torrent_hash_example =
    magnet-torrent_hash digest whole file (codes "urn:btih:" ++ digest_text) (codes "urn:btih:")
      digest_text (λ info. refl) (λ info. omega arith) file_hash refl refl
