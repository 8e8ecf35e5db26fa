-- ===== src/Magnet/Agree.antt =====
-- The two ways to an info hash in lib/infoHash.ts meet: a link made from a file's hash gives it back.
use orc_torrent.Prelude.{
  ℕ, ◌<◌, ◌≡◌, refl, ◌∙◌, ap, true, some, List, [], ◌∷◌, ◌++◌, map, length, All, arith,
}
use orc_torrent.Prelude.Codes.{to_lower, IsLowerHex}
use orc_torrent.InfoHash.{info_hash_from_torrent_bytes}
use orc_torrent.InfoHash.Hex.{hex-IsLowerHex, length-hex, torrent_hash_inv}
use orc_torrent.Magnet.{Url, all_match, btih, is_hex, info_hash_from_magnet}
use orc_torrent.Magnet.Hash.{magnet-accepts}

all_match-lower : (cs : List ℕ) → All IsLowerHex cs → all_match is_hex cs ≡ true
unfolding all_match
all_match-lower [] h = refl
all_match-lower (c ∷ cs) h = ground (arith, all_match-lower cs h.1)

map-to_lower_id : (cs : List ℕ) → All IsLowerHex cs → map to_lower cs ≡ cs
map-to_lower_id [] h = refl
map-to_lower_id (c ∷ cs) h = let same : to_lower c ≡ c = ground arith in cc (map-to_lower_id cs h.1)

-- With a digest of 20 bytes, as SHA-1's is, a magnet link `urn:btih:` with the hash that was read
-- from a torrent file is accepted, and gives the same hash.
pub magnet-torrent_hash :
    (sha1 : List ℕ → List ℕ) (url : Url) (bytes magnet scheme h : List ℕ)
    → ((info : List ℕ) → length (sha1 info) ≡ 20)
    → ((info : List ℕ) → All (λ b. b < 256) (sha1 info))
    → info_hash_from_torrent_bytes sha1 bytes ≡ some h
    → map to_lower scheme ≡ btih
    → url magnet ≡ some (some (scheme ++ h))
    → info_hash_from_magnet url magnet ≡ some h
magnet-torrent_hash sha1 url bytes magnet scheme h long small t s u =
    let (info, _, text) = torrent_hash_inv sha1 bytes h t in
    let lower : All IsLowerHex h = rw text (hex-IsLowerHex (sha1 info) (small info)) in
    let forty : length h ≡ 40 = omega (arith, ap length text, length-hex (sha1 info), long info) in
    magnet-accepts url magnet scheme h s u (all_match-lower h lower) (omega arith)
    ∙ ground (arith, map-to_lower_id h lower)
