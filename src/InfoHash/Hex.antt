-- ===== src/InfoHash/Hex.antt =====
-- The hexadecimal text of a digest, at the end of infoHashFromTorrentBytes.
use orc_torrent.Prelude.{
  ℕ, ◌*◌, ◌/◌, ◌%◌, ◌<◌, ◌≡◌, refl, Option, none, some, List, [], ◌∷◌, ◌++◌, length, All, arith,
  length-append, Bool-cases, inl, inr, ltb,
}
use orc_torrent.Prelude.Codes.{IsLowerHex}
use orc_torrent.InfoHash.{hex_digit, hex_byte, hex, hashed_bytes, info_hash_from_torrent_bytes}

hex_digit-IsLowerHex : (d : ℕ) → d < 16 → IsLowerHex (hex_digit d)
unfolding hex_digit
hex_digit-IsLowerHex d h = ground arith

hex_byte-IsLowerHex :
    (b : ℕ) (rest : List ℕ) → b < 256 → All IsLowerHex rest → All IsLowerHex (hex_byte b ++ rest)
unfolding hex_byte
hex_byte-IsLowerHex b rest h k = elim (Bool-cases (ltb b 16)) [
  | inl small ↦ rw small (refl, (hex_digit-IsLowerHex b (ground arith), k))
  | inr big ↦ rw big (
    hex_digit-IsLowerHex (b / 16) (omega arith),
    (hex_digit-IsLowerHex (b % 16) (omega arith), k),
  )
]

pub hex-IsLowerHex : (bs : List ℕ) → All (λ b. b < 256) bs → All IsLowerHex (hex bs)
unfolding hex
hex-IsLowerHex [] h = tt
hex-IsLowerHex (b ∷ bs) h = hex_byte-IsLowerHex b (hex bs) h.0 (hex-IsLowerHex bs h.1)

length-hex_byte : (b : ℕ) → length (hex_byte b) ≡ 2
unfolding hex_byte
length-hex_byte b = ground arith

pub length-hex : (bs : List ℕ) → length (hex bs) ≡ 2 * length bs
unfolding hex
length-hex [] = omega arith
length-hex (b ∷ bs) =
    omega (arith, length-append (hex_byte b) (hex bs), length-hex_byte b, length-hex bs)

-- A hash that is returned is the text of the digest of the bytes hashed.
pub torrent_hash_inv :
    (sha1 : List ℕ → List ℕ) (bytes h : List ℕ)
    → info_hash_from_torrent_bytes sha1 bytes ≡ some h
    → (info : List ℕ) × (hashed_bytes bytes ≡ some info) × (h ≡ hex (sha1 info))
unfolding info_hash_from_torrent_bytes
torrent_hash_inv sha1 bytes h e = go (hashed_bytes bytes) e
  where
    go :
        (o : Option (List ℕ))
        → elim o [ none ↦ none | some info ↦ some (hex (sha1 info)) ] ≡ some h
        → (info : List ℕ) × (o ≡ some info) × (h ≡ hex (sha1 info))
    go none e' = cc
    go (some info) e' = (info, refl, cc)
