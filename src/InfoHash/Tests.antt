-- ===== src/InfoHash/Tests.antt =====
-- Runs of infoHashFromTorrentBytes' model, and the theorems at inputs.
use orc_torrent.Prelude.{◌≡◌, ◌≢◌, refl, some, arith}
use orc_torrent.Prelude.Codes.{codes, starts_with}
use orc_torrent.InfoHash.{
  string_byte, digit_run, after_colon, bracket, string_head, turn, scan, walk, start, out_of_fuel,
  hashed_bytes,
}
use orc_torrent.InfoHash.Bencode.{
  Fields, bytes, dict, field, no_fields, encode, encode_bytes, decimal,
}
use orc_torrent.InfoHash.Walk.{walk-ne-out_of_fuel}
use orc_torrent.InfoHash.Marker.{torrent, hashed_bytes-plain}

abbrev named : Fields
named = field (codes "name") (bytes (codes "abc")) no_fields

named_text : encode (dict named) ≡ codes "d4:name3:abce"
unfolding encode decimal encode_bytes
named_text = refl

-- a file of one piece, as torrent files have them: the `length` comes first
typical :
    hashed_bytes (codes "d4:infod6:lengthi5e4:name3:abc12:piece lengthi16ee8:url-listlee")
    ≡ some (codes "d6:lengthi5e")
unfolding hashed_bytes scan turn string_byte string_head digit_run after_colon bracket
typical = refl

no_integer : hashed_bytes (codes "d4:infod4:name3:abce8:url-listlee") ≡ some (codes "d4:name3:abce")
unfolding hashed_bytes scan turn string_byte string_head digit_run after_colon bracket
no_integer = refl

walk-ne-out_of_fuel_example : walk start 0 (codes "d4:name") ≢ out_of_fuel
walk-ne-out_of_fuel_example = walk-ne-out_of_fuel start 0 (codes "d4:name")

hashed_bytes-plain_example :
    hashed_bytes (torrent (codes "d") named (codes "8:url-listlee")) ≡ some (encode (dict named))
unfolding starts_with encode encode_bytes decimal
hashed_bytes-plain_example =
    hashed_bytes-plain (codes "d") named (codes "8:url-listlee") (omega arith) (refl, tt)
