-- ===== src/InfoHash.antt =====
-- lib/infoHash.ts of ui/desktop/src/renderer, the torrent-file half: the marker search and the
-- walk over the bencoded info dictionary. Bytes are numbers; positions are counted as in the source.
pub mod Bencode
pub mod Walk
pub mod Strings
pub mod Plain
pub mod Breaks
pub mod Marker
pub mod Hex
pub mod Sample
mod Tests
use orc_torrent.Prelude.{
  ℕ, zero, suc, ◌+◌, ◌-◌, ◌*◌, ◌/◌, ◌%◌, Bool, true, false, ◌&&◌, Option, none, some, List, [], ◌∷◌,
  ◌++◌, length, take, drop, ltb, leb, ◌==◌, if◌then◌else◌,
}
use orc_torrent.Prelude.Codes.{codes, is_digit, starts_with}

-- the variables of the walk beside its position
pub record Scan : Type 0 where
  pub depth : ℕ
  pub in_string : Bool
  pub string_len : ℕ
  pub string_pos : ℕ

-- One turn of the loop: `continue` (or the end of the body) at a later position, or `break`.
pub data Turn : Type 0 where
  go_on : Scan → ℕ → List ℕ → Turn
  stop : ℕ → Turn

pub data Outcome : Type 0 where
  dict_end : ℕ → Outcome
  unclosed : Outcome
  out_of_fuel : Outcome

-- `if (inString)`
string_byte : Scan → Scan
string_byte s =
    let pos = s.string_pos + 1 in
    if leb s.string_len pos
    then record s { in_string = false; string_pos = 0; string_len = 0 }
    else record s { string_pos = pos }

-- The inner `while`: the value of the digits read, how many there were, and what follows them.
pub digit_run : ℕ → ℕ → List ℕ → ℕ × ℕ × List ℕ
digit_run len n [] = (len, n, [])
digit_run len n (b ∷ bs) =
    let more = digit_run (len * 10 + (b - b'0')) (n + 1) bs in
    if is_digit b then more else (len, n, b ∷ bs)

-- `j < bytes.length && bytes[j] === 0x3a`
after_colon : List ℕ → Option (List ℕ)
after_colon [] = none
after_colon (b ∷ bs) = if b == 0x3a then some bs else none

-- The depth tests at the end of the body. The walk starts on a `d`, so the depth is at least 1
-- from its second byte on, and the decrement is exact.
bracket : Scan → ℕ → ℕ → List ℕ → Turn
bracket s i b bs =
    let d = if b == 0x64 then s.depth + 1 else s.depth in
    let d' = if b == 0x6c then d + 1 else d in
    if b == 0x65
    then (if d' == 1 then stop (i + 1) else go_on (record s { depth = d' - 1 }) (i + 1) bs)
    else go_on (record s { depth = d' }) (i + 1) bs

-- the branch for a byte in `0` … `9`
string_head : Scan → ℕ → ℕ → List ℕ → Turn
string_head s i b bs =
    let (len, n, rest) = digit_run 0 0 (b ∷ bs) in
    elim (after_colon rest) [
      | some after ↦
          go_on (record s { string_len = len; string_pos = 0; in_string = true }) (i + n + 1) after
      | none ↦ bracket s i b bs
    ]

pub turn : Scan → ℕ → ℕ → List ℕ → Turn
turn s i b bs =
    if s.in_string
    then go_on (string_byte s) (i + 1) bs
    else if is_digit b
    then string_head s i b bs
    else bracket s i b bs

scan : ℕ → Scan → ℕ → List ℕ → Outcome
scan zero s i bs = out_of_fuel
scan (suc fuel) s i [] = unclosed
scan (suc fuel) s i (b ∷ bs) = elim (turn s i b bs) [
  | go_on s' j rest ↦ scan fuel s' j rest
  | stop e ↦ dict_end e
]

abbrev pub start : Scan
start = record { depth = 0; in_string = false; string_len = 0; string_pos = 0 }

-- `for (let i = dictStart; …)`: each turn passes at least one byte, so this fuel is enough.
pub walk : Scan → ℕ → List ℕ → Outcome
walk s i bs = scan (suc (length bs)) s i bs

abbrev pub info_marker : List ℕ
info_marker = codes "4:info"

-- the position behind the first marker, by the two nested loops
pub find_marker : ℕ → List ℕ → Option ℕ
unfolding starts_with
find_marker i [] = none
find_marker i (b ∷ bs) =
    let later = find_marker (i + 1) bs in
    if starts_with info_marker (b ∷ bs) then some (i + length info_marker) else later

-- a number below 16 as a lower-case hexadecimal digit
pub hex_digit : ℕ → ℕ
hex_digit d = if ltb d 10 then b'0' + d else b'a' + (d - 10)

-- `b.toString(16).padStart(2, "0")` of a byte
pub hex_byte : ℕ → List ℕ
unfolding hex_digit
hex_byte b =
    if ltb b 16 then b'0' ∷ hex_digit b ∷ [] else hex_digit (b / 16) ∷ hex_digit (b % 16) ∷ []

pub hex : List ℕ → List ℕ
unfolding hex_byte
hex [] = []
hex (b ∷ bs) = hex_byte b ++ hex bs

-- The bytes that are hashed: the slice from the dictionary's start to the end that the walk found.
hashed_from : ℕ → List ℕ → Option (List ℕ)
unfolding walk
hashed_from i [] = none
hashed_from i (b ∷ bs) =
    if b == 0x64
    then elim (walk start i (b ∷ bs)) [ dict_end e ↦ some (take (e - i) (b ∷ bs)) | _ ↦ none ]
    else none

pub hashed_bytes : List ℕ → Option (List ℕ)
unfolding find_marker hashed_from
hashed_bytes bytes = elim (find_marker 0 bytes) [
  | none ↦ none
  | some i ↦ hashed_from i (drop i bytes)
]

-- `crypto.subtle.digest("SHA-1", …)` is an argument.
pub info_hash_from_torrent_bytes : (List ℕ → List ℕ) → List ℕ → Option (List ℕ)
unfolding hashed_bytes hex
info_hash_from_torrent_bytes sha1 bytes = elim (hashed_bytes bytes) [
  | none ↦ none
  | some info ↦ some (hex (sha1 info))
]
