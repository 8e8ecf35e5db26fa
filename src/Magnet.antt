-- ===== src/Magnet.antt =====
-- infoHashFromMagnet of ui/desktop/src/renderer/lib/infoHash.ts. Text is the list of its code units.
-- The URL parser of the platform is an argument: `none` where `new URL` throws, `some none` where
-- `searchParams.get("xt")` is null.
pub mod Hash
pub mod Agree
mod Tests
use orc_torrent.Prelude.{
  ℕ, ◌+◌, Bool, true, false, not, ◌&&◌, ◌||◌, Option, none, some, List, [], ◌∷◌, map, length, leb,
  ◌==◌, if◌then◌else◌,
}
use orc_torrent.Prelude.Codes.{codes, is_digit, to_lower}

abbrev pub Url : Type 0
Url = List ℕ → Option (Option (List ℕ))

-- `.` of a regular expression: all but the line terminators
not_terminator : ℕ → Bool
not_terminator c = not (c == 0x0a || c == 0x0d || c == 0x2028 || c == 0x2029)

pub all_match : (ℕ → Bool) → List ℕ → Bool
all_match p [] = true
all_match p (c ∷ cs) = p c && all_match p cs

-- `(.+)$`
rest_of_line : List ℕ → Option (List ℕ)
unfolding all_match not_terminator
rest_of_line [] = none
rest_of_line (c ∷ cs) = if all_match not_terminator (c ∷ cs) then some (c ∷ cs) else none

-- a prefix in lower case, matched under the flag `i`
after_prefix : List ℕ → List ℕ → Option (List ℕ)
after_prefix [] s = some s
after_prefix (p ∷ ps) [] = none
after_prefix (p ∷ ps) (c ∷ s) =
    let rest = after_prefix ps s in if to_lower c == p then rest else none

abbrev pub btih : List ℕ
btih = codes "urn:btih:"

-- `xt.match(/^urn:btih:(.+)$/i)`, its group
match_btih : List ℕ → Option (List ℕ)
unfolding after_prefix rest_of_line
match_btih xt = elim (after_prefix btih xt) [ none ↦ none | some rest ↦ rest_of_line rest ]

-- `[0-9a-fA-F]`
abbrev pub is_hex : ℕ → Bool
is_hex c = is_digit c || leb b'a' c && leb c b'f' || leb b'A' c && leb c b'F'

-- the branches on the hash's length
accept : List ℕ → Option (List ℕ)
unfolding all_match
accept hash =
    if length hash == 40
    then (if all_match is_hex hash then some (map to_lower hash) else none)
    else none

-- an empty `xt` is as good as none
from_xt : List ℕ → Option (List ℕ)
unfolding match_btih accept
from_xt [] = none
from_xt (c ∷ xt) = elim (match_btih (c ∷ xt)) [ none ↦ none | some hash ↦ accept hash ]

pub info_hash_from_magnet : Url → List ℕ → Option (List ℕ)
unfolding from_xt
info_hash_from_magnet url magnet = elim (url magnet) [
  | none ↦ none
  | some xt? ↦ elim xt? [ none ↦ none | some xt ↦ from_xt xt ]
]
