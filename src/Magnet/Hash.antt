-- ===== src/Magnet/Hash.antt =====
-- What infoHashFromMagnet accepts and returns, and its agreement with infoHashFromTorrentBytes.
use mathlib.Core.Path.{subst}
use orc_torrent.Prelude.{
  ℕ, ◌<◌, ◌≡◌, refl, ◌∙◌, true, Option, none, some, List, [], ◌∷◌, ◌++◌, map, length, All, arith,
  ◌==◌, length-map, Bool-cases, inl, inr, if◌then◌else◌,
}
use orc_torrent.Prelude.Codes.{to_lower}
use orc_torrent.Magnet.{
  Url, not_terminator, all_match, rest_of_line, after_prefix, btih, match_btih, is_hex, accept,
  from_xt, info_hash_from_magnet,
}

-- a hash in the form that the client compares: 40 digits of `[0-9a-f]`
pub record IsInfoHash (h : List ℕ) : Type 0 where
  pub is_long : length h ≡ 40
  pub is_lower_hex : All (λ c. (is_hex c ≡ true) × (to_lower c ≡ c)) h

lower-hex :
    (c : ℕ) → is_hex c ≡ true → (is_hex (to_lower c) ≡ true) × (to_lower (to_lower c) ≡ to_lower c)
lower-hex c h = (ground arith, ground arith)

map-lower :
    (cs : List ℕ)
    → all_match is_hex cs ≡ true
    → All (λ c. (is_hex c ≡ true) × (to_lower c ≡ c)) (map to_lower cs)
unfolding all_match
map-lower [] h = tt
map-lower (c ∷ cs) h = (lower-hex c (ground arith), map-lower cs (ground arith))

accept-IsInfoHash : (hash h : List ℕ) → accept hash ≡ some h → IsInfoHash h
unfolding accept
accept-IsInfoHash hash h e = elim (Bool-cases (all_match is_hex hash)) [
  | inl hexes ↦
      let same : map to_lower hash ≡ h = ground arith in
      subst IsInfoHash same (record {
        is_long = ground (arith, length-map to_lower hash);
        is_lower_hex = map-lower hash hexes;
      })
  | inr bad ↦ absurd (ground arith)
]

from_xt-IsInfoHash : (xt h : List ℕ) → from_xt xt ≡ some h → IsInfoHash h
unfolding from_xt
from_xt-IsInfoHash [] h e = cc
from_xt-IsInfoHash (c ∷ xt) h e = go (match_btih (c ∷ xt)) e
  where
    go :
        (m : Option (List ℕ))
        → elim m [ none ↦ none | some hash ↦ accept hash ] ≡ some h
        → IsInfoHash h
    go none e' = cc
    go (some hash) e' = accept-IsInfoHash hash h e'

-- Whatever the magnet link and the URL parser, a hash that is returned has 40 characters, each a
-- hexadecimal digit in lower case.
pub magnet-IsInfoHash :
    (url : Url) (magnet h : List ℕ) → info_hash_from_magnet url magnet ≡ some h → IsInfoHash h
unfolding info_hash_from_magnet
magnet-IsInfoHash url magnet h e = go (url magnet) e
  where
    go :
        (u : Option (Option (List ℕ)))
        → elim u [ none ↦ none | some xt? ↦ elim xt? [ none ↦ none | some xt ↦ from_xt xt ] ]
          ≡ some h
        → IsInfoHash h
    go none e' = cc
    go (some none) e' = cc
    go (some (some xt)) e' = from_xt-IsInfoHash xt h e'

hex-not_terminator : (c : ℕ) → is_hex c ≡ true → not_terminator c ≡ true
unfolding not_terminator
hex-not_terminator c h = ground arith

all_match-hex : (cs : List ℕ) → all_match is_hex cs ≡ true → all_match not_terminator cs ≡ true
unfolding all_match
all_match-hex [] h = refl
all_match-hex (c ∷ cs) h = ground (arith, hex-not_terminator c, all_match-hex cs)

rest_of_line-hex :
    (cs : List ℕ) → 0 < length cs → all_match is_hex cs ≡ true → rest_of_line cs ≡ some cs
unfolding rest_of_line
rest_of_line-hex [] l h = absurd (omega arith)
rest_of_line-hex (c ∷ cs) l h = rw (all_match-hex (c ∷ cs) h)

-- The prefix matches in any mixture of cases.
after_prefix-lower :
    (p ps : List ℕ) (cs : List ℕ) → map to_lower ps ≡ p → after_prefix p (ps ++ cs) ≡ some cs
unfolding after_prefix
after_prefix-lower [] [] cs e = refl
after_prefix-lower [] (x ∷ ps) cs e = cc
after_prefix-lower (q ∷ p) [] cs e = cc
after_prefix-lower (q ∷ p) (x ∷ ps) cs e =
    let tail : map to_lower ps ≡ p = cc in
    let head : to_lower x ≡ q = cc in ground (arith, after_prefix-lower p ps cs tail, head)

accept-hex :
    (hash : List ℕ)
    → all_match is_hex hash ≡ true
    → accept hash ≡ (if length hash == 40 then some (map to_lower hash) else none)
unfolding accept
accept-hex hash h = rw h

from_xt-hex :
    (scheme hash : List ℕ)
    → map to_lower scheme ≡ btih
    → all_match is_hex hash ≡ true
    → 0 < length hash
    → from_xt (scheme ++ hash) ≡ accept hash
unfolding from_xt
from_xt-hex [] hash s h l = cc
from_xt-hex (c ∷ scheme) hash s h l =
    rw (after_prefix-lower btih (c ∷ scheme) hash s, match_btih, from_xt)
      (rw (rest_of_line-hex hash l h))

-- A link whose `xt` is `urn:btih:` in any case and 40 hexadecimal digits gives those digits in
-- lower case; with 32 characters, as of a base32 hash, or any other number but 40, it gives nothing.
pub magnet-accepts :
    (url : Url) (magnet scheme hash : List ℕ)
    → map to_lower scheme ≡ btih
    → url magnet ≡ some (some (scheme ++ hash))
    → all_match is_hex hash ≡ true
    → 0 < length hash
    → info_hash_from_magnet url magnet
      ≡ (if length hash == 40 then some (map to_lower hash) else none)
unfolding info_hash_from_magnet
magnet-accepts url magnet scheme hash s u h l =
    rw (u, info_hash_from_magnet) (from_xt-hex scheme hash s h l ∙ accept-hex hash h)
