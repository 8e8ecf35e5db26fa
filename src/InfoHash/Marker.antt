-- ===== src/InfoHash/Marker.antt =====
-- infoHashFromTorrentBytes from the marker to the slice: which bytes of a torrent file are hashed.
use orc_torrent.Prelude.{
  ℕ, ◌+◌, ◌-◌, ◌<◌, ◌≡◌, ◌≢◌, sym, ◌∙◌, ap, false, some, List, [], ◌∷◌, ◌++◌, append-nil,
  append_assoc, arith, length, length-append, take, drop, take-append, drop-append,
}
use orc_torrent.Prelude.Codes.{starts_with}
use orc_torrent.InfoHash.{
  dict_end, walk, start, info_marker, find_marker, hashed_from, hashed_bytes,
}
use orc_torrent.InfoHash.Bencode.{
  Fields, bytes, int, dict, field, no_fields, encode, encode_fields, PlainFields,
}
use orc_torrent.InfoHash.Plain.{walk-plain_dict, walk-end}
use orc_torrent.InfoHash.Breaks.{join, cut_at_int, walk-first_int, walk-last_empty, encode-split}

-- No occurrence of the marker begins in the first part of `before ++ rest`.
abbrev pub NoMarker : List ℕ → List ℕ → Type 0
NoMarker [] rest = Unit
NoMarker (b ∷ before) rest =
    (starts_with info_marker (b ∷ (before ++ rest)) ≡ false) × NoMarker before rest

find_marker-first :
    (i : ℕ) (before rest : List ℕ)
    → NoMarker before (info_marker ++ rest)
    → find_marker i (before ++ (info_marker ++ rest)) ≡ some (i + length before + 6)
unfolding find_marker
find_marker-first i [] rest h = ap some (omega arith)
find_marker-first i (b ∷ before) rest h =
    rw h.0 (find_marker-first (i + 1) before rest h.1 ∙ ap some (omega arith))

-- a torrent file with the encoding of `fs` as the value of its first `info`
abbrev pub torrent : List ℕ → Fields → List ℕ → List ℕ
torrent before fs rest = before ++ (info_marker ++ (encode (dict fs) ++ rest))

-- where the walk of such a file starts
abbrev pub dict_start : List ℕ → ℕ
dict_start before = length (before ++ info_marker)

find_marker-torrent :
    (before : List ℕ) (fs : Fields) (rest : List ℕ)
    → NoMarker before (info_marker ++ (encode (dict fs) ++ rest))
    → find_marker 0 (torrent before fs rest) ≡ some (dict_start before)
find_marker-torrent before fs rest h =
    find_marker-first 0 before (encode (dict fs) ++ rest) h
    ∙ ap some (omega (arith, length-append before info_marker))

drop-torrent :
    (before : List ℕ) (fs : Fields) (rest : List ℕ)
    → drop (dict_start before) (torrent before fs rest) ≡ encode (dict fs) ++ rest
drop-torrent before fs rest =
    ap (drop (dict_start before)) (sym (append_assoc before info_marker (encode (dict fs) ++ rest)))
    ∙ drop-append (before ++ info_marker) (encode (dict fs) ++ rest)

hashed_from-dict :
    (fs : Fields) (i e : ℕ) (rest : List ℕ)
    → walk start i (encode (dict fs) ++ rest) ≡ dict_end e
    → hashed_from i (encode (dict fs) ++ rest) ≡ some (take (e - i) (encode (dict fs) ++ rest))
unfolding hashed_from encode
hashed_from-dict fs i e rest h = rw h

-- The bytes hashed of a torrent file, by where the walk ends.
hashed_bytes-torrent :
    (before : List ℕ) (fs : Fields) (rest : List ℕ) (n : ℕ)
    → NoMarker before (info_marker ++ (encode (dict fs) ++ rest))
    → walk start (dict_start before) (encode (dict fs) ++ rest) ≡ dict_end (dict_start before + n)
    → hashed_bytes (torrent before fs rest) ≡ some (take n (encode (dict fs) ++ rest))
unfolding hashed_bytes
hashed_bytes-torrent before fs rest n h w =
    rw (find_marker-torrent before fs rest h, hashed_bytes)
      (rw (drop-torrent before fs rest) (
        hashed_from-dict fs (dict_start before) (dict_start before + n) rest w
        ∙ ap (λ k. some (take k (encode (dict fs) ++ rest))) (omega arith)))

-- When the first info dictionary of a torrent file holds no integer and no empty string, the bytes
-- that are hashed are exactly that dictionary's encoding, whatever follows it.
pub hashed_bytes-plain :
    (before : List ℕ) (fs : Fields) (rest : List ℕ)
    → PlainFields fs
    → NoMarker before (info_marker ++ (encode (dict fs) ++ rest))
    → hashed_bytes (torrent before fs rest) ≡ some (encode (dict fs))
hashed_bytes-plain before fs rest h m =
    hashed_bytes-torrent before fs rest (length (encode (dict fs))) m
      (walk-plain_dict fs (dict_start before) rest h)
    ∙ ap some (take-append (encode (dict fs)) rest)

-- an integer, or an empty string at the end, among the fields
abbrev pub with_int : Fields → List ℕ → ℕ → Fields → Fields
with_int fs key n after = join fs (field key (int n) after)

abbrev pub with_empty : Fields → List ℕ → Fields
with_empty fs key = join fs (field key (bytes []) no_fields)

cut-encode :
    (before : Fields) (key : List ℕ) (n : ℕ) (after : Fields) (rest : List ℕ)
    → encode (dict (join before (field key (int n) after))) ++ rest
      ≡ cut_at_int before key n ++ (encode_fields after ++ (b'e' ∷ rest))
cut-encode before key n after rest = encode-split before key (int n) after rest ∙ simp append_assoc

longer : (xs ys zs : List ℕ) → 0 < length ys → zs ≡ xs ++ ys → some xs ≢ some zs
longer xs ys zs h whole e =
    let same : xs ≡ zs = cc in omega (arith, ap length same, ap length whole, length-append xs ys)

-- When the info dictionary has a top-level integer, and no integer and no empty string before it,
-- the bytes that are hashed end right behind that integer: what follows it in the dictionary is
-- left out, its closing `e` at least.
pub hashed_bytes-first_int :
    (before : List ℕ) (fs : Fields) (key : List ℕ) (n : ℕ) (after : Fields) (rest : List ℕ)
    → PlainFields fs
    → 0 < length key
    → NoMarker before (info_marker ++ (encode (dict (with_int fs key n after)) ++ rest))
    → let info = with_int fs key n after in
      (hashed_bytes (torrent before info rest) ≡ some (cut_at_int fs key n))
      × (encode (dict info) ≡ cut_at_int fs key n ++ (encode_fields after ++ (b'e' ∷ [])))
      × (hashed_bytes (torrent before info rest) ≢ some (encode (dict info)))
hashed_bytes-first_int before fs key n after rest h k m =
    let cut = cut_at_int fs key n in
    let tail = encode_fields after ++ (b'e' ∷ []) in
    let hashed =
      hashed_bytes-torrent before (with_int fs key n after) rest (length cut) m
        (walk-first_int fs key n after (dict_start before) rest h k)
      ∙ ap some (
          ap (take (length cut)) (cut-encode fs key n after rest)
          ∙ take-append cut (encode_fields after ++ (b'e' ∷ rest))) in
    let whole : encode (dict (with_int fs key n after)) ≡ cut ++ tail =
      sym (append-nil _) ∙ cut-encode fs key n after [] in
    (
      hashed,
      whole,
      λ e.
          longer cut tail _ (omega (arith, length-append (encode_fields after) (b'e' ∷ []))) whole
            (sym hashed ∙ e),
    )

-- When the info dictionary's last value is an empty string, no integer and no other empty string
-- stands in it, and the dictionary around it closes at once, as it does in most files, the bytes
-- that are hashed go one byte beyond the info dictionary.
pub hashed_bytes-last_empty :
    (before : List ℕ) (fs : Fields) (key : List ℕ) (rest : List ℕ)
    → PlainFields fs
    → 0 < length key
    → NoMarker before (info_marker ++ (encode (dict (with_empty fs key)) ++ (b'e' ∷ rest)))
    → hashed_bytes (torrent before (with_empty fs key) (b'e' ∷ rest))
      ≡ some (encode (dict (with_empty fs key)) ++ b'e' ∷ [])
hashed_bytes-last_empty before fs key rest h k m =
    let info = encode (dict (with_empty fs key)) in
    hashed_bytes-torrent before (with_empty fs key) (b'e' ∷ rest) (length (info ++ b'e' ∷ [])) m (
      walk-last_empty fs key (dict_start before) (b'e' ∷ rest) h k
      ∙ walk-end (dict_start before + length info) rest
      ∙ ap dict_end (omega (arith, length-append info (b'e' ∷ []))))
    ∙ ap some (
        ap (take (length (info ++ b'e' ∷ []))) (sym (append_assoc info (b'e' ∷ []) rest))
        ∙ take-append (info ++ b'e' ∷ []) rest)
