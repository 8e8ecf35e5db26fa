-- ===== src/InfoHash/Breaks.antt =====
-- Where the walk goes wrong: an integer, and an empty string.
use orc_torrent.Prelude.{
  ℕ, ◌+◌, ◌<◌, ◌≡◌, refl, ◌∙◌, ap, List, [], ◌∷◌, ◌++◌, append_assoc, arith, length, length-append,
}
use orc_torrent.InfoHash.{
  after_colon, string_head, string_byte, bracket, turn, walk, start, dict_end,
}
use orc_torrent.InfoHash.Bencode.{
  Value, Fields, int, bytes, dict, field, no_fields, decimal, read_from, IsDigits, decimal-IsDigits,
  encode_bytes, encode, encode_fields, PlainFields,
}
use orc_torrent.InfoHash.Walk.{walk-go_on}
use orc_torrent.InfoHash.Strings.{outside, inside, walk-encode_bytes, walk-prefix, digit_run-digits}
use orc_torrent.InfoHash.Plain.{walk-end, walk-open_dict, encode_fields-Passes}

-- digits that no colon follows are passed one by one
walk-digits :
    (d i : ℕ) (ds rest : List ℕ)
    → IsDigits ds
    → walk (outside d) i (ds ++ (b'e' ∷ rest)) ≡ walk (outside d) (i + length ds) (b'e' ∷ rest)
unfolding turn string_head after_colon bracket
walk-digits d i [] rest h = ap (λ k. walk (outside d) k (b'e' ∷ rest)) (omega arith)
walk-digits d i (b ∷ ds) rest h =
    walk-go_on (outside d) i b (ds ++ (b'e' ∷ rest)) (outside d) (i + 1) (ds ++ (b'e' ∷ rest))
      (rw h.0 (rw (digit_run-digits 0 0 (b ∷ ds) b'e' rest h refl, string_head) (ground arith)))
    ∙ walk-digits d (i + 1) ds rest h.1
    ∙ ap (λ k. walk (outside d) k (b'e' ∷ rest)) (omega arith)

-- At the outermost level the `e` of an integer ends the walk.
pub walk-int :
    (i n : ℕ) (rest : List ℕ)
    → walk (outside 1) i (encode (int n) ++ rest) ≡ dict_end (i + length (encode (int n)))
unfolding encode turn bracket
walk-int i n rest = rw append_assoc (
    walk-go_on (outside 1) i b'i' (decimal n ++ (b'e' ∷ rest)) (outside 1) (i + 1)
      (decimal n ++ (b'e' ∷ rest)) (ground arith)
    ∙ walk-digits 1 (i + 1) (decimal n) rest (decimal-IsDigits n)
    ∙ walk-end (i + 1 + length (decimal n)) rest
    ∙ ap dict_end (omega (arith, length-append (decimal n) (b'e' ∷ []))))

-- The byte behind an empty string is passed unread.
pub walk-empty_string :
    (d i c : ℕ) (rest : List ℕ)
    → walk (outside d) i (encode_bytes [] ++ (c ∷ rest)) ≡ walk (outside d) (i + 3) rest
unfolding encode_bytes turn string_byte decimal read_from
walk-empty_string d i c rest =
    walk-prefix d i (b'0' ∷ []) (c ∷ rest) (refl, tt) (omega arith)
    ∙ walk-go_on (inside d 0 0) (i + 1 + 1) c rest (outside d) (i + 1 + 1 + 1) rest (ground arith)
    ∙ ap (λ k. walk (outside d) k rest) (omega arith)

abbrev pub join : Fields → Fields → Fields
join no_fields gs = gs
join (field key v fs) gs = field key v (join fs gs)

pub encode_fields-join :
    (fs gs : Fields) → encode_fields (join fs gs) ≡ encode_fields fs ++ encode_fields gs
unfolding encode
encode_fields-join no_fields gs = refl
encode_fields-join (field key v fs) gs = rw (encode_fields-join fs gs, append_assoc, append_assoc)

-- what the walk delimits of a dictionary whose first integer is `n`, under `key`
abbrev pub cut_at_int : Fields → List ℕ → ℕ → List ℕ
cut_at_int before key n = b'd' ∷ (encode_fields before ++ (encode_bytes key ++ encode (int n)))

-- a dictionary cut at one of its fields
pub encode-split :
    (before : Fields) (key : List ℕ) (v : Value) (after : Fields) (rest : List ℕ)
    → encode (dict (join before (field key v after))) ++ rest
      ≡ b'd'
        ∷ (encode_fields before
            ++ (encode_bytes key ++ (encode v ++ (encode_fields after ++ (b'e' ∷ rest)))))
unfolding encode
encode-split before key v after rest = simp (encode_fields-join, append_assoc)

-- the walk up to the value under `key`
walk-field_value :
    (before : Fields) (key : List ℕ) (i : ℕ) (rest : List ℕ)
    → PlainFields before
    → 0 < length key
    → walk start i (b'd' ∷ (encode_fields before ++ (encode_bytes key ++ rest)))
      ≡ walk (outside 1) (i + 1 + length (encode_fields before) + length (encode_bytes key)) rest
walk-field_value before key i rest h k =
    walk-open_dict 0 i (encode_fields before ++ (encode_bytes key ++ rest))
    ∙ encode_fields-Passes before h 0 (i + 1) (encode_bytes key ++ rest)
    ∙ walk-encode_bytes 1 (i + 1 + length (encode_fields before)) key rest k

pub walk-first_int :
    (before : Fields) (key : List ℕ) (n : ℕ) (after : Fields) (i : ℕ) (rest : List ℕ)
    → PlainFields before
    → 0 < length key
    → walk start i (encode (dict (join before (field key (int n) after))) ++ rest)
      ≡ dict_end (i + length (cut_at_int before key n))
walk-first_int before key n after i rest h k =
    let tail = encode_fields after ++ (b'e' ∷ rest) in
    rw (encode-split before key (int n) after rest) (
      walk-field_value before key i (encode (int n) ++ tail) h k
      ∙ walk-int (i + 1 + length (encode_fields before) + length (encode_bytes key)) n tail
      ∙ ap dict_end (
          omega (
            arith,
            length-append (encode_fields before) (encode_bytes key ++ encode (int n)),
            length-append (encode_bytes key) (encode (int n)),
          )))

walk-empty_value :
    (j : ℕ) (rest : List ℕ)
    → walk (outside 1) j (encode (bytes []) ++ (encode_fields no_fields ++ (b'e' ∷ rest)))
      ≡ walk (outside 1) (j + 3) rest
unfolding encode
walk-empty_value j rest = walk-empty_string 1 j b'e' rest

length-last_empty :
    (before : Fields) (key : List ℕ)
    → length (encode (dict (join before (field key (bytes []) no_fields))))
      ≡ 1 + length (encode_fields before) + length (encode_bytes key) + 3
unfolding encode encode_bytes decimal
length-last_empty before key = omega (
  arith,
  ap length (encode_fields-join before (field key (bytes []) no_fields)),
  length-append (encode_fields (join before (field key (bytes []) no_fields))) (b'e' ∷ []),
  length-append (encode_fields before) (encode_bytes key ++ (encode_bytes [] ++ [])),
  length-append (encode_bytes key) (encode_bytes [] ++ []),
)

-- A last field whose value is the empty string hides the dictionary's own `e`.
pub walk-last_empty :
    (before : Fields) (key : List ℕ) (i : ℕ) (rest : List ℕ)
    → PlainFields before
    → 0 < length key
    → let fs = join before (field key (bytes []) no_fields) in
      walk start i (encode (dict fs) ++ rest)
      ≡ walk (outside 1) (i + length (encode (dict fs))) rest
walk-last_empty before key i rest h k = rw (encode-split before key (bytes []) no_fields rest) (
    walk-field_value before key i (encode (bytes []) ++ (encode_fields no_fields ++ (b'e' ∷ rest)))
      h k
    ∙ walk-empty_value (i + 1 + length (encode_fields before) + length (encode_bytes key)) rest
    ∙ ap (λ j. walk (outside 1) j rest) (omega (arith, length-last_empty before key)))
