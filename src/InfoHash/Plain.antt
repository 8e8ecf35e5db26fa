-- ===== src/InfoHash/Plain.antt =====
-- The walk over values without integers and empty strings.
use orc_torrent.Prelude.{
  ℕ, suc, ◌+◌, ◌≡◌, ◌∙◌, ap, List, [], ◌∷◌, ◌++◌, append_assoc, arith, length, length-append,
}
use orc_torrent.InfoHash.{bracket, turn, walk, start, dict_end}
use orc_torrent.InfoHash.Bencode.{
  Value, Items, Fields, bytes, int, list, dict, no_items, item, no_fields, field, encode_bytes,
  encode, encode_items, encode_fields, IsPlain, PlainItems, PlainFields,
}
use orc_torrent.InfoHash.Walk.{walk-go_on, walk-stop}
use orc_torrent.InfoHash.Strings.{outside, walk-encode_bytes}

pub walk-open_dict :
    (d i : ℕ) (rest : List ℕ)
    → walk (outside d) i (b'd' ∷ rest) ≡ walk (outside (d + 1)) (i + 1) rest
unfolding turn bracket
walk-open_dict d i rest =
    walk-go_on (outside d) i b'd' rest (outside (d + 1)) (i + 1) rest (ground arith)

walk-open_list :
    (d i : ℕ) (rest : List ℕ)
    → walk (outside d) i (b'l' ∷ rest) ≡ walk (outside (d + 1)) (i + 1) rest
unfolding turn bracket
walk-open_list d i rest =
    walk-go_on (outside d) i b'l' rest (outside (d + 1)) (i + 1) rest (ground arith)

-- an `e` below the outermost level
walk-close :
    (d i : ℕ) (rest : List ℕ)
    → walk (outside (suc (suc d))) i (b'e' ∷ rest) ≡ walk (outside (suc d)) (i + 1) rest
unfolding turn bracket
walk-close d i rest =
    walk-go_on (outside (suc (suc d))) i b'e' rest (outside (suc d)) (i + 1) rest (ground arith)

-- an `e` at the outermost level ends the walk
pub walk-end : (i : ℕ) (rest : List ℕ) → walk (outside 1) i (b'e' ∷ rest) ≡ dict_end (i + 1)
unfolding turn bracket
walk-end i rest = walk-stop (outside 1) i b'e' rest (i + 1) (ground arith)

-- `xs` is passed exactly, at any depth but the outermost
abbrev pub Passes : List ℕ → Type 0
Passes xs =
    (d i : ℕ) (rest : List ℕ)
    → walk (outside (suc d)) i (xs ++ rest) ≡ walk (outside (suc d)) (i + length xs) rest

Passes-nil : Passes []
Passes-nil d i rest = ap (λ k. walk (outside (suc d)) k rest) (omega arith)

Passes-append : (xs ys : List ℕ) → Passes xs → Passes ys → Passes (xs ++ ys)
Passes-append xs ys p q d i rest = rw append_assoc (
    p d i (ys ++ rest)
    ∙ q d (i + length xs) rest
    ∙ ap (λ k. walk (outside (suc d)) k rest) (omega (arith, length-append xs ys)))

Passes-list : (xs : List ℕ) → Passes xs → Passes (b'l' ∷ (xs ++ b'e' ∷ []))
Passes-list xs p d i rest = rw append_assoc (
    walk-open_list (suc d) i (xs ++ (b'e' ∷ rest))
    ∙ ap (λ k. walk (outside k) (i + 1) (xs ++ (b'e' ∷ rest))) (omega arith)
    ∙ p (suc d) (i + 1) (b'e' ∷ rest)
    ∙ walk-close d (i + 1 + length xs) rest
    ∙ ap (λ k. walk (outside (suc d)) k rest) (omega (arith, length-append xs (b'e' ∷ []))))

Passes-dict : (xs : List ℕ) → Passes xs → Passes (b'd' ∷ (xs ++ b'e' ∷ []))
Passes-dict xs p d i rest = rw append_assoc (
    walk-open_dict (suc d) i (xs ++ (b'e' ∷ rest))
    ∙ ap (λ k. walk (outside k) (i + 1) (xs ++ (b'e' ∷ rest))) (omega arith)
    ∙ p (suc d) (i + 1) (b'e' ∷ rest)
    ∙ walk-close d (i + 1 + length xs) rest
    ∙ ap (λ k. walk (outside (suc d)) k rest) (omega (arith, length-append xs (b'e' ∷ []))))

mutual
  unfolding encode

  encode-Passes : (v : Value) → IsPlain v → Passes (encode v)
  encode-Passes (bytes content) h = λ d i rest. walk-encode_bytes (suc d) i content rest h
  encode-Passes (int n) h = absurd h
  encode-Passes (list xs) h = Passes-list (encode_items xs) (items-Passes xs h)
  encode-Passes (dict fs) h = Passes-dict (encode_fields fs) (fields-Passes fs h)

  items-Passes : (xs : Items) → PlainItems xs → Passes (encode_items xs)
  items-Passes no_items h = Passes-nil
  items-Passes (item v xs) h =
      Passes-append (encode v) (encode_items xs) (encode-Passes v h.0) (items-Passes xs h.1)

  fields-Passes : (fs : Fields) → PlainFields fs → Passes (encode_fields fs)
  fields-Passes no_fields h = Passes-nil
  fields-Passes (field key v fs) h =
      Passes-append (encode_bytes key) (encode v ++ encode_fields fs)
        (λ d i rest. walk-encode_bytes (suc d) i key rest h.0)
        (Passes-append (encode v) (encode_fields fs) (encode-Passes v h.1) (fields-Passes fs h.2))

pub encode_fields-Passes : (fs : Fields) → PlainFields fs → Passes (encode_fields fs)
encode_fields-Passes fs h = fields-Passes fs h

-- The walk from the `d` of a plain dictionary stops exactly behind its closing `e`.
pub walk-plain_dict :
    (fs : Fields) (i : ℕ) (rest : List ℕ)
    → PlainFields fs
    → walk start i (encode (dict fs) ++ rest) ≡ dict_end (i + length (encode (dict fs)))
unfolding encode
walk-plain_dict fs i rest h = rw append_assoc (
    walk-open_dict 0 i (encode_fields fs ++ (b'e' ∷ rest))
    ∙ fields-Passes fs h 0 (i + 1) (b'e' ∷ rest)
    ∙ walk-end (i + 1 + length (encode_fields fs)) rest
    ∙ ap dict_end (omega (arith, length-append (encode_fields fs) (b'e' ∷ []))))
