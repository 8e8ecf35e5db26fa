-- ===== src/InfoHash/Strings.antt =====
-- The walk over one bencoded string: infoHashFromTorrentBytes, `inString` and the length prefix.
use orc_torrent.Prelude.{
  ℕ, ◌+◌, ◌-◌, ◌*◌, ◌<◌, ◌≡◌, refl, ◌∙◌, ap, true, false, List, [], ◌∷◌, ◌++◌, append_assoc, arith,
  length, length-append,
}
use orc_torrent.Prelude.Codes.{is_digit}
use orc_torrent.InfoHash.{Scan, string_byte, digit_run, after_colon, string_head, turn, walk}
use orc_torrent.InfoHash.Bencode.{
  decimal, read_from, IsDigits, read_from-decimal, decimal-IsDigits, length-decimal_pos,
  encode_bytes,
}
use orc_torrent.InfoHash.Walk.{walk-go_on}

-- between two tokens, at a depth
abbrev pub outside : ℕ → Scan
outside d = record { depth = d; in_string = false; string_len = 0; string_pos = 0 }

-- in a string of `len` bytes, `pos` of them passed
abbrev pub inside : ℕ → ℕ → ℕ → Scan
inside d len pos = record { depth = d; in_string = true; string_len = len; string_pos = pos }

-- what follows the length prefix is passed byte by byte
pub walk-content :
    (d len pos i : ℕ) (content rest : List ℕ)
    → 0 < length content
    → pos + length content ≡ len
    → walk (inside d len pos) i (content ++ rest) ≡ walk (outside d) (i + length content) rest
unfolding turn string_byte
walk-content d len pos i [] rest h e = absurd (omega arith)
walk-content d len pos i (c ∷ []) rest h e =
    walk-go_on (inside d len pos) i c rest (outside d) (i + 1) rest (ground arith)
walk-content d len pos i (c ∷ c' ∷ cs) rest h e =
    walk-go_on (inside d len pos) i c (c' ∷ cs ++ rest) (inside d len (pos + 1)) (i + 1)
      (c' ∷ cs ++ rest) (ground arith)
    ∙ walk-content d len (pos + 1) (i + 1) (c' ∷ cs) rest (omega arith) (omega arith)
    ∙ ap (λ k. walk (outside d) k rest) (omega arith)

pub digit_run-digits :
    (len n : ℕ) (ds : List ℕ) (c : ℕ) (rest : List ℕ)
    → IsDigits ds
    → is_digit c ≡ false
    → digit_run len n (ds ++ (c ∷ rest)) ≡ (read_from len ds, n + length ds, c ∷ rest)
unfolding digit_run read_from
digit_run-digits len n [] c rest h e = rw e (ground arith)
digit_run-digits len n (d ∷ ds) c rest h e = rw h.0 (
    digit_run-digits (len * 10 + (d - b'0')) (n + 1) ds c rest h.1 e
    ∙ ap (λ k. (read_from (len * 10 + (d - b'0')) ds, k, c ∷ rest)) (omega arith))

-- A length prefix puts the walk inside the string, whatever its length.
pub walk-prefix :
    (d i : ℕ) (ds rest : List ℕ)
    → IsDigits ds
    → 0 < length ds
    → walk (outside d) i (ds ++ (b':' ∷ rest))
      ≡ walk (inside d (read_from 0 ds) 0) (i + length ds + 1) rest
unfolding turn string_head after_colon
walk-prefix d i [] rest h pos = absurd (omega arith)
walk-prefix d i (b ∷ ds) rest h pos =
    walk-go_on (outside d) i b (ds ++ (b':' ∷ rest)) (inside d (read_from 0 (b ∷ ds)) 0)
      (i + length (b ∷ ds) + 1) rest
      (rw h.0 (
        rw (digit_run-digits 0 0 (b ∷ ds) b':' rest h refl, string_head)
          (ground (arith, digit_run-digits 0 0 (b ∷ ds) b':' rest h refl))))

-- A nonempty string is passed exactly.
pub walk-encode_bytes :
    (d i : ℕ) (content rest : List ℕ)
    → 0 < length content
    → walk (outside d) i (encode_bytes content ++ rest)
      ≡ walk (outside d) (i + length (encode_bytes content)) rest
unfolding encode_bytes
walk-encode_bytes d i content rest h =
    let ds = decimal (length content) in
    rw append_assoc (
      walk-prefix d i ds (content ++ rest) (decimal-IsDigits (length content))
        (length-decimal_pos (length content))
      ∙ walk-content d (read_from 0 ds) 0 (i + length ds + 1) content rest h
          (omega (arith, read_from-decimal (length content)))
      ∙ ap (λ k. walk (outside d) k rest) (omega (arith, length-append ds (b':' ∷ content))))
