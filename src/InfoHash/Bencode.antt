-- ===== src/InfoHash/Bencode.antt =====
-- Bencoded values and their encoding, as the torrent-file format defines them: what the walk over
-- the info dictionary is meant to read. Dictionary keys are not required to be sorted here.
use orc_torrent.Prelude.{
  ℕ, zero, suc, ◌+◌, ◌-◌, ◌*◌, ◌/◌, ◌%◌, ◌<◌, ◌≡◌, refl, true, List, [], ◌∷◌, ◌++◌, arith, length,
  length-append, All, All-append, ltb, if◌then◌else◌, Bool-cases, inl, inr,
}
use orc_torrent.Prelude.Codes.{is_digit}

-- the decimal digits of a number; `suc n` rounds are enough
decimal_on : ℕ → ℕ → List ℕ
decimal_on zero n = []
decimal_on (suc fuel) n =
    let more = decimal_on fuel (n / 10) in
    if ltb n 10 then (b'0' + n) ∷ [] else more ++ (b'0' + n % 10) ∷ []

unfoldable pub decimal : ℕ → List ℕ
unfolding decimal_on
decimal n = decimal_on (suc n) n

-- what a run of digits stands for, read from the left
unfoldable pub read_from : ℕ → List ℕ → ℕ
read_from a [] = a
read_from a (b ∷ bs) = read_from (a * 10 + (b - b'0')) bs

abbrev pub IsDigits : List ℕ → Type 0
IsDigits ds = All (λ b. is_digit b ≡ true) ds

read_from-append :
    (a : ℕ) (ds : List ℕ) (b : ℕ) → read_from a (ds ++ b ∷ []) ≡ read_from a ds * 10 + (b - b'0')
unfolding read_from
read_from-append a [] b = refl
read_from-append a (d ∷ ds) b = read_from-append (a * 10 + (d - b'0')) ds b

read_from-decimal_on : (fuel n : ℕ) → n < fuel → read_from 0 (decimal_on fuel n) ≡ n
unfolding decimal_on read_from
read_from-decimal_on zero n h = elim h [ ]
read_from-decimal_on (suc fuel) n h = elim (Bool-cases (ltb n 10)) [
  | inl small ↦ rw small (omega arith)
  | inr big ↦
      rw big
        (rw read_from-append (rw (read_from-decimal_on fuel (n / 10) (ground arith)) (omega arith)))
]

pub read_from-decimal : (n : ℕ) → read_from 0 (decimal n) ≡ n
unfolding decimal
read_from-decimal n = read_from-decimal_on (suc n) n (omega arith)

decimal_on-IsDigits : (fuel n : ℕ) → IsDigits (decimal_on fuel n)
unfolding decimal_on
decimal_on-IsDigits zero n = tt
decimal_on-IsDigits (suc fuel) n = elim (Bool-cases (ltb n 10)) [
  | inl small ↦ rw small (ground arith, tt)
  | inr big ↦ rw big (
      All-append _ (decimal_on fuel (n / 10)) _ (decimal_on-IsDigits fuel (n / 10))
        (ground arith, tt))
]

pub decimal-IsDigits : (n : ℕ) → IsDigits (decimal n)
unfolding decimal
decimal-IsDigits n = decimal_on-IsDigits (suc n) n

pub length-decimal_pos : (n : ℕ) → 0 < length (decimal n)
unfolding decimal decimal_on
length-decimal_pos n = ground (arith, length-append (decimal_on n (n / 10)) ((b'0' + n % 10) ∷ []))

mutual
  pub data Value : Type 0 where
    bytes : List ℕ → Value
    int : ℕ → Value
    list : Items → Value
    dict : Fields → Value

  pub data Items : Type 0 where
    no_items : Items
    item : Value → Items → Items

  pub data Fields : Type 0 where
    no_fields : Fields
    field : List ℕ → Value → Fields → Fields

unfoldable pub encode_bytes : List ℕ → List ℕ
encode_bytes content = decimal (length content) ++ (b':' ∷ content)

unfoldable mutual
  pub encode : Value → List ℕ
  encode (bytes content) = encode_bytes content
  encode (int n) = b'i' ∷ (decimal n ++ (b'e' ∷ []))
  encode (list xs) = b'l' ∷ (encode_items xs ++ (b'e' ∷ []))
  encode (dict fs) = b'd' ∷ (encode_fields fs ++ (b'e' ∷ []))

  pub encode_items : Items → List ℕ
  encode_items no_items = []
  encode_items (item v xs) = encode v ++ encode_items xs

  pub encode_fields : Fields → List ℕ
  encode_fields no_fields = []
  encode_fields (field key v fs) = encode_bytes key ++ (encode v ++ encode_fields fs)

-- No integer occurs in the value, and no empty string.
abbrev mutual
  pub IsPlain : Value → Type 0
  IsPlain (bytes content) = 0 < length content
  IsPlain (int n) = ⊥
  IsPlain (list xs) = PlainItems xs
  IsPlain (dict fs) = PlainFields fs

  pub PlainItems : Items → Type 0
  PlainItems no_items = Unit
  PlainItems (item v xs) = IsPlain v × PlainItems xs

  pub PlainFields : Fields → Type 0
  PlainFields no_fields = Unit
  PlainFields (field key v fs) = (0 < length key) × IsPlain v × PlainFields fs
