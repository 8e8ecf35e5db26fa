-- ===== src/Country/Local.antt =====
-- What counts as a local address (ui/desktop/src/renderer/utils/country.ts), in terms of the numbers of an IPv4
-- address.
use orc_torrent.Prelude.{
  ℕ, ◌+◌, ◌/◌, ◌%◌, ◌<◌, ◌≡◌, arith, Bool, false, ◌&&◌, ◌||◌, none, some, ◌∷◌, ◌++◌, ltb, leb, ◌==◌,
  if◌then◌else◌,
}
use orc_torrent.Prelude.Codes.{Text, codes, starts_with}
use orc_torrent.Prelude.Assoc.{list_eq, nat_eq, same_list}
use orc_torrent.Country.{
  is_local_ipv6, is_private_172, after_172, is_private_ipv4, get_special_flag, house,
}

abbrev dot : ℕ
dot = 0x2e

-- a number below 1000 in decimal digits, and a rest
abbrev pub decimal : ℕ → Text → Text
decimal n s =
    if ltb n 10
    then (48 + n) ∷ s
    else if ltb n 100
    then (48 + n / 10) ∷ (48 + n % 10) ∷ s
    else (48 + n / 100) ∷ (48 + n / 10 % 10) ∷ (48 + n % 10) ∷ s

-- The blocks of RFC 1918 and the loopback block.
abbrev pub is_private_block : ℕ → ℕ → Bool
is_private_block a b =
    a == 10 || a == 127 || a == 192 && b == 168 || a == 172 && leb 16 b && leb b 31

abbrev pub address : ℕ → ℕ → Text → Text
address a b s = decimal a (dot ∷ decimal b (dot ∷ s))

module _ (a : ℕ) (h : a < 256) (s : Text) where
  starts_10 : starts_with (codes "10.") (decimal a (dot ∷ s)) ≡ (a == 10)
  unfolding starts_with
  starts_10 = ground (arith, h)

  starts_127 : starts_with (codes "127.") (decimal a (dot ∷ s)) ≡ (a == 127)
  unfolding starts_with
  starts_127 = ground (arith, h)

  starts_168 : starts_with (codes "168.") (decimal a (dot ∷ s)) ≡ (a == 168)
  unfolding starts_with
  starts_168 = ground (arith, h)

  starts_192 :
      (t : Text)
      → starts_with (codes "192." ++ t) (decimal a (dot ∷ s)) ≡ ((a == 192) && starts_with t s)
  unfolding starts_with
  starts_192 t = ground (arith, h)

  after_172-decimal : after_172 (decimal a (dot ∷ s)) ≡ ((a == 172) && is_private_172 s)
  after_172-decimal = ground (arith, h)

  is_private_172-decimal : is_private_172 (decimal a (dot ∷ s)) ≡ (leb 16 a && leb a 31)
  is_private_172-decimal = ground (arith, h)

  is_local_ipv6-decimal : is_local_ipv6 (decimal a (dot ∷ s)) ≡ false
  unfolding is_local_ipv6 starts_with list_eq same_list
  is_local_ipv6-decimal = ground (arith, h)

is_private_ipv4-address :
    (a b : ℕ) (s : Text)
    → a < 256
    → b < 256
    → is_private_ipv4 (address a b s) ≡ is_private_block a b
unfolding is_private_ipv4
is_private_ipv4-address a b s h k =
    let t = decimal b (dot ∷ s) in
    rw
      (
        starts_10 a h t,
        starts_127 a h t,
        starts_192 a h t (codes "168."),
        starts_168 b k s,
        after_172-decimal a h t,
        is_private_172-decimal b k s,
      )
      (ground (arith, h, k))

-- An IPv4 address in decimal digits is shown as local exactly if its first numbers lie in a block of private
-- addresses or in the loopback block, whatever follows them.
pub get_special_flag-address :
    (a b : ℕ) (s : Text)
    → a < 256
    → b < 256
    → get_special_flag (address a b s) ≡ (if is_private_block a b then some house else none)
unfolding get_special_flag
get_special_flag-address a b s h k =
    rw (is_private_ipv4-address a b s h k, is_local_ipv6-decimal a h (decimal b (dot ∷ s)))
      (ground (arith))
