-- ===== src/Country.antt =====
-- The countries of peers (ui/desktop/src/renderer/utils/country.ts). `toUpperCase` and the platform's region names
-- are arguments. Text is the list of its code units, and a flag that of its code points.
pub mod Local
mod Tests
use orc_torrent.Prelude.{
  ℕ, ◌+◌, Bool, true, false, not, ◌&&◌, ◌||◌, Option, none, some, List, [], ◌∷◌, ◌++◌, map, length,
  ltb, leb, ◌==◌, if◌then◌else◌,
}
use orc_torrent.Prelude.Assoc.{list_eq, nat_eq}
use orc_torrent.Prelude.Codes.{Text, codes, starts_with}

abbrev pub same_text : Text → Text → Bool
same_text = (list_eq ⦃e = nat_eq⦄).beq

-- the globe and the house
abbrev pub globe : Text
globe = 0x1f310 ∷ []

abbrev pub house : Text
house = 0x1f3e0 ∷ []

-- the second number of an address that begins with `172.`: `1[6-9]|2[0-9]|3[0-1]`, then a dot
abbrev pub is_private_172 : Text → Bool
is_private_172 (a ∷ b ∷ dot ∷ s) =
    dot == b'.'
    && (a == b'1' && leb b'6' b && leb b b'9'
        || a == b'2' && leb b'0' b && leb b b'9'
        || a == b'3' && leb b'0' b && leb b b'1')
is_private_172 _ = false

abbrev pub after_172 : Text → Bool
after_172 (a ∷ b ∷ c ∷ d ∷ s) = a == b'1' && b == b'7' && c == b'2' && d == b'.' && is_private_172 s
after_172 _ = false

-- `PRIVATE_IPV4`
unfoldable pub is_private_ipv4 : Text → Bool
is_private_ipv4 ip =
    starts_with (codes "10.") ip
    || starts_with (codes "192.168.") ip
    || starts_with (codes "127.") ip
    || after_172 ip

unfoldable pub is_local_ipv6 : Text → Bool
is_local_ipv6 ip =
    same_text ip (codes "::1")
    || starts_with (codes "fe80:") ip
    || starts_with (codes "fc00:") ip
    || starts_with (codes "fd00:") ip

unfoldable pub get_special_flag : Text → Option Text
unfolding is_private_ipv4 is_local_ipv6
get_special_flag ip =
    if is_private_ipv4 ip then some house else if is_local_ipv6 ip then some house else none

pub record Info : Type 0 where
  pub flag : Text
  pub name : Text
  pub title : Text
  pub is_special : Bool

module _ (upper : Text → Text) (region_name : Text → Option Text) where
  -- A code of another length than two has the globe.
  unfoldable pub country_code_to_flag : Text → Text
  country_code_to_flag code = if length code == 2 then map (λ c. 127397 + c) (upper code) else globe

  -- `regionNames.of`, which may throw or give nothing
  unfoldable pub country_code_to_name : Text → Text
  country_code_to_name code =
      if length code == 2
      then elim (region_name (upper code)) [ none ↦ upper code | some name ↦ name ]
      else codes "Unknown"

  abbrev pub title_of : Text → Text → Text
  title_of name code =
      if same_text name code then name else name ++ (codes " (" ++ (code ++ codes ")"))

  abbrev pub unknown_info : Info
  unknown_info = record {
    flag = globe;
    name = codes "Unknown";
    title = codes "Unknown";
    is_special = false;
  }

  unfoldable pub code_info : Option Text → Info
  unfolding country_code_to_flag country_code_to_name
  code_info none = unknown_info
  code_info (some []) = unknown_info
  code_info (some (c ∷ code)) = record {
    flag = country_code_to_flag (c ∷ code);
    name = country_code_to_name (c ∷ code);
    title = title_of (country_code_to_name (c ∷ code)) (upper (c ∷ code));
    is_special = false;
  }

  unfoldable pub get_peer_country_info : Option Text → Text → Info
  unfolding get_special_flag code_info
  get_peer_country_info country ip = elim (get_special_flag ip) [
    | none ↦ code_info country
    | some flag ↦ record {
      flag = flag;
      name = codes "Local Network";
      title = codes "Local Network";
      is_special = true;
    }
  ]
