-- ===== src/Country/Tests.antt =====
-- Runs of the peers' countries, and their theorem at a concrete input.
use orc_torrent.Prelude.{◌≡◌, refl, arith, Option, none, some, [], ◌∷◌, if◌then◌else◌}
use orc_torrent.Prelude.Assoc.{list_eq, nat_eq, same_list}
use orc_torrent.Prelude.Codes.{Text, codes, starts_with}
use orc_torrent.Country.{house, globe, get_special_flag, country_code_to_flag}
use orc_torrent.Country.Local.{address, is_private_block, get_special_flag-address}

abbrev no_name : Text → Option Text
no_name s = none

-- the regional indicators of U and S
flag_us : country_code_to_flag (λ s. s) no_name (codes "US") ≡ 0x1f1fa ∷ 0x1f1f8 ∷ []
unfolding country_code_to_flag
flag_us = refl

flag_long : country_code_to_flag (λ s. s) no_name (codes "USA") ≡ globe
unfolding country_code_to_flag
flag_long = refl

-- A unique local IPv6 address other than fc00: and fd00: is not recognised.
unique_local : get_special_flag (codes "fd12:3456::1") ≡ none
unfolding get_special_flag starts_with list_eq same_list
unique_local = refl

loopback_six : get_special_flag (codes "::1") ≡ some house
unfolding get_special_flag starts_with list_eq same_list
loopback_six = refl

get_special_flag-address_example :
    get_special_flag (address 172 20 (codes "0.9"))
    ≡ (if is_private_block 172 20 then some house else none)
get_special_flag-address_example =
    get_special_flag-address 172 20 (codes "0.9") (omega arith) (omega arith)
