-- ===== src/Prelude/Codes.antt =====
-- Text as the list of its code units, for code that walks characters or bytes.
use Prim.Native.Nat.{ℕ, ◌+◌}
use Prim.Native.Char.{code}
use Prim.Native.String.{String}
use mathlib.Core.Path.{◌≡◌}
use mathlib.Core.Bool.{Bool, true, false, ◌&&◌, ◌||◌}
use mathlib.Core.List.{List, [], ◌∷◌}
use orc_torrent.Prelude.Assoc.{list_eq, nat_eq}
use orc_torrent.Prelude.Tests.{leb, ◌==◌, if◌then◌else◌}

abbrev pub codes : String → List ℕ
codes String.[] = []
codes (String.◌∷◌ c s) = code c ∷ codes s

-- `[0-9]`
abbrev pub is_digit : ℕ → Bool
is_digit c = leb b'0' c && leb c b'9'

-- `toLowerCase` on an ASCII code unit
abbrev pub to_lower : ℕ → ℕ
to_lower c = if leb b'A' c && leb c b'Z' then c + 32 else c

-- Does the second text begin with the first?
unfoldable pub starts_with : List ℕ → List ℕ → Bool
starts_with [] s = true
starts_with (p ∷ ps) [] = false
starts_with (p ∷ ps) (c ∷ s) = c == p && starts_with ps s

-- `[0-9a-f]`
abbrev pub IsLowerHex : ℕ → Type 0
IsLowerHex c = (is_digit c || leb b'a' c && leb c b'f') ≡ true

abbrev pub Text : Type 0
Text = List ℕ

-- what `trim` takes away: white space and line terminators
unfoldable pub is_space : ℕ → Bool
is_space c =
    leb 9 c && leb c 13
    || c == 0x20
    || c == 0xa0
    || c == 0x1680
    || leb 0x2000 c && leb c 0x200a
    || c == 0x2028
    || c == 0x2029
    || c == 0x202f
    || c == 0x205f
    || c == 0x3000
    || c == 0xfeff

unfoldable pub trim_start : List ℕ → List ℕ
trim_start [] = []
trim_start (c ∷ s) = let rest = trim_start s in if is_space c then rest else c ∷ s

unfoldable pub trim_end : List ℕ → List ℕ
trim_end [] = []
trim_end (c ∷ s) = elim (trim_end s) [
  | [] ↦ (if is_space c then [] else c ∷ [])
  | d ∷ t ↦ c ∷ d ∷ t
]

unfoldable pub trim : List ℕ → List ℕ
unfolding trim_start trim_end
trim s = trim_end (trim_start s)

-- `includes`: does the second text contain the first?
unfoldable pub includes : Text → Text → Bool
unfolding starts_with
includes q [] = starts_with q []
includes q (c ∷ s) = let rest = includes q s in starts_with q (c ∷ s) || rest

-- `endsWith`
unfoldable pub ends_with : Text → Text → Bool
ends_with p [] = (list_eq ⦃e = nat_eq⦄).beq p []
ends_with p (c ∷ s) = let rest = ends_with p s in (list_eq ⦃e = nat_eq⦄).beq p (c ∷ s) || rest
