-- ===== src/Prelude/Pieces.antt =====
-- The tests `startsWith` and `includes`, and the pieces of texts that they find.
use mathlib.Core.Path.{◌≡◌, refl, ap}
use mathlib.Core.Logic.{◌↔◌, inl, inr}
use mathlib.Core.Bool.{true}
use mathlib.Core.List.{[], ◌∷◌, ◌++◌}
use native.Mathlib.Omega.{arith}
use orc_torrent.Prelude.Tests.{Bool-cases}
use orc_torrent.Prelude.Codes.{Text, starts_with, includes}

starts_with-append : (q b : Text) → starts_with q (q ++ b) ≡ true
unfolding starts_with
starts_with-append [] b = refl
starts_with-append (c ∷ q) b = ground (arith, starts_with-append q b)

includes-starts : (q s : Text) → starts_with q s ≡ true → includes q s ≡ true
unfolding includes
includes-starts q [] h = h
includes-starts q (c ∷ s) h = rw h refl

pub includes-middle : (q a b : Text) → includes q (a ++ (q ++ b)) ≡ true
unfolding includes
includes-middle q [] b = includes-starts q (q ++ b) (starts_with-append q b)
includes-middle q (c ∷ a) b = ground (arith, includes-middle q a b)

-- The first text stands somewhere in the second.
abbrev pub Holds : Text → Text → Type 0
Holds q s = (a : Text) × (b : Text) × (s ≡ a ++ (q ++ b))

starts_with-rest : (q s : Text) → starts_with q s ≡ true → (b : Text) × (s ≡ q ++ b)
unfolding starts_with
starts_with-rest [] s h = (s, refl)
starts_with-rest (c ∷ q) [] h = ground (arith, h)
starts_with-rest (c ∷ q) (d ∷ s) h =
    let (b, e) = starts_with-rest q s (ground (arith, h)) in (b, ground (arith, h, e))

includes-Holds : (q s : Text) → includes q s ≡ true → Holds q s
unfolding includes
includes-Holds q [] h = let (b, e) = starts_with-rest q [] h in ([], b, e)
includes-Holds q (c ∷ s) h = elim (Bool-cases (starts_with q (c ∷ s))) [
  | inl k ↦ (let (b, e) = starts_with-rest q (c ∷ s) k in ([], b, e))
  | inr k ↦
      (let (a, b, e) = includes-Holds q s (ground (arith, h, k)) in (c ∷ a, b, ap (λ t. c ∷ t) e))
]

pub includes_iff : (q s : Text) → (includes q s ≡ true) ↔ Holds q s
includes_iff q s = (includes-Holds q s, λ h. rw h.2 (includes-middle q h.0 h.1))
