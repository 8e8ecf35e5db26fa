-- ===== src/Format/Units.antt =====
-- The unit that a size or a speed is shown in (ui/desktop/src/renderer/utils/format.ts).
use orc_torrent.Prelude.{
  ℕ, zero, suc, ◌+◌, ◌*◌, ◌≤◌, ◌<◌, ◌≡◌, ◌⊎◌, refl, arith, ltb, ltb→lt, Bool-cases, inl, inr,
}
use mathlib.Core.Path.{subst}
use orc_torrent.Format.{unit_from, bytes_unit, speed_unit}

abbrev pub kilo : ℕ → ℕ
kilo zero = 1
kilo (suc n) = 1024 * kilo n

-- In its unit a size is above 1, except for the smallest unit, and at most 1024, except for the largest.
abbrev pub Fits : ℕ → ℕ → ℕ → Type 0
Fits last bytes i =
    (i ≤ last) × ((i ≡ 0) ⊎ (kilo i < bytes)) × ((i ≡ last) ⊎ (bytes ≤ kilo (suc i)))

moved : (i left : ℕ) → suc i + left ≡ i + suc left
moved i left = omega arith

unit_from-Fits :
    (left i bytes : ℕ)
    → (i ≡ 0) ⊎ (kilo i < bytes)
    → Fits (i + left) bytes (unit_from left (kilo i) bytes i)
unfolding unit_from
unit_from-Fits zero i bytes h = (omega arith, h, inl (omega arith))
unit_from-Fits (suc left) i bytes h = elim (Bool-cases (ltb (kilo (suc i)) bytes)) [
  | inl e ↦ rw e (
      subst (λ n. Fits n bytes (unit_from left (kilo (suc i)) bytes (suc i))) (moved i left)
        (unit_from-Fits left (suc i) bytes (inr (ltb→lt (kilo (suc i)) bytes e))))
  | inr e ↦ rw e (omega arith, h, inr (ground (arith, e)))
]

-- A size is shown in the unit, from bytes to terabytes, and a speed in the one, to gigabytes per second, in which it
-- is above 1 and at most 1024: only the smallest unit is used for less, and only the largest for more.
pub unit-Fits : (bytes : ℕ) → Fits 4 bytes (bytes_unit bytes) × Fits 3 bytes (speed_unit bytes)
unfolding bytes_unit speed_unit
unit-Fits bytes = (unit_from-Fits 4 0 bytes (inl refl), unit_from-Fits 3 0 bytes (inl refl))
