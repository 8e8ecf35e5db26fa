-- ===== src/LinkQueue/Trimmed.antt =====
-- `trim` on the texts that may be magnet links (ui/desktop/src/main/main.ts): a second time it does nothing,
-- and it leaves a prefix without white space.
use orc_torrent.Prelude.{
  ℕ, ◌≡◌, refl, arith, inl, inr, Bool-cases, true, false, [], ◌∷◌, ==_iff, All,
}
use orc_torrent.Prelude.Codes.{Text, is_space, starts_with, trim_start, trim_end, trim}

trim_end-trim_end : (s : Text) → trim_end (trim_end s) ≡ trim_end s
unfolding trim_end
trim_end-trim_end [] = refl
trim_end-trim_end (c ∷ s) = ground (arith, trim_end-trim_end s)

trim_end-starts :
    (c : ℕ) (s : Text) → is_space c ≡ false → trim_start (trim_end (c ∷ s)) ≡ trim_end (c ∷ s)
unfolding trim_end trim_start
trim_end-starts c s h = ground (arith, h)

trim_end-nothing : trim_start (trim_end []) ≡ trim_end []
unfolding trim_end trim_start
trim_end-nothing = refl

trim_end-trim_start : (s : Text) → trim_start (trim_end (trim_start s)) ≡ trim_end (trim_start s)
unfolding trim_start
trim_end-trim_start [] = trim_end-nothing
trim_end-trim_start (c ∷ s) = elim (Bool-cases (is_space c)) [
  | inl e ↦ rw e (trim_end-trim_start s)
  | inr e ↦ rw e (trim_end-starts c s e)
]

pub trim-trim : (s : Text) → trim (trim s) ≡ trim s
unfolding trim
trim-trim s = rw (trim_end-trim_start s) (trim_end-trim_end (trim_start s))

-- A prefix without white space is there after `trim` as well.
pub starts_with-trim_end :
    (p s : Text)
    → All (λ c. is_space c ≡ false) p
    → starts_with p s ≡ true
    → starts_with p (trim_end s) ≡ true
unfolding starts_with trim_end
starts_with-trim_end [] s h k = refl
starts_with-trim_end (c ∷ p) [] h k = cc
starts_with-trim_end (c ∷ p) (d ∷ s) h k =
    let r = starts_with-trim_end p s h.1 in ground (arith, k, h.0, ==_iff d c, r)

pub starts_with-trim_start :
    (c : ℕ) (p s : Text) → is_space c ≡ false → starts_with (c ∷ p) s ≡ true → trim_start s ≡ s
unfolding starts_with trim_start
starts_with-trim_start c p [] h k = cc
starts_with-trim_start c p (d ∷ s) h k = ground (arith, k, h, ==_iff d c)
