-- ===== src/Adding/Encoded.antt =====
-- The loop over chunks of fileToBase64 (utils/format.ts of ui/desktop/src/renderer).
use orc_torrent.Prelude.{
  ℕ, zero, suc, ◌+◌, ◌≤◌, ◌≡◌, refl, sym, ap, ◌∙◌, arith, inl, inr, Bool-cases, some, List, [], ◌∷◌,
  ◌++◌, length, take, drop, ltb,
}
use orc_torrent.Adding.{chunk, binary_from, binary_string}

module _ {A : Type 0} where
  take-drop : (n : ℕ) (xs : List A) → take n xs ++ drop n xs ≡ xs
  take-drop zero xs = refl
  take-drop (suc n) [] = refl
  take-drop (suc n) (x ∷ xs) = ap (λ t. x ∷ t) (take-drop n xs)

  drop-nothing : (n : ℕ) → drop {A = A} n [] ≡ []
  drop-nothing zero = refl
  drop-nothing (suc n) = refl

  drop-drop : (m n : ℕ) (xs : List A) → drop n (drop m xs) ≡ drop (m + n) xs
  drop-drop zero n xs = ap (λ k. drop k xs) (omega arith)
  drop-drop (suc m) n [] = drop-nothing n ∙ sym (drop-nothing (suc m + n))
  drop-drop (suc m) n (x ∷ xs) =
      let e : suc (m + n) ≡ suc m + n = omega arith in
      drop-drop m n xs ∙ ap (λ k. drop k (x ∷ xs)) e

  drop-all : (n : ℕ) (xs : List A) → length xs ≤ n → drop n xs ≡ []
  drop-all n [] h = drop-nothing n
  drop-all zero (x ∷ xs) h = absurd (omega (arith, h))
  drop-all (suc n) (x ∷ xs) h = drop-all n xs (omega (arith, h))

binary_from-drop :
    (fuel i : ℕ) (bytes : List ℕ)
    → length bytes ≤ i + fuel
    → binary_from fuel i bytes ≡ some (drop i bytes)
unfolding binary_from
binary_from-drop zero i bytes h = rw (drop-all i bytes (omega (arith, h))) (ground (arith, h))
binary_from-drop (suc f) i bytes h = elim (Bool-cases (ltb i (length bytes))) [
  | inl e ↦
      rw (e, binary_from-drop f (i + chunk) bytes (omega (arith, h)))
        (ap some (
          ap (λ t. take chunk (drop i bytes) ++ t) (sym (drop-drop i chunk bytes))
          ∙ take-drop chunk (drop i bytes)))
  | inr e ↦ rw e (ap some (sym (drop-all i bytes (ground (arith, e)))))
]

-- The loop ends, and the text that is encoded has the file's bytes in their order, each once.
pub binary_string-all : (bytes : List ℕ) → binary_string bytes ≡ some bytes
unfolding binary_string
binary_string-all bytes = binary_from-drop (length bytes) 0 bytes (omega arith)
