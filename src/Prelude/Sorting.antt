-- ===== src/Prelude/Sorting.antt =====
-- `Array.prototype.sort` with a comparator: a stable sort. A comparator's number is its sign.
use Prim.Native.Nat.{ℕ, compare, Ordering}
use mathlib.Core.Path.{◌≡◌, refl, sym, ap, ◌∙◌}
use mathlib.Core.Bool.{Bool, true, false}
use mathlib.Core.Logic.{inl, inr}
use mathlib.Core.List.{List, [], ◌∷◌, Mem, Perm, Pairwise, Pairwise-singleton, forall_mem-cons}
use mathlib.Core.List.Perm
use native.Mathlib.Omega.{arith}
use orc_torrent.Prelude.Tests.{if◌then◌else◌, Bool-cases}

pub data Sign : Type 0 where
  negative nought positive : Sign

-- `-cmp`
abbrev pub negate : Sign → Sign
negate negative = positive
negate nought = nought
negate positive = negative

abbrev pub is_positive : Sign → Bool
is_positive positive = true
is_positive _ = false

abbrev pub is_nought : Sign → Bool
is_nought nought = true
is_nought _ = false

-- `a - b`
abbrev pub compare_numbers : ℕ → ℕ → Sign
compare_numbers a b = elim (compare a b) [
  | Ordering.lt ↦ negative
  | Ordering.eq ↦ nought
  | Ordering.gt ↦ positive
]

module _ {ℓ} {A : Type ℓ} where
  -- `a` may come before `b`.
  abbrev pub Comes : (A → A → Sign) → A → A → Type 0
  Comes cmp a b = is_positive (cmp a b) ≡ false

  -- What a sort relies on.
  pub record IsComparison (cmp : A → A → Sign) : Type ℓ where
    pub mirrored : (a b : A) → cmp b a ≡ negate (cmp a b)
    pub transitive : (a b c : A) → Comes cmp a b → Comes cmp b c → Comes cmp a c

  unfoldable pub insert_by : (A → A → Sign) → A → List A → List A
  insert_by cmp x [] = x ∷ []
  insert_by cmp x (y ∷ ys) =
      let rest = insert_by cmp x ys in if is_positive (cmp x y) then y ∷ rest else x ∷ y ∷ ys

  unfoldable pub sort_by : (A → A → Sign) → List A → List A
  unfolding insert_by
  sort_by cmp [] = []
  sort_by cmp (x ∷ xs) = insert_by cmp x (sort_by cmp xs)

  -- the elements that a comparator does not tell from `z`
  unfoldable pub alike : (A → A → Sign) → A → List A → List A
  alike cmp z [] = []
  alike cmp z (x ∷ xs) = let rest = alike cmp z xs in if is_nought (cmp z x) then x ∷ rest else rest

  abbrev pub flipped : (A → A → Sign) → A → A → Sign
  flipped cmp a b = negate (cmp a b)

module _ {ℓ} {A : Type ℓ} (cmp : A → A → Sign) where
  insert_by-perm : (x : A) (l : List A) → Perm (insert_by cmp x l) (x ∷ l)
  unfolding insert_by
  insert_by-perm x [] = Perm.rfl
  insert_by-perm x (y ∷ ys) = elim (Bool-cases (is_positive (cmp x y))) [
    | inl e ↦ rw e (Perm.trans (Perm.cons y (insert_by-perm x ys)) (Perm.swap x y ys))
    | inr e ↦ rw e Perm.rfl
  ]

  pub sort_by-perm : (l : List A) → Perm (sort_by cmp l) l
  unfolding sort_by
  sort_by-perm [] = Perm.rfl
  sort_by-perm (x ∷ xs) =
      Perm.trans (insert_by-perm x (sort_by cmp xs)) (Perm.cons x (sort_by-perm xs))

negate_positive : (s : Sign) → is_positive s ≡ true → is_positive (negate s) ≡ false
negate_positive s h = ground (arith, h)

negate_nought : (s : Sign) → is_nought s ≡ true → is_positive (negate s) ≡ false
negate_nought s h = ground (arith, h)

module _ {ℓ} {A : Type ℓ} (cmp : A → A → Sign) (c : IsComparison cmp) where
  Comes-positive : (x y : A) → is_positive (cmp x y) ≡ true → Comes cmp y x
  Comes-positive x y e = ap is_positive (c.mirrored x y) ∙ negate_positive (cmp x y) e

  Comes-alike : (x y : A) → is_nought (cmp x y) ≡ true → Comes cmp y x
  Comes-alike x y e = ap is_positive (c.mirrored x y) ∙ negate_nought (cmp x y) e

  Comes-prop : (x y : A) → IsProp (Comes cmp x y)
  Comes-prop x y = hlevel

  -- What `Pairwise.cons` asks of a new head.
  abbrev Below : A → List A → Type ℓ
  Below x l = (y : A) → Mem y l → Comes cmp x y

  Below-cons : (x y : A) {l : List A} → Comes cmp x y → Below x l → Below x (y ∷ l)
  Below-cons x y p h = (forall_mem-cons (Comes-prop x)).1 (p, h)

  Below-insert : (x y : A) {l : List A} → Comes cmp y x → Below y l → Below y (insert_by cmp x l)
  Below-insert x y {l} p h z m = Below-cons y x p h z ((Perm.mem_iff (insert_by-perm cmp x l)).0 m)

  insert_by-Pairwise :
      (x : A) {l : List A} → Pairwise (Comes cmp) l → Pairwise (Comes cmp) (insert_by cmp x l)
  unfolding insert_by
  insert_by-Pairwise x Pairwise.nil = Pairwise-singleton _ x
  insert_by-Pairwise x (Pairwise.cons {a = y} {l = ys} below s) =
      elim (Bool-cases (is_positive (cmp x y))) [
        | inl e ↦
            rw e (
              Pairwise.cons (Below-insert x y (Comes-positive x y e) below)
                (insert_by-Pairwise x s))
        | inr e ↦ rw e (
            Pairwise.cons (Below-cons x y e λ z m. c.transitive x y z e (below z m))
              (Pairwise.cons below s))
      ]

  pub sort_by-Pairwise : (l : List A) → Pairwise (Comes cmp) (sort_by cmp l)
  unfolding sort_by
  sort_by-Pairwise [] = Pairwise.nil
  sort_by-Pairwise (x ∷ xs) = insert_by-Pairwise x (sort_by-Pairwise xs)

  -- An element goes past none that it is like.
  insert_by-alike : (z x : A) (l : List A) → alike cmp z (insert_by cmp x l) ≡ alike cmp z (x ∷ l)
  unfolding insert_by alike
  insert_by-alike z x [] = refl
  insert_by-alike z x (y ∷ ys) = elim (Bool-cases (is_positive (cmp x y))) [
    | inr e ↦ rw e refl
    | inl e ↦ rw e (elim (Bool-cases (is_nought (cmp z x))) [
      | inr k ↦ ground (arith, k, insert_by-alike z x ys)
      | inl k ↦ elim (Bool-cases (is_nought (cmp z y))) [
        | inr j ↦ ground (arith, k, j, insert_by-alike z x ys)
        | inl j ↦ ground (arith, e, c.transitive x z y (Comes-alike z x k) (ground (arith, j)))
      ]
    ])
  ]

  alike-cons :
      (z x : A) (l m : List A)
      → alike cmp z l ≡ alike cmp z m
      → alike cmp z (x ∷ l) ≡ alike cmp z (x ∷ m)
  unfolding alike
  alike-cons z x l m e = ap (λ t. if is_nought (cmp z x) then x ∷ t else t) e

  -- Elements that are alike keep their order.
  pub sort_by-alike : (z : A) (l : List A) → alike cmp z (sort_by cmp l) ≡ alike cmp z l
  unfolding sort_by
  sort_by-alike z [] = refl
  sort_by-alike z (x ∷ xs) =
      insert_by-alike z x (sort_by cmp xs) ∙ alike-cons z x (sort_by cmp xs) xs (sort_by-alike z xs)

pub compare_numbers-IsComparison : IsComparison compare_numbers
compare_numbers-IsComparison = record {
  mirrored = λ a b. ground arith;
  transitive = λ a b d h k. ground (arith, h, k);
}

module _ {ℓ κ} {A : Type ℓ} {B : Type κ} where
  -- to compare by a key
  abbrev pub on_key : (A → B) → (B → B → Sign) → A → A → Sign
  on_key f cmp a b = cmp (f a) (f b)

  pub on_key-IsComparison :
      (f : A → B) (cmp : B → B → Sign) → IsComparison cmp → IsComparison (on_key f cmp)
  on_key-IsComparison f cmp c = record {
    mirrored = λ a b. c.mirrored (f a) (f b);
    transitive = λ a b d. c.transitive (f a) (f b) (f d);
  }

module _ {ℓ} {A : Type ℓ} (cmp : A → A → Sign) (c : IsComparison cmp) where
  pub flipped-Comes : (a b : A) → is_positive (negate (cmp a b)) ≡ is_positive (cmp b a)
  flipped-Comes a b = sym (ap is_positive (c.mirrored a b))

  pub flipped-IsComparison : IsComparison (flipped cmp)
  flipped-IsComparison = record {
    mirrored = λ a b. ap negate (c.mirrored a b);
    transitive = λ a b d h k.
        flipped-Comes a d
        ∙ c.transitive d b a (sym (flipped-Comes b d) ∙ k) (sym (flipped-Comes a b) ∙ h);
  }
