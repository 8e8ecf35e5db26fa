-- ===== src/FileTree/Links.antt =====
-- Pushing an object into the tree of components/FileSelectionDialog.tsx (ui/desktop/src/renderer): what
-- stands in the tree afterwards.
use orc_torrent.Prelude.{
  ℕ, ◌+◌, ◌≡◌, ◌≢◌, ◌⊎◌, inl, inr, refl, arith, Option, none, some, Option-cases, Bool-cases,
}
use mathlib.Core.Option.{some-injective}
use mathlib.Core.Path.{subst}
use orc_torrent.Prelude.Assoc.{nat_eq}
use orc_torrent.FileTree.{FileNode, Forest, empty, node, push, push_child, push_under}

-- The object stands in the tree.
abbrev pub Has : ℕ → Forest → Type 0
Has q empty = ⊥
Has q (node r x children rest) = (r ≡ q) ⊎ (Has q children ⊎ Has q rest)

-- what the nodes of a tree weigh together
unfoldable pub weigh : (FileNode → ℕ) → Forest → ℕ
weigh w empty = 0
weigh w (node r x children rest) = w x + (weigh w children + weigh w rest)

-- The parent, if there is one, stands in the tree
abbrev pub Parent : Option ℕ → Forest → Type 0
Parent none f = Unit
Parent (some p) f = Has p f

module _ (r : ℕ) (x : FileNode) where
  push-Has : (q : ℕ) (f : Forest) → Has q f → Has q (push r x f)
  unfolding push
  push-Has q empty h = elim h [ ]
  push-Has q (node s y children rest) h = ground (arith, h, push-Has q rest)

  push-Has_new : (f : Forest) → Has r (push r x f)
  unfolding push
  push-Has_new empty = inl refl
  push-Has_new (node s y children rest) = inr (inr (push-Has_new rest))

  push-weigh : (w : FileNode → ℕ) (f : Forest) → weigh w (push r x f) ≡ weigh w f + w x
  unfolding push weigh
  push-weigh w empty = omega arith
  push-weigh w (node s y children rest) = omega (arith, push-weigh w rest)

  push_child-some : (p : ℕ) (f : Forest) → Has p f → push_child p r x f ≢ none
  unfolding push_child
  push_child-some p empty h = elim h [ ]
  push_child-some p (node q y children rest) h =
      ground (arith, h, push_child-some p children, push_child-some p rest)

  -- To show something of a tree before and after a push under an object, show it where the object is
  -- the first of a list, and pass it on from its children and from what follows it.
  push_child-rule :
      (P : Forest → Forest → Type 0) (p : ℕ)
      → ((q : ℕ) (y : FileNode) (children rest : Forest)
          → P (node q y children rest) (node q y (push r x children) rest))
      → ((q : ℕ) (y : FileNode) (children deeper rest : Forest)
          → P children deeper
          → P (node q y children rest) (node q y deeper rest))
      → ((q : ℕ) (y : FileNode) (children rest later : Forest)
          → P rest later
          → P (node q y children rest) (node q y children later))
      → (f g : Forest) → push_child p r x f ≡ some g
      → P f g
  unfolding push_child
  push_child-rule P p here deep late empty g e = ground (arith, e)
  push_child-rule P p here deep late (node q y children rest) g e =
      elim (Bool-cases (nat_eq.beq q p)) [
        | inl b ↦
            subst (P (node q y children rest))
              (some-injective (node q y (push r x children) rest) g (ground (arith, e, b)))
              (here q y children rest)
        | inr b ↦ elim (Option-cases (push_child p r x children)) [
          | inr (c, d) ↦
              subst (P (node q y children rest))
                (some-injective (node q y c rest) g (ground (arith, e, b, d)))
                (deep q y children c rest (push_child-rule P p here deep late children c d))
          | inl d ↦ elim (Option-cases (push_child p r x rest)) [
            | inl l ↦ ground (arith, e, b, d, l)
            | inr (c, l) ↦
                subst (P (node q y children rest))
                  (some-injective (node q y children c) g (ground (arith, e, b, d, l)))
                  (late q y children rest c (push_child-rule P p here deep late rest c l))
          ]
        ]
      ]

  push_child-weigh :
      (w : FileNode → ℕ) (p : ℕ) (f g : Forest)
      → push_child p r x f ≡ some g
      → weigh w g ≡ weigh w f + w x
  unfolding weigh
  push_child-weigh w p =
      push_child-rule (λ f g. weigh w g ≡ weigh w f + w x) p
        (λ q y children rest. omega (arith, push-weigh w children))
        (λ q y children deeper rest h. omega (arith, h))
        (λ q y children rest later h. omega (arith, h))

  push_child-Has : (q p : ℕ) (f g : Forest) → push_child p r x f ≡ some g → Has q f → Has q g
  push_child-Has q p =
      push_child-rule (λ f g. Has q f → Has q g) p
        (λ s y children rest h. ground (arith, h, push-Has q children))
        (λ s y children deeper rest k h. ground (arith, h, k))
        (λ s y children rest later k h. ground (arith, h, k))

  push_child-Has_new : (p : ℕ) (f g : Forest) → push_child p r x f ≡ some g → Has r g
  push_child-Has_new p =
      push_child-rule (λ f g. Has r g) p (λ s y children rest. inr (inl (push-Has_new children)))
        (λ s y children deeper rest k. inr (inl k)) (λ s y children rest later k. inr (inr k))

  -- A push keeps what stands in the tree, adds the object, and adds its weight.
  pub push_under_lem :
      (parent : Option ℕ) (f : Forest)
      → Parent parent f
      → ((q : ℕ) → Has q f → Has q (push_under parent r x f))
        × Has r (push_under parent r x f)
        × ((w : FileNode → ℕ) → weigh w (push_under parent r x f) ≡ weigh w f + w x)
  unfolding push_under
  push_under_lem none f h = (λ q. push-Has q f, push-Has_new f, λ w. push-weigh w f)
  push_under_lem (some p) f h = elim (Option-cases (push_child p r x f)) [
    | inl e ↦ elim (push_child-some p f h e) [ ]
    | inr (g, e) ↦
        rw (e, push_under)
          (
            λ q. push_child-Has q p f g e,
            push_child-Has_new p f g e,
            λ w. push_child-weigh w p f g e,
          )
  ]
