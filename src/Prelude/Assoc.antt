-- ===== src/Prelude/Assoc.antt =====
-- JavaScript's `Map`: an association list in the order of insertion, over keys with a test.
use Prim.Native.Nat.{ℕ, suc, ◌+◌, ◌≤◌}
use Prim.Native.String.{String}
use mathlib.Core.Path.{◌≡◌, refl}
use mathlib.Core.Logic.{◌↔◌}
use mathlib.Core.Bool.{Bool, true, false}
use mathlib.Core.Option.{Option, none, some}
use mathlib.Core.List.{List, [], ◌∷◌}
use native.Mathlib.Omega.{arith}
use text.Mathlib.Text.{◌==◌ as str_eq}
use text.Mathlib.TextEquality.{eq_iff}
use orc_torrent.Prelude.Tests.{if◌then◌else◌, ◌==◌, ==_iff}
use orc_torrent.Prelude.Lists.{length}

-- `===` on keys
pub record Eq (K : Type 0) : Type 0 where
  pub beq : K → K → Bool
  pub beq_iff : (a b : K) → (beq a b ≡ true) ↔ (a ≡ b)

instance abbrev pub string_eq : Eq String
string_eq = record { beq = str_eq; beq_iff = eq_iff }

instance abbrev pub nat_eq : Eq ℕ
nat_eq = record { beq = ◌==◌; beq_iff = ==_iff }

unfoldable pub same_list : {A : Type 0} ⦃e : Eq A⦄ → List A → List A → Bool
same_list [] [] = true
same_list ⦃e⦄ (x ∷ xs) (y ∷ ys) = if e.beq x y then same_list xs ys else false
same_list _ _ = false

pub same_list_iff : {A : Type 0} ⦃e : Eq A⦄ (xs ys : List A) → (same_list xs ys ≡ true) ↔ (xs ≡ ys)
unfolding same_list
same_list_iff [] [] = ground arith
same_list_iff [] (y ∷ ys) = ground arith
same_list_iff (x ∷ xs) [] = ground arith
same_list_iff ⦃e⦄ (x ∷ xs) (y ∷ ys) = ground (arith, e.beq_iff x y, same_list_iff xs ys)

instance unfoldable pub list_eq : {A : Type 0} ⦃e : Eq A⦄ → Eq (List A)
list_eq = record { beq = same_list; beq_iff = same_list_iff }

module _ {K : Type 0} {V : Type 0} ⦃e : Eq K⦄ where
  unfoldable pub lookup : K → List (K × V) → Option V
  lookup k [] = none
  lookup k ((j, v) ∷ m) = if e.beq j k then some v else lookup k m

  unfoldable pub insert : K → V → List (K × V) → List (K × V)
  insert k v [] = (k, v) ∷ []
  insert k v ((j, w) ∷ m) = if e.beq j k then (j, v) ∷ m else (j, w) ∷ insert k v m

  unfoldable pub delete : K → List (K × V) → List (K × V)
  delete k [] = []
  delete k ((j, w) ∷ m) = let rest = delete k m in if e.beq j k then rest else (j, w) ∷ rest

  pub lookup-insert :
      (k j : K) (v : V) (m : List (K × V))
      → lookup j (insert k v m) ≡ (if e.beq k j then some v else lookup j m)
  unfolding lookup insert
  lookup-insert k j v [] = refl
  lookup-insert k j v ((i, w) ∷ m) =
      ground (arith, e.beq_iff k j, e.beq_iff i k, e.beq_iff i j, lookup-insert k j v m)

  pub lookup-delete :
      (k j : K) (m : List (K × V))
      → lookup j (delete k m) ≡ (if e.beq k j then none else lookup j m)
  unfolding lookup delete
  lookup-delete k j [] = ground arith
  lookup-delete k j ((i, w) ∷ m) =
      ground (arith, e.beq_iff k j, e.beq_iff i k, e.beq_iff i j, lookup-delete k j m)

  pub length-insert : (k : K) (v : V) (m : List (K × V)) → length (insert k v m) ≤ suc (length m)
  unfolding insert
  length-insert k v [] = omega arith
  length-insert k v ((j, w) ∷ m) = ground (arith, length-insert k v m)

  pub length-delete : (k : K) (m : List (K × V)) → length (delete k m) ≤ length m
  unfolding delete
  length-delete k [] = omega arith
  length-delete k ((j, w) ∷ m) = ground (arith, length-delete k m)

  -- deleting what is there makes room
  pub length-delete_hit :
      (k : K) (v : V) (m : List (K × V))
      → lookup k m ≡ some v
      → suc (length (delete k m)) ≤ length m
  unfolding lookup delete
  length-delete_hit k v [] h = cc
  length-delete_hit k v ((j, w) ∷ m) h = ground (arith, length-delete k m, length-delete_hit k v m)

  -- Each key stands once.
  abbrev pub Unique : List (K × V) → Type 0
  Unique [] = Unit
  Unique ((k, v) ∷ m) = (lookup k m ≡ none) × Unique m

  pub insert-Unique : (k : K) (v : V) (m : List (K × V)) → Unique m → Unique (insert k v m)
  unfolding insert lookup
  insert-Unique k v [] h = (refl, tt)
  insert-Unique k v ((j, w) ∷ m) h =
      ground (arith, insert-Unique k v m, lookup-insert k j v m, e.beq_iff k j, e.beq_iff j k)

  pub delete-Unique : (k : K) (m : List (K × V)) → Unique m → Unique (delete k m)
  unfolding delete
  delete-Unique k [] h = tt
  delete-Unique k ((j, w) ∷ m) h = ground (arith, delete-Unique k m, lookup-delete k j m)

-- A test that every value passes.
abbrev pub AllValues : {K V : Type 0} → (V → Bool) → List (K × V) → Type 0
AllValues p [] = Unit
AllValues p ((k, v) ∷ m) = (p v ≡ true) × AllValues p m

module _ {K V : Type 0} ⦃e : Eq K⦄ (p : V → Bool) (k : K) where
  pub lookup-AllValues :
      (v : V) (m : List (K × V)) → AllValues p m → lookup k m ≡ some v → p v ≡ true
  unfolding lookup
  lookup-AllValues v [] h q = cc
  lookup-AllValues v ((j, w) ∷ m) h q = ground (arith, lookup-AllValues v m)

  pub delete-AllValues : (m : List (K × V)) → AllValues p m → AllValues p (delete k m)
  unfolding delete
  delete-AllValues [] h = tt
  delete-AllValues ((j, w) ∷ m) h = ground (arith, delete-AllValues m)

-- what the values weigh together
abbrev pub tally : {K V : Type 0} → (V → ℕ) → List (K × V) → ℕ
tally w [] = 0
tally w ((k, v) ∷ m) = w v + tally w m

module _ {K V : Type 0} ⦃e : Eq K⦄ (w : V → ℕ) (k : K) where
  pub delete-tally : (m : List (K × V)) → tally w (delete k m) ≤ tally w m
  unfolding delete
  delete-tally [] = omega arith
  delete-tally ((j, v) ∷ m) = ground (arith, delete-tally m)

  pub lookup-tally :
      (v : V) (m : List (K × V)) → lookup k m ≡ some v → w v + tally w (delete k m) ≤ tally w m
  unfolding lookup delete
  lookup-tally v [] h = cc
  lookup-tally v ((j, u) ∷ m) h = ground (arith, h, delete-tally m, lookup-tally v m)
