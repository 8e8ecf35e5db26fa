-- ===== src/Firewall/Stays.antt =====
-- What removing the firewall rules leaves (ui/desktop/src/main/main.ts).
use orc_torrent.Prelude.{
  ◌≡◌, ◌≢◌, refl, ◌∙◌, Bool, Option, none, some, ℕ, List, [], ◌∷◌, All, if-cases,
}
use orc_torrent.Prelude.Codes.{Text, trim, starts_with}
use orc_torrent.Firewall.{
  Request, Rule, base_rule_name, matching, or_itself, is_denied, after_delete, delete_one,
  delete_all, remove_rule, add_rules_batch,
}
use orc_torrent.Firewall.Names.{Proper, added-Proper}

-- netsh acts on the rules of exactly the name that is given: a listing of the base name shows that name alone, and a deletion
-- leaves the rules of other names.
pub record Exact {W : Type 0} (holds : Text → W → Bool) (show : Text → W → List Text)
    (delete delete_elevated : Text → W → W × Option Text) : Type 0 where
  pub shows : (w : W) → All (λ m. trim m ≡ base_rule_name) (show base_rule_name w)
  pub deletes : (n m : Text) (w : W) → m ≢ n → holds m (delete n w).0 ≡ holds m w
  pub elevated : (n m : Text) (w : W) → m ≢ n → holds m (delete_elevated n w).0 ≡ holds m w

module _ {W : Type 0} (holds : Text → W → Bool) (show : Text → W → List Text)
    (delete delete_elevated : Text → W → W × Option Text)
    (h : Exact holds show delete delete_elevated) where
  after_delete-holds :
      (n m : Text) (w : W) (error : Option Text)
      → m ≢ n
      → holds m (after_delete show delete delete_elevated n w error).0 ≡ holds m w
  after_delete-holds n m w none k = refl
  after_delete-holds n m w (some e) k =
      if-cases (λ (r : W × Bool). holds m r.0 ≡ holds m w) (is_denied e) _ _ (h.elevated n m w k)
        refl

  delete_one-holds :
      (n m : Text) (w : W)
      → m ≢ n
      → holds m (delete_one show delete delete_elevated n w).0 ≡ holds m w
  unfolding delete_one
  delete_one-holds n m w k =
      after_delete-holds n m (delete n w).0 (delete n w).1 k ∙ h.deletes n m w k

  delete_all-holds :
      (n m : Text) (names : List Text) (w : W)
      → m ≢ n
      → All (λ x. x ≡ n) names
      → holds m (delete_all show delete delete_elevated names w).0 ≡ holds m w
  unfolding delete_all
  delete_all-holds n m [] w k a = refl
  delete_all-holds n m (x ∷ names) w k a =
      let v = (delete_one show delete delete_elevated x w).0 in
      let one : holds m v ≡ holds m w = rw a.0 (delete_one-holds n m w k) in
      if-cases (λ (r : W × Bool). holds m r.0 ≡ holds m w)
        (delete_one show delete delete_elevated x w).1 _ _
        (delete_all-holds n m names v k a.1 ∙ one) one

  matching-same :
      (n p : Text) (names : List Text)
      → All (λ x. trim x ≡ n) names
      → All (λ x. x ≡ n) (matching p names)
  matching-same n p [] a = tt
  matching-same n p (x ∷ names) a =
      let rest = matching-same n p names a.1 in
      if-cases (λ l. All (λ y. y ≡ n) l) (starts_with p (trim x)) _ _ (a.0, rest) rest

  or_itself-same :
      (n : Text) (names : List Text) → All (λ x. x ≡ n) names → All (λ x. x ≡ n) (or_itself n names)
  or_itself-same n [] a = (refl, tt)
  or_itself-same n (x ∷ names) a = a

  abbrev pub removed : W → W
  removed w = (remove_rule show delete delete_elevated base_rule_name w).0

  removed-holds : (m : Text) (w : W) → m ≢ base_rule_name → holds m (removed w) ≡ holds m w
  unfolding remove_rule
  removed-holds m w k =
      let shown = show base_rule_name w in
      delete_all-holds base_rule_name m (or_itself base_rule_name (matching base_rule_name shown)) w
        k
        (or_itself-same base_rule_name (matching base_rule_name shown)
          (matching-same base_rule_name base_rule_name shown (h.shows w)))

  Proper-holds :
      (rules : List Rule) (w : W)
      → All Proper rules
      → All (λ r. holds r.name (removed w) ≡ holds r.name w) rules
  Proper-holds [] w a = tt
  Proper-holds (r ∷ rules) w a = (removed-holds r.name w a.0.2, Proper-holds rules w a.1)

  -- Where netsh acts on the rules of exactly the name that it is given, removing the rules leaves every rule
  -- that a request to add rules made.
  pub added_rules_stay :
      (digits : ℕ → Text) (r : Request) (ports : List ℕ) (w : W)
      → All
          (λ rule. holds rule.name (removed w) ≡ holds rule.name w)
          (add_rules_batch digits r ports).1
  added_rules_stay digits r ports w =
      Proper-holds (add_rules_batch digits r ports).1 w (added-Proper digits r ports)
