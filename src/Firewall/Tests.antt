-- ===== src/Firewall/Tests.antt =====
-- Runs of the firewall rules' model, and the theorems about it at concrete inputs.
use orc_torrent.Prelude.{
  ℕ, ◌≡◌, ◌≢◌, ◌==◌, refl, arith, Bool, true, false, Option, none, List, [], ◌∷◌, length, All,
  if◌then◌else◌, Bool-cases,
}
use orc_torrent.Prelude.Assoc.{list_eq, nat_eq}
use orc_torrent.Prelude.Codes.{Text, codes, trim, is_space}
use orc_torrent.Firewall.{Request, Rule, base_rule_name, add_rules_batch}
use orc_torrent.Firewall.Names.{Outcome, add_rules_batch-Proper}
use orc_torrent.Firewall.Stays.{Exact, removed, added_rules_stay}

abbrev digits : ℕ → Text
digits n = if n == 6881 then codes "6881" else codes "?"

abbrev everything : Request
everything = record { profile = none; protocol = none }

twelve : length (add_rules_batch digits everything (6881 ∷ [])).1 ≡ 12
unfolding add_rules_batch
twelve = refl

add_rules_batch-Proper_example :
    Outcome everything (6881 ∷ []) (add_rules_batch digits everything (6881 ∷ []))
add_rules_batch-Proper_example = add_rules_batch-Proper digits everything (6881 ∷ [])

-- A firewall is the list of the names of its rules.
abbrev same : Text → Text → Bool
same = (list_eq ⦃e = nat_eq⦄).beq

abbrev holds : Text → List Text → Bool
holds n [] = false
holds n (m ∷ names) = if same m n then true else holds n names

abbrev without : Text → List Text → List Text
without n [] = []
without n (m ∷ names) = if same m n then without n names else m ∷ without n names

abbrev show : Text → List Text → List Text
show n names = if holds n names then n ∷ [] else []

abbrev delete : Text → List Text → List Text × Option Text
delete n names = (without n names, none)

without-holds : (n m : Text) (names : List Text) → m ≢ n → holds m (without n names) ≡ holds m names
without-holds n m [] k = refl
without-holds n m (x ∷ names) k = ground (
  arith,
  k,
  without-holds n m names k,
  (list_eq ⦃e = nat_eq⦄).beq_iff x n,
  (list_eq ⦃e = nat_eq⦄).beq_iff x m,
)

shows : (names : List Text) → All (λ m. trim m ≡ base_rule_name) (show base_rule_name names)
unfolding trim is_space
shows names = ground (arith, Bool-cases (holds base_rule_name names))

exact : Exact holds show delete delete
exact = record { shows = shows; deletes = without-holds; elevated = without-holds }

abbrev names : List Rule → List Text
names [] = []
names (r ∷ rules) = r.name ∷ names rules

-- a rule of the base name, and those of a request
abbrev store : List Text
store = base_rule_name ∷ names (add_rules_batch digits everything (6881 ∷ [])).1

added_rules_stay_example :
    All
      (λ rule.
        holds rule.name (removed holds show delete delete exact store) ≡ holds rule.name store)
      (add_rules_batch digits everything (6881 ∷ [])).1
added_rules_stay_example =
    added_rules_stay holds show delete delete exact digits everything (6881 ∷ []) store
