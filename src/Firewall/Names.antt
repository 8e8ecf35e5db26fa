-- ===== src/Firewall/Names.antt =====
-- The rules that one request adds to the firewall (ui/desktop/src/main/main.ts): their number, their ports and
-- their names.
use orc_torrent.Prelude.{
  ℕ, ◌*◌, ◌≤◌, ◌≡◌, ◌≢◌, ◌⊎◌, refl, ap, arith, ltb, Bool-cases, inl, inr, Bool, true, false, Option,
  none, some, List, [], ◌∷◌, ◌++◌, length, length-append, All, All-append,
}
use orc_torrent.Prelude.Codes.{Text, codes}
use orc_torrent.Firewall.Asked.{rules_for, asks_for, asked, rules_for-ports}
use orc_torrent.Firewall.{
  Refusal, no_ports, too_many_ports, bad_port, Profile, Protocol, Request, Rule, base_rule_name,
  profiles_to_use, protocols_to_use, rule_suffix, direction_suffix, rule_name, make_rule,
  rules_of_protocols, rules_of_profiles, rules_of_ports, max_ports_batch, min_port, max_port,
  is_port, are_ports, add_rules_batch,
}

-- A rule of a port that may be, under a name of its own kind.
abbrev pub Proper : Rule → Type 0
Proper r = (min_port ≤ r.port) × (r.port ≤ max_port) × (r.name ≢ base_rule_name)

-- a port that may be
abbrev pub Fits : ℕ → Type 0
Fits port = (min_port ≤ port) × (port ≤ max_port)

-- How a request ends: refused, with no rule, or with few proper rules for few ports that may be:
-- those that were asked for.
abbrev pub Outcome : Request → List ℕ → Option Refusal × List Rule → Type 0
Outcome r ports (o, rules) =
    ((e : Refusal) × (o ≡ some e) × (rules ≡ []))
    ⊎ ((o ≡ none)
        × (1 ≤ length ports)
        × (length ports ≤ 50)
        × All Fits ports
        × All Proper rules
        × ((port : ℕ) (out : Bool) (prof : Profile) (proto : Protocol)
            → rules_for port out prof proto rules ≡ asked (asks_for r prof proto) port ports)
        × (length rules ≤ 600))

are_ports-Fits : (ports : List ℕ) → are_ports ports ≡ true → All Fits ports
are_ports-Fits [] h = tt
are_ports-Fits (p ∷ ports) h =
    ((ground (arith, h), ground (arith, h)), are_ports-Fits ports (ground (arith, h)))

protocols-few : (o : Option Protocol) → length (protocols_to_use o) ≤ 2
protocols-few none = omega arith
protocols-few (some p) = omega arith

profiles-few : (o : Option Profile) → length (profiles_to_use o) ≤ 3
profiles-few none = omega arith
profiles-few (some p) = omega arith

module _ (digits : ℕ → Text) (r : Request) where
  rule_name-ne-base :
      (port : ℕ) (out : Bool) (prof : Profile) (proto : Protocol)
      → rule_name digits r port out prof proto ≢ base_rule_name
  unfolding rule_name
  rule_name-ne-base port out prof proto e =
      let tail = digits port ++ (direction_suffix out ++ rule_suffix r prof proto) in
      omega (
        arith,
        ap length e,
        length-append base_rule_name (codes " Port " ++ tail),
        length-append (codes " Port ") tail,
      )

  make_rule-Proper :
      (port : ℕ) (prof : Profile) (out : Bool) (proto : Protocol)
      → is_port port ≡ true
      → Proper (make_rule digits r port prof out proto)
  unfolding make_rule
  make_rule-Proper port prof out proto h =
      (ground (arith, h), ground (arith, h), rule_name-ne-base port out prof proto)

  protocols-Proper :
      (port : ℕ) (prof : Profile) (protocols : List Protocol)
      → is_port port ≡ true
      → All Proper (rules_of_protocols digits r port prof protocols)
  unfolding rules_of_protocols
  protocols-Proper port prof [] h = tt
  protocols-Proper port prof (proto ∷ protocols) h = (
    make_rule-Proper port prof false proto h,
    (make_rule-Proper port prof true proto h, protocols-Proper port prof protocols h),
  )

  profiles-Proper :
      (port : ℕ) (profiles : List Profile)
      → is_port port ≡ true
      → All Proper (rules_of_profiles digits r port profiles)
  unfolding rules_of_profiles
  profiles-Proper port [] h = tt
  profiles-Proper port (prof ∷ profiles) h =
      All-append Proper (rules_of_protocols digits r port prof (protocols_to_use r.protocol))
        (rules_of_profiles digits r port profiles)
        (protocols-Proper port prof (protocols_to_use r.protocol) h)
        (profiles-Proper port profiles h)

  ports-Proper :
      (ports : List ℕ) → are_ports ports ≡ true → All Proper (rules_of_ports digits r ports)
  unfolding rules_of_ports
  ports-Proper [] h = tt
  ports-Proper (port ∷ ports) h =
      All-append Proper (rules_of_profiles digits r port (profiles_to_use r.profile))
        (rules_of_ports digits r ports)
        (profiles-Proper port (profiles_to_use r.profile) (ground (arith, h)))
        (ports-Proper ports (ground (arith, h)))

  length-protocols :
      (port : ℕ) (prof : Profile) (protocols : List Protocol)
      → length (rules_of_protocols digits r port prof protocols) ≡ 2 * length protocols
  unfolding rules_of_protocols
  length-protocols port prof [] = refl
  length-protocols port prof (proto ∷ protocols) =
      omega (arith, length-protocols port prof protocols)

  length-profiles :
      (port : ℕ) (profiles : List Profile)
      → length (rules_of_profiles digits r port profiles) ≤ 4 * length profiles
  unfolding rules_of_profiles
  length-profiles port [] = omega arith
  length-profiles port (prof ∷ profiles) = omega (
    arith,
    protocols-few r.protocol,
    length-protocols port prof (protocols_to_use r.protocol),
    length-append (rules_of_protocols digits r port prof (protocols_to_use r.protocol))
        (rules_of_profiles digits r port profiles),
    length-profiles port profiles,
  )

  length-ports : (ports : List ℕ) → length (rules_of_ports digits r ports) ≤ 12 * length ports
  unfolding rules_of_ports
  length-ports [] = omega arith
  length-ports (port ∷ ports) = omega (
    arith,
    profiles-few r.profile,
    length-profiles port (profiles_to_use r.profile),
    length-append (rules_of_profiles digits r port (profiles_to_use r.profile))
        (rules_of_ports digits r ports),
    length-ports ports,
  )

  -- A request is refused and adds no rule, or it has between 1 and 50 ports, each between 1 and 65535, and adds one
  -- rule for each port as often as it is given, each direction, and each profile and protocol that is asked for, no
  -- other and at most 600 in all, each under a name that is not the base name.
  pub add_rules_batch-Proper : (ports : List ℕ) → Outcome r ports (add_rules_batch digits r ports)
  unfolding add_rules_batch
  add_rules_batch-Proper [] = inl (no_ports, refl, refl)
  add_rules_batch-Proper (p ∷ ports) =
      elim (Bool-cases (ltb max_ports_batch (length (p ∷ ports)))) [
        | inl e ↦ rw e (inl (too_many_ports, refl, refl))
        | inr e ↦ rw e (elim (Bool-cases (are_ports (p ∷ ports))) [
          | inr k ↦ rw k (inl (bad_port, refl, refl))
          | inl k ↦ rw k (
              inr (
                refl,
                omega arith,
                ground (arith, e),
                are_ports-Fits (p ∷ ports) k,
                ports-Proper (p ∷ ports) k,
                rules_for-ports digits r (p ∷ ports),
                ground (arith, e, length-ports (p ∷ ports)),
              ))
        ])
      ]

  pub added-Proper : (ports : List ℕ) → All Proper (add_rules_batch digits r ports).1
  added-Proper ports = elim (add_rules_batch-Proper ports) [
    | inl (e, q, rules) ↦ rw rules tt
    | inr (q, few, many, fit, proper, exact, short) ↦ proper
  ]
