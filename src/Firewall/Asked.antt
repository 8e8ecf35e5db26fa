-- ===== src/Firewall/Asked.antt =====
-- Which rules a request asks for (ui/desktop/src/main/main.ts): how many the loops of
-- addWindowsFirewallRulesBatch make for each port, direction, profile and protocol.
use orc_torrent.Prelude.{
  ℕ, ◌+◌, ◌==◌, ◌&&◌, not, if◌then◌else◌, Option-cases, ◌≡◌, refl, arith, Bool, true, false, none,
  some, List, [], ◌∷◌, ◌++◌,
}
use orc_torrent.Prelude.Codes.{Text}
use orc_torrent.Firewall.{
  Profile, private_net, public_net, domain, Protocol, tcp, udp, Request, Rule, profiles_to_use,
  make_rule, rules_of_protocols, rules_of_profiles, rules_of_ports,
}

abbrev pub same_profile : Profile → Profile → Bool
same_profile private_net private_net = true
same_profile public_net public_net = true
same_profile domain domain = true
same_profile _ _ = false

abbrev pub same_protocol : Protocol → Protocol → Bool
same_protocol tcp tcp = true
same_protocol udp udp = true
same_protocol _ _ = false

abbrev pub same_direction : Bool → Bool → Bool
same_direction a b = if a then b else not b

-- how many rules are for the port, direction, profile and protocol
abbrev pub rules_for : ℕ → Bool → Profile → Protocol → List Rule → ℕ
rules_for port out prof proto [] = 0
rules_for port out prof proto (rule ∷ rules) =
    (if rule.port == port
        && same_direction rule.outbound out
        && same_profile rule.profile prof
        && same_protocol rule.protocol proto
      then 1
      else 0)
    + rules_for port out prof proto rules

-- The request is for the profile and the protocol.
abbrev pub asks_for : Request → Profile → Protocol → Bool
asks_for r prof proto =
    elim r.profile [ none ↦ true | some p ↦ same_profile p prof ]
    && elim r.protocol [ none ↦ true | some p ↦ same_protocol p proto ]

-- how often a port stands in a list, where the request is for the profile and the protocol
abbrev pub asked : Bool → ℕ → List ℕ → ℕ
asked b port [] = 0
asked b port (p ∷ ports) = (if p == port && b then 1 else 0) + asked b port ports

module _ (digits : ℕ → Text) (r : Request) where
  rules_for-append :
      (port : ℕ) (out : Bool) (prof : Profile) (proto : Protocol) (l m : List Rule)
      → rules_for port out prof proto (l ++ m)
        ≡ rules_for port out prof proto l + rules_for port out prof proto m
  rules_for-append port out prof proto [] m = omega arith
  rules_for-append port out prof proto (x ∷ l) m =
      omega (arith, rules_for-append port out prof proto l m)

  rules_for-profiles :
      (q port : ℕ) (out : Bool) (prof : Profile) (proto : Protocol)
      → rules_for port out prof proto (rules_of_profiles digits r q (profiles_to_use r.profile))
        ≡ (if q == port && asks_for r prof proto then 1 else 0)
  unfolding rules_of_profiles rules_of_protocols make_rule
  rules_for-profiles q port out prof proto =
      ground (arith, Option-cases r.profile, Option-cases r.protocol)

  pub rules_for-ports :
      (ports : List ℕ) (port : ℕ) (out : Bool) (prof : Profile) (proto : Protocol)
      → rules_for port out prof proto (rules_of_ports digits r ports)
        ≡ asked (asks_for r prof proto) port ports
  unfolding rules_of_ports
  rules_for-ports [] port out prof proto = refl
  rules_for-ports (q ∷ ports) port out prof proto = omega (
    arith,
    rules_for-append port out prof proto (rules_of_profiles digits r q (profiles_to_use r.profile))
        (rules_of_ports digits r ports),
    rules_for-profiles q port out prof proto,
    rules_for-ports ports port out prof proto,
  )
