-- ===== src/Firewall.antt =====
-- The firewall rules of the main process (ui/desktop/src/main/main.ts) on Windows: the handlers
-- firewall:add-rule, firewall:add-rules-batch and firewall:remove-rule with addWindowsFirewallRulesBatch and
-- removeWindowsFirewallRule. The answers of netsh and PowerShell are arguments; the quoting of their command
-- lines is left out. Text is the list of its code units.
pub mod Asked
pub mod Names
pub mod Stays
mod Tests
use orc_torrent.Prelude.{
  ℕ, zero, suc, ◌+◌, Bool, true, false, not, ◌&&◌, ◌||◌, Option, none, some, List, [], ◌∷◌, ◌++◌,
  length, ltb, leb, if◌then◌else◌,
}
use orc_torrent.Prelude.Codes.{Text, codes, starts_with, includes, trim}

pub data Profile : Type 0 where
  private_net public_net domain : Profile

pub data Protocol : Type 0 where
  tcp udp : Protocol

-- the options of a request: `all` and `both` are none
pub record Request : Type 0 where
  pub profile : Option Profile
  pub protocol : Option Protocol

pub record Rule : Type 0 where
  pub name : Text
  pub outbound : Bool
  pub profile : Profile
  pub protocol : Protocol
  pub port : ℕ

abbrev pub base_rule_name : Text
base_rule_name = codes "ORC TORRENT BitTorrent Peer"

abbrev pub profile_text : Profile → Text
profile_text private_net = codes "private"
profile_text public_net = codes "public"
profile_text domain = codes "domain"

abbrev pub protocol_text : Protocol → Text
protocol_text tcp = codes "tcp"
protocol_text udp = codes "udp"

abbrev pub profiles_to_use : Option Profile → List Profile
profiles_to_use none = private_net ∷ public_net ∷ domain ∷ []
profiles_to_use (some p) = p ∷ []

abbrev pub protocols_to_use : Option Protocol → List Protocol
protocols_to_use none = tcp ∷ udp ∷ []
protocols_to_use (some p) = p ∷ []

abbrev pub rule_suffix : Request → Profile → Protocol → Text
rule_suffix r prof proto =
    if ltb 1 (length (profiles_to_use r.profile)) || ltb 1 (length (protocols_to_use r.protocol))
    then codes " (" ++ (profile_text prof ++ (codes "/" ++ (protocol_text proto ++ codes ")")))
    else []

abbrev pub direction_suffix : Bool → Text
direction_suffix out = if out then codes " Out" else []

-- The decimal digits of a number are an argument.
module _ (digits : ℕ → Text) where
  unfoldable pub rule_name : Request → ℕ → Bool → Profile → Protocol → Text
  rule_name r port out prof proto =
      base_rule_name
      ++ (codes " Port " ++ (digits port ++ (direction_suffix out ++ rule_suffix r prof proto)))

  unfoldable pub make_rule : Request → ℕ → Profile → Bool → Protocol → Rule
  unfolding rule_name
  make_rule r port prof out proto = record {
    name = rule_name r port out prof proto;
    outbound = out;
    profile = prof;
    protocol = proto;
    port = port;
  }

  -- the three loops, each rule for both directions
  unfoldable pub rules_of_protocols : Request → ℕ → Profile → List Protocol → List Rule
  unfolding make_rule
  rules_of_protocols r port prof [] = []
  rules_of_protocols r port prof (proto ∷ protocols) =
      make_rule r port prof false proto
      ∷ make_rule r port prof true proto
      ∷ rules_of_protocols r port prof protocols

  unfoldable pub rules_of_profiles : Request → ℕ → List Profile → List Rule
  unfolding rules_of_protocols
  rules_of_profiles r port [] = []
  rules_of_profiles r port (prof ∷ profiles) =
      rules_of_protocols r port prof (protocols_to_use r.protocol)
      ++ rules_of_profiles r port profiles

  unfoldable pub rules_of_ports : Request → List ℕ → List Rule
  unfolding rules_of_profiles
  rules_of_ports r [] = []
  rules_of_ports r (port ∷ ports) =
      rules_of_profiles r port (profiles_to_use r.profile) ++ rules_of_ports r ports

abbrev pub min_port : ℕ
min_port = 1

abbrev pub max_port : ℕ
max_port = 65535

abbrev pub max_ports_batch : ℕ
max_ports_batch = 50

abbrev pub is_port : ℕ → Bool
is_port p = leb min_port p && leb p max_port

abbrev pub are_ports : List ℕ → Bool
are_ports [] = true
are_ports (p ∷ ports) = is_port p && are_ports ports

pub data Refusal : Type 0 where
  no_ports too_many_ports bad_port : Refusal

-- The checks of firewall:add-rules-batch on its ports: a refusal, or the rules to add.
unfoldable pub add_rules_batch : (ℕ → Text) → Request → List ℕ → Option Refusal × List Rule
unfolding rules_of_ports
add_rules_batch digits r [] = (some no_ports, [])
add_rules_batch digits r (p ∷ ports) =
    if ltb max_ports_batch (length (p ∷ ports))
    then (some too_many_ports, [])
    else if not (are_ports (p ∷ ports))
    then (some bad_port, [])
    else (none, rules_of_ports digits r (p ∷ ports))

-- The names that a listing shows, filtered; the base name where there are none.
abbrev pub matching : Text → List Text → List Text
matching name [] = []
matching name (n ∷ names) =
    let rest = matching name names in if starts_with name (trim n) then trim n ∷ rest else rest

abbrev pub or_itself : Text → List Text → List Text
or_itself name [] = name ∷ []
or_itself name (n ∷ names) = n ∷ names

-- the words of an error that call for elevation, and those of a rule that is not there
unfoldable pub is_denied : Text → Bool
is_denied m =
    includes (codes "access") m || includes (codes "denied") m || includes (codes "administrator") m

unfoldable pub is_absent : Text → Bool
is_absent m = includes (codes "not found") m || includes (codes "cannot find") m

-- A deletion changes the world and may end in an error, given in lower case.
module _ {W : Type 0} (show : Text → W → List Text) (delete : Text → W → W × Option Text)
    (delete_elevated : Text → W → W × Option Text) where
  -- whether the next command is run
  abbrev pub may_go_on : Option Text → Bool
  may_go_on none = true
  may_go_on (some m) = is_absent m

  -- what follows a deletion: where it was denied, it is tried with elevation
  abbrev pub after_delete : Text → W → Option Text → W × Bool
  after_delete name w none = (w, true)
  after_delete name w (some m) =
      if is_denied m
      then (let (v, again) = delete_elevated name w in (v, may_go_on again))
      else (w, is_absent m)

  unfoldable pub delete_one : Text → W → W × Bool
  unfolding is_denied is_absent
  delete_one name w = let (v, error) = delete name w in after_delete name v error

  unfoldable pub delete_all : List Text → W → W × Bool
  unfolding delete_one
  delete_all [] w = (w, true)
  delete_all (name ∷ names) w =
      let (v, ok) = delete_one name w in
      let rest = delete_all names v in if ok then rest else (v, false)

  -- the store after it, and whether it reports success
  unfoldable pub remove_rule : Text → W → W × Bool
  unfolding delete_all
  remove_rule name w = delete_all (or_itself name (matching name (show name w))) w
