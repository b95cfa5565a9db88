-- ===== src/Security/Bootstrap.antt =====
-- The bootstrap peers (node/src/network/security.rs, `validate_bootstrap_peers`,
-- `extract_ip_from_multiaddr` and `validate_network_config`). A text is its list of code points;
-- `parse_ip` stands for `str::parse::<IpAddr>` of the standard library.
pub mod Eclipse
use agentme.Prelude.{
  ℕ, ◌+◌, Bool, true, false, Option, none, some, List, [], ◌∷◌, ltb, ◌==◌, if◌then◌else◌, length,
  contains, Result, ok, err, guard, ◌>>◌, ◌>>=◌, not, Text, split,
}
use agentme.Security.Ip.{IpAddr, Prefix16, prefix16_key, extract_subnet_16}

abbrev pub min_bootstrap_peers : ℕ
min_bootstrap_peers = 3

-- `Error::Config` with its message.
pub data Error : Type 0 where
  too_few_peers too_few_subnets no_connections : Error

pub record NetworkConfig : Type 0 where
  pub listen_addresses : List Text
  pub bootstrap_peers : List Text
  pub max_connections : ℕ

module _ (parse_ip : Text → Option IpAddr) where
  unfoldable pub first_parsed : List Text → Option IpAddr
  first_parsed [] = none
  first_parsed (part ∷ parts) = elim (parse_ip part) [
    | some ip ↦ some ip
    | none ↦ first_parsed parts
  ]

  unfoldable pub extract_ip_from_multiaddr : Text → Option IpAddr
  extract_ip_from_multiaddr addr = first_parsed (split b'/' addr)

  -- The /16 subnet of a peer's address.
  unfoldable pub subnet_of : Text → Option Prefix16
  subnet_of peer = elim (extract_ip_from_multiaddr peer) [
    | none ↦ none
    | some ip ↦ extract_subnet_16 ip
  ]

  abbrev pub add_subnet : Option Prefix16 → List Prefix16 → List Prefix16
  add_subnet none subnets = subnets
  add_subnet (some s) subnets = if contains s subnets then subnets else s ∷ subnets

  unfoldable pub collect_subnets : List Text → List Prefix16 → List Prefix16
  collect_subnets [] subnets = subnets
  collect_subnets (peer ∷ peers) subnets =
      collect_subnets peers (add_subnet (subnet_of peer) subnets)

  unfoldable pub validate_bootstrap_peers : List Text → Result Error (Unit {0})
  validate_bootstrap_peers peers = do
    guard (not (ltb (length peers) min_bootstrap_peers)) too_few_peers
    guard (not (ltb (length (collect_subnets peers [])) min_bootstrap_peers)) too_few_subnets
    ok tt

  abbrev pub validate_if_any : List Text → Result Error (Unit {0})
  validate_if_any [] = ok tt
  validate_if_any (peer ∷ peers) = validate_bootstrap_peers (peer ∷ peers)

  unfoldable pub validate_network_config : NetworkConfig → Result Error (Unit {0})
  validate_network_config config = do
    validate_if_any config.bootstrap_peers
    guard (not (config.max_connections == 0)) no_connections
    ok tt
