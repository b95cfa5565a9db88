-- ===== src/Security/Ip.antt =====
-- Addresses and their subnet prefixes (node/src/network/security.rs, `extract_subnet_24` and
-- `extract_subnet_16`). An IPv4 address is its four octets; an IPv6 address is one number.
use agentme.Prelude.{ℕ, Option, none, some, ℕ_discrete, Key}

pub data IpAddr : Type 0 where
  v4 : ℕ → ℕ → ℕ → ℕ → IpAddr
  v6 : ℕ → IpAddr

pub data Prefix24 : Type 0 where
  octets : ℕ → ℕ → ℕ → Prefix24

pub data Prefix16 : Type 0 where
  octets : ℕ → ℕ → Prefix16

pub IpAddr-discrete : Discrete IpAddr
IpAddr-discrete = hlevel ℕ_discrete

pub Prefix24-discrete : Discrete Prefix24
Prefix24-discrete = hlevel ℕ_discrete

pub Prefix16-discrete : Discrete Prefix16
Prefix16-discrete = hlevel ℕ_discrete

instance abbrev pub ip_key : Key IpAddr
ip_key = record { equal = IpAddr-discrete }

instance abbrev pub prefix24_key : Key Prefix24
prefix24_key = record { equal = Prefix24-discrete }

instance abbrev pub prefix16_key : Key Prefix16
prefix16_key = record { equal = Prefix16-discrete }

unfoldable pub extract_subnet_24 : IpAddr → Option Prefix24
extract_subnet_24 (v4 a b c d) = some (Prefix24.octets a b c)
extract_subnet_24 (v6 n) = none

unfoldable pub extract_subnet_16 : IpAddr → Option Prefix16
extract_subnet_16 (v4 a b c d) = some (Prefix16.octets a b)
extract_subnet_16 (v6 n) = none
