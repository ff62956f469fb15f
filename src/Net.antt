-- ===== src/Net.antt =====
-- The addresses of package net, and the membership tests that the detectors repeat:
-- internal/anomaly/metrics.go (isLocalIP, isFanoutDestination), internal/ddos/detector.go
-- (isLocalIP) and internal/config/config.go (IPInCIDRList). An address that fits four bytes is
-- `v4`, as `To4` reads it. The grammars of `net.ParseIP` and `net.ParseCIDR` are a parameter.
use flowguard_lite.Prelude.{
  ℕ, ◌-◌, ◌/◌, ◌^◌, Bool, false, not, ◌&&◌, Option, none, some, List, [], ◌∷◌, eqb, any,
  if◌then◌else◌,
}
use flowguard_lite.Prelude.Text.{Text, trim_space}

pub data Ip : Type 0 where
  v4 : ℕ → Ip
  v6 : ℕ → Ip

-- A network number with its prefix length, the number already masked.
pub data Subnet : Type 0 where
  net4 : ℕ → ℕ → Subnet
  net6 : ℕ → ℕ → Subnet

-- `net.ParseIP` and `net.ParseCIDR`.
pub record Parsers : Type 0 where
  pub parse_ip : Text → Option Ip
  pub parse_cidr : Text → Option Subnet

unfoldable pub is_loopback : Ip → Bool
is_loopback (v4 a) = eqb (a / 2 ^ 24) 127
is_loopback (v6 a) = eqb a 1

unfoldable pub is_multicast : Ip → Bool
is_multicast (v4 a) = eqb (a / 2 ^ 28) 14
is_multicast (v6 a) = eqb (a / 2 ^ 120) 255

unfoldable pub is_unspecified : Ip → Bool
is_unspecified (v4 a) = eqb a 0
is_unspecified (v6 a) = eqb a 0

-- `IPNet.Contains`: the same family and the same leading bits.
unfoldable pub subnet_contains : Ip → Subnet → Bool
subnet_contains (v4 a) (net4 n p) = eqb (a / 2 ^ (32 - p)) (n / 2 ^ (32 - p))
subnet_contains (v4 a) (net6 n p) = false
subnet_contains (v6 a) (net4 n p) = false
subnet_contains (v6 a) (net6 n p) = eqb (a / 2 ^ (128 - p)) (n / 2 ^ (128 - p))

-- An address that can stand for one host.
unfoldable pub is_host : Ip → Bool
unfolding is_loopback is_multicast is_unspecified
is_host ip = not (is_unspecified ip) && not (is_multicast ip) && not (is_loopback ip)

module _ (p : Parsers) where
  open p use {parse_ip, parse_cidr}

  unfoldable pub is_fanout_destination : Text → Bool
  unfolding is_host
  is_fanout_destination s = elim (parse_ip s) [ none ↦ false | some ip ↦ is_host ip ]

  unfoldable pub is_local_ip : List Subnet → Text → Bool
  unfolding is_host any
  is_local_ip nets s = elim (parse_ip s) [
    | none ↦ false
    | some ip ↦ if not (is_host ip) then false else any (subnet_contains ip) nets
  ]

  -- `err == nil && ipNet.Contains(ip)` of one entry.
  unfoldable pub cidr_contains : Ip → Text → Bool
  unfolding trim_space
  cidr_contains ip cidr = elim (parse_cidr (trim_space cidr)) [
    | none ↦ false
    | some net ↦ subnet_contains ip net
  ]

  unfoldable pub ip_in_cidr_list : Text → List Text → Bool
  unfolding cidr_contains any
  ip_in_cidr_list s cidrs = elim (parse_ip s) [
    | none ↦ false
    | some ip ↦ any (cidr_contains ip) cidrs
  ]

  -- The entries of a list that parse, as the constructors of the detectors keep them.
  unfoldable pub parse_subnets : List Text → List Subnet
  parse_subnets [] = []
  parse_subnets (c ∷ cs) =
      let rest = parse_subnets cs in elim (parse_cidr c) [ none ↦ rest | some net ↦ net ∷ rest ]
