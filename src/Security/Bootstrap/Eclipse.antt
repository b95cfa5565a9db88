-- ===== src/Security/Bootstrap/Eclipse.antt =====
-- What a validated list of bootstrap peers guards against.
use agentme.Prelude.{
  suc, ◌+◌, ◌≤◌, ◌<◌, ◌≡◌, ◌≢◌, ◌⊎◌, ◌↔◌, inl, inr, true, false, Option, none, some, List, [], ◌∷◌,
  length, contains, Distinct, escape, ok, arith, dec_lt, Text,
}
use agentme.Security.Ip.{IpAddr, Prefix16, prefix16_key}
use agentme.Security.Bootstrap.{
  subnet_of, add_subnet, collect_subnets, validate_bootstrap_peers, validate_network_config,
  NetworkConfig,
}

module _ (parse_ip : Text → Option IpAddr) where
  -- Some peer of the list has an address in the subnet.
  abbrev pub Offers : Prefix16 → List Text → Type 0
  Offers s [] = ⊥
  Offers s (peer ∷ peers) = (subnet_of parse_ip peer ≡ some s) ⊎ Offers s peers

  collect_subnets-Distinct :
      (peers : List Text) (acc : List Prefix16)
      → Distinct acc
      → Distinct (collect_subnets parse_ip peers acc)
  unfolding collect_subnets
  collect_subnets-Distinct [] acc d = d
  collect_subnets-Distinct (peer ∷ peers) acc d =
      collect_subnets-Distinct peers (add_subnet parse_ip (subnet_of parse_ip peer) acc)
        (added (subnet_of parse_ip peer))
    where
      added : (o : Option Prefix16) → Distinct (add_subnet parse_ip o acc)
      added none = d
      added (some s) = ground arith

  contains-add_subnet :
      (o : Option Prefix16) (acc : List Prefix16) (s : Prefix16)
      → (contains s (add_subnet parse_ip o acc) ≡ true) ↔ ((o ≡ some s) ⊎ (contains s acc ≡ true))
  contains-add_subnet none acc s = ground arith
  contains-add_subnet (some r) acc s = ground arith

  collected_offered :
      (peers : List Text) (acc : List Prefix16) (s : Prefix16)
      → contains s (collect_subnets parse_ip peers acc) ≡ true
      → (contains s acc ≡ true) ⊎ Offers s peers
  unfolding collect_subnets
  collected_offered [] acc s h = inl h
  collected_offered (peer ∷ peers) acc s h =
      elim (collected_offered peers (add_subnet parse_ip (subnet_of parse_ip peer) acc) s h) [
        | inl now ↦ elim ((contains-add_subnet (subnet_of parse_ip peer) acc s).0 now) [
          | inl e ↦ inr (inl e)
          | inr old ↦ inl old
        ]
        | inr later ↦ inr (inr later)
      ]

  offered_collected :
      (peers : List Text) (acc : List Prefix16) (s : Prefix16)
      → (contains s acc ≡ true) ⊎ Offers s peers
      → contains s (collect_subnets parse_ip peers acc) ≡ true
  unfolding collect_subnets
  offered_collected [] acc s (inl h) = h
  offered_collected [] acc s (inr h) = absurd h
  offered_collected (peer ∷ peers) acc s (inl h) =
      offered_collected peers (add_subnet parse_ip (subnet_of parse_ip peer) acc) s
        (inl ((contains-add_subnet (subnet_of parse_ip peer) acc s).1 (inr h)))
  offered_collected (peer ∷ peers) acc s (inr (inl e)) =
      offered_collected peers (add_subnet parse_ip (subnet_of parse_ip peer) acc) s
        (inl ((contains-add_subnet (subnet_of parse_ip peer) acc s).1 (inl e)))
  offered_collected (peer ∷ peers) acc s (inr (inr later)) =
      offered_collected peers (add_subnet parse_ip (subnet_of parse_ip peer) acc) s (inr later)

  length-add_subnet-le :
      (o : Option Prefix16) (acc : List Prefix16)
      → length (add_subnet parse_ip o acc) ≤ suc (length acc)
  length-add_subnet-le none acc = omega arith
  length-add_subnet-le (some s) acc = ground arith

  length-collect_subnets-le :
      (peers : List Text) (acc : List Prefix16)
      → length (collect_subnets parse_ip peers acc) ≤ length peers + length acc
  unfolding collect_subnets
  length-collect_subnets-le [] acc = omega arith
  length-collect_subnets-le (peer ∷ peers) acc = omega (
    arith,
    length-collect_subnets-le peers (add_subnet parse_ip (subnet_of parse_ip peer) acc),
    length-add_subnet-le (subnet_of parse_ip peer) acc,
  )

  validated_count :
      (peers : List Text)
      → (validate_bootstrap_peers parse_ip peers ≡ ok tt)
        ↔ (3 ≤ length (collect_subnets parse_ip peers []))
  unfolding validate_bootstrap_peers
  validated_count peers = ground (arith, length-collect_subnets-le peers [])

  eclipse_resistant :
      (peers : List Text) (hostile : List Prefix16)
      → validate_bootstrap_peers parse_ip peers ≡ ok tt
      → length hostile < 3
      → (s : Prefix16) × Offers s peers × (contains s hostile ≡ false)
  eclipse_resistant peers hostile valid few =
      let (s, inside, outside) =
        escape (collect_subnets parse_ip peers []) hostile (collect_subnets-Distinct peers [] tt)
          (omega (arith, (validated_count peers).0 valid)) in
      (s, from_empty (collected_offered peers [] s inside), outside)
    where
      from_empty : {P : Type 0} → (false ≡ true) ⊎ P → P
      from_empty (inl e) = cc
      from_empty (inr p) = p

  -- A list of peers that offers three distinct /16 subnets passes the check of bootstrap peers.
  pub diverse_accepted :
      (peers : List Text) (subnets : List Prefix16)
      → Distinct subnets
      → 3 ≤ length subnets
      → ((s : Prefix16) → contains s subnets ≡ true → Offers s peers)
      → validate_bootstrap_peers parse_ip peers ≡ ok tt
  diverse_accepted peers subnets d three offered =
      elim (dec_lt (length (collect_subnets parse_ip peers [])) 3) [
        | yes few ↦
            let (s, inside, outside) =
              escape subnets (collect_subnets parse_ip peers []) d (omega arith) in
            let found : contains s (collect_subnets parse_ip peers []) ≡ true =
              offered_collected peers [] s (inr (offered s inside)) in
            cc
        | no enough ↦ (validated_count peers).1 (omega arith)
      ]

  checked_peers :
      (config : NetworkConfig)
      → validate_network_config parse_ip config ≡ ok tt
      → config.bootstrap_peers ≢ []
      → validate_bootstrap_peers parse_ip config.bootstrap_peers ≡ ok tt
  unfolding validate_network_config
  checked_peers config valid some_peers = ground arith

  -- Whoever controls every address of fewer than three /16 subnets does not control all bootstrap
  -- peers of a configuration that passes and has any: a peer of it has an address in another subnet.
  pub network_resists :
      (config : NetworkConfig) (hostile : List Prefix16)
      → validate_network_config parse_ip config ≡ ok tt
      → config.bootstrap_peers ≢ []
      → length hostile < 3
      → (s : Prefix16) × Offers s config.bootstrap_peers × (contains s hostile ≡ false)
  network_resists config hostile valid some_peers few =
      eclipse_resistant config.bootstrap_peers hostile (checked_peers config valid some_peers) few
