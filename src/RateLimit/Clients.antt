-- ===== src/RateLimit/Clients.antt =====
-- The address that a request is counted for (node/src/rate_limit.rs, `extract_client_ip`), said
-- without the code's own choice.
use agentme.Prelude.{
  ℕ, ◌≡◌, refl, ap, Bool, true, false, Option, none, some, List, [], ◌∷◌, if◌then◌else◌, Text,
  arith, split, onto_first, Bool-cases, inl, inr,
}
use agentme.Security.Ip.{IpAddr, v4}
use agentme.RateLimit.{
  Request, or_localhost, extract_client_ip, extract_header_ip, parse_ip_candidate, before_comma,
  or_else,
}

-- The first part of a text, if it is divided at commas.
abbrev first_part : List Text → Text
first_part [] = []
first_part (part ∷ parts) = part

first_part-onto_first :
    (c : ℕ) (parts : List Text) → first_part (onto_first c parts) ≡ c ∷ first_part parts
first_part-onto_first c [] = refl
first_part-onto_first c (part ∷ parts) = refl

first_part-split : (s : Text) → before_comma s ≡ first_part (split 44 s)
first_part-split [] = refl
first_part-split (c ∷ s) = ground (arith, first_part-split s, first_part-onto_first c (split 44 s))

abbrev first_of : {A : Type 0} → List (Option A) → Option A
first_of [] = none
first_of (none ∷ os) = first_of os
first_of (some x ∷ os) = some x

abbrev address_or_local : Option IpAddr → IpAddr
address_or_local none = v4 127 0 0 1
address_or_local (some ip) = ip

chosen :
    (a b c : Option IpAddr)
    → or_localhost (or_else a (or_else b c)) ≡ address_or_local (first_of (a ∷ b ∷ c ∷ []))
chosen (some x) b c = refl
chosen none (some x) c = refl
chosen none none (some x) = refl
chosen none none none = refl

connected_lem : (c : Option IpAddr) → or_localhost c ≡ address_or_local (first_of (c ∷ []))
connected_lem none = refl
connected_lem (some x) = refl

module _ (trim : Text → Text) (parse_ip parse_socket : Text → Option IpAddr) where
  -- The address that a header gives.
  abbrev in_header : Option Text → Option IpAddr
  in_header none = none
  in_header (some value) = parse_ip_candidate trim parse_ip parse_socket value

  abbrev first_in_header : Option Text → Option IpAddr
  first_in_header none = none
  first_in_header (some value) =
      parse_ip_candidate trim parse_ip parse_socket (first_part (split 44 value))

  first_in_header_lem :
      (o : Option Text) → extract_header_ip trim parse_ip parse_socket o true ≡ first_in_header o
  unfolding extract_header_ip
  first_in_header_lem none = refl
  first_in_header_lem (some value) =
      ap (parse_ip_candidate trim parse_ip parse_socket) (first_part-split value)

  in_header_lem :
      (o : Option Text) → extract_header_ip trim parse_ip parse_socket o false ≡ in_header o
  unfolding extract_header_ip
  in_header_lem none = refl
  in_header_lem (some value) = refl

  module _ {B : Type 0} (trust_proxy : Bool) where
    -- The addresses that the headers and the connection give for a request, the best first.
    abbrev sources : Request B → List (Option IpAddr)
    sources request =
        if trust_proxy
        then first_in_header request.forwarded_for
          ∷ in_header request.real_ip
          ∷ request.connected
          ∷ []
        else request.connected ∷ []

    -- The client that a request is counted for.
    abbrev pub address_for : Request B → IpAddr
    address_for request = address_or_local (first_of (sources request))

    pub address_lem :
        (request : Request B)
        → or_localhost (extract_client_ip trim parse_ip parse_socket request trust_proxy)
          ≡ address_for request
    unfolding extract_client_ip
    address_lem request = elim (Bool-cases trust_proxy) [
      | inl trusted ↦
          rw (trusted, first_in_header_lem request.forwarded_for, in_header_lem request.real_ip)
            (chosen (first_in_header request.forwarded_for) (in_header request.real_ip)
              request.connected)
      | inr direct ↦ rw direct (connected_lem request.connected)
    ]
