-- ===== src/Did/Identifier.antt =====
-- The identifiers: what `parse_did` accepts, and what it gives back.
use agentme.Prelude.{
  ◌≡◌, ◌∙◌, sym, inl, inr, Bool-cases, refl, false, List, [], ◌∷◌, ok, arith, Text, codes, same,
  split, join, split-lone, split-append, join-split, contains, nat_key, same_self, eq_of_same,
}
use agentme.Did.{did_method, print_did, parse_did, parse_parts}

-- A printed identifier, of a chain and a name without a colon, parses back to its parts.
pub parse_did-print_did :
    (chain identifier : Text)
    → contains b':' chain ≡ false
    → contains b':' identifier ≡ false
    → parse_did (print_did chain identifier) ≡ ok (did_method, chain, identifier)
unfolding parse_did print_did
parse_did-print_did chain identifier h k =
    rw (split-append b':' chain identifier h, split-lone b':' identifier k)
      (rw (same_self (codes "did"), same_self did_method) refl)

accepted :
    (scheme m c i method chain identifier : Text)
    → parse_parts (scheme ∷ m ∷ c ∷ i ∷ []) ≡ ok (method, chain, identifier)
    → (scheme ≡ codes "did") × (m ≡ did_method) × (m ≡ method) × (c ≡ chain) × (i ≡ identifier)
accepted scheme m c i method chain identifier h = elim (Bool-cases (same scheme (codes "did"))) [
  | inr n ↦ absurd (ground (arith, n))
  | inl d ↦ elim (Bool-cases (same m did_method)) [
    | inr n ↦ absurd (ground (arith, n, d))
    | inl e ↦ (
      eq_of_same _ _ d,
      eq_of_same _ _ e,
      ground (arith, d, e),
      ground (arith, d, e),
      ground (arith, d, e),
    )
  ]
]

parse_parts-print :
    (parts : List Text) (method chain identifier : Text)
    → parse_parts parts ≡ ok (method, chain, identifier)
    → (method ≡ did_method) × (join b':' parts ≡ print_did chain identifier)
unfolding print_did
parse_parts-print (scheme ∷ m ∷ c ∷ i ∷ []) method chain identifier h =
    let (d, e, f, g, k) = accepted scheme m c i method chain identifier h in
    (cc, rw (d, e, g, k) refl)
parse_parts-print _ method chain identifier h = absurd (ground arith)

-- What parses is the identifier printed from the parts that it is given back as.
pub print_did-parse_did :
    (s method chain identifier : Text)
    → parse_did s ≡ ok (method, chain, identifier)
    → (method ≡ did_method) × (s ≡ print_did chain identifier)
unfolding parse_did
print_did-parse_did s method chain identifier h =
    let (m, e) = parse_parts-print (split b':' s) method chain identifier h in
    (m, sym (join-split b':' s) ∙ e)
