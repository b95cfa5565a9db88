-- ===== src/Prelude/Texts.antt =====
-- A text as the list of its code points, for the code that takes texts apart.
use Prim.Native.Char.{code}
use Prim.Native.Nat.{ℕ, zero, suc, ◌+◌, ◌-◌, ◌/◌, ◌%◌}
use Prim.Native.String.{String}
use mathlib.Core.Path.{◌≡◌, refl}
use mathlib.Core.Logic.{◌≢◌, inl, inr, ite}
use mathlib.Core.Bool.{Bool, true, false, ◌&&◌}
use mathlib.Core.List.{List, [], ◌∷◌, ◌++◌}
use native.Mathlib.Decide.{ℕ_discrete}
use native.Mathlib.Omega.{arith}
use agentme.Prelude.Tests.{Key, nat_key, if◌then◌else◌, ◌==◌, ltb, Bool-cases}
use agentme.Prelude.Lists.{contains, length}

abbrev pub Text : Type 0
Text = List ℕ

-- A literal: its bytes, as the literals of the code are ASCII.
abbrev pub codes : String → Text
codes String.[] = []
codes (String.◌∷◌ c s) = code c ∷ codes s

pub heads_differ : (x y : ℕ) (s t : Text) → x ≢ y → (x ∷ s) ≢ (y ∷ t)
heads_differ x y s t n p = ground arith

pub tails_differ : (x y : ℕ) (s t : Text) → s ≢ t → (x ∷ s) ≢ (y ∷ t)
tails_differ x y s t n p = ground arith

unfoldable pub Text-discrete : Discrete Text
Text-discrete [] [] = yes refl
Text-discrete [] (y ∷ t) = no (λ p. cc)
Text-discrete (x ∷ s) [] = no (λ p. cc)
Text-discrete (x ∷ s) (y ∷ t) = elim (ℕ_discrete x y) [
  | no n ↦ no (heads_differ x y s t n)
  | yes p ↦ elim (Text-discrete s t) [
    | no n ↦ no (tails_differ x y s t n)
    | yes q ↦ yes (cc (p, q))
  ]
]

instance abbrev pub text_key : Key Text
text_key = record { equal = Text-discrete }

abbrev pub same : Text → Text → Bool
same s t = ite (Text-discrete s t) true false

pub same_self : (s : Text) → same s s ≡ true
same_self s = ground arith

pub eq_of_same : (s t : Text) → same s t ≡ true → s ≡ t
eq_of_same s t h = ground arith

-- `starts_with`.
abbrev pub starts_with : Text → Text → Bool
starts_with s [] = true
starts_with [] (p ∷ prefix) = false
starts_with (c ∷ s) (p ∷ prefix) = (c == p) && starts_with s prefix

pub starts_with-append : (s t : Text) → starts_with (s ++ t) s ≡ true
starts_with-append [] t = ground arith
starts_with-append (c ∷ s) t = ground (arith, starts_with-append s t)

abbrev pub onto_first : ℕ → List Text → List Text
onto_first c [] = (c ∷ []) ∷ []
onto_first c (part ∷ parts) = (c ∷ part) ∷ parts

-- `split` on one character.
abbrev pub split : ℕ → Text → List Text
split sep [] = [] ∷ []
split sep (c ∷ s) = if c == sep then [] ∷ split sep s else onto_first c (split sep s)

-- The parts with the separator between them.
abbrev pub join : ℕ → List Text → Text
join sep [] = []
join sep (part ∷ []) = part
join sep (part ∷ next ∷ parts) = part ++ sep ∷ join sep (next ∷ parts)

pub split-lone : (sep : ℕ) (s : Text) → contains sep s ≡ false → split sep s ≡ s ∷ []
split-lone sep [] h = refl
split-lone sep (c ∷ s) h = ground (arith, split-lone sep s)

pub split-append :
    (sep : ℕ) (s t : Text) → contains sep s ≡ false → split sep (s ++ sep ∷ t) ≡ s ∷ split sep t
split-append sep [] t h = ground arith
split-append sep (c ∷ s) t h = ground (arith, split-append sep s t)

join-onto_first :
    (sep c : ℕ) (part : Text) (parts : List Text)
    → join sep (onto_first c (part ∷ parts)) ≡ c ∷ join sep (part ∷ parts)
join-onto_first sep c part [] = refl
join-onto_first sep c part (next ∷ parts) = refl

split_nonempty :
    (sep : ℕ) (s : Text) → (part : Text) × (parts : List Text) × (split sep s ≡ part ∷ parts)
split_nonempty sep [] = ([], [], refl)
split_nonempty sep (c ∷ s) =
    let (part, parts, e) = split_nonempty sep s in
    elim (Bool-cases (c == sep)) [
      | inl h ↦ ([], part ∷ parts, rw (h, e) refl)
      | inr h ↦ (c ∷ part, parts, rw (h, e) refl)
    ]

pub join-split : (sep : ℕ) (s : Text) → join sep (split sep s) ≡ s
join-split sep [] = refl
join-split sep (c ∷ s) =
    let (part, parts, e) = split_nonempty sep s in
    let ih = join-split sep s in
    elim (Bool-cases (c == sep)) [
      | inl h ↦ ground (arith, join-onto_first sep c part parts)
      | inr h ↦ ground (arith, join-onto_first sep c part parts)
    ]

-- `ends_with`: the rest from some place on is the suffix.
abbrev pub ends_with : Text → Text → Bool
ends_with [] suffix = same [] suffix
ends_with (c ∷ s) suffix = if same (c ∷ s) suffix then true else ends_with s suffix

ends_with-append : (s t : Text) → ends_with (s ++ t) t ≡ true
ends_with-append [] [] = ground arith
ends_with-append [] (c ∷ t) = ground arith
ends_with-append (c ∷ s) t = ground (arith, ends_with-append s t)

-- The decimal numeral of a number.
abbrev pub decimal_from : ℕ → ℕ → Text
decimal_from zero n = []
decimal_from (suc fuel) n =
    let front = decimal_from fuel (n / 10) in
    if ltb n 10 then (b'0' + n) ∷ [] else front ++ (b'0' + n % 10) ∷ []

abbrev pub decimal : ℕ → Text
decimal n = decimal_from (suc n) n

abbrev pub zeros : ℕ → Text
zeros zero = []
zeros (suc n) = b'0' ∷ zeros n

-- `{:0w}`.
unfoldable pub padded : ℕ → ℕ → Text
padded w n = zeros (w - length (decimal n)) ++ decimal n
