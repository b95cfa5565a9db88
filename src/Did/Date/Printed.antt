-- ===== src/Did/Date/Printed.antt =====
-- The text of a timestamp, read back.
use agentme.Prelude.{
  ℕ, zero, suc, ◌+◌, ◌-◌, ◌*◌, ◌/◌, ◌%◌, ◌<◌, ◌≡◌, refl, ◌∙◌, ap, ◌&&◌, List, [], ◌∷◌, ◌++◌, leb,
  ltb, if◌then◌else◌, arith, Text, decimal_from, decimal, zeros, padded, length, Bool-cases, inl,
  inr,
}
use agentme.Did.Date.{CivilDate, civil_from_days, unix_to_rfc3339}
use agentme.Did.Date.Civil.{IsValid, ordinal, civil_from_days_lem}

-- The numbers in a text, each ended by a character that is no digit.
abbrev pub numbers : ℕ → Text → List ℕ
numbers acc [] = []
numbers acc (c ∷ s) =
    if leb b'0' c && leb c b'9' then numbers (acc * 10 + (c - b'0')) s else acc ∷ numbers 0 s

append-cons : (s t : Text) (c : ℕ) → (s ++ c ∷ []) ++ t ≡ s ++ c ∷ t
append-cons [] t c = refl
append-cons (x ∷ s) t c = ap (◌∷◌ x) (append-cons s t c)

append_assoc : (s t u : Text) → (s ++ t) ++ u ≡ s ++ (t ++ u)
append_assoc [] t u = refl
append_assoc (x ∷ s) t u = ap (◌∷◌ x) (append_assoc s t u)

numbers-digit :
    (acc d : ℕ) (s : Text) → d < 10 → numbers acc ((b'0' + d) ∷ s) ≡ numbers (acc * 10 + d) s
numbers-digit acc d s h = ground arith

numbers-decimal_from :
    (fuel n : ℕ) (s : Text) → n < fuel → numbers 0 (decimal_from fuel n ++ s) ≡ numbers n s
numbers-decimal_from zero n s h = absurd (omega arith)
numbers-decimal_from (suc fuel) n s h = elim (Bool-cases (ltb n 10)) [
  | inl small ↦ rw small (numbers-digit 0 n s (ground arith) ∙ ap (λ k. numbers k s) (omega arith))
  | inr large ↦
      rw
        (
          large,
          append-cons (decimal_from fuel (n / 10)) s (b'0' + n % 10),
          numbers-decimal_from fuel (n / 10) ((b'0' + n % 10) ∷ s) (ground arith),
          numbers-digit (n / 10) (n % 10) s (omega arith),
        )
        (ap (λ k. numbers k s) (omega arith))
]

numbers-zeros : (k : ℕ) (s : Text) → numbers 0 (zeros k ++ s) ≡ numbers 0 s
numbers-zeros zero s = refl
numbers-zeros (suc k) s = numbers-zeros k s

numbers-padded : (w n : ℕ) (s : Text) → numbers 0 (padded w n ++ s) ≡ numbers n s
unfolding padded
numbers-padded w n s =
    rw
      (
        append_assoc (zeros (w - length (decimal n))) (decimal n) s,
        numbers-zeros (w - length (decimal n)) (decimal n ++ s),
      )
      (numbers-decimal_from (suc n) n s (omega arith))

-- The text of a timestamp holds six numbers, the year, the month, the day, the hour, the minute and
-- the second. They are a date of the Gregorian calendar and a time of the day, and they are those
-- of the timestamp: the days since 1970 and the seconds of the day add up to it.
pub unix_to_rfc3339_lem :
    (timestamp : ℕ)
    → (t : CivilDate) × (hours : ℕ) × (minutes : ℕ) × (seconds : ℕ) × (numbers 0
          (unix_to_rfc3339 timestamp)
        ≡ t.year ∷ t.month ∷ t.day ∷ hours ∷ minutes ∷ seconds ∷ [])
      × IsValid t
      × (hours < 24)
      × (minutes < 60)
      × (seconds < 60)
      × ((ordinal t - 719163) * 86400 + hours * 3600 + minutes * 60 + seconds ≡ timestamp)
unfolding unix_to_rfc3339
unix_to_rfc3339_lem timestamp =
    let days = timestamp / 86400 in
    let time = timestamp % 86400 in
    let t = civil_from_days days in
    let (valid, number) = civil_from_days_lem days in
    (
      t,
      time / 3600,
      time % 3600 / 60,
      time % 60,
      simp (append_assoc, numbers-padded),
      valid,
      omega arith,
      omega arith,
      omega arith,
      rw number (omega arith),
    )
