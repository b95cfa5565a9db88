-- ===== src/Did/Date/Civil.antt =====
-- The date of a day against the rules of the Gregorian calendar.
use agentme.Prelude.{
  ℕ, zero, suc, ◌+◌, ◌-◌, ◌*◌, ◌/◌, ◌%◌, ◌≤◌, ◌<◌, ◌≡◌, Bool, ◌==◌, if◌then◌else◌, arith, dec_lt,
  refl, ltb, leb,
}
use agentme.Did.Date.{CivilDate, year_of_era, from_march, civil_from_days}

abbrev pub is_leap : ℕ → Bool
is_leap y = if y % 100 == 0 then y % 400 == 0 else y % 4 == 0

-- Apart from February, long months are the odd ones before August and the even ones from it on.
abbrev pub days_in_month : ℕ → ℕ → ℕ
days_in_month y m = if m == 2 then 28 + (if is_leap y then 1 else 0) else 30 + (m + m / 8) % 2

-- The days of the first months of a year.
abbrev days_through : ℕ → ℕ → ℕ
days_through y zero = 0
days_through y (suc m) = days_through y m + days_in_month y (suc m)

-- The leap years among the first `y`.
abbrev leaps : ℕ → ℕ
leaps y = y / 4 - y / 100 + y / 400

-- The number of a day, where the first of January of the year 1 has number 1.
unfoldable pub ordinal : CivilDate → ℕ
ordinal t = 365 * (t.year - 1) + leaps (t.year - 1) + days_through t.year (t.month - 1) + t.day

pub record IsValid (t : CivilDate) : Type 0 where
  pub month_low : 1 ≤ t.month
  pub month_high : t.month ≤ 12
  pub day_low : 1 ≤ t.day
  pub day_high : t.day ≤ days_in_month t.year t.month

-- The day of the era on which a year of the era starts.
abbrev year_start : ℕ → ℕ
year_start y = 365 * y + y / 4 - y / 100

year_of_era_lem :
    (doe : ℕ)
    → doe < 146097
    → (year_of_era doe < 400)
      × (year_start (year_of_era doe) ≤ doe)
      × (doe < year_start (year_of_era doe + 1) + (year_of_era doe + 1) / 400)
unfolding year_of_era
year_of_era_lem doe h = (omega arith, omega arith, omega arith)

leaps-pred : (y : ℕ) → 1 ≤ y → leaps y ≡ leaps (y - 1) + (if is_leap y then 1 else 0)
leaps-pred y h = ground arith

-- `from_march` gives the day of that number, and it is valid.
abbrev Marches : ℕ → ℕ → Type 0
Marches y doy =
    IsValid (from_march y doy) × (ordinal (from_march y doy) + 305 ≡ 365 * y + leaps y + doy)

-- A month of the year `y'`: what it is in the count from March on, its length, and the number of
-- the days before it in that year.
record Month (y' mp m start before size : ℕ) : Type 0 where
  numbered : (if ltb mp 10 then mp + 3 else mp - 9) ≡ m
  low : 1 ≤ m
  high : m ≤ 12
  starts : (153 * mp + 2) / 5 ≡ start
  days_before : days_through y' (m - 1) ≡ before
  days : days_in_month y' m ≡ size

march_lem :
    (y doy mp m start : ℕ)
    → (5 * doy + 2) / 153 ≡ mp
    → (if ltb mp 10 then mp + 3 else mp - 9) ≡ m
    → (153 * mp + 2) / 5 ≡ start
    → from_march y doy
      ≡ record { year = if leb m 2 then y + 1 else y; month = m; day = doy - start + 1 }
unfolding from_march
march_lem y doy mp m start e f g = rw (e, f, g) refl

dated :
    (y doy mp m start before size y' : ℕ)
    → (5 * doy + 2) / 153 ≡ mp
    → Month y' mp m start before size
    → (if leb m 2 then y + 1 else y) ≡ y'
    → start ≤ doy
    → doy < start + size
    → (y' - 1) * 365 + leaps (y' - 1) + before + 306 ≡ 365 * y + leaps y + start
    → Marches y doy
unfolding ordinal
dated y doy mp m start before size y' e month f l h q =
    rw (march_lem y doy mp m start e month.numbered month.starts, f, month.days_before)
      (
        record {
          month_low = month.low;
          month_high = month.high;
          day_low = omega arith;
          day_high = omega (arith, month.days);
        },
        omega arith,
      )

leap-le : (y : ℕ) → (if is_leap y then 1 else 0) ≤ 1
leap-le y = ground arith

february : (y : ℕ) → days_in_month y 2 ≡ 28 + (if is_leap y then 1 else 0)
february y = ground arith

from_spring :
    (y doy mp m start size : ℕ)
    → 1 ≤ y
    → (5 * doy + 2) / 153 ≡ mp
    → Month y mp m start (59 + start + (if is_leap y then 1 else 0)) size
    → (if leb m 2 then y + 1 else y) ≡ y
    → start ≤ doy
    → doy < start + size
    → Marches y doy
from_spring y doy mp m start size p e month f l h =
    dated y doy mp m start _ size y e month f l h (omega (arith, leaps-pred y p))

before_august : (y doy : ℕ) → 1 ≤ y → 0 ≤ doy → doy < 153 → Marches y doy
before_august y doy h l b = elim (dec_lt doy 31) [
  | yes below ↦
      from_spring y doy 0 3 0 31 h (omega arith) (ground (arith, february y)) refl (omega arith)
        (omega arith)
  | no l1 ↦ elim (dec_lt doy 61) [
    | yes below ↦
        from_spring y doy 1 4 31 30 h (omega arith) (ground (arith, february y)) refl (omega arith)
          (omega arith)
    | no l2 ↦ elim (dec_lt doy 92) [
      | yes below ↦
          from_spring y doy 2 5 61 31 h (omega arith) (ground (arith, february y)) refl
            (omega arith) (omega arith)
      | no l3 ↦ elim (dec_lt doy 122) [
        | yes below ↦
            from_spring y doy 3 6 92 30 h (omega arith) (ground (arith, february y)) refl
              (omega arith) (omega arith)
        | no l4 ↦
            from_spring y doy 4 7 122 31 h (omega arith) (ground (arith, february y)) refl
              (omega arith) (omega arith)
      ]
    ]
  ]
]

before_new_year : (y doy : ℕ) → 1 ≤ y → 153 ≤ doy → doy < 306 → Marches y doy
before_new_year y doy h l b = elim (dec_lt doy 184) [
  | yes below ↦
      from_spring y doy 5 8 153 31 h (omega arith) (ground (arith, february y)) refl (omega arith)
        (omega arith)
  | no l5 ↦ elim (dec_lt doy 214) [
    | yes below ↦
        from_spring y doy 6 9 184 30 h (omega arith) (ground (arith, february y)) refl (omega arith)
          (omega arith)
    | no l6 ↦ elim (dec_lt doy 245) [
      | yes below ↦
          from_spring y doy 7 10 214 31 h (omega arith) (ground (arith, february y)) refl
            (omega arith) (omega arith)
      | no l7 ↦ elim (dec_lt doy 275) [
        | yes below ↦
            from_spring y doy 8 11 245 30 h (omega arith) (ground (arith, february y)) refl
              (omega arith) (omega arith)
        | no l8 ↦
            from_spring y doy 9 12 275 31 h (omega arith) (ground (arith, february y)) refl
              (omega arith) (omega arith)
      ]
    ]
  ]
]

after_new_year :
    (y doy : ℕ) → 1 ≤ y → 306 ≤ doy → doy < 365 + (if is_leap (y + 1) then 1 else 0) → Marches y doy
after_new_year y doy h l b = elim (dec_lt doy 337) [
  | yes below ↦
      dated y doy 10 1 306 0 31 (y + 1) (omega arith) (ground (arith, february y)) refl
        (omega arith) (omega arith) (omega arith)
  | no l9 ↦
      dated y doy 11 2 337 31 (28 + (if is_leap (y + 1) then 1 else 0)) (y + 1)
        (omega (arith, leap-le (y + 1))) (ground (arith, february (y + 1))) refl (omega arith)
        (omega arith) (omega arith)
]

from_march-Marches :
    (y doy : ℕ) → 1 ≤ y → doy < 365 + (if is_leap (y + 1) then 1 else 0) → Marches y doy
from_march-Marches y doy h b = elim (dec_lt doy 153) [
  | yes l ↦ before_august y doy h (omega arith) l
  | no l ↦ elim (dec_lt doy 306) [
    | yes k ↦ before_new_year y doy h (omega arith) k
    | no k ↦ after_new_year y doy h (omega arith) b
  ]
]

in_era :
    (days era yoe doy n : ℕ)
    → days + 719468 ≡ era * 146097 + year_start yoe + doy
    → yoe < 400
    → 1 ≤ yoe + era * 400
    → n + 305 ≡ 365 * (yoe + era * 400) + leaps (yoe + era * 400) + doy
    → n ≡ days + 719163
in_era days era yoe doy n e h p q = omega arith

-- Each day since 1970 gets the date that the Gregorian calendar gives it: a month from 1 to 12, a
-- day that this month of this year has, and a date whose number, counted from the first of
-- January of the year 1 with its leap years, is the number of the first of January 1970 plus the
-- days since.
pub civil_from_days_lem :
    (days : ℕ) → IsValid (civil_from_days days) × (ordinal (civil_from_days days) ≡ days + 719163)
unfolding civil_from_days
civil_from_days_lem days =
    let z = days + 719468 in
    let era = z / 146097 in
    let doe = z - era * 146097 in
    let (small, starts, ends) = year_of_era_lem doe (omega arith) in
    let y = year_of_era doe + era * 400 in
    let doy = doe - year_start (year_of_era doe) in
    let (valid, number) =
      from_march-Marches y doy (omega arith) (omega (arith, leaps-pred (y + 1) (omega arith))) in
    (valid, in_era days era (year_of_era doe) doy _ (omega arith) small (omega arith) number)
