-- ===== src/Did/Date.antt =====
-- `unix_to_rfc3339` (node/src/did.rs). A `u64` of seconds is less than 2 ^ 48 days, so that the
-- `i64` of the code does not overflow and `z` is not negative: the test on its sign has gone.
pub mod Civil
pub mod Printed
use agentme.Prelude.{
  ℕ, ◌+◌, ◌-◌, ◌*◌, ◌/◌, ◌%◌, ◌∷◌, ◌++◌, [], leb, ltb, if◌then◌else◌, Text, codes, padded,
}

pub record CivilDate : Type 0 where
  pub year : ℕ
  pub month : ℕ
  pub day : ℕ

-- The year of the era (400 years from a first of March), of the day of the era.
unfoldable pub year_of_era : ℕ → ℕ
year_of_era doe = (doe - doe / 1460 + doe / 36524 - doe / 146096) / 365

-- The date of a day of the year from March on, with the year that this March is in.
unfoldable pub from_march : ℕ → ℕ → CivilDate
from_march y doy =
    let mp = (5 * doy + 2) / 153 in
    let m = if ltb mp 10 then mp + 3 else mp - 9 in
    record { year = if leb m 2 then y + 1 else y; month = m; day = doy - (153 * mp + 2) / 5 + 1 }

unfoldable pub civil_from_days : ℕ → CivilDate
civil_from_days days =
    let z = days + 719468 in
    let era = z / 146097 in
    let doe = z - era * 146097 in
    let yoe = year_of_era doe in
    from_march (yoe + era * 400) (doe - (365 * yoe + yoe / 4 - yoe / 100))

unfoldable pub unix_to_rfc3339 : ℕ → Text
unix_to_rfc3339 timestamp =
    let date = civil_from_days (timestamp / 86400) in
    let time = timestamp % 86400 in
    padded 4 date.year
    ++ b'-' ∷ padded 2 date.month
    ++ b'-' ∷ padded 2 date.day
    ++ b'T' ∷ padded 2 (time / 3600)
    ++ b':' ∷ padded 2 (time % 3600 / 60)
    ++ b':' ∷ padded 2 (time % 60)
    ++ b'Z' ∷ []
