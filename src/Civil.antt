-- ===== src/Civil.antt =====
-- The civil date of a signature in the git shim of rust/src/main.rs, from the days since 1970.
pub mod Calendar
use pipek.Prelude.{ℕ, ◌+◌, ◌-◌, ◌*◌, ◌/◌, ◌%◌, ltb, leb, if◌then◌else◌}

abbrev pub u32_mod : ℕ
u32_mod = 4294967296

pub record Date : Type 0 where
  pub day : ℕ
  pub month : ℕ
  pub year : ℕ

abbrev pub date : ℕ → ℕ → ℕ → Date
date y m d = record { day = d; month = m; year = y }

-- Subtraction of a `u32`, which wraps around.
abbrev pub sub32 : ℕ → ℕ → ℕ
sub32 a b = (a + (u32_mod - b)) % u32_mod

-- The year of the era. Below 146097 no step of it wraps.
unfoldable pub year_of_era : ℕ → ℕ
year_of_era doe = (doe - doe / 1024 + doe / 1461 - doe / 142401) / 365

-- The day of the year, from 1 March on.
unfoldable pub day_of_year : ℕ → ℕ → ℕ
day_of_year doe yoe = sub32 doe (365 * yoe + yoe / 4 - yoe / 100)

-- `z` is not negative, since the days are not. The numbers from `doy` on are of type `u32`.
unfoldable pub civil_date : ℕ → Date
civil_date days =
    let z = days + 719468 in
    let era = z / 146097 in
    let doe = z - era * 146097 in
    let yoe = year_of_era doe in
    let y = yoe + era * 400 in
    let doy = day_of_year doe yoe in
    let mp = (5 * doy + 2) % u32_mod / 153 in
    let d = (sub32 doy ((153 * mp + 2) / 5) + 1) % u32_mod in
    let m = if ltb mp 10 then mp + 3 else mp - 9 in date (if leb m 2 then y + 1 else y) m d
